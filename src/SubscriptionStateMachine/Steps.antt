-- ===== src/SubscriptionStateMachine/Steps.antt =====
-- subscription_state_machine.cpp: each call is handed to the current state, the first argument.
use inc_mw_com.Base.{ℕ, Option, List, Interference}
use inc_mw_com.ComError.{ResultBlank}
use inc_mw_com.EventReceiveHandlers.{MessagingCall}
use inc_mw_com.SubscriptionStateMachine.Data.{
  SubscriptionStateMachineState, not_subscribed_state, subscription_pending_state, subscribed_state,
  SlotCollector, SubscriptionStateMachine,
}
use inc_mw_com.SubscriptionStateMachine.NotSubscribed
use inc_mw_com.SubscriptionStateMachine.SubscriptionPending
use inc_mw_com.SubscriptionStateMachine.Subscribed

unfoldable pub get_max_sample_count :
    SubscriptionStateMachineState → SubscriptionStateMachine → Option (Option ℕ)
get_max_sample_count not_subscribed_state m = NotSubscribed.get_max_sample_count m
get_max_sample_count subscription_pending_state m = SubscriptionPending.get_max_sample_count m
get_max_sample_count subscribed_state m = Subscribed.get_max_sample_count m

unfoldable pub get_slot_collector :
    SubscriptionStateMachineState → SubscriptionStateMachine → Option (Option SlotCollector)
get_slot_collector not_subscribed_state m = NotSubscribed.get_slot_collector m
get_slot_collector subscription_pending_state m = SubscriptionPending.get_slot_collector m
get_slot_collector subscribed_state m = Subscribed.get_slot_collector m

unfoldable pub get_transaction_log_index :
    SubscriptionStateMachineState → SubscriptionStateMachine → Option (Option ℕ)
get_transaction_log_index not_subscribed_state m = NotSubscribed.get_transaction_log_index m
get_transaction_log_index subscription_pending_state m =
    SubscriptionPending.get_transaction_log_index m
get_transaction_log_index subscribed_state m = Subscribed.get_transaction_log_index m

module _ (env : Interference) (number_of : List MessagingCall → ℕ) where
  unfoldable pub subscribe_event :
      SubscriptionStateMachineState
      → ℕ
      → SubscriptionStateMachine
      → Option (ResultBlank × SubscriptionStateMachine)
  subscribe_event not_subscribed_state n m = NotSubscribed.subscribe_event env number_of n m
  subscribe_event subscription_pending_state n m = SubscriptionPending.subscribe_event n m
  subscribe_event subscribed_state n m = Subscribed.subscribe_event n m

  unfoldable pub unsubscribe_event :
      SubscriptionStateMachineState → SubscriptionStateMachine → Option SubscriptionStateMachine
  unsubscribe_event not_subscribed_state m = NotSubscribed.unsubscribe_event m
  unsubscribe_event subscription_pending_state m =
      SubscriptionPending.unsubscribe_event env number_of m
  unsubscribe_event subscribed_state m = Subscribed.unsubscribe_event env number_of m

  unfoldable pub stop_offer_event :
      SubscriptionStateMachineState → SubscriptionStateMachine → Option SubscriptionStateMachine
  stop_offer_event not_subscribed_state m = NotSubscribed.stop_offer_event m
  stop_offer_event subscription_pending_state m = SubscriptionPending.stop_offer_event m
  stop_offer_event subscribed_state m = Subscribed.stop_offer_event env number_of m

  unfoldable pub re_offer_event :
      SubscriptionStateMachineState → ℕ → SubscriptionStateMachine → Option SubscriptionStateMachine
  re_offer_event not_subscribed_state pid m = NotSubscribed.re_offer_event pid m
  re_offer_event subscription_pending_state pid m =
      SubscriptionPending.re_offer_event env number_of pid m
  re_offer_event subscribed_state pid m = Subscribed.re_offer_event pid m

  unfoldable pub set_receive_handler :
      SubscriptionStateMachineState → ℕ → SubscriptionStateMachine → SubscriptionStateMachine
  set_receive_handler not_subscribed_state handler m = NotSubscribed.set_receive_handler handler m
  set_receive_handler subscription_pending_state handler m =
      SubscriptionPending.set_receive_handler handler m
  set_receive_handler subscribed_state handler m =
      Subscribed.set_receive_handler env number_of handler m

  unfoldable pub unset_receive_handler :
      SubscriptionStateMachineState → SubscriptionStateMachine → SubscriptionStateMachine
  unset_receive_handler not_subscribed_state m = NotSubscribed.unset_receive_handler m
  unset_receive_handler subscription_pending_state m = SubscriptionPending.unset_receive_handler m
  unset_receive_handler subscribed_state m = Subscribed.unset_receive_handler m
