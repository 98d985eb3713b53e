-- ===== src/SubscriptionStateMachine/NotSubscribed.antt =====
-- subscription_not_subscribed_states.cpp. In the getters the outer `none` is a failed assertion.
use inc_mw_com.Base.{ℕ, ◌%◌, ◌^◌, Bool, true, false, Option, none, some, List, ◌>>=◌, Interference}
use inc_mw_com.ComError.{
  max_sample_count_not_realizable, max_subscribers_exceeded, Result, value, error, ResultBlank,
}
use inc_mw_com.TransactionLog.{
  subscribe_transaction_begin, subscribe_transaction_commit, subscribe_transaction_abort,
}
use inc_mw_com.EventSubscriptionControl.{
  SubscribeResult, success, max_subscribers_overflow, EventSubscriptionControl, subscribe,
}
use inc_mw_com.EventReceiveHandlers.{MessagingCall, register_handler, update_pid}
use inc_mw_com.SubscriptionStateMachine.Data.{
  SubscriptionStateMachineState, subscription_pending_state, subscribed_state, SlotCollector,
  SubscriptionStateMachine, with_subscriptions, on_log, create_guard, reset_guard,
}
use inc_mw_com.SubscriptionStateMachine.Moves.{transition_to_state}

module _ (env : Interference) (number_of : List MessagingCall → ℕ) where
  -- A handler set before is registered now.
  unfoldable pub register_waiting : Option ℕ → SubscriptionStateMachine → SubscriptionStateMachine
  register_waiting none m = m
  register_waiting (some handler) m = record m {
    handler_manager = register_handler number_of handler m.handler_manager;
    event_receiver_handler = none;
  }

  abbrev pub offered_state : Bool → SubscriptionStateMachineState
  offered_state true = subscribed_state
  offered_state false = subscription_pending_state

  abbrev pub after_subscribe :
      ℕ
      → ℕ
      → SubscriptionStateMachine
      → SubscribeResult × EventSubscriptionControl
      → Option (ResultBlank × SubscriptionStateMachine)
  after_subscribe n index m (success, s) = do
    m ← on_log index subscribe_transaction_commit (with_subscriptions m s)
    let m' = record (register_waiting m.event_receiver_handler m) {
      slot_collector = some (record { max_slots = n; transaction_log_index = index });
      max_sample_count = some (n % 2 ^ 16);
    }
    m ←
        transition_to_state env number_of (offered_state m'.provider_service_instance_is_available)
          m'
    some (value tt, m)
  after_subscribe n index m (max_subscribers_overflow, s) = none
  after_subscribe n index m (_, s) = do
    m ← on_log index subscribe_transaction_abort (with_subscriptions m s)
    m ← reset_guard m.transaction_log_registration_guard m
    some (error max_sample_count_not_realizable, m)

  abbrev pub after_create :
      ℕ → Result ℕ × SubscriptionStateMachine → Option (ResultBlank × SubscriptionStateMachine)
  after_create n (error e, m) = some (error max_subscribers_exceeded, m)
  after_create n (value index, m) = do
    m ←
        on_log index (subscribe_transaction_begin n)
          (record m { transaction_log_registration_guard = some index })
    after_subscribe n index m (subscribe env (n % 2 ^ 16) m.event_control.subscription_control)

  abbrev pub subscribe_event :
      ℕ → SubscriptionStateMachine → Option (ResultBlank × SubscriptionStateMachine)
  subscribe_event n m = do r ← create_guard m; after_create n r

abbrev pub unsubscribe_event : SubscriptionStateMachine → Option SubscriptionStateMachine
unsubscribe_event m = some m

abbrev pub stop_offer_event : SubscriptionStateMachine → Option SubscriptionStateMachine
stop_offer_event m = some (record m { provider_service_instance_is_available = false })

abbrev pub re_offer_event : ℕ → SubscriptionStateMachine → Option SubscriptionStateMachine
re_offer_event pid m = some (record m {
  handler_manager = update_pid pid m.handler_manager;
  provider_service_instance_is_available = true;
})

abbrev pub set_receive_handler : ℕ → SubscriptionStateMachine → SubscriptionStateMachine
set_receive_handler handler m = record m { event_receiver_handler = some handler }

abbrev pub unset_receive_handler : SubscriptionStateMachine → SubscriptionStateMachine
unset_receive_handler m = record m { event_receiver_handler = none }

abbrev pub get_max_sample_count : SubscriptionStateMachine → Option (Option ℕ)
get_max_sample_count m = elim m.max_sample_count [ none ↦ some none | some n ↦ none ]

abbrev pub get_slot_collector : SubscriptionStateMachine → Option (Option SlotCollector)
get_slot_collector m = elim m.slot_collector [ none ↦ some none | some collector ↦ none ]

abbrev pub get_transaction_log_index : SubscriptionStateMachine → Option (Option ℕ)
get_transaction_log_index m = elim m.transaction_log_registration_guard [
  | none ↦ some none
  | some index ↦ none
]
