-- ===== src/SubscriptionStateMachine/Moves.antt =====
-- subscription_state_machine.cpp: TransitionToState, with what the states do when they are entered.
use inc_mw_com.Base.{ℕ, Option, some, List, ◌>>=◌, Interference}
use inc_mw_com.TransactionLog.{unsubscribe_transaction_begin, unsubscribe_transaction_commit}
use inc_mw_com.EventSubscriptionControl.{unsubscribe}
use inc_mw_com.EventReceiveHandlers.{MessagingCall, unregister_handler}
use inc_mw_com.SubscriptionStateMachine.Data.{
  SubscriptionStateMachineState, not_subscribed_state, subscription_pending_state, subscribed_state,
  SubscriptionStateMachine, with_subscriptions, on_log, reset_guard, clear,
}

module _ (env : Interference) (number_of : List MessagingCall → ℕ) where
  -- NotSubscribedState::OnEntry; the other states do nothing when they are entered.
  unfoldable pub on_entry :
      SubscriptionStateMachineState → SubscriptionStateMachine → Option SubscriptionStateMachine
  on_entry not_subscribed_state m = do
    index ← m.transaction_log_registration_guard
    m ← on_log index unsubscribe_transaction_begin m
    max_sample_count ← m.max_sample_count
    s ← unsubscribe env max_sample_count m.event_control.subscription_control
    m ← on_log index unsubscribe_transaction_commit (with_subscriptions m s)
    let h = unregister_handler m.handler_manager.registration_number m.handler_manager
    reset_guard m.transaction_log_registration_guard (clear (record m { handler_manager = h }))
  on_entry subscription_pending_state m = some m
  on_entry subscribed_state m = some m

  -- No state does anything when it is left.
  unfoldable pub transition_to_state :
      SubscriptionStateMachineState → SubscriptionStateMachine → Option SubscriptionStateMachine
  unfolding on_entry
  transition_to_state new_state m = on_entry new_state (record m { current_state = new_state })
