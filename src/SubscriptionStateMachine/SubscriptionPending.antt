-- ===== src/SubscriptionStateMachine/SubscriptionPending.antt =====
-- subscription_subscription_pending_states.cpp. A failed assertion or std::terminate is `none`.
use inc_mw_com.Base.{
  ℕ, ◌%◌, ◌^◌, true, Option, none, some, List, ◌==◌, if◌then◌else◌, ◌>>=◌, Interference,
}
use inc_mw_com.ComError.{max_sample_count_not_realizable, value, error, ResultBlank}
use inc_mw_com.EventReceiveHandlers.{MessagingCall, reregister_handler, update_pid}
use inc_mw_com.SubscriptionStateMachine.Data.{
  not_subscribed_state, subscribed_state, SlotCollector, SubscriptionStateMachine,
}
use inc_mw_com.SubscriptionStateMachine.Moves.{transition_to_state}

-- The count is compared with 8 bits of the one that is asked for.
abbrev pub subscribe_event :
    ℕ → SubscriptionStateMachine → Option (ResultBlank × SubscriptionStateMachine)
subscribe_event n m = do
  count ← m.max_sample_count
  some (if count == n % 2 ^ 8 then value tt else error max_sample_count_not_realizable, m)

abbrev pub stop_offer_event : SubscriptionStateMachine → Option SubscriptionStateMachine
stop_offer_event m = none

abbrev pub set_receive_handler : ℕ → SubscriptionStateMachine → SubscriptionStateMachine
set_receive_handler handler m = record m { event_receiver_handler = some handler }

abbrev pub unset_receive_handler : SubscriptionStateMachine → SubscriptionStateMachine
unset_receive_handler m = record m { event_receiver_handler = none }

abbrev pub get_max_sample_count : SubscriptionStateMachine → Option (Option ℕ)
get_max_sample_count m = do n ← m.max_sample_count; some (some n)

abbrev pub get_slot_collector : SubscriptionStateMachine → Option (Option SlotCollector)
get_slot_collector m = do n ← m.max_sample_count; some m.slot_collector

abbrev pub get_transaction_log_index : SubscriptionStateMachine → Option (Option ℕ)
get_transaction_log_index m = do index ← m.transaction_log_registration_guard; some (some index)

module _ (env : Interference) (number_of : List MessagingCall → ℕ) where
  abbrev pub unsubscribe_event : SubscriptionStateMachine → Option SubscriptionStateMachine
  unsubscribe_event m = transition_to_state env number_of not_subscribed_state m

  abbrev pub re_offer_event : ℕ → SubscriptionStateMachine → Option SubscriptionStateMachine
  re_offer_event pid m = transition_to_state env number_of subscribed_state (record m {
    provider_service_instance_is_available = true;
    handler_manager =
        reregister_handler number_of m.event_receiver_handler (update_pid pid m.handler_manager);
    event_receiver_handler = none;
  })
