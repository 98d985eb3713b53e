-- ===== src/Tests/StateMachine.antt =====
-- A proxy's subscription (subscription_state_machine.cpp) on concrete data.
use inc_mw_com.Base.{
  ℕ, ◌+◌, ◌^◌, ◌≤◌, ◌≡◌, refl, ◌⊎◌, Bool, true, false, none, some, List, [], ◌∷◌, arith, length,
  alone, compare_exchange,
}
use inc_mw_com.ComError.{max_sample_count_not_realizable, value, error}
use inc_mw_com.TransactionLog.{
  TransactionLog, does_log_contain_increment_or_decrement_transactions, contains_transactions,
  subscribe_transaction_begin, subscribe_transaction_commit,
}
use inc_mw_com.TransactionLogSet.{
  TransactionLogSet, find_next_available_slot_index, register_proxy_element, with_transaction_log,
}
use inc_mw_com.EventSubscriptionControl.{
  EventSubscriptionControl, get_subscribers_from_state, get_subscribed_samples_from_state,
  create_state, exchange_state, subscribe_round, subscribe_loop, subscribe,
}
use inc_mw_com.EventReceiveHandlers.{MessagingCall, event_receive_handler_manager}
use inc_mw_com.SubscriptionStateMachine.Moves.{on_entry, transition_to_state}
use inc_mw_com.SubscriptionStateMachine.NotSubscribed.{register_waiting}
use inc_mw_com.SubscriptionStateMachine.Data.{
  SubscriptionStateMachineState, subscription_pending_state, subscribed_state, EventControl,
  SubscriptionStateMachine, subscription_state_machine, on_log, create_guard,
}
use inc_mw_com.SubscriptionStateMachine.Steps.{
  get_max_sample_count, get_slot_collector, get_transaction_log_index, subscribe_event,
}
use inc_mw_com.SubscriptionStateMachine.Transitions.{IsSound}
use inc_mw_com.SubscriptionStateMachine.Calls.{
  subscribes, run, run-IsSound, getters_lem, subscribe_event_again,
}
use inc_mw_com.Tests.{empty_log, node_of, logs_of, control}

-- The message passing numbers registrations by the calls before.
abbrev number_of : List MessagingCall → ℕ
number_of calls = length calls

-- The subscription word and the accesses so far.
abbrev subscriptions : ℕ → ℕ → EventSubscriptionControl
subscriptions word now = record {
  current_subscription_state = record { words = word ∷ []; now = now };
  limits = record {
    max_subscribable_slots = 1000;
    max_subscribers = 3;
    enforce_max_samples = true;
  };
}

abbrev event_control : EventControl
event_control = record { data_control = control; subscription_control = subscriptions 0 0 }

-- Process 9 has the second log, and has subscribed with `n` samples.
abbrev subscribed_log : ℕ → TransactionLog
subscribed_log n = record empty_log {
  subscribe_transactions = record { transaction_begin = true; transaction_end = true };
  subscription_max_sample_count = some n;
}

abbrev subscribed_logs : ℕ → TransactionLogSet
subscribed_logs n = record (logs_of empty_log) {
  proxy_transaction_logs =
      node_of empty_log ∷ record (node_of (subscribed_log n)) { transaction_log_id = 9 } ∷ [];
}

abbrev subscribed_machine : SubscriptionStateMachineState → Bool → ℕ → SubscriptionStateMachine
subscribed_machine state available n = record (subscription_state_machine 77 event_control 9) {
  current_state = state;
  provider_service_instance_is_available = available;
  max_sample_count = some n;
  slot_collector = some (record { max_slots = n; transaction_log_index = 1 });
  transaction_log_registration_guard = some 1;
  event_control = record {
    data_control = record control { transaction_log_set = subscribed_logs n };
    subscription_control = subscriptions (2 ^ 16 + n) 2;
  };
}

subscribes_300 :
    run alone number_of (subscribes 300 ∷ []) (subscription_state_machine 77 event_control 9)
    ≡ some (subscribed_machine subscribed_state true 300)
unfolding run subscription_state_machine subscribe_event create_guard register_proxy_element
    find_next_available_slot_index contains_transactions event_receive_handler_manager
    does_log_contain_increment_or_decrement_transactions on_log with_transaction_log
    subscribe_transaction_begin subscribe_transaction_commit subscribe subscribe_loop
    subscribe_round exchange_state compare_exchange create_state get_subscribers_from_state
    get_subscribed_samples_from_state register_waiting transition_to_state on_entry
subscribes_300 = refl

run-IsSound_example : IsSound (subscribed_machine subscribed_state true 300)
run-IsSound_example =
    run-IsSound alone number_of (subscribes 300 ∷ []) 77 9 event_control
      (subscribed_machine subscribed_state true 300) subscribes_300

getters_example :
    (get_transaction_log_index subscribed_state (subscribed_machine subscribed_state true 0)
      ≡ some (some 1))
    × (get_slot_collector subscribed_state (subscribed_machine subscribed_state true 0)
        ≡ some (some (record { max_slots = 0; transaction_log_index = 1 })))
    × ((get_max_sample_count subscribed_state (subscribed_machine subscribed_state true 0)
          ≡ some (some 0))
        ⊎ ((subscribed_state ≡ subscribed_state)
            × ((subscribed_machine subscribed_state true 0).max_sample_count ≡ some 0)
            × (get_max_sample_count subscribed_state (subscribed_machine subscribed_state true 0)
                ≡ none)))
getters_example =
    getters_lem (subscribed_machine subscribed_state true 0)
      (refl, (0, 0, 1, omega arith, refl, refl, refl))

subscribe_event_again_example :
    (subscribe_event alone number_of subscription_pending_state 300
        (subscribed_machine subscription_pending_state false 300)
      ≡ some (value tt, subscribed_machine subscription_pending_state false 300))
    ⊎ ((subscription_pending_state ≡ subscription_pending_state)
        × (2 ^ 8 ≤ 300)
        × (subscribe_event alone number_of subscription_pending_state 300
              (subscribed_machine subscription_pending_state false 300)
            ≡ some (
              error max_sample_count_not_realizable,
              subscribed_machine subscription_pending_state false 300,
            )))
subscribe_event_again_example =
    subscribe_event_again alone number_of 300
      (subscribed_machine subscription_pending_state false 300)
      (refl, (300, 300, 1, omega arith, refl, refl, refl)) refl
