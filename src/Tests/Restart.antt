-- ===== src/Tests/Restart.antt =====
-- A restarted process (transaction_log_rollback_executor.cpp) at a service with one event.
use inc_mw_com.Base.{
  ◌+◌, ◌^◌, ◌≡◌, refl, true, false, Option, none, some, [], ◌∷◌, alone, compare_exchange,
}
use inc_mw_com.ComError.{value}
use inc_mw_com.EventSubscriptionControl.{
  EventSubscriptionControl, get_subscribers_from_state, get_subscribed_samples_from_state,
  create_state, exchange_state, unsubscribe_round, unsubscribe_loop, unsubscribe,
}
use inc_mw_com.UidPidMapping.{
  status_of_code, get_status_and_uid, no_peers, empty_entry, get_status_and_uid_atomic,
  update_entry, try_update_loop, try_update_pid_for_existing_uid, register_pid,
}
use inc_mw_com.NotifyEventHandler.{asil_qm, notify_event_handler, valid_level}
use inc_mw_com.NotifyEventHandler.Registrations.{notify_outdated_node_id}
use inc_mw_com.TransactionLogRollbackExecutor.{
  EventControl, ServiceDataControl, TransactionLogRollbackExecutor, Surroundings,
  rollback_transaction_logs,
}
use inc_mw_com.TransactionLogRollbackExecutor.Recovery.{
  Left, AllTakenBack, rollback_transaction_logs_lem,
}
use inc_mw_com.Tests.{node_of, logs_of, control}
use inc_mw_com.Tests.Logs.{committed, committed-IsCommitted}

-- The process 11 of user 7 held slots 0 and 2 with a subscription for two samples.
abbrev subscribed : EventSubscriptionControl
subscribed = record {
  current_subscription_state = record { words = (2 ^ 16 + 2) ∷ []; now = 0 };
  limits = record { max_subscribable_slots = 10; max_subscribers = 3; enforce_max_samples = true };
}

abbrev left_event : EventControl
left_event = record {
  data_control = record control { transaction_log_set = logs_of committed };
  subscription_control = subscribed;
}

abbrev service : ServiceDataControl
service = record {
  event_controls = left_event ∷ [];
  uid_pid_mapping = record {
    entries = record { key_uid_status = 2 ^ 32 + 7; pid = 11 } ∷ empty_entry ∷ [];
    now = 0;
  };
}

abbrev executor : TransactionLogRollbackExecutor
executor = record { asil_level = asil_qm; provider_pid = 20; transaction_log_id = 7 }

abbrev restarted : Surroundings
restarted = record {
  service_data_control = service;
  is_prepared = false;
  pid = 12;
  messaging = notify_event_handler 4 false 12;
}

abbrev or_same :
    EventSubscriptionControl → Option EventSubscriptionControl → EventSubscriptionControl
or_same c none = c
or_same c (some c') = c'

left : Left alone alone 7 left_event
unfolding unsubscribe unsubscribe_loop unsubscribe_round exchange_state compare_exchange
    get_subscribers_from_state get_subscribed_samples_from_state create_state
left = record {
  index = 0;
  node = node_of committed;
  samples = 2;
  subscription = or_same subscribed (unsubscribe alone 2 subscribed);
  first = (refl, refl);
  committed = committed-IsCommitted;
  unsubscribed = refl;
}

found_before : (register_pid no_peers 7 12 service.uid_pid_mapping).0 ≡ some 11
unfolding register_pid try_update_pid_for_existing_uid try_update_loop get_status_and_uid_atomic
    get_status_and_uid status_of_code update_entry
found_before = refl

may_report : valid_level (notify_event_handler 4 false 12) asil_qm ≡ true
may_report = refl

rollback_transaction_logs_example :
    (p : Surroundings) × (rollback_transaction_logs alone alone no_peers executor restarted
      ≡ some (value tt, p))
    × (p.is_prepared ≡ true)
    × (notify_outdated_node_id asil_qm 11 20 restarted.messaging ≡ some p.messaging)
    × AllTakenBack alone alone 7 (left_event ∷ []) (left, tt) p.service_data_control.event_controls
rollback_transaction_logs_example =
    rollback_transaction_logs_lem alone alone no_peers executor restarted 11 (left, tt) refl
      found_before refl may_report
