-- ===== src/TransactionLogRollbackExecutor.antt =====
-- mw/com/impl/bindings/lola/transaction_log_rollback_executor.{h,cpp}: a restarted process takes back,
-- for all events of a service instance, what it held before it died. The mutex of the set of prepared
-- services makes the preparation one step.
pub mod Recovery
use inc_mw_com.Base.{
  ℕ, zero, suc, ◌+◌, ◌-◌, ◌*◌, ◌/◌, ◌%◌, ◌^◌, ◌≤◌, ◌<◌, min, max, ◌≡◌, refl, sym, ap, subst, ◌∙◌,
  ◌≢◌, ◌↔◌, ◌⊎◌, inl, inr, Bool, true, false, not, ◌&&◌, ◌||◌, Option, none, some, List, [], ◌∷◌,
  ◌++◌, map, arith, ltb, leb, ◌==◌, if◌then◌else◌, ltb→lt, ltb→ge, leb→le, leb→gt, ==→eq, ==_self,
  Bool-cases, Option-cases, length, get_elem?, get_or, set, take, drop, All, replicate,
  length-append, length-set, length-replicate, get_or-set_self, get_or-set_ne, set-set, set-get_or,
  get_elem?-set_self, get_elem?-set_ne, get_elem?-set, set_unchanged, get_elem?-append_length,
  length-map, get_elem?-map, get_elem?-replicate, ◌>>=◌, ◌>>◌, require, >>=-eq-some, some_eq,
  IfSome, IfSome-bind, IfSome-any, IfSome_eq, Interference, Words, alone, seen, load, store,
  fetch_modify, compare_exchange, Exchanged, compare_exchange_lem,
}
use inc_mw_com.ComError.{
  ComErrc, service_not_available, max_samples_reached, binding_failure, grant_enforcement_error,
  peer_is_unreachable, field_value_is_not_valid, set_handler_not_set, unset_failure,
  sample_allocation_failure, illegal_use_of_allocate, service_not_offered, communication_link_error,
  no_clients, communication_stack_error, max_sample_count_not_realizable, max_subscribers_exceeded,
  wrong_method_call_processing_mode, erroneous_file_handle, could_not_execute,
  invalid_instance_identifier_string, invalid_binding_information, event_not_existing,
  not_subscribed, invalid_configuration, invalid_meta_model_shortname,
  service_instance_already_offered, could_not_restart_proxy, not_offered,
  instance_id_could_not_be_resolved, find_service_handler_failure, invalid_handle, error_code,
  Result, value, error, ResultBlank,
}
use inc_mw_com.EventDataControl.State.{
  Counters, EventDataControl, no_counts, event_data_control, reset_performance_counters, with_words,
  log_step, event_ready, discard, slot_status, count_new_events, get_num_new_events,
  dereference_event_without_transaction_logging, dereference_event, remove_allocations_loop,
  remove_allocations_for_writing,
}
use inc_mw_com.EventSubscriptionControl.{
  SubscribeResult, success, max_subscribers_overflow, slot_overflow, update_retry_failure, Limits,
  EventSubscriptionControl, event_subscription_control, get_subscribers_from_state,
  get_subscribed_samples_from_state, create_state, with_state, after_round, exchange_state,
  subscribe_round, subscribe_loop, subscribe, unsubscribe_round, unsubscribe_loop, unsubscribe,
}
use inc_mw_com.TransactionLogSet.{
  TransactionLogNode, TransactionLogSet, skeleton_index_sentinel, transaction_log_node, reset,
  transaction_log_set, to_be_rolled_back, find_transaction_log_indices_to_be_rolled_back,
  find_next_available_slot_index, mark_node, mark_transaction_logs_need_rollback, put_node,
  after_rollback, rollback_indices, rollback_proxy_transactions, after_tracing_rollback,
  rollback_skeleton_tracing_transactions, activate, register_proxy_element,
  register_skeleton_tracing_element, is_skeleton_element_transaction_log_index, unregister,
  with_transaction_log,
}
use inc_mw_com.UidPidMapping.{
  MappingEntryStatus, unused, used, updating, invalid, status_code, status_of_code,
  UidPidMappingEntry, create_key, get_status_and_uid, Table, Peers, no_peers, UidPidMapping,
  empty_entry, uid_pid_mapping, max_retries, or_go_on, seen_table, entry_at, write,
  get_status_and_uid_atomic, set_status_and_uid_atomic, set_pid, update_entry, try_update_loop,
  try_update_pid_for_existing_uid, exchange_key, claim, claim_entry, claim_loop, retry_loop,
  register_pid,
}
use inc_mw_com.NotifyEventHandler.{
  QualityType, invalid_quality, asil_qm, asil_b, RegisteredNotificationHandler, NodeCounter,
  Handlers, Nodes, EventNotificationControlData, Action, sent, posted, called, sender_removed,
  NotifyEventHandler, Handler, no_control_data, notify_event_handler, valid_level, control_data,
  with_control_data, act, or_else, found, ids_from, copy_loop, buffer_size, copy_node_identifiers,
  send_round, targets_loop, update_message, notify_event_remote, post_update, notify_event,
  upper_bound, Meanwhile, remaining_loop, handlers_called, notify_event_locally,
}
use inc_mw_com.NotifyEventHandler.Registrations.{
  send_register_event_notification_message, count_remote, count_up,
  register_event_notification_remote, with_handlers, add_handler, register_event_notification,
  reregister_at, reregister_event_notification, erase_handler, search_in,
  search_handler_for_notification, count_down, unregister_at, unregister_event_notification_remote,
  unregister_event_notification, notify_outdated_node_id,
}

pub record EventControl : Type 0 where
  pub data_control : EventDataControl
  pub subscription_control : EventSubscriptionControl

-- The events in the order in which the map gives them.
pub record ServiceDataControl : Type 0 where
  pub event_controls : List EventControl
  pub uid_pid_mapping : UidPidMapping

pub record TransactionLogRollbackExecutor : Type 0 where
  pub asil_level : QualityType
  pub provider_pid : ℕ
  pub transaction_log_id : ℕ

-- What the executor works on: the shared memory of the service, and of its own process whether the
-- service is in the set of prepared ones, the pid, and the messaging.
pub record Surroundings : Type 0 where
  pub service_data_control : ServiceDataControl
  pub is_prepared : Bool
  pub pid : ℕ
  pub messaging : NotifyEventHandler

abbrev pub mark_event : ℕ → EventControl → EventControl
mark_event id e = record e {
  data_control = record e.data_control {
    transaction_log_set = mark_transaction_logs_need_rollback id e.data_control.transaction_log_set;
  };
}

module _ (peers : Peers) where
  -- A process of the same user that ran before is reported to the provider of the service.
  abbrev pub report_outdated :
      TransactionLogRollbackExecutor → ℕ → Surroundings → Option NotifyEventHandler
  report_outdated x previous_pid p =
      if previous_pid == p.pid
      then some p.messaging
      else notify_outdated_node_id x.asil_level previous_pid x.provider_pid p.messaging

  unfoldable pub prepare_rollback :
      TransactionLogRollbackExecutor → Surroundings → Option Surroundings
  prepare_rollback x p =
      let s = p.service_data_control in
      let (found_pid, mapping) = register_pid peers x.transaction_log_id p.pid s.uid_pid_mapping in
      if p.is_prepared then some p else (do
        previous_pid ← found_pid
        messaging ← report_outdated x previous_pid p
        some (record {
          service_data_control = record {
            event_controls = map (mark_event x.transaction_log_id) s.event_controls;
            uid_pid_mapping = mapping;
          };
          is_prepared = true;
          pid = p.pid;
          messaging = messaging;
        }))

module _ (env env_s : Interference) where
  -- The two callbacks, on the slots and the subscription of an event.
  abbrev pub dereference_callback :
      ℕ
      → EventDataControl × EventSubscriptionControl
      → Option (EventDataControl × EventSubscriptionControl)
  dereference_callback slot_index (c, s) =
      some (dereference_event_without_transaction_logging env slot_index c, s)

  abbrev pub unsubscribe_callback :
      ℕ
      → EventDataControl × EventSubscriptionControl
      → Option (EventDataControl × EventSubscriptionControl)
  unsubscribe_callback max_sample_count (c, s) = do
    s' ← unsubscribe env_s max_sample_count s
    some (c, s')

  unfoldable pub rollback_event : ℕ → EventControl → Option (ResultBlank × EventControl)
  rollback_event id e = do
    (result, logs, state) ←
        rollback_proxy_transactions dereference_callback unsubscribe_callback id
          e.data_control.transaction_log_set (e.data_control, e.subscription_control)
    some (
      result,
      record {
        data_control = record state.0 { transaction_log_set = logs };
        subscription_control = state.1;
      },
    )

  -- The first event that cannot be rolled back ends the loop.
  abbrev pub after_event :
      Option (ResultBlank × List EventControl)
      → List EventControl
      → ResultBlank × EventControl
      → Option (ResultBlank × List EventControl)
  after_event later events (value _, e) = do (result, later') ← later; some (result, e ∷ later')
  after_event later events (error c, e) = some (error c, e ∷ events)

  unfoldable pub rollback_events : ℕ → List EventControl → Option (ResultBlank × List EventControl)
  unfolding rollback_event
  rollback_events id [] = some (value tt, [])
  rollback_events id (e ∷ events) = do
    r ← rollback_event id e
    after_event (rollback_events id events) events r

  unfoldable pub rollback_transaction_logs :
      Peers → TransactionLogRollbackExecutor → Surroundings → Option (ResultBlank × Surroundings)
  unfolding prepare_rollback rollback_events
  rollback_transaction_logs peers x p = do
    p' ← prepare_rollback peers x p
    (result, events) ← rollback_events x.transaction_log_id p'.service_data_control.event_controls
    some (
      result,
      record p' {
        service_data_control = record p'.service_data_control { event_controls = events };
      },
    )
