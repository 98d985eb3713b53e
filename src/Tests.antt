-- ===== src/Tests.antt =====
-- Tests and concrete instances of the theorems, and the data that they share.
mod Slots
mod Logs
mod Subscriptions
mod Processes
mod Collector
mod Composite
mod StateMachine
mod Notifications
mod Sending
mod Trackers
mod Restart
use inc_mw_com.Base.{
  ℕ, zero, suc, ◌+◌, ◌-◌, ◌*◌, ◌/◌, ◌%◌, ◌^◌, ◌≤◌, ◌<◌, min, max, ◌≡◌, refl, sym, ap, subst, ◌∙◌,
  ◌≢◌, ◌↔◌, ◌⊎◌, inl, inr, Bool, true, false, not, ◌&&◌, ◌||◌, Option, none, some, List, [], ◌∷◌,
  ◌++◌, map, arith, ltb, leb, ◌==◌, if◌then◌else◌, ltb→lt, ltb→ge, leb→le, leb→gt, ==→eq, ==_self,
  Bool-cases, Option-cases, length, get_elem?, get_or, set, replicate, length-append, length-set,
  length-replicate, get_or-set_self, get_or-set_ne, set-set, set-get_or, get_elem?-set_self,
  get_elem?-set_ne, get_elem?-set, set_unchanged, get_elem?-append_length, length-map,
  get_elem?-map, get_elem?-replicate, ◌>>=◌, ◌>>◌, require, >>=-eq-some, some_eq, Interference,
  Words, alone, seen, load, store, fetch_modify, compare_exchange, Exchanged, compare_exchange_lem,
}
use inc_mw_com.TransactionLog.{
  TransactionLogSlot, TransactionLog, new_slot, transaction_log, has_transaction,
  does_log_contain_increment_or_decrement_transactions, contains_transactions, require_slot,
  subscribe_transaction_begin, subscribe_transaction_commit, subscribe_transaction_abort,
  unsubscribe_transaction_begin, unsubscribe_transaction_commit, put_slot,
  reference_transaction_begin, reference_transaction_commit, reference_transaction_abort,
  dereference_transaction_begin, dereference_transaction_commit, and_then, rollback_slot,
  rollback_loop, rollback_increment_transactions, rollback_subscription,
  rollback_subscribe_transactions, rollback_proxy_element_log,
  rollback_skeleton_tracing_element_log,
}
use inc_mw_com.TransactionLogSet.{
  TransactionLogNode, TransactionLogSet, skeleton_index_sentinel, transaction_log_node, reset,
  transaction_log_set, to_be_rolled_back, find_transaction_log_indices_to_be_rolled_back,
  find_next_available_slot_index, mark_node, mark_transaction_logs_need_rollback, put_node,
  after_rollback, rollback_indices, rollback_proxy_transactions, after_tracing_rollback,
  rollback_skeleton_tracing_transactions, activate, register_proxy_element,
  register_skeleton_tracing_element, is_skeleton_element_transaction_log_index, unregister,
  with_transaction_log,
}
use inc_mw_com.EventDataControl.State.{
  Counters, EventDataControl, no_counts, event_data_control, reset_performance_counters, with_words,
  log_step, event_ready, discard, slot_status, count_new_events, get_num_new_events,
  dereference_event_without_transaction_logging, dereference_event, remove_allocations_loop,
  remove_allocations_for_writing,
}

pub meddling_length :
    (b : Bool) (ws : List ℕ) → length (if b then set ws 0 (get_or ws 0 0 + 1) else ws) ≡ length ws
meddling_length true ws = length-set ws 0 _
meddling_length false ws = refl

-- Another process references slot 0 before the second access; the fourth exchange fails idly.
abbrev pub meddling : Interference
meddling = record {
  others = λ n ws. if n == 1 then set ws 0 (get_or ws 0 0 + 1) else ws;
  spurious = λ n. n == 3;
  others_length = λ n ws. meddling_length (n == 1) ws;
}

-- An empty log for three slots, and its node registered by the process 7.
abbrev pub empty_log : TransactionLog
empty_log = record {
  reference_count_slots = new_slot ∷ new_slot ∷ new_slot ∷ [];
  subscribe_transactions = new_slot;
  subscription_max_sample_count = none;
}

abbrev pub node_of : TransactionLog → TransactionLogNode
node_of log = record {
  is_active = true;
  needs_rollback = false;
  transaction_log_id = 7;
  transaction_log = log;
}

abbrev pub idle_node : TransactionLogNode
idle_node = record {
  is_active = false;
  needs_rollback = false;
  transaction_log_id = 0;
  transaction_log = empty_log;
}

abbrev pub logs_of : TransactionLog → TransactionLogSet
logs_of log = record {
  proxy_transaction_logs = node_of log ∷ idle_node ∷ [];
  skeleton_tracing_transaction_log = idle_node;
}

-- Time stamps 5 and 4 without references, and one slot in writing.
abbrev pub three_slots : List ℕ
three_slots = (5 * 2 ^ 32) ∷ (4 * 2 ^ 32) ∷ (2 ^ 32 - 1) ∷ []

abbrev pub control : EventDataControl
control = record {
  state_slots = record { words = three_slots; now = 0 };
  transaction_log_set = logs_of empty_log;
  counters = no_counts;
}
