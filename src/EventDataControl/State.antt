-- ===== src/EventDataControl/State.antt =====
-- event_data_control.{h,cpp}: the state, and the operations on a slot that a process owns.
use inc_mw_com.Base.{
  ℕ, zero, suc, ◌+◌, ◌-◌, ◌%◌, ◌^◌, true, Option, none, some, if◌then◌else◌, length, replicate,
  ◌>>=◌, Interference, Words, load, store, fetch_modify, compare_exchange,
}
use inc_mw_com.EventSlotStatus.{
  timestamp_max, invalid, is_in_writing, event_slot_status, is_time_stamp_between,
}
use inc_mw_com.TransactionLog.{
  TransactionLog, dereference_transaction_begin, dereference_transaction_commit,
}
use inc_mw_com.TransactionLogSet.{TransactionLogSet, transaction_log_set, with_transaction_log}

-- The four static performance counters, of 64 bits.
pub record Counters : Type 0 where
  pub num_alloc_misses : ℕ
  pub num_ref_misses : ℕ
  pub num_alloc_retries : ℕ
  pub num_ref_retries : ℕ

pub record EventDataControl : Type 0 where
  pub state_slots : Words
  pub transaction_log_set : TransactionLogSet
  pub counters : Counters

abbrev pub no_counts : Counters
no_counts = record {
  num_alloc_misses = 0;
  num_ref_misses = 0;
  num_alloc_retries = 0;
  num_ref_retries = 0;
}

-- DynamicArray makes its atomics zero, which is INVALID.
unfoldable pub event_data_control : ℕ → ℕ → Option EventDataControl
unfolding transaction_log_set
event_data_control max_slots max_number_combined_subscribers = do
  logs ← transaction_log_set max_number_combined_subscribers max_slots
  some (record {
    state_slots = record { words = replicate max_slots invalid; now = 0 };
    transaction_log_set = logs;
    counters = no_counts;
  })

unfoldable pub reset_performance_counters : EventDataControl → EventDataControl
reset_performance_counters c = record c { counters = no_counts }

abbrev pub with_words : EventDataControl → Words → EventDataControl
with_words c w = record c { state_slots = w }

-- A step on the log with the given index, if it is registered.
abbrev pub log_step :
    ℕ → (TransactionLog → Option TransactionLog) → EventDataControl → Option EventDataControl
log_step index step c = do
  logs ← with_transaction_log index step c.transaction_log_set
  some (record c { transaction_log_set = logs })

module _ (env : Interference) where
  unfoldable pub event_ready : ℕ → ℕ → EventDataControl → EventDataControl
  unfolding event_slot_status
  event_ready slot_index time_stamp c =
      with_words c (store env slot_index (event_slot_status time_stamp 0) c.state_slots)

  unfoldable pub discard : ℕ → EventDataControl → EventDataControl
  unfolding is_in_writing
  discard slot_index c =
      let (slot, w) = load env slot_index c.state_slots in
      if is_in_writing slot then with_words c (store env slot_index invalid w) else with_words c w

  -- operator[]
  unfoldable pub slot_status : ℕ → EventDataControl → ℕ × EventDataControl
  slot_status slot_index c =
      let (slot, w) = load env slot_index c.state_slots in (slot, with_words c w)

  -- The loop over the slots from `i` on, `n` of them.
  unfoldable pub count_new_events : ℕ → ℕ → ℕ → Words → ℕ × Words
  unfolding is_time_stamp_between
  count_new_events zero i reference_time w = (0, w)
  count_new_events (suc n) i reference_time w =
      let (slot, w₁) = load env i w in
      let (result, w₂) = count_new_events n (i + 1) reference_time w₁ in
      (if is_time_stamp_between slot reference_time timestamp_max then result + 1 else result, w₂)

  unfoldable pub get_num_new_events : ℕ → EventDataControl → ℕ × EventDataControl
  unfolding count_new_events
  get_num_new_events reference_time c =
      let (result, w) =
        count_new_events (length c.state_slots.words) 0 reference_time c.state_slots in
      (result, with_words c w)

  -- fetch_sub on 64 bits
  unfoldable pub dereference_event_without_transaction_logging :
      ℕ → EventDataControl → EventDataControl
  dereference_event_without_transaction_logging slot_index c =
      with_words c (fetch_modify env slot_index (λ v. (v + 2 ^ 64 - 1) % 2 ^ 64) c.state_slots)

  unfoldable pub dereference_event : ℕ → ℕ → EventDataControl → Option EventDataControl
  unfolding dereference_event_without_transaction_logging
  dereference_event slot_index log_index c = do
    c ← log_step log_index (dereference_transaction_begin slot_index) c
    let c' = dereference_event_without_transaction_logging slot_index c
    log_step log_index (dereference_transaction_commit slot_index) c'

  -- A slot in writing is made invalid; that another process changes it meanwhile ends the process.
  unfoldable pub remove_allocations_loop : ℕ → ℕ → Words → Option Words
  unfolding is_in_writing compare_exchange
  remove_allocations_loop zero i w = some w
  remove_allocations_loop (suc n) i w =
      let (slot, w₁) = load env i w in
      let (done, w₂) = compare_exchange env true i slot invalid w₁ in
      let unchanged = remove_allocations_loop n (i + 1) w₁ in
      let removed = remove_allocations_loop n (i + 1) w₂ in
      if is_in_writing slot then (if done then removed else none) else unchanged

  unfoldable pub remove_allocations_for_writing : EventDataControl → Option EventDataControl
  unfolding remove_allocations_loop
  remove_allocations_for_writing c = do
    w ← remove_allocations_loop (length c.state_slots.words) 0 c.state_slots
    some (with_words c w)
