-- ===== src/EventDataControl/Allocate.antt =====
-- event_data_control.cpp: AllocateNextSlot and FindOldestUnusedSlot.
pub mod Exclusive
pub mod Oldest
use inc_mw_com.Base.{
  ℕ, zero, suc, ◌+◌, ◌-◌, ◌*◌, ◌/◌, ◌%◌, ◌^◌, ◌≤◌, ◌<◌, min, max, ◌≡◌, refl, sym, ap, subst, ◌∙◌,
  ◌≢◌, ◌↔◌, ◌⊎◌, inl, inr, Bool, true, false, not, ◌&&◌, ◌||◌, Option, none, some, List, [], ◌∷◌,
  ◌++◌, map, arith, ltb, leb, ◌==◌, if◌then◌else◌, ltb→lt, ltb→ge, leb→le, leb→gt, ==→eq, ==_self,
  Bool-cases, Option-cases, length, get_elem?, get_or, set, replicate, length-append, length-set,
  length-replicate, get_or-set_self, get_or-set_ne, set-set, set-get_or, get_elem?-set_self,
  get_elem?-set_ne, get_elem?-set, set_unchanged, get_elem?-append_length, length-map,
  get_elem?-map, get_elem?-replicate, ◌>>=◌, ◌>>◌, require, >>=-eq-some, some_eq, Interference,
  Words, alone, seen, load, store, fetch_modify, compare_exchange, Exchanged, compare_exchange_lem,
}
use inc_mw_com.EventSlotStatus.{
  timestamp_max, invalid, in_writing, get_reference_count, get_time_stamp, is_invalid,
  is_in_writing, set_time_stamp, set_reference_count, event_slot_status, is_time_stamp_between,
  is_used,
}
use inc_mw_com.EventDataControl.State.{
  Counters, EventDataControl, no_counts, event_data_control, reset_performance_counters, with_words,
  log_step, event_ready, discard, slot_status, count_new_events, get_num_new_events,
  dereference_event_without_transaction_logging, dereference_event, remove_allocations_loop,
  remove_allocations_for_writing,
}

abbrev pub max_allocate_retries : ℕ
max_allocate_retries = 100

-- A valid slot takes the place of the oldest unused one so far, given by time stamp and index.
unfoldable pub consider : ℕ → ℕ → ℕ × Option ℕ → ℕ × Option ℕ
unfolding get_reference_count is_in_writing get_time_stamp
consider current_index status (oldest_time_stamp, selected_index) =
    if get_reference_count status == 0
      && not (is_in_writing status)
      && ltb (get_time_stamp status) oldest_time_stamp
    then (get_time_stamp status, some current_index)
    else (oldest_time_stamp, selected_index)

-- A selected slot ends the loop by break; otherwise it goes on with `next`.
abbrev pub after_attempt :
    ℕ → (Words → ℕ × Option ℕ × Words) → Option ℕ × Words → ℕ × Option ℕ × Words
after_attempt retry_counter next (some i, w) = (retry_counter, some i, w)
after_attempt retry_counter next (none, w) = next w

module _ (env : Interference) where
  -- The loop over the slots from `i` on, `n` of them; an invalid slot ends it.
  unfoldable pub find_oldest_loop : ℕ → ℕ → ℕ × Option ℕ → Words → Option ℕ × Words
  unfolding is_invalid consider
  find_oldest_loop zero i oldest w = (oldest.1, w)
  find_oldest_loop (suc n) i oldest w =
      let (status, w₁) = load env i w in
      let rest = find_oldest_loop n (i + 1) (consider i status oldest) w₁ in
      if is_invalid status then (some i, w₁) else rest

  unfoldable pub find_oldest_unused_slot : Words → Option ℕ × Words
  unfolding find_oldest_loop
  find_oldest_unused_slot w = find_oldest_loop (length w.words) 0 (timestamp_max, none) w

  -- The selected slot may have changed since it was found.
  unfoldable pub lock_selected : Option ℕ → Words → Option ℕ × Words
  unfolding get_reference_count is_in_writing compare_exchange
  lock_selected none w = (none, w)
  lock_selected (some i) w =
      let (status, w₁) = load env i w in
      let (done, w₂) = compare_exchange env true i status in_writing w₁ in
      if not (get_reference_count status == 0) || is_in_writing status
      then (none, w₁)
      else (if done then some i else none, w₂)

  -- One round of the loop.
  unfoldable pub allocate_attempt : Words → Option ℕ × Words
  unfolding find_oldest_unused_slot lock_selected
  allocate_attempt w =
      let (selected_index, w₁) = find_oldest_unused_slot w in lock_selected selected_index w₁

  -- `n` rounds are left; the result has the retry counter, and the slot if the loop was left by break.
  unfoldable pub allocate_loop : ℕ → ℕ → Words → ℕ × Option ℕ × Words
  allocate_loop zero retry_counter w = (retry_counter, none, w)
  allocate_loop (suc n) retry_counter w =
      after_attempt retry_counter (allocate_loop n (retry_counter + 1)) (allocate_attempt w)

  -- num_alloc_misses is counted, and the slot withheld, from max_allocate_retries on.
  unfoldable pub allocate_next_slot : EventDataControl → Option ℕ × EventDataControl
  unfolding allocate_loop
  allocate_next_slot c =
      let (retry_counter, selected_index, w) =
        allocate_loop (max_allocate_retries + 1) 0 c.state_slots in
      let counted = record c.counters {
        num_alloc_retries = (c.counters.num_alloc_retries + retry_counter) % 2 ^ 64;
      } in
      if leb max_allocate_retries retry_counter
      then (
        none,
        record c {
          state_slots = w;
          counters = record counted {
            num_alloc_misses = (c.counters.num_alloc_misses + 1) % 2 ^ 64;
          };
        },
      )
      else (selected_index, record c { state_slots = w; counters = counted })
