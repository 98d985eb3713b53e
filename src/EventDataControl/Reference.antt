-- ===== src/EventDataControl/Reference.antt =====
-- event_data_control.cpp: ReferenceSpecificEvent and ReferenceNextEvent.
pub mod Taken
pub mod Newest
pub mod Alone
pub mod GiveBack
pub mod Latest
use inc_mw_com.Base.{
  ℕ, zero, suc, ◌+◌, ◌-◌, ◌*◌, ◌/◌, ◌%◌, ◌^◌, ◌≤◌, ◌<◌, min, max, ◌≡◌, refl, sym, ap, subst, ◌∙◌,
  ◌≢◌, ◌↔◌, ◌⊎◌, inl, inr, Bool, true, false, not, ◌&&◌, ◌||◌, Option, none, some, List, [], ◌∷◌,
  ◌++◌, map, arith, ltb, leb, ◌==◌, if◌then◌else◌, ltb→lt, ltb→ge, leb→le, leb→gt, ==→eq, ==_self,
  Bool-cases, Option-cases, length, get_elem?, get_or, set, replicate, length-append, length-set,
  length-replicate, get_or-set_self, get_or-set_ne, set-set, set-get_or, get_elem?-set_self,
  get_elem?-set_ne, get_elem?-set, set_unchanged, get_elem?-append_length, length-map,
  get_elem?-map, get_elem?-replicate, ◌>>=◌, ◌>>◌, require, >>=-eq-some, some_eq, Interference,
  Words, alone, seen, load, store, fetch_modify, compare_exchange, Exchanged, compare_exchange_lem,
}
use inc_mw_com.EventSlotStatus.{
  timestamp_max, invalid, in_writing, get_reference_count, get_time_stamp, is_invalid,
  is_in_writing, set_time_stamp, set_reference_count, event_slot_status, is_time_stamp_between,
  is_used,
}
use inc_mw_com.TransactionLog.{
  TransactionLogSlot, TransactionLog, new_slot, transaction_log, has_transaction,
  does_log_contain_increment_or_decrement_transactions, contains_transactions, require_slot,
  subscribe_transaction_begin, subscribe_transaction_commit, subscribe_transaction_abort,
  unsubscribe_transaction_begin, unsubscribe_transaction_commit, put_slot,
  reference_transaction_begin, reference_transaction_commit, reference_transaction_abort,
  dereference_transaction_begin, dereference_transaction_commit, and_then, rollback_slot,
  rollback_loop, rollback_increment_transactions, rollback_subscription,
  rollback_subscribe_transactions, rollback_proxy_element_log,
  rollback_skeleton_tracing_element_log,
}
use inc_mw_com.EventDataControl.State.{
  Counters, EventDataControl, no_counts, event_data_control, reset_performance_counters, with_words,
  log_step, event_ready, discard, slot_status, count_new_events, get_num_new_events,
  dereference_event_without_transaction_logging, dereference_event, remove_allocations_loop,
  remove_allocations_for_writing,
}

abbrev pub max_reference_retries : ℕ
max_reference_retries = 100

-- How one round of a reference loop ends.
pub data Round {ℓ} (A : Type ℓ) : Type ℓ where
  returns : A → Round A
  retries : Round A

-- Return from the loop, or go on with `next`.
abbrev pub after_round {ℓ} :
    {A : Type ℓ}
    → (EventDataControl → Option (A × EventDataControl))
    → Round A × EventDataControl
    → Option (A × EventDataControl)
after_round next (returns a, c) = some (a, c)
after_round next (retries, c) = next c

abbrev pub count_ref : ℕ → ℕ → EventDataControl → EventDataControl
count_ref tried missed c = record c {
  counters = record c.counters {
    num_ref_retries = (c.counters.num_ref_retries + tried) % 2 ^ 64;
    num_ref_misses = (c.counters.num_ref_misses + missed) % 2 ^ 64;
  };
}

-- The retries are counted when a sample was taken.
abbrev pub after_next_round :
    ℕ
    → (EventDataControl → Option (Option ℕ × EventDataControl))
    → Round (Option ℕ) × EventDataControl
    → Option (Option ℕ × EventDataControl)
after_next_round counter next (returns none, c) = some (none, c)
after_next_round counter next (returns (some i), c) = some (some i, count_ref counter 0 c)
after_next_round counter next (retries, c) = next c

-- After the exchange the reference is committed or aborted in the log.
unfoldable pub settle : ℕ → ℕ → Bool → EventDataControl → Option (Bool × EventDataControl)
settle slot_index log_index true c = do
  c ← log_step log_index (reference_transaction_commit slot_index) c
  some (true, c)
settle slot_index log_index false c = do
  c ← log_step log_index (reference_transaction_abort slot_index) c
  some (false, c)

module _ (env : Interference) where
  -- The exchange of a slot's word for one with a further reference, between the steps on the log.
  unfoldable pub take_reference :
      ℕ → ℕ → ℕ → ℕ → EventDataControl → Option (Bool × EventDataControl)
  unfolding compare_exchange settle
  take_reference slot_index log_index current new c = do
    c ← log_step log_index (reference_transaction_begin slot_index) c
    let (done, w) = compare_exchange env true slot_index current new c.state_slots
    settle slot_index log_index done (with_words c w)

  unfoldable pub reference_specific_round :
      ℕ → ℕ → EventDataControl → Option (Round Bool × EventDataControl)
  reference_specific_round slot_index log_index c =
      let (status, w) = load env slot_index c.state_slots in
      let new = (status + 1) % 2 ^ 64 in
      if is_in_writing status || is_invalid status || get_reference_count new == 0
      then some (returns false, with_words c w)
      else (do
        r ← take_reference slot_index log_index status new (with_words c w)
        some (if r.0 then returns true else retries, r.1))

  -- `n` rounds are left.
  unfoldable pub reference_specific_loop :
      ℕ → ℕ → ℕ → EventDataControl → Option (Bool × EventDataControl)
  reference_specific_loop zero slot_index log_index c = some (false, c)
  reference_specific_loop (suc n) slot_index log_index c = do
    r ← reference_specific_round slot_index log_index c
    after_round (reference_specific_loop n slot_index log_index) r

  -- The transaction log is asked for first, so it has to be registered.
  unfoldable pub reference_specific_event :
      ℕ → ℕ → EventDataControl → Option (Bool × EventDataControl)
  reference_specific_event slot_index log_index c = do
    c ← log_step log_index some c
    reference_specific_loop max_reference_retries slot_index log_index c

  -- The scan from `i` on, `n` slots: the index and word of the newest slot in the range so far.
  unfoldable pub newest_loop : ℕ → ℕ → ℕ → Option ℕ → ℕ → Words → Option ℕ × ℕ × Words
  unfolding is_time_stamp_between get_time_stamp
  newest_loop zero i upper_limit possible_index candidate w = (possible_index, candidate, w)
  newest_loop (suc n) i upper_limit possible_index candidate w =
      let (status, w₁) = load env i w in
      let is_newer = is_time_stamp_between status (get_time_stamp candidate) upper_limit in
      newest_loop n (i + 1) upper_limit (if is_newer then some i else possible_index)
        (if is_newer then status else candidate) w₁

  -- The newest slot found in the range is referenced, if its word is still the same.
  unfoldable pub reference_newest :
      ℕ → Option ℕ × ℕ × Words → EventDataControl → Option (Round (Option ℕ) × EventDataControl)
  reference_newest log_index (none, candidate, w) c = some (returns none, with_words c w)
  reference_newest log_index (some i, candidate, w) c = do
    r ← take_reference i log_index candidate ((candidate + 1) % 2 ^ 64) (with_words c w)
    some (if r.0 then returns (some i) else retries, r.1)

  unfoldable pub reference_next_round :
      ℕ → ℕ → ℕ → EventDataControl → Option (Round (Option ℕ) × EventDataControl)
  unfolding reference_newest
  reference_next_round last_search_time log_index upper_limit c =
      reference_newest log_index
        (newest_loop (length c.state_slots.words) 0 upper_limit none
          (event_slot_status last_search_time 0) c.state_slots)
        c

  -- `n` rounds are left. Without a sample in the range the counters are left alone.
  unfoldable pub reference_next_loop :
      ℕ → ℕ → ℕ → ℕ → ℕ → EventDataControl → Option (Option ℕ × EventDataControl)
  reference_next_loop zero counter last_search_time log_index upper_limit c =
      some (none, count_ref counter 1 c)
  reference_next_loop (suc n) counter last_search_time log_index upper_limit c = do
    r ← reference_next_round last_search_time log_index upper_limit c
    after_next_round counter
        (reference_next_loop n (counter + 1) last_search_time log_index upper_limit) r

  unfoldable pub reference_next_event :
      ℕ → ℕ → ℕ → EventDataControl → Option (Option ℕ × EventDataControl)
  reference_next_event last_search_time log_index upper_limit c = do
    c ← log_step log_index some c
    reference_next_loop max_reference_retries 0 last_search_time log_index upper_limit c
