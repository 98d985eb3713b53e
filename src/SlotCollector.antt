-- ===== src/SlotCollector.antt =====
-- mw/com/impl/bindings/lola/slot_collector.{h,cpp} and slot_decrementer.{h,cpp}: a proxy takes
-- references to the newest samples that it has not seen, and gives them back one by one.
pub mod Collected
pub mod Collecting
pub mod Delivered
pub mod GivenBack
use mathlib.Core.List.{reverse}
use inc_mw_com.Base.{
  ℕ, zero, suc, ◌+◌, ◌-◌, ◌*◌, ◌/◌, ◌%◌, ◌^◌, ◌≤◌, ◌<◌, min, max, ◌≡◌, refl, sym, ap, subst, ◌∙◌,
  ◌≢◌, ◌↔◌, ◌⊎◌, inl, inr, Bool, true, false, not, ◌&&◌, ◌||◌, Option, none, some, List, [], ◌∷◌,
  ◌++◌, map, arith, ltb, leb, ◌==◌, if◌then◌else◌, ltb→lt, ltb→ge, leb→le, leb→gt, ==→eq, ==_self,
  Bool-cases, Option-cases, length, get_elem?, get_or, set, take, drop, All, replicate,
  length-append, length-set, length-replicate, get_or-set_self, get_or-set_ne, set-set, set-get_or,
  get_elem?-set_self, get_elem?-set_ne, get_elem?-set, set_unchanged, get_elem?-append_length,
  length-map, get_elem?-map, get_elem?-replicate, ◌>>=◌, ◌>>◌, require, >>=-eq-some, some_eq,
  IfSome, IfSome-bind, IfSome-any, IfSome_eq, Interference, Words, alone, seen, load, store,
  fetch_modify, compare_exchange, Exchanged, compare_exchange_lem,
}
use inc_mw_com.EventSlotStatus.{
  timestamp_max, invalid, in_writing, get_reference_count, get_time_stamp, is_invalid,
  is_in_writing, set_time_stamp, set_reference_count, event_slot_status, is_time_stamp_between,
  is_used,
}
use inc_mw_com.EventDataControl.State.{
  Counters, EventDataControl, no_counts, event_data_control, reset_performance_counters, with_words,
  log_step, event_ready, discard, slot_status, count_new_events, get_num_new_events,
  dereference_event_without_transaction_logging, dereference_event, remove_allocations_loop,
  remove_allocations_for_writing,
}
use inc_mw_com.EventDataControl.Reference.{
  max_reference_retries, Round, returns, retries, after_round, count_ref, after_next_round, settle,
  take_reference, reference_specific_round, reference_specific_loop, reference_specific_event,
  newest_loop, reference_newest, reference_next_round, reference_next_loop, reference_next_event,
}

-- The control of the event's slots is an argument of the operations.
pub record SlotCollector : Type 0 where
  pub last_ts : ℕ
  pub collected_slots : List ℕ
  pub transaction_log_index : ℕ

unfoldable pub slot_collector : ℕ → ℕ → SlotCollector
slot_collector max_slots transaction_log_index = record {
  last_ts = 0;
  collected_slots = replicate max_slots 0;
  transaction_log_index = transaction_log_index;
}

module _ (env : Interference) where
  unfoldable pub get_num_new_samples_available :
      SlotCollector → EventDataControl → ℕ × EventDataControl
  get_num_new_samples_available s c = get_num_new_events env s.last_ts c

  -- A collected slot sets the limit for the next one; without a slot the loop ends.
  abbrev pub after_reference :
      (ℕ → EventDataControl → Option (List ℕ × EventDataControl))
      → Option ℕ × EventDataControl
      → Option (List ℕ × EventDataControl)
  after_reference more (none, c) = some ([], c)
  after_reference more (some slot, c) = do
    let (event_status, c') = slot_status env slot c
    (rest, c'') ← more (get_time_stamp event_status) c'
    some (slot ∷ rest, c'')

  -- The slots collected, the newest first; `count` rounds and `room` places are left.
  unfoldable pub collect_loop :
      ℕ → ℕ → ℕ → ℕ → ℕ → EventDataControl → Option (List ℕ × EventDataControl)
  unfolding slot_status
  collect_loop last_ts index zero room current_highest c = some ([], c)
  collect_loop last_ts index (suc count) zero current_highest c = some ([], c)
  collect_loop last_ts index (suc count) (suc room) current_highest c = do
    r ← reference_next_event env last_ts index current_highest c
    after_reference (collect_loop last_ts index count room) r

  unfoldable pub collect_slots :
      ℕ → SlotCollector → EventDataControl → Option (List ℕ × EventDataControl)
  unfolding collect_loop
  collect_slots max_count s c =
      collect_loop s.last_ts s.transaction_log_index max_count (length s.collected_slots)
        timestamp_max c

  unfoldable pub highest_loop : List ℕ → ℕ → EventDataControl → ℕ × EventDataControl
  unfolding slot_status
  highest_loop [] highest_delivered c = (highest_delivered, c)
  highest_loop (slot ∷ slots) highest_delivered c =
      let (status, c') = slot_status env slot c in
      highest_loop slots (max highest_delivered (get_time_stamp status)) c'

  -- The slots in the order in which the iterators go over them, the oldest first.
  unfoldable pub get_new_samples_slot_indices :
      ℕ → SlotCollector → EventDataControl → Option (List ℕ × SlotCollector × EventDataControl)
  unfolding collect_slots highest_loop
  get_new_samples_slot_indices max_count s c = do
    (collected, c') ← collect_slots max_count s c
    let (highest_delivered, c'') = highest_loop (reverse collected) s.last_ts c'
    some (
      reverse collected,
      record s {
        last_ts = highest_delivered;
        collected_slots = collected ++ drop (length collected) s.collected_slots;
      },
      c'',
    )

-- Without a control the decrementer was moved from.
pub record SlotDecrementer : Type 0 where
  pub has_control : Bool
  pub event_slot_index : ℕ
  pub transaction_log_idx : ℕ

unfoldable pub slot_decrementer : ℕ → ℕ → SlotDecrementer
slot_decrementer event_slot_index transaction_log_idx = record {
  has_control = true;
  event_slot_index = event_slot_index;
  transaction_log_idx = transaction_log_idx;
}

unfoldable pub move_decrementer : SlotDecrementer → SlotDecrementer × SlotDecrementer
move_decrementer other = (other, record other { has_control = false })

module _ (env : Interference) where
  -- The destructor.
  unfoldable pub internal_delete : SlotDecrementer → EventDataControl → Option EventDataControl
  internal_delete d c =
      if d.has_control
      then dereference_event env d.event_slot_index d.transaction_log_idx c
      else some c

  -- The assignment: this decrementer as it is then, and the other one; `itself` if both are the same
  -- object.
  unfoldable pub assign_decrementer :
      Bool
      → SlotDecrementer
      → SlotDecrementer
      → EventDataControl
      → Option (SlotDecrementer × SlotDecrementer × EventDataControl)
  unfolding internal_delete
  assign_decrementer itself d other c =
      if itself
      then some (d, other, c)
      else (do c' ← internal_delete d c; some (other, record other { has_control = false }, c'))
