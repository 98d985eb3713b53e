-- ===== src/EventDataControlComposite.antt =====
-- mw/com/impl/bindings/lola/event_data_control_composite.{h,cpp}: one view of the slots for QM
-- readers and, if there is one, of those for ASIL-B readers, which are allocated together.
pub mod Locking
pub mod Disconnected
use mathlib.Core.Option
use inc_mw_com.Base.{
  ℕ, zero, suc, ◌+◌, ◌-◌, ◌*◌, ◌/◌, ◌%◌, ◌^◌, ◌≤◌, ◌<◌, min, max, ◌≡◌, refl, sym, ap, subst, ◌∙◌,
  ◌≢◌, ◌↔◌, ◌⊎◌, inl, inr, Bool, true, false, not, ◌&&◌, ◌||◌, Option, none, some, List, [], ◌∷◌,
  ◌++◌, map, arith, ltb, leb, ◌==◌, if◌then◌else◌, ltb→lt, ltb→ge, leb→le, leb→gt, ==→eq, ==_self,
  Bool-cases, Option-cases, length, get_elem?, get_or, set, replicate, length-append, length-set,
  length-replicate, get_or-set_self, get_or-set_ne, set-set, set-get_or, get_elem?-set_self,
  get_elem?-set_ne, get_elem?-set, set_unchanged, get_elem?-append_length, length-map,
  get_elem?-map, get_elem?-replicate, ◌>>=◌, ◌>>◌, require, >>=-eq-some, some_eq, Interference,
  Words, alone, seen, load, store, fetch_modify, compare_exchange, Exchanged, compare_exchange_lem,
}
use inc_mw_com.EventSlotStatus.{
  timestamp_max, invalid, in_writing, get_reference_count, get_time_stamp, is_invalid,
  is_in_writing, set_time_stamp, set_reference_count, event_slot_status, is_time_stamp_between,
  is_used,
}
use inc_mw_com.EventDataControl.State.{
  Counters, EventDataControl, no_counts, event_data_control, reset_performance_counters, with_words,
  log_step, event_ready, discard, slot_status, count_new_events, get_num_new_events,
  dereference_event_without_transaction_logging, dereference_event, remove_allocations_loop,
  remove_allocations_for_writing,
}
use inc_mw_com.EventDataControl.Allocate.{
  max_allocate_retries, consider, after_attempt, find_oldest_loop, find_oldest_unused_slot,
  lock_selected, allocate_attempt, allocate_loop, allocate_next_slot,
}

pub record EventDataControlComposite : Type 0 where
  pub asil_qm_control : EventDataControl
  pub asil_b_control : Option EventDataControl
  pub ignore_qm_control : Bool

-- Without a QM control the process ends.
unfoldable pub event_data_control_composite :
    Option EventDataControl → Option EventDataControl → Option EventDataControlComposite
event_data_control_composite asil_qm_control asil_b_control = do
  qm ← asil_qm_control
  some (record { asil_qm_control = qm; asil_b_control = asil_b_control; ignore_qm_control = false })

abbrev pub max_multi_allocate_count : ℕ
max_multi_allocate_count = 100

-- The slots of the QM control and of the ASIL-B control.
pub record Both : Type 0 where
  pub qm : Words
  pub b : Words

-- The older free slot, by the ASIL-B time stamp.
unfoldable pub consider_multi : ℕ → ℕ → ℕ → ℕ × Option ℕ → ℕ × Option ℕ
consider_multi slot_index slot_qm slot_b (oldest_time_stamp, possible_index) =
    if (is_invalid slot_b || not (is_used slot_qm) && not (is_used slot_b))
      && ltb (get_time_stamp slot_b) oldest_time_stamp
    then (get_time_stamp slot_b, some slot_index)
    else (oldest_time_stamp, possible_index)

-- Another process may have used the slot, or written a newer event to it, since it was found.
unfoldable pub is_taken : ℕ → ℕ → Bool
is_taken status expected_time_stamp =
    is_used status || ltb expected_time_stamp (get_time_stamp status)

-- The others act on either array: `env_qm` and `env_b`.
module _ (env_qm env_b : Interference) where
  unfoldable pub next_free_loop : ℕ → ℕ → ℕ × Option ℕ → Both → (ℕ × Option ℕ) × Both
  next_free_loop zero i oldest s = (oldest, s)
  next_free_loop (suc n) i oldest s =
      let (slot_qm, qm) = load env_qm i s.qm in
      let (slot_b, b) = load env_b i s.b in
      next_free_loop n (i + 1) (consider_multi i slot_qm slot_b oldest) (record { qm = qm; b = b })

  unfoldable pub get_next_free_multi_slot : Both → (ℕ × Option ℕ) × Both
  unfolding next_free_loop
  get_next_free_multi_slot s = next_free_loop (length s.b.words) 0 (timestamp_max, none) s

  -- The exchange of the ASIL-B slot; if it fails, the QM slot gets its old word back.
  unfoldable pub lock_b : ℕ → ℕ → ℕ → Both → Bool × Both
  lock_b slot asil_qm_old asil_b_old s =
      let (done, b) = compare_exchange env_b false slot asil_b_old in_writing s.b in
      if done
      then (true, record s { b = b })
      else (false, record { qm = store env_qm slot asil_qm_old s.qm; b = b })

  unfoldable pub lock_both : ℕ → ℕ → ℕ → Both → Bool × Both
  lock_both slot asil_qm_old asil_b_old s =
      let (done, qm) = compare_exchange env_qm false slot asil_qm_old in_writing s.qm in
      if done
      then lock_b slot asil_qm_old asil_b_old (record s { qm = qm })
      else (false, record s { qm = qm })

  unfoldable pub try_lock_slot : ℕ → ℕ → Both → Bool × Both
  unfolding lock_both lock_b
  try_lock_slot slot expected_time_stamp s =
      let (asil_qm_old, qm) = load env_qm slot s.qm in
      let (asil_b_old, b) = load env_b slot s.b in
      if is_taken asil_qm_old expected_time_stamp || is_taken asil_b_old expected_time_stamp
      then (false, record { qm = qm; b = b })
      else lock_both slot asil_qm_old asil_b_old (record { qm = qm; b = b })

  -- One round: `none` if there was no free slot, or it could not be locked.
  unfoldable pub lock_found : (ℕ × Option ℕ) × Both → Option ℕ × Both
  lock_found ((time_stamp, none), s) = (none, s)
  lock_found ((time_stamp, some slot_index), s) =
      let (done, s₁) = try_lock_slot slot_index time_stamp s in
      (if done then some slot_index else none, s₁)

  abbrev pub or_retry : (Both → Option ℕ × Both) → Option ℕ × Both → Option ℕ × Both
  or_retry next (some slot, s) = (some slot, s)
  or_retry next (none, s) = next s

  unfoldable pub multi_loop : ℕ → Both → Option ℕ × Both
  multi_loop zero s = (none, s)
  multi_loop (suc n) s = or_retry (multi_loop n) (lock_found (get_next_free_multi_slot s))

  unfoldable pub allocate_next_multi_slot : Both → Option ℕ × Both
  unfolding multi_loop
  allocate_next_multi_slot s = multi_loop max_multi_allocate_count s

  abbrev pub with_both :
      EventDataControlComposite → EventDataControl → Both → EventDataControlComposite
  with_both c b s = record c {
    asil_qm_control = with_words c.asil_qm_control s.qm;
    asil_b_control = some (with_words b s.b);
  }

  -- Without a slot for both, the QM control is given up for good.
  abbrev pub after_multi :
      EventDataControlComposite
      → EventDataControl
      → Option ℕ × Both
      → (Option ℕ × Bool) × EventDataControlComposite
  after_multi c b (some slot, s) = ((some slot, false), with_both c b s)
  after_multi c b (none, s) =
      let (slot, b₁) = allocate_next_slot env_b (with_words b s.b) in
      (
        (slot, true),
        record c {
          asil_qm_control = with_words c.asil_qm_control s.qm;
          asil_b_control = some b₁;
          ignore_qm_control = true;
        },
      )

  unfoldable pub composite_allocate :
      Option EventDataControl
      → Bool
      → EventDataControlComposite
      → (Option ℕ × Bool) × EventDataControlComposite
  composite_allocate (some b) false c =
      after_multi c b (
        allocate_next_multi_slot (record { qm = c.asil_qm_control.state_slots; b = b.state_slots }))
  composite_allocate (some b) true c =
      let (slot, b₁) = allocate_next_slot env_b b in
      ((slot, true), record c { asil_b_control = some b₁ })
  composite_allocate none _ c =
      let (slot, qm) = allocate_next_slot env_qm c.asil_qm_control in
      ((slot, false), record c { asil_qm_control = qm })

  -- AllocateNextSlot: the slot, and whether the QM readers are disconnected.
  unfoldable pub allocate_next_slot_composite :
      EventDataControlComposite → (Option ℕ × Bool) × EventDataControlComposite
  unfolding composite_allocate
  allocate_next_slot_composite c = composite_allocate c.asil_b_control c.ignore_qm_control c

  unfoldable pub event_ready_composite :
      ℕ → ℕ → EventDataControlComposite → EventDataControlComposite
  event_ready_composite slot time_stamp c = record c {
    asil_b_control = Option.map (event_ready env_b slot time_stamp) c.asil_b_control;
    asil_qm_control =
        if c.ignore_qm_control
        then c.asil_qm_control
        else event_ready env_qm slot time_stamp c.asil_qm_control;
  }

  unfoldable pub discard_composite : ℕ → EventDataControlComposite → EventDataControlComposite
  discard_composite slot c = record c {
    asil_b_control = Option.map (discard env_b slot) c.asil_b_control;
    asil_qm_control =
        if c.ignore_qm_control then c.asil_qm_control else discard env_qm slot c.asil_qm_control;
  }

  -- The control that counts: the ASIL-B control if there is one.
  unfoldable pub get_event_slot_timestamp :
      Option EventDataControl → ℕ → EventDataControlComposite → ℕ
  get_event_slot_timestamp (some b) slot c = get_time_stamp (load env_b slot b.state_slots).0
  get_event_slot_timestamp none slot c =
      get_time_stamp (load env_qm slot c.asil_qm_control.state_slots).0

unfoldable pub latest_loop : Interference → ℕ → ℕ → ℕ → Words → ℕ
latest_loop env zero i latest_time_stamp w = latest_time_stamp
latest_loop env (suc n) i latest_time_stamp w =
    let (slot, w₁) = load env i w in
    latest_loop env n (i + 1)
      (if not (is_invalid slot)
          && not (is_in_writing slot)
          && ltb latest_time_stamp (get_time_stamp slot)
        then get_time_stamp slot
        else latest_time_stamp)
      w₁

-- `env` is the interference with the control that counts.
unfoldable pub get_latest_timestamp : Interference → EventDataControlComposite → ℕ
unfolding latest_loop
get_latest_timestamp env c =
    let control = Option.get_or c.asil_b_control c.asil_qm_control in
    latest_loop env (length control.state_slots.words) 0 1 control.state_slots

unfoldable pub is_qm_control_disconnected : EventDataControlComposite → Bool
is_qm_control_disconnected c = c.ignore_qm_control

unfoldable pub get_qm_event_data_control : EventDataControlComposite → EventDataControl
get_qm_event_data_control c = c.asil_qm_control

unfoldable pub get_asil_b_event_data_control : EventDataControlComposite → Option EventDataControl
get_asil_b_event_data_control c = c.asil_b_control
