-- ===== src/EventDataControl/Allocate/Exclusive.antt =====
-- AllocateNextSlot (event_data_control.cpp) among other processes.
use inc_mw_com.Base.{
  ℕ, zero, suc, ◌+◌, ◌%◌, ◌^◌, ◌≤◌, ◌<◌, ◌≡◌, refl, sym, subst, ◌⊎◌, inl, inr, Bool, true, false,
  not, ◌&&◌, Option, none, some, arith, ltb, leb, ◌==◌, if◌then◌else◌, Bool-cases, length, get_or,
  Interference, Words, seen, store, compare_exchange, look, Exchanged, compare_exchange_lem, Waited,
  untouched, looked, Waited-length,
}
use inc_mw_com.EventSlotStatus.{
  timestamp_max, in_writing, get_reference_count, get_time_stamp, is_invalid, is_in_writing,
  is_used,
}
use inc_mw_com.EventDataControl.State.{Counters, EventDataControl}
use inc_mw_com.EventDataControl.Allocate.{
  max_allocate_retries, consider, after_attempt, find_oldest_loop, find_oldest_unused_slot,
  lock_selected, allocate_attempt, allocate_loop, allocate_next_slot,
}

-- From `s` on, the process wrote once: slot `i`, unused at that access, was put in writing.
abbrev pub Locks : Interference → Words → ℕ → Words → Type 0
Locks env s i after =
    (w : Words) × Waited env s w
    × (i < length s.words)
    × (is_used (get_or (seen env w) i 0) ≡ false)
    × (after ≡ store env i in_writing w)

abbrev Below : ℕ → Option ℕ → Type 0
Below b none = Unit {0}
Below b (some i) = i < b

consider-Below :
    (i status b : ℕ) (oldest : ℕ × Option ℕ)
    → i < b
    → Below b oldest.1
    → Below b (consider i status oldest).1
unfolding consider
consider-Below i status b (t, sel) lt h =
    elim (Bool-cases (
      get_reference_count status == 0
      && not (is_in_writing status)
      && ltb (get_time_stamp status) t)) [ inl e ↦ simp e lt | inr e ↦ simp e h ]

module _ (env : Interference) where
  find_oldest_loop-Below :
      (s : Words) (n i b : ℕ) (oldest : ℕ × Option ℕ) (w : Words)
      → i + n ≤ b
      → Below b oldest.1
      → Waited env s w
      → Below b (find_oldest_loop env n i oldest w).0
        × Waited env s (find_oldest_loop env n i oldest w).1
  unfolding find_oldest_loop
  find_oldest_loop-Below s zero i b oldest w le sel past = (sel, past)
  find_oldest_loop-Below s (suc n) i b oldest w le sel past =
      let status = get_or (seen env w) i 0 in
      let rest =
        find_oldest_loop-Below s n (i + 1) b (consider i status oldest) (look env w) (omega arith)
          (consider-Below i status b oldest (omega arith) sel) (looked past) in
      elim (Bool-cases (is_invalid status)) [
        | inl e ↦ simp e (omega arith, looked past)
        | inr e ↦ simp e rest
      ]

  -- One round: a slot that it yields was unused, and is in writing now; else nothing is written.
  abbrev Locked : Words → Option ℕ × Words → Type 0
  Locked s (none, w) = Waited env s w
  Locked s (some i, w) = Locks env s i w

  exchange-Locked :
      (s : Words) (i status : ℕ) (w : Words) (r : Bool × Words)
      → Waited env s w
      → i < length s.words
      → is_used status ≡ false
      → Exchanged env i status in_writing w r
      → Locked s (if r.0 then some i else none, r.1)
  exchange-Locked s i status w (true, w') past b free (found, put) =
      (w, past, b, rw found free, put)
  exchange-Locked s i status w (false, w') past b free kept =
      subst (Waited env s) (sym kept) (looked past)

  lock_selected-Locked :
      (s : Words) (selected : Option ℕ) (w : Words)
      → Waited env s w
      → Below (length s.words) selected
      → Locked s (lock_selected env selected w)
  unfolding lock_selected is_used
  lock_selected-Locked s none w past b = past
  lock_selected-Locked s (some i) w past b =
      let status = get_or (seen env w) i 0 in
      let w₁ = look env w in
      elim (Bool-cases (is_used status)) [
        | inl e ↦ simp e (looked past)
        | inr e ↦ simp e (
            exchange-Locked s i status w₁ (compare_exchange env true i status in_writing w₁)
              (looked past) b e (compare_exchange_lem env true i status in_writing w₁))
      ]

  allocate_attempt-Locked : (s w : Words) → Waited env s w → Locked s (allocate_attempt env w)
  unfolding allocate_attempt find_oldest_unused_slot
  allocate_attempt-Locked s w past =
      let (bound, past') =
        find_oldest_loop-Below s (length w.words) 0 (length s.words) (timestamp_max, none) w
          (omega (arith, Waited-length past)) tt past in
      lock_selected-Locked s (find_oldest_unused_slot env w).0 (find_oldest_unused_slot env w).1
        past' bound

  -- The loop ends without a slot only when all its rounds are used up.
  abbrev Ended : Words → ℕ → ℕ × Option ℕ × Words → Type 0
  Ended s rounds (k, none, w) = Waited env s w × (k ≡ rounds)
  Ended s rounds (k, some i, w) = Locks env s i w

  allocate_loop-Ended :
      (s : Words) (n k rounds : ℕ) (w : Words)
      → Waited env s w
      → k + n ≡ rounds
      → Ended s rounds (allocate_loop env n k w)
  unfolding allocate_loop
  allocate_loop-Ended s zero k rounds w past e = (past, omega arith)
  allocate_loop-Ended s (suc n) k rounds w past e =
      round (allocate_attempt env w) (allocate_attempt-Locked s w past)
        (λ w₁ past₁. allocate_loop-Ended s n (k + 1) rounds w₁ past₁ (omega arith))
    where
      round :
          (r : Option ℕ × Words)
          → Locked s r
          → ((w₁ : Words) → Waited env s w₁ → Ended s rounds (allocate_loop env n (k + 1) w₁))
          → Ended s rounds (after_attempt k (allocate_loop env n (k + 1)) r)
      round (some i, w₁) locked ih = locked
      round (none, w₁) past₁ ih = ih w₁ past₁

  -- What a call of AllocateNextSlot does to the control, by its result.
  abbrev pub Allocates : EventDataControl → Option ℕ × EventDataControl → Type 0
  Allocates c (some i, c') =
      Locks env c.state_slots i c'.state_slots
      × (c'.transaction_log_set ≡ c.transaction_log_set)
      × (c'.counters.num_alloc_misses ≡ c.counters.num_alloc_misses)
  Allocates c (none, c') =
      (Waited env c.state_slots c'.state_slots
        ⊎ ((i : ℕ) × Locks env c.state_slots i c'.state_slots))
      × (c'.transaction_log_set ≡ c.transaction_log_set)
      × (c'.counters.num_alloc_misses ≡ (c.counters.num_alloc_misses + 1) % 2 ^ 64)

  -- Whatever other processes do to the slots between its accesses: a call that returns a slot has written just once, and this write put that slot, unused in the array as it was at that access, in writing; a call that returns none counts one miss, and has written nothing or made one such write.
  pub allocate_next_slot_lem : (c : EventDataControl) → Allocates c (allocate_next_slot env c)
  unfolding allocate_next_slot
  allocate_next_slot_lem c = ends (allocate_loop env (max_allocate_retries + 1) 0 c.state_slots) (
      allocate_loop-Ended c.state_slots (max_allocate_retries + 1) 0 101 c.state_slots untouched
        refl)
    where
      counted : ℕ → Counters
      counted k = record c.counters {
        num_alloc_retries = (c.counters.num_alloc_retries + k) % 2 ^ 64;
      }

      result : ℕ × Option ℕ × Words → Option ℕ × EventDataControl
      result (k, selected, w) =
          if leb max_allocate_retries k
          then (
            none,
            record c {
              state_slots = w;
              counters = record (counted k) {
                num_alloc_misses = (c.counters.num_alloc_misses + 1) % 2 ^ 64;
              };
            },
          )
          else (selected, record c { state_slots = w; counters = counted k })

      ends : (r : ℕ × Option ℕ × Words) → Ended c.state_slots 101 r → Allocates c (result r)
      ends (k, some i, w) locked = elim (Bool-cases (leb max_allocate_retries k)) [
        | inl e ↦ simp e (inr (i, locked), refl, refl)
        | inr e ↦ simp e (locked, refl, refl)
      ]
      ends (k, none, w) (l, e) =
          let late : leb max_allocate_retries k ≡ true = ground arith in
          simp late (inl l, refl, refl)
