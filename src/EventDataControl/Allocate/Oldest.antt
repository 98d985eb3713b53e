-- ===== src/EventDataControl/Allocate/Oldest.antt =====
-- AllocateNextSlot (event_data_control.cpp) while no other process touches the slots.
use native.Mathlib.Decide.{dec_lt}
use inc_mw_com.Base.{
  ℕ, zero, suc, ◌+◌, ◌≤◌, ◌<◌, ◌≡◌, refl, ◌⊎◌, inl, inr, true, false, Option, none, some, List,
  arith, ltb, ltb→lt, ltb→ge, ==_self, Bool-cases, length, get_or, set, alone, compare_exchange,
}
use inc_mw_com.EventSlotStatus.{timestamp_max, in_writing, get_time_stamp, is_invalid, is_used}
use inc_mw_com.EventDataControl.State.{EventDataControl}
use inc_mw_com.EventDataControl.Allocate.{
  consider, find_oldest_loop, find_oldest_unused_slot, lock_selected, allocate_attempt,
  allocate_loop, allocate_next_slot,
}

abbrev word : List ℕ → ℕ → ℕ
word ws i = get_or ws i 0

-- Slot `i` is unused, without the greatest time stamp, and invalid or at least as old as every unused slot.
abbrev pub IsOldest : List ℕ → ℕ → Type 0
IsOldest ws i =
    (i < length ws)
    × (is_used (get_or ws i 0) ≡ false)
    × (get_time_stamp (get_or ws i 0) < timestamp_max)
    × ((is_invalid (get_or ws i 0) ≡ true)
        ⊎ ((j : ℕ)
            → j < length ws
            → is_used (get_or ws j 0) ≡ false
            → get_time_stamp (get_or ws i 0) ≤ get_time_stamp (get_or ws j 0)))

-- No slot can be taken: each is used or has the greatest time stamp.
abbrev pub IsExhausted : List ℕ → Type 0
IsExhausted ws =
    (j : ℕ)
    → j < length ws
    → is_used (get_or ws j 0) ≡ false
    → timestamp_max ≤ get_time_stamp (get_or ws j 0)

-- What the scan knows after the slots below `i`.
record Best (ws : List ℕ) (i oldest : ℕ) (selected : Option ℕ) : Type 0 where
  least : (j : ℕ) → j < i → is_used (word ws j) ≡ false → oldest ≤ get_time_stamp (word ws j)
  bounded : oldest ≤ timestamp_max
  chosen : elim selected as (λ _. Type 0) [
    | none ↦ oldest ≡ timestamp_max
    | some k ↦
        (k < length ws)
        × (is_used (word ws k) ≡ false)
        × (get_time_stamp (word ws k) ≡ oldest)
        × (oldest < timestamp_max)
  ]

abbrev Finds : List ℕ → Option ℕ → Type 0
Finds ws none = IsExhausted ws
Finds ws (some i) = IsOldest ws i

invalid_unused :
    (v : ℕ) → is_invalid v ≡ true → (is_used v ≡ false) × (get_time_stamp v < timestamp_max)
unfolding is_invalid is_used get_time_stamp
invalid_unused v h = (ground arith, ground arith)

consider_cases :
    (i status oldest : ℕ) (selected : Option ℕ)
    → ((is_used status ≡ false)
        × (get_time_stamp status < oldest)
        × (consider i status (oldest, selected) ≡ (get_time_stamp status, some i)))
      ⊎ ((is_used status ≡ false → oldest ≤ get_time_stamp status)
          × (consider i status (oldest, selected) ≡ (oldest, selected)))
unfolding consider is_used
consider_cases i status oldest selected = elim (Bool-cases (is_used status)) [
  | inl e ↦ inr (λ free. cc, ground arith)
  | inr e ↦ elim (Bool-cases (ltb (get_time_stamp status) oldest)) [
    | inl older ↦ inl (e, ltb→lt _ _ older, ground arith)
    | inr newer ↦ inr (λ free. ltb→ge _ _ newer, ground arith)
  ]
]

Best-consider :
    (ws : List ℕ) (i oldest : ℕ) (selected : Option ℕ)
    → i < length ws
    → Best ws i oldest selected
    → Best ws
        (i + 1)
        (consider i (word ws i) (oldest, selected)).0
        (consider i (word ws i) (oldest, selected)).1
Best-consider ws i oldest selected lt b = elim (consider_cases i (word ws i) oldest selected) [
  | inl (free, older, e) ↦ rw e (record {
    least = up (get_time_stamp (word ws i)) (omega arith) (λ f. omega arith);
    bounded = omega (arith, b.bounded);
    chosen = (lt, free, refl, omega (arith, b.bounded));
  })
  | inr (newer, e) ↦
      rw e
        (record { least = up oldest (omega arith) newer; bounded = b.bounded; chosen = b.chosen })
]
  where
    up :
        (t : ℕ)
        → t ≤ oldest
        → (is_used (word ws i) ≡ false → t ≤ get_time_stamp (word ws i))
        → (j : ℕ) → j < i + 1
        → is_used (word ws j) ≡ false
        → t ≤ get_time_stamp (word ws j)
    up t le here j j_lt free = elim (dec_lt j i) [
      | yes below ↦ omega (arith, b.least j below free)
      | no last ↦ let same : j ≡ i = omega arith in rw same (here (rw same at free))
    ]

Best-Finds :
    (ws : List ℕ) (oldest : ℕ) (selected : Option ℕ)
    → Best ws (length ws) oldest selected
    → Finds ws selected
Best-Finds ws oldest none b = λ j lt free. rw (← b.chosen) (b.least j lt free)
Best-Finds ws oldest (some k) b =
    let (lt, free, t, small) = b.chosen in
    (lt, free, rw t small, inr (λ j j_lt j_free. rw t (b.least j j_lt j_free)))

-- Alone, the scan depends on the words only, and leaves them as they are.
find_oldest_loop-Finds :
    (ws : List ℕ) (n i oldest now : ℕ) (selected : Option ℕ)
    → i + n ≡ length ws
    → Best ws i oldest selected
    → (r : Option ℕ) × (later : ℕ) × (find_oldest_loop alone n i
          (oldest, selected)
          (record { words = ws; now = now })
        ≡ (r, record { words = ws; now = later }))
      × Finds ws r
unfolding find_oldest_loop
find_oldest_loop-Finds ws zero i oldest now selected e b =
    let last : i ≡ length ws = omega arith in
    (selected, now, refl, Best-Finds ws oldest selected (rw last at b))
find_oldest_loop-Finds ws (suc n) i oldest now selected e b =
    elim (Bool-cases (is_invalid (word ws i))) [
      | inl stop ↦ (
        some i,
        suc now,
        simp stop,
        (
          omega arith,
          (invalid_unused (word ws i) stop).0,
          (invalid_unused (word ws i) stop).1,
          inl stop,
        ),
      )
      | inr go ↦
          let (t, sel) = consider i (word ws i) (oldest, selected) in
          let (r, later, run, found) =
            find_oldest_loop-Finds ws n (i + 1) t (suc now) sel (omega arith)
              (Best-consider ws i oldest selected (omega arith) b) in
          (r, later, simp go run, found)
    ]

exhausted_found : (ws : List ℕ) (r : Option ℕ) → IsExhausted ws → Finds ws r → r ≡ none
exhausted_found ws none ex f = refl
exhausted_found ws (some i) ex (lt, free, small, _) = absurd (omega (arith, ex i lt free))

find_oldest_undisturbed :
    (ws : List ℕ) (now : ℕ)
    → (r : Option ℕ) × (later : ℕ) × (find_oldest_unused_slot alone
          (record { words = ws; now = now })
        ≡ (r, record { words = ws; now = later }))
      × Finds ws r
unfolding find_oldest_unused_slot
find_oldest_undisturbed ws now =
    find_oldest_loop-Finds ws (length ws) 0 timestamp_max now none (omega arith)
      (record { least = λ j lt free. absurd (omega arith); bounded = omega arith; chosen = refl })

lock_undisturbed :
    (ws : List ℕ) (i now : ℕ)
    → is_used (word ws i) ≡ false
    → lock_selected alone (some i) (record { words = ws; now = now })
      ≡ (some i, record { words = set ws i in_writing; now = suc (suc now) })
unfolding lock_selected is_used compare_exchange
lock_undisturbed ws i now free = simp (free, ==_self (word ws i))

attempt_exhausted :
    (ws : List ℕ) (now : ℕ)
    → IsExhausted ws
    → (later : ℕ) × (allocate_attempt alone (record { words = ws; now = now })
        ≡ (none, record { words = ws; now = later }))
unfolding allocate_attempt
attempt_exhausted ws now ex =
    let (r, later, run, found) = find_oldest_undisturbed ws now in
    let nothing = exhausted_found ws r ex found in (later, simp (run, nothing, lock_selected))

loop_exhausted :
    (ws : List ℕ) (n k m now : ℕ)
    → IsExhausted ws
    → k + n ≡ m
    → (later : ℕ) × (allocate_loop alone n k (record { words = ws; now = now })
        ≡ (m, none, record { words = ws; now = later }))
unfolding allocate_loop
loop_exhausted ws zero k m now ex e = let last : k ≡ m = omega arith in (now, rw last)
loop_exhausted ws (suc n) k m now ex e =
    let (later, run) = attempt_exhausted ws now ex in
    let (end, rest) = loop_exhausted ws n (k + 1) m later ex (omega arith) in
    (end, simp (run, rest))

-- While no other process interferes, a call either puts an oldest unused slot in writing at the first try and returns it, or finds every slot used (or at the greatest time stamp), returns none and leaves the slots alone.
pub allocate_next_slot_undisturbed :
    (c : EventDataControl)
    → ((i : ℕ) × IsOldest c.state_slots.words i
        × ((allocate_next_slot alone c).0 ≡ some i)
        × ((allocate_next_slot alone c).1.state_slots.words ≡ set c.state_slots.words i in_writing))
      ⊎ (IsExhausted c.state_slots.words
          × ((allocate_next_slot alone c).0 ≡ none)
          × ((allocate_next_slot alone c).1.state_slots.words ≡ c.state_slots.words))
unfolding allocate_next_slot allocate_loop allocate_attempt
allocate_next_slot_undisturbed c =
    let (r, later, run, found) = find_oldest_undisturbed c.state_slots.words c.state_slots.now in
    split r later run found
  where
    split :
        (r : Option ℕ) (later : ℕ)
        → find_oldest_unused_slot alone c.state_slots
          ≡ (r, record { words = c.state_slots.words; now = later })
        → Finds c.state_slots.words r
        → ((i : ℕ) × IsOldest c.state_slots.words i
            × ((allocate_next_slot alone c).0 ≡ some i)
            × ((allocate_next_slot alone c).1.state_slots.words
                ≡ set c.state_slots.words i in_writing))
          ⊎ (IsExhausted c.state_slots.words
              × ((allocate_next_slot alone c).0 ≡ none)
              × ((allocate_next_slot alone c).1.state_slots.words ≡ c.state_slots.words))
    split (some i) later run found =
        let locked = lock_undisturbed c.state_slots.words i later found.1 in
        inl (i, found, simp (run, locked), simp (run, locked))
    split none later run found =
        let (end, ends) =
          loop_exhausted c.state_slots.words 101 0 101 c.state_slots.now found refl in
        inr (found, simp ends, simp ends)
