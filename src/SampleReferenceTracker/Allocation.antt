-- ===== src/SampleReferenceTracker/Allocation.antt =====
-- Allocating samples while nobody interferes (sample_reference_tracker.cpp).
use inc_mw_com.Base.{
  ℕ, suc, ◌+◌, ◌-◌, ◌≤◌, ◌<◌, min, ◌≡◌, ◌∙◌, inl, inr, true, false, ◌||◌, some, [], ◌∷◌, arith, ltb,
  ◌==◌, ltb→lt, ltb→ge, ==_self, Bool-cases, Words, alone, compare_exchange,
}
use inc_mw_com.SampleReferenceTracker.{
  SampleReferenceTracker, with_available, get_num_available_samples, allocate_loop, allocate,
}

-- The tracker has `v` samples left.
abbrev pub holding : SampleReferenceTracker → ℕ → ℕ → SampleReferenceTracker
holding t v now = with_available t (record { words = v ∷ []; now = now })

abbrev pub one_word : ℕ → ℕ → Words
one_word v now = record { words = v ∷ []; now = now }

loop_stops :
    (fuel n available allocated : ℕ) (w : Words)
    → (n == 0 || available == 0) ≡ true
    → allocate_loop alone (suc fuel) n available allocated w ≡ some (allocated, w)
unfolding allocate_loop
loop_stops fuel n available allocated w e = simp e

loop_takes :
    (fuel n v allocated now : ℕ)
    → (n == 0 || v == 0) ≡ false
    → allocate_loop alone (suc fuel) n v allocated (one_word v now)
      ≡ allocate_loop alone fuel
          (n - min v n)
          v
          (allocated + min v n)
          (one_word (v - min v n) (suc now))
unfolding allocate_loop compare_exchange
loop_takes fuel n v allocated now e = simp (e, ==_self v)

loop_fails :
    (fuel n available v allocated now : ℕ)
    → (n == 0 || available == 0) ≡ false
    → (v == available) ≡ false
    → allocate_loop alone (suc fuel) n available allocated (one_word v now)
      ≡ allocate_loop alone fuel n v allocated (one_word v (suc now))
unfolding allocate_loop compare_exchange
loop_fails fuel n available v allocated now e f = simp (e, f)

-- Less is available than asked for: the second exchange fails, and finds that nothing is left.
takes_all :
    (fuel n v now : ℕ)
    → 0 < v
    → v < n
    → allocate_loop alone (suc (suc (suc fuel))) n v 0 (one_word v now)
      ≡ some (min v n, one_word (v - min v n) (suc (suc now)))
takes_all fuel n v now p l =
    let all : min v n ≡ v = omega arith in
    let none_left : v - v ≡ 0 = omega arith in
    let none_before : 0 + v ≡ v = omega arith in
    let first : (n == 0 || v == 0) ≡ false = ground arith in
    let second : (n - v == 0 || v == 0) ≡ false = ground arith in
    let differs : (0 == v) ≡ false = ground arith in
    let third : (n - v == 0 || 0 == 0) ≡ true = ground arith in
    loop_takes (suc (suc fuel)) n v 0 now first
    ∙ simp (all, none_left, none_before)
        (loop_fails (suc fuel) (n - v) v 0 v (suc now) second differs
          ∙ loop_stops fuel (n - v) 0 v (one_word 0 (suc (suc now))) third)

takes_enough :
    (fuel n v now : ℕ)
    → 0 < n
    → n ≤ v
    → allocate_loop alone (suc (suc fuel)) n v 0 (one_word v now)
      ≡ some (min v n, one_word (v - min v n) (suc now))
takes_enough fuel n v now p l =
    let first : (n == 0 || v == 0) ≡ false = ground arith in
    let second : (n - min v n == 0 || v == 0) ≡ true = ground arith in
    let none_before : 0 + min v n ≡ min v n = omega arith in
    loop_takes (suc fuel) n v 0 now first
    ∙ loop_stops fuel (n - min v n) v (0 + min v n) (one_word (v - min v n) (suc now)) second
    ∙ simp none_before

loop_undisturbed :
    (fuel n v now : ℕ)
    → (later : ℕ) × (allocate_loop alone (suc (suc (suc fuel))) n v 0 (one_word v now)
        ≡ some (min v n, one_word (v - min v n) later))
loop_undisturbed fuel n v now = elim (Bool-cases (n == 0 || v == 0)) [
  | inl e ↦
      let nothing : min v n ≡ 0 = ground arith in
      let same : v - 0 ≡ v = omega arith in
      (now, loop_stops (suc (suc fuel)) n v 0 (one_word v now) e ∙ simp (nothing, same))
  | inr e ↦ elim (Bool-cases (ltb v n)) [
    | inl f ↦ (suc (suc now), takes_all fuel n v now (ground arith) (ltb→lt v n f))
    | inr f ↦ (suc now, takes_enough (suc fuel) n v now (ground arith) (ltb→ge v n f))
  ]
]

-- While nobody interferes, three rounds are enough, and Allocate takes as many samples as it is asked for and as are available.
pub allocate_undisturbed :
    (fuel n v now : ℕ) (t : SampleReferenceTracker)
    → (later : ℕ) × (allocate alone (3 + fuel) n (holding t v now)
        ≡ some (record { num_available_guards = min v n }, holding t (v - min v n) later))
unfolding allocate get_num_available_samples
allocate_undisturbed fuel n v now t =
    let (later, e) = loop_undisturbed fuel n v (suc now) in
    let three : 3 + fuel ≡ suc (suc (suc fuel)) = omega arith in (later, simp (three, e))
