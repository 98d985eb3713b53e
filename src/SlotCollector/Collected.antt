-- ===== src/SlotCollector/Collected.antt =====
-- What is collected while no other process interferes (slot_collector.cpp).
use inc_mw_com.Base.{
  ℕ, zero, suc, ◌+◌, ◌≤◌, ◌<◌, ◌≡◌, sym, ap, subst, ◌≢◌, true, List, [], ◌∷◌, arith, length, get_or,
  set, length-set, get_or-set_self, get_or-set_ne,
}
use inc_mw_com.EventSlotStatus.{get_reference_count, get_time_stamp, is_time_stamp_between}
use inc_mw_com.EventDataControl.Reference.Alone.{IsReferable}
use inc_mw_com.EventDataControl.Reference.Latest.{InRange, IsNewest}

-- Each slot is the newest of the range up to the one before; the search ended for lack of a slot, of rounds or of room.
abbrev pub Collected : List ℕ → ℕ → ℕ → ℕ → ℕ → List ℕ → Type 0
Collected ws last zero room upper is = is ≡ []
Collected ws last (suc count) zero upper is = is ≡ []
Collected ws last (suc count) (suc room) upper [] =
    (j : ℕ) → j < length ws → ¬ InRange ws last upper j
Collected ws last (suc count) (suc room) upper (i ∷ is) =
    IsNewest ws last upper i × Collected ws last count room (get_time_stamp (get_or ws i 0)) is

-- One more reference in each of the slots.
abbrev pub referenced : List ℕ → List ℕ → List ℕ
referenced [] ws = ws
referenced (i ∷ is) ws = referenced is (set ws i (get_or ws i 0 + 1))

-- One more reference leaves the time stamp alone.
pub same_stamp : (v : ℕ) → IsReferable v → get_time_stamp (v + 1) ≡ get_time_stamp v
unfolding get_time_stamp get_reference_count
same_stamp v r = omega (arith, r.room)

pub between_bounds :
    (v last upper : ℕ) → is_time_stamp_between v last upper ≡ true → get_time_stamp v < upper
unfolding is_time_stamp_between
between_bounds v last upper h = ground arith

pub between_weaken :
    (v last t upper : ℕ)
    → t ≤ upper
    → is_time_stamp_between v last t ≡ true
    → is_time_stamp_between v last upper ≡ true
unfolding is_time_stamp_between
between_weaken v last t upper h k = ground arith

-- Below its time stamp `t`, a slot that was referenced plays no part.
module _ (ws : List ℕ) (last i : ℕ) (here : i < length ws) (r : IsReferable (get_or ws i 0)) where
  abbrev t : ℕ
  t = get_time_stamp (get_or ws i 0)

  abbrev ws' : List ℕ
  ws' = set ws i (get_or ws i 0 + 1)

  pub not_itself : (j : ℕ) → InRange ws' last t j → i ≢ j
  not_itself j range e =
      let at : get_or ws' i 0 ≡ get_or ws i 0 + 1 =
        get_or-set_self ws i (get_or ws i 0 + 1) 0 here in
      let bound =
        between_bounds (get_or ws' i 0) last t (subst (λ k. InRange ws' last t k) (sym e) range) in
      absurd
        (omega (arith, subst (λ v. get_time_stamp v < t) at bound, same_stamp (get_or ws i 0) r))

  not_itself_before : (j : ℕ) → InRange ws last t j → i ≢ j
  not_itself_before j range e =
      let bound =
        between_bounds (get_or ws i 0) last t (subst (λ k. InRange ws last t k) (sym e) range) in
      absurd (omega (arith, bound))

  pub same_word : (j : ℕ) → i ≢ j → get_or ws' j 0 ≡ get_or ws j 0
  same_word j h = get_or-set_ne ws i j (get_or ws i 0 + 1) 0 h

-- Two arrays whose words agree where either has a time stamp in the range.
pub record Agrees (ws ws' : List ℕ) (last t : ℕ) : Type 0 where
  same_length : length ws' ≡ length ws
  forth : (j : ℕ) → InRange ws last t j → get_or ws' j 0 ≡ get_or ws j 0
  back : (j : ℕ) → InRange ws' last t j → get_or ws' j 0 ≡ get_or ws j 0

pub set-Agrees :
    (ws : List ℕ) (last i : ℕ)
    → i < length ws
    → IsReferable (get_or ws i 0)
    → Agrees ws (set ws i (get_or ws i 0 + 1)) last (get_time_stamp (get_or ws i 0))
set-Agrees ws last i here r = record {
  same_length = length-set ws i (get_or ws i 0 + 1);
  forth = λ j range. same_word ws last i here r j (not_itself_before ws last i here r j range);
  back = λ j range. same_word ws last i here r j (not_itself ws last i here r j range);
}

module _ (ws ws' : List ℕ) (last : ℕ) where
  range_back : (t : ℕ) → Agrees ws ws' last t → (j : ℕ) → InRange ws' last t j → InRange ws last t j
  range_back t a j range = subst (λ v. is_time_stamp_between v last t ≡ true) (a.back j range) range

  range_forth :
      (t : ℕ) → Agrees ws ws' last t → (j : ℕ) → InRange ws last t j → InRange ws' last t j
  range_forth t a j range =
      subst (λ v. is_time_stamp_between v last t ≡ true) (sym (a.forth j range)) range

  Agrees-weakened : (t upper : ℕ) → t ≤ upper → Agrees ws ws' last upper → Agrees ws ws' last t
  Agrees-weakened t upper le a = record {
    same_length = a.same_length;
    forth = λ j range. a.forth j (between_weaken (get_or ws j 0) last t upper le range);
    back = λ j range. a.back j (between_weaken (get_or ws' j 0) last t upper le range);
  }

  IsNewest-Agrees : (t i : ℕ) → Agrees ws ws' last t → IsNewest ws' last t i → IsNewest ws last t i
  IsNewest-Agrees t i a (lt, range, highest) = (
    subst (λ n. i < n) a.same_length lt,
    range_back t a i range,
    λ j j_lt j_range.
        let le =
          highest j (subst (λ n. j < n) (sym a.same_length) j_lt) (range_forth t a j j_range) in
        subst (λ w. get_time_stamp (get_or ws j 0) ≤ get_time_stamp w) (a.back i range)
          (subst (λ v. get_time_stamp v ≤ get_time_stamp (get_or ws' i 0)) (a.forth j j_range) le),
  )

  pub Collected-Agrees :
      (count room t : ℕ) (is : List ℕ)
      → Agrees ws ws' last t
      → Collected ws' last count room t is
      → Collected ws last count room t is
  Collected-Agrees zero room t is a h = h
  Collected-Agrees (suc count) zero t is a h = h
  Collected-Agrees (suc count) (suc room) t [] a h =
      λ j lt range. h j (subst (λ n. j < n) (sym a.same_length) lt) (range_forth t a j range)
  Collected-Agrees (suc count) (suc room) t (i ∷ is) a (newest, rest) =
      let (_, range, _) = newest in
      let same = ap get_time_stamp (a.back i range) in
      let bound = between_bounds (get_or ws' i 0) last t range in
      let rest' = subst (λ u. Collected ws' last count room u is) same rest in
      (
        IsNewest-Agrees t i a newest,
        Collected-Agrees count room (get_time_stamp (get_or ws i 0)) is
            (Agrees-weakened (get_time_stamp (get_or ws i 0)) t (omega (arith, same, bound)) a)
            rest',
      )
