-- ===== src/EventDataControl/Reference/Newest.antt =====
-- ReferenceNextEvent (event_data_control.cpp) among other processes.
use inc_mw_com.Base.{
  ℕ, zero, suc, ◌+◌, ◌%◌, ◌^◌, ◌≤◌, ◌<◌, ◌≡◌, sym, subst, inl, inr, Bool, true, false, Option, none,
  some, arith, if◌then◌else◌, Bool-cases, length, get_or, >>=-eq-some, some_eq, Interference, Words,
  seen, look, Waited, untouched, looked, Waited-length,
}
use inc_mw_com.EventSlotStatus.{get_time_stamp, event_slot_status, is_time_stamp_between}
use inc_mw_com.EventSlotStatus.Laws.{event_slot_status_fields}
use inc_mw_com.EventDataControl.State.{EventDataControl, with_words, log_step}
use inc_mw_com.EventDataControl.Reference.{
  max_reference_retries, Round, returns, retries, after_next_round, take_reference, newest_loop,
  reference_newest, reference_next_round, reference_next_loop, reference_next_event,
}
use inc_mw_com.EventDataControl.Reference.Taken.{
  Refers, log_step_slots, Takes, take_reference-Takes,
}

pub is_time_stamp_between_trans :
    (v t last upper : ℕ)
    → last ≤ t
    → is_time_stamp_between v t upper ≡ true
    → (is_time_stamp_between v last upper ≡ true) × (last ≤ get_time_stamp v)
unfolding is_time_stamp_between
is_time_stamp_between_trans v t last upper le h = (ground arith, ground arith)

-- The candidate so far, in the range above `last`.
abbrev Candidate : ℕ → ℕ → ℕ → Option ℕ → ℕ → Type 0
Candidate size last upper none v = last ≤ get_time_stamp v
Candidate size last upper (some i) v =
    (last ≤ get_time_stamp v) × (i < size) × (is_time_stamp_between v last upper ≡ true)

above :
    (size last upper : ℕ) (sel : Option ℕ) (v : ℕ)
    → Candidate size last upper sel v
    → last ≤ get_time_stamp v
above size last upper none v c = c
above size last upper (some i) v c = c.0

module _ (env : Interference) where
  newest_loop-Candidate :
      (s : Words) (size last upper n i : ℕ) (sel : Option ℕ) (v : ℕ) (w : Words)
      → i + n ≤ size
      → Candidate size last upper sel v
      → Waited env s w
      → Candidate size last upper
          (newest_loop env n i upper sel v w).0
          (newest_loop env n i upper sel v w).1
        × Waited env s (newest_loop env n i upper sel v w).2
  unfolding newest_loop
  newest_loop-Candidate s size last upper zero i sel v w le c past = (c, past)
  newest_loop-Candidate s size last upper (suc n) i sel v w le c past =
      let status = get_or (seen env w) i 0 in
      let w₁ = look env w in
      elim (Bool-cases (is_time_stamp_between status (get_time_stamp v) upper)) [
        | inl e ↦
            let (between, le_ts) =
              is_time_stamp_between_trans status (get_time_stamp v) last upper
                (above size last upper sel v c) e in
            simp e (
              newest_loop-Candidate s size last upper n (i + 1) (some i) status w₁ (omega arith)
                (le_ts, omega arith, between) (looked past))
        | inr e ↦ simp e (
            newest_loop-Candidate s size last upper n (i + 1) sel v w₁ (omega arith) c
              (looked past))
      ]

  -- By the result: a slot of the event whose word was in the range, with a reference added; or nothing.
  abbrev pub SampleTaken : Words → ℕ → ℕ → Option ℕ → Words → Type 0
  SampleTaken s last upper none after = Waited env s after
  SampleTaken s last upper (some i) after =
      (v : ℕ) × (i < length s.words)
      × (is_time_stamp_between v last upper ≡ true)
      × Refers env s i v after

  abbrev NextRound : Words → ℕ → ℕ → Round (Option ℕ) × EventDataControl → Type 0
  NextRound s last upper (returns r, c) = SampleTaken s last upper r c.state_slots
  NextRound s last upper (retries, c) = Waited env s c.state_slots

  reference_newest-NextRound :
      (s : Words) (last upper index : ℕ) (sel : Option ℕ) (v : ℕ) (w : Words)
      → (c : EventDataControl) (r : Round (Option ℕ) × EventDataControl)
      → Candidate (length s.words) last upper sel v
      → Waited env s w
      → reference_newest env index (sel, v, w) c ≡ some r
      → NextRound s last upper r
  unfolding reference_newest
  reference_newest-NextRound s last upper index none v w c r k past h =
      subst (NextRound s last upper) (some_eq h) past
  reference_newest-NextRound s last upper index (some i) v w c r (_, lt, between) past h =
      let ((b, c'), t, f) =
        >>=-eq-some (take_reference env i index v ((v + 1) % 2 ^ 64) (with_words c w)) _ h in
      subst (NextRound s last upper) (some_eq f)
        (ends b c' (take_reference-Takes env s i index v (with_words c w) c' b past t))
    where
      ends :
          (b : Bool) (c' : EventDataControl)
          → Takes env s i v b c'.state_slots
          → NextRound s last upper (if b then returns (some i) else retries, c')
      ends true c' t = (v, lt, between, t)
      ends false c' t = t

  next_loop :
      (s : Words) (last upper index n k : ℕ) (c c' : EventDataControl) (r : Option ℕ)
      → last < 2 ^ 32
      → Waited env s c.state_slots
      → reference_next_loop env n k last index upper c ≡ some (r, c')
      → SampleTaken s last upper r c'.state_slots
  unfolding reference_next_loop reference_next_round
  next_loop s last upper index zero k c c' r small past h =
      subst (λ (p : Option ℕ × EventDataControl). SampleTaken s last upper p.0 p.1.state_slots)
        (some_eq h) past
  next_loop s last upper index (suc n) k c c' r small past h =
      let start = event_slot_status last 0 in
      let ts = (event_slot_status_fields last 0 small (omega arith)).0 in
      let (cand, past₁) =
        newest_loop-Candidate s (length s.words) last upper (length c.state_slots.words) 0 none
          start c.state_slots (omega (arith, Waited-length past)) (omega (arith, ts)) past in
      let (q, run, f) = >>=-eq-some (reference_next_round env last index upper c) _ h in
      round q (reference_newest-NextRound s last upper index _ _ _ c q cand past₁ run) f
        (λ c₁ past₂. next_loop s last upper index n (k + 1) c₁ c' r small past₂)
    where
      round :
          (q : Round (Option ℕ) × EventDataControl)
          → NextRound s last upper q
          → after_next_round k (reference_next_loop env n (k + 1) last index upper) q ≡ some (r, c')
          → ((c₁ : EventDataControl)
              → Waited env s c₁.state_slots
              → reference_next_loop env n (k + 1) last index upper c₁ ≡ some (r, c')
              → SampleTaken s last upper r c'.state_slots)
          → SampleTaken s last upper r c'.state_slots
      round (returns none, c₁) taken f ih =
          subst (λ (p : Option ℕ × EventDataControl). SampleTaken s last upper p.0 p.1.state_slots)
            (some_eq f) taken
      round (returns (some i), c₁) taken f ih =
          subst (λ (p : Option ℕ × EventDataControl). SampleTaken s last upper p.0 p.1.state_slots)
            (some_eq f) taken
      round (retries, c₁) past₁ f ih = ih c₁ past₁ f

  -- Whatever other processes do meanwhile, and for a last_search_time of 32 bits: a call of ReferenceNextEvent that returns a slot has written to the slots just once, and this write replaced the word that the slot held at that access, with a time stamp strictly between last_search_time and upper_limit, by the same with one more reference; a call that returns none has written nothing.
  pub reference_next_event_lem :
      (last index upper : ℕ) (c c' : EventDataControl) (r : Option ℕ)
      → last < 2 ^ 32
      → reference_next_event env last index upper c ≡ some (r, c')
      → SampleTaken c.state_slots last upper r c'.state_slots
  unfolding reference_next_event
  reference_next_event_lem last index upper c c' r small h =
      let (c₁, e, f) = >>=-eq-some (log_step index some c) _ h in
      next_loop c.state_slots last upper index max_reference_retries 0 c₁ c' r small
        (subst (Waited env c.state_slots) (sym (log_step_slots index some c c₁ e)) untouched) f
