-- ===== src/EventDataControl/Reference/Taken.antt =====
-- ReferenceSpecificEvent (event_data_control.cpp) among other processes.
use inc_mw_com.Base.{
  ℕ, zero, suc, ◌+◌, ◌%◌, ◌^◌, ◌≡◌, sym, ap, subst, ◌∙◌, ◌≢◌, inl, inr, Bool, true, false, ◌||◌,
  Option, some, arith, ◌==◌, if◌then◌else◌, Bool-cases, get_or, >>=-eq-some, some_eq, Interference,
  Words, seen, load, store, compare_exchange, Exchanged, compare_exchange_lem, Waited, untouched,
  looked,
}
use inc_mw_com.EventSlotStatus.{get_reference_count, is_invalid, is_in_writing}
use inc_mw_com.TransactionLog.{
  TransactionLog, reference_transaction_begin, reference_transaction_commit,
  reference_transaction_abort,
}
use inc_mw_com.TransactionLogSet.{with_transaction_log}
use inc_mw_com.EventDataControl.State.{EventDataControl, with_words, log_step}
use inc_mw_com.EventDataControl.Reference.{
  max_reference_retries, Round, returns, retries, after_round, settle, take_reference,
  reference_specific_round, reference_specific_loop, reference_specific_event,
}

-- From `s` on, the process wrote once: slot `i`, whose word was `v` at that access, was made `v + 1`.
abbrev pub Refers : Interference → Words → ℕ → ℕ → Words → Type 0
Refers env s i v after =
    (w : Words) × Waited env s w
    × (get_or (seen env w) i 0 ≡ v)
    × (after ≡ store env i ((v + 1) % 2 ^ 64) w)

pub log_step_slots :
    (index : ℕ) (step : TransactionLog → Option TransactionLog) (c c' : EventDataControl)
    → log_step index step c ≡ some c'
    → c'.state_slots ≡ c.state_slots
log_step_slots index step c c' h =
    let (logs, _, e) = >>=-eq-some (with_transaction_log index step c.transaction_log_set) _ h in
    ap (λ (x : EventDataControl). x.state_slots) (sym (some_eq e))

settle_slots :
    (slot_index log_index : ℕ) (done b : Bool) (c c' : EventDataControl)
    → settle slot_index log_index done c ≡ some (b, c')
    → (b ≡ done) × (c'.state_slots ≡ c.state_slots)
unfolding settle
settle_slots slot_index log_index true b c c' h =
    let (c₁, e, f) =
      >>=-eq-some (log_step log_index (reference_transaction_commit slot_index) c) _ h in
    let same = some_eq f in
    (
      sym (ap (λ (p : Bool × EventDataControl). p.0) same),
      ap (λ (p : Bool × EventDataControl). p.1.state_slots) (sym same)
          ∙ log_step_slots log_index (reference_transaction_commit slot_index) c c₁ e,
    )
settle_slots slot_index log_index false b c c' h =
    let (c₁, e, f) =
      >>=-eq-some (log_step log_index (reference_transaction_abort slot_index) c) _ h in
    let same = some_eq f in
    (
      sym (ap (λ (p : Bool × EventDataControl). p.0) same),
      ap (λ (p : Bool × EventDataControl). p.1.state_slots) (sym same)
          ∙ log_step_slots log_index (reference_transaction_abort slot_index) c c₁ e,
    )

module _ (env : Interference) where
  abbrev pub Takes : Words → ℕ → ℕ → Bool → Words → Type 0
  Takes s i v true after = Refers env s i v after
  Takes s i v false after = Waited env s after

  pub take_reference-Takes :
      (s : Words) (i index v : ℕ) (c c' : EventDataControl) (b : Bool)
      → Waited env s c.state_slots
      → take_reference env i index v ((v + 1) % 2 ^ 64) c ≡ some (b, c')
      → Takes s i v b c'.state_slots
  unfolding take_reference
  take_reference-Takes s i index v c c' b past h =
      let (c₁, e₁, f) = >>=-eq-some (log_step index (reference_transaction_begin i) c) _ h in
      let slots = log_step_slots index (reference_transaction_begin i) c c₁ e₁ in
      exchanged c₁ (subst (Waited env s) (sym slots) past)
        (compare_exchange env true i v ((v + 1) % 2 ^ 64) c₁.state_slots)
        (compare_exchange_lem env true i v ((v + 1) % 2 ^ 64) c₁.state_slots) f
    where
      exchanged :
          (c₁ : EventDataControl)
          → Waited env s c₁.state_slots
          → (r : Bool × Words) → Exchanged env i v ((v + 1) % 2 ^ 64) c₁.state_slots r
          → settle i index r.0 (with_words c₁ r.1) ≡ some (b, c')
          → Takes s i v b c'.state_slots
      exchanged c₁ past₁ (true, w) (found, put) f =
          let (b_true, slots) = settle_slots i index true b (with_words c₁ w) c' f in
          rw b_true (c₁.state_slots, past₁, found, slots ∙ put)
      exchanged c₁ past₁ (false, w) kept f =
          let (b_false, slots) = settle_slots i index false b (with_words c₁ w) c' f in
          rw b_false (subst (Waited env s) (sym (slots ∙ kept)) (looked past₁))

  -- A slot that may be referenced, and was.
  abbrev pub ReferenceTaken : Words → ℕ → Words → Type 0
  ReferenceTaken s i after =
      (v : ℕ) × (is_in_writing v ≡ false)
      × (is_invalid v ≡ false)
      × (get_reference_count ((v + 1) % 2 ^ 64) ≢ 0)
      × Refers env s i v after

  -- What a call has done to the slots, by its result.
  abbrev pub ReferencesSpecific : Words → ℕ → Bool → Words → Type 0
  ReferencesSpecific s i true after = ReferenceTaken s i after
  ReferencesSpecific s i false after = Waited env s after

  abbrev SpecificRound : Words → ℕ → Round Bool × EventDataControl → Type 0
  SpecificRound s i (returns b, c) = ReferencesSpecific s i b c.state_slots
  SpecificRound s i (retries, c) = Waited env s c.state_slots

  may_refer :
      (v n : ℕ)
      → (is_in_writing v || is_invalid v || n == 0) ≡ false
      → (is_in_writing v ≡ false) × (is_invalid v ≡ false) × (n ≢ 0)
  may_refer v n h = (ground arith, ground arith, λ e. ground arith)

  specific_round :
      (s : Words) (i index : ℕ) (c : EventDataControl) (r : Round Bool × EventDataControl)
      → Waited env s c.state_slots
      → reference_specific_round env i index c ≡ some r
      → SpecificRound s i r
  unfolding reference_specific_round
  specific_round s i index c r past h =
      let status = get_or (seen env c.state_slots) i 0 in
      let c₁ = with_words c (load env i c.state_slots).1 in
      elim (Bool-cases (
        is_in_writing status
        || is_invalid status
        || get_reference_count ((status + 1) % 2 ^ 64) == 0)) [
          | inl e ↦ subst (SpecificRound s i) (some_eq (simp e at h)) (looked past)
          | inr e ↦
              let ((b, c'), t, f) =
                >>=-eq-some (take_reference env i index status ((status + 1) % 2 ^ 64) c₁) _
                  (simp e at h) in
              subst (SpecificRound s i) (some_eq f) (
                ends b c' status (may_refer status _ e)
                  (take_reference-Takes s i index status c₁ c' b (looked past) t))
        ]
    where
      ends :
          (b : Bool) (c' : EventDataControl) (v : ℕ)
          → (is_in_writing v ≡ false)
            × (is_invalid v ≡ false)
            × (get_reference_count ((v + 1) % 2 ^ 64) ≢ 0)
          → Takes s i v b c'.state_slots
          → SpecificRound s i (if b then returns true else retries, c')
      ends true c' v (a, b, d) t = (v, a, b, d, t)
      ends false c' v ok t = t

  specific_loop :
      (s : Words) (n i index : ℕ) (c c' : EventDataControl) (b : Bool)
      → Waited env s c.state_slots
      → reference_specific_loop env n i index c ≡ some (b, c')
      → ReferencesSpecific s i b c'.state_slots
  unfolding reference_specific_loop
  specific_loop s zero i index c c' b past h =
      subst (λ (p : Bool × EventDataControl). ReferencesSpecific s i p.0 p.1.state_slots)
        (some_eq h) past
  specific_loop s (suc n) i index c c' b past h =
      let (r, run, f) = >>=-eq-some (reference_specific_round env i index c) _ h in
      round r (specific_round s i index c r past run) f
        (λ c₁ past₁. specific_loop s n i index c₁ c' b past₁)
    where
      round :
          (r : Round Bool × EventDataControl)
          → SpecificRound s i r
          → after_round (reference_specific_loop env n i index) r ≡ some (b, c')
          → ((c₁ : EventDataControl)
              → Waited env s c₁.state_slots
              → reference_specific_loop env n i index c₁ ≡ some (b, c')
              → ReferencesSpecific s i b c'.state_slots)
          → ReferencesSpecific s i b c'.state_slots
      round (returns a, c₁) taken f ih =
          subst (λ (p : Bool × EventDataControl). ReferencesSpecific s i p.0 p.1.state_slots)
            (some_eq f) taken
      round (retries, c₁) past₁ f ih = ih c₁ past₁ f

  -- Whatever other processes do meanwhile: a call of ReferenceSpecificEvent that returns true has written to the slots just once, and this write replaced the word that the slot held at that access, neither in writing nor invalid and with a count that does not overflow, by the word with one more reference; a call that returns false has written nothing.
  pub reference_specific_event_lem :
      (i index : ℕ) (c c' : EventDataControl) (b : Bool)
      → reference_specific_event env i index c ≡ some (b, c')
      → ReferencesSpecific c.state_slots i b c'.state_slots
  unfolding reference_specific_event
  reference_specific_event_lem i index c c' b h =
      let (c₁, e, f) = >>=-eq-some (log_step index some c) _ h in
      specific_loop c.state_slots max_reference_retries i index c₁ c' b
        (subst (Waited env c.state_slots) (sym (log_step_slots index some c c₁ e)) untouched) f
