-- ===== src/EventDataControl/Reference/GiveBack.antt =====
-- DereferenceEvent after ReferenceSpecificEvent (event_data_control.cpp), without interference.
use inc_mw_com.Base.{
  ℕ, suc, ◌+◌, ◌-◌, ◌%◌, ◌^◌, ◌≡◌, ◌∙◌, Bool, true, false, some, arith, get_or, set,
  get_or-set_self, set-set, set-get_or, get_elem?-set_self, set_unchanged, Words, alone,
}
use inc_mw_com.TransactionLog.{
  TransactionLog, put_slot, dereference_transaction_begin, dereference_transaction_commit,
}
use inc_mw_com.TransactionLog.Phases.{Reads}
use inc_mw_com.TransactionLogSet.Access.{LogAt, LogAt-put_log, put_log-put_log, put_log_self}
use inc_mw_com.EventDataControl.State.{EventDataControl, with_words, dereference_event}
use inc_mw_com.EventDataControl.Reference.{reference_specific_event}
use inc_mw_com.EventDataControl.Reference.Alone.{
  flags, with_log, log_step_lem, MayReference, holding, IsReferable,
  reference_specific_event_undisturbed,
}

pub held_word_lem : (v : ℕ) → IsReferable v → (v + 1 + 2 ^ 64 - 1) % 2 ^ 64 ≡ v
held_word_lem v r = omega (arith, r.fits)

releases :
    (i : ℕ) (log : TransactionLog)
    → Reads log i false false
    → dereference_transaction_begin i (holding i log) ≡ some (put_slot i (flags false true) log)
unfolding dereference_transaction_begin
releases i log unrecorded = simp (
  get_elem?-set_self log.reference_count_slots i (flags true true) (flags false false) unrecorded,
  set-set,
)

empties :
    (i : ℕ) (log : TransactionLog)
    → Reads log i false false
    → dereference_transaction_commit i (put_slot i (flags false true) log) ≡ some log
unfolding dereference_transaction_commit
empties i log unrecorded = simp (
  get_elem?-set_self log.reference_count_slots i (flags false true) (flags false false) unrecorded,
  set-set,
  set_unchanged log.reference_count_slots i (flags false false) unrecorded,
)

-- Giving a committed reference back empties the slot's record in the log and takes one off the word.
pub dereference_undisturbed :
    (c : EventDataControl) (index i : ℕ) (log : TransactionLog)
    → LogAt c.transaction_log_set index (holding i log)
    → Reads log i false false
    → (later : ℕ) × (dereference_event alone i index c
        ≡ some (
            with_words (with_log c index log) (record {
              words =
                  set c.state_slots.words i
                    ((get_or c.state_slots.words i 0 + 2 ^ 64 - 1) % 2 ^ 64);
              now = later;
            })))
unfolding dereference_event
dereference_undisturbed c index i log at unrecorded =
    let slots = log.reference_count_slots in
    let reads =
      λ (b e : Bool). get_elem?-set_self slots i (flags b e) (flags false false) unrecorded in
    let releasing : TransactionLog = put_slot i (flags false true) log in
    let s₁ : dereference_transaction_begin i (holding i log) ≡ some releasing =
      releases i log unrecorded in
    let e₁ =
      log_step_lem index (dereference_transaction_begin i) c (holding i log) releasing at s₁ in
    let w : Words = record {
      words = set c.state_slots.words i ((get_or c.state_slots.words i 0 + 2 ^ 64 - 1) % 2 ^ 64);
      now = suc c.state_slots.now;
    } in
    let at₂ = LogAt-put_log index c.transaction_log_set (holding i log) releasing at in
    let e₂ =
      log_step_lem index (dereference_transaction_commit i)
        (with_words (with_log c index releasing) w) releasing log at₂ (empties i log unrecorded) in
    (
      suc c.state_slots.now,
      simp (e₁, e₂)
          (simp (put_log-put_log index c.transaction_log_set (holding i log) releasing log at)),
    )

-- Without interference, if the process's log is registered and records nothing of the slot, and the slot's word is written and has room for a reference, ReferenceSpecificEvent succeeds and the reference can be given back: the slots and the transaction logs are then what they were before it was taken.
pub dereference-reference :
    (c : EventDataControl) (index i : ℕ) (log : TransactionLog)
    → MayReference c index i log
    → IsReferable (get_or c.state_slots.words i 0)
    → (c₁ : EventDataControl) × (c₂ : EventDataControl) × (reference_specific_event alone i index c
        ≡ some (true, c₁))
      × (dereference_event alone i index c₁ ≡ some c₂)
      × (c₂.state_slots.words ≡ c.state_slots.words)
      × (c₂.transaction_log_set ≡ c.transaction_log_set)
dereference-reference c index i log may r =
    let ws = c.state_slots.words in
    let v = get_or ws i 0 in
    let (later, run) = reference_specific_event_undisturbed c index i log may r in
    let c₁ =
      with_words (with_log c index (holding i log))
        (record { words = set ws i (v + 1); now = later }) in
    let (end, back) =
      dereference_undisturbed c₁ index i log
        (LogAt-put_log index c.transaction_log_set log (holding i log) may.registered)
        may.unrecorded in
    (
      c₁,
      with_words (with_log c₁ index log) (record {
        words = set (set ws i (v + 1)) i ((get_or (set ws i (v + 1)) i 0 + 2 ^ 64 - 1) % 2 ^ 64);
        now = end;
      }),
      run,
      back,
      simp (get_or-set_self ws i (v + 1) 0 may.exists, held_word_lem v r, set-set, set-get_or),
      put_log-put_log index c.transaction_log_set log (holding i log) log may.registered
          ∙ put_log_self index c.transaction_log_set log may.registered,
    )
