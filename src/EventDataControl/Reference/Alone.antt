-- ===== src/EventDataControl/Reference/Alone.antt =====
-- References (event_data_control.cpp) while no other process touches the slot.
use inc_mw_com.Base.{
  ℕ, suc, ◌+◌, ◌-◌, ◌%◌, ◌^◌, ◌<◌, ◌≡◌, refl, ap, subst, ◌∙◌, Bool, true, false, ◌||◌, Option, some,
  List, arith, ◌==◌, if◌then◌else◌, ==_self, length, get_elem?, get_or, set, set-set,
  get_elem?-set_self, ◌>>=◌, Words, alone, compare_exchange,
}
use inc_mw_com.TransactionLog.{
  TransactionLogSlot, TransactionLog, put_slot, reference_transaction_begin,
  reference_transaction_commit,
}
use inc_mw_com.TransactionLog.Phases.{Reads}
use inc_mw_com.TransactionLogSet.Access.{
  LogAt, put_log, with_transaction_log_lem, LogAt-put_log, put_log-put_log, put_log_self,
}
use inc_mw_com.EventSlotStatus.{get_reference_count, is_invalid, is_in_writing}
use inc_mw_com.TransactionLogSet.{TransactionLogSet}
use inc_mw_com.EventDataControl.State.{EventDataControl, with_words, log_step}
use inc_mw_com.EventDataControl.Reference.{
  returns, retries, settle, take_reference, reference_specific_round, reference_specific_loop,
  reference_specific_event,
}

abbrev pub flags : Bool → Bool → TransactionLogSlot
flags b e = record { transaction_begin = b; transaction_end = e }

-- The control with the log at an index replaced.
abbrev pub with_log : EventDataControl → ℕ → TransactionLog → EventDataControl
with_log c index log = record c { transaction_log_set = put_log index log c.transaction_log_set }

pub log_step_lem :
    (index : ℕ) (step : TransactionLog → Option TransactionLog) (c : EventDataControl)
    → (log log' : TransactionLog) → LogAt c.transaction_log_set index log
    → step log ≡ some log'
    → log_step index step c ≡ some (with_log c index log')
log_step_lem index step c log log' at s =
    simp (with_transaction_log_lem index step c.transaction_log_set log log' at s)

-- The process may take a reference to slot `i` under `index`: its log is registered there, and records nothing of the slot yet.
pub record MayReference (c : EventDataControl) (index i : ℕ) (log : TransactionLog) : Type 0 where
  pub registered : LogAt c.transaction_log_set index log
  pub unrecorded : Reads log i false false
  pub exists : i < length c.state_slots.words

-- The log once the reference is committed.
abbrev pub holding : ℕ → TransactionLog → TransactionLog
holding i log = put_slot i (record { transaction_begin = true; transaction_end = true }) log

module _ (c : EventDataControl) (index i : ℕ) (log : TransactionLog)
    (may : MayReference c index i log) where
  open may use {registered, unrecorded, exists}

  abbrev slots : List TransactionLogSlot
  slots = log.reference_count_slots

  reads : (b e : Bool) → get_elem? (set slots i (flags b e)) i ≡ some (flags b e)
  reads b e = get_elem?-set_self slots i (flags b e) (flags false false) unrecorded

  begun : TransactionLog
  begun = put_slot i (flags true false) log

  begin_step : log_step index (reference_transaction_begin i) c ≡ some (with_log c index begun)
  unfolding begun reference_transaction_begin
  begin_step =
      log_step_lem index (reference_transaction_begin i) c log begun registered (simp unrecorded)

  -- Once the log has begun, committing writes the held log.
  commit_step :
      (w : Words)
      → log_step index (reference_transaction_commit i) (with_words (with_log c index begun) w)
        ≡ some (with_words (with_log c index (holding i log)) w)
  unfolding begun reference_transaction_commit
  commit_step w =
      log_step_lem index (reference_transaction_commit i) (with_words (with_log c index begun) w)
        begun (holding i log) (LogAt-put_log index c.transaction_log_set log begun registered)
        (simp (reads true false, set-set))
      ∙ simp (put_log-put_log index c.transaction_log_set log begun (holding i log) registered)

  pub take_reference_undisturbed :
      (v new : ℕ)
      → get_or c.state_slots.words i 0 ≡ v
      → (later : ℕ) × (take_reference alone i index v new c
          ≡ some (
            true,
            with_words
                (with_log c index (holding i log))
                (record { words = set c.state_slots.words i new; now = later }),
          ))
  unfolding take_reference settle compare_exchange
  take_reference_undisturbed v new at = (
    suc c.state_slots.now,
    simp (
      begin_step,
      at,
      ==_self v,
      commit_step (record { words = set c.state_slots.words i new; now = suc c.state_slots.now }),
    ),
  )

-- The word of a slot that takes one more reference.
pub record IsReferable (v : ℕ) : Type 0 where
  pub fits : v < 2 ^ 64
  pub written : is_in_writing v || is_invalid v ≡ false
  pub room : get_reference_count v < 2 ^ 32 - 1

pub next_word_lem : (v : ℕ) → IsReferable v → (v + 1) % 2 ^ 64 ≡ v + 1
unfolding get_reference_count
next_word_lem v r = omega (arith, r.fits, r.room)

referable :
    (v : ℕ)
    → IsReferable v
    → (is_in_writing v || is_invalid v || get_reference_count ((v + 1) % 2 ^ 64) == 0) ≡ false
unfolding get_reference_count
referable v r =
    let count = (((v + 1) % 2 ^ 64) % 2 ^ 32 == 0) in ground (arith, r.written, r.room, r.fits)

-- Asking for a registered log changes nothing.
pub asked :
    (index : ℕ) (c : EventDataControl) (log : TransactionLog)
    → LogAt c.transaction_log_set index log
    → log_step index some c ≡ some c
asked index c log at =
    log_step_lem index some c log log at refl
    ∙ ap (λ (logs : TransactionLogSet). some (record c { transaction_log_set = logs }))
        (put_log_self index c.transaction_log_set log at)

-- One round: granted at once.
specific_round_undisturbed :
    (c : EventDataControl) (index i : ℕ) (log : TransactionLog)
    → MayReference c index i log
    → IsReferable (get_or c.state_slots.words i 0)
    → (later : ℕ) × (reference_specific_round alone i index c
        ≡ some (
          returns true,
          with_words (with_log c index (holding i log)) (record {
            words = set c.state_slots.words i ((get_or c.state_slots.words i 0 + 1) % 2 ^ 64);
            now = later;
          }),
        ))
unfolding reference_specific_round
specific_round_undisturbed c index i log may r =
    let v = get_or c.state_slots.words i 0 in
    let c₁ = with_words c (record c.state_slots { now = suc c.state_slots.now }) in
    let may₁ : MayReference c₁ index i log = record {
      registered = may.registered;
      unrecorded = may.unrecorded;
      exists = may.exists;
    } in
    let (later, run) = take_reference_undisturbed c₁ index i log may₁ v ((v + 1) % 2 ^ 64) refl in
    (
      later,
      simp (referable v r) (
          ap
            (λ (m : Option (Bool × EventDataControl)).
              m >>= λ q. some (if q.0 then returns true else retries, q.1))
            run),
    )

-- Without interference, if its log is registered and records nothing of the slot, and the slot's word is written and has room for a reference, the call returns true at the first try, with the word's count one higher, the reference committed in the log, and nothing else changed.
pub reference_specific_event_undisturbed :
    (c : EventDataControl) (index i : ℕ) (log : TransactionLog)
    → MayReference c index i log
    → IsReferable (get_or c.state_slots.words i 0)
    → (later : ℕ) × (reference_specific_event alone i index c
        ≡ some (
          true,
          with_words (with_log c index (holding i log)) (record {
            words = set c.state_slots.words i (get_or c.state_slots.words i 0 + 1);
            now = later;
          }),
        ))
unfolding reference_specific_event reference_specific_loop
reference_specific_event_undisturbed c index i log may r =
    let (later, run) = specific_round_undisturbed c index i log may r in
    let granted = λ (new : ℕ).
      reference_specific_event alone i index c
      ≡ some (
        true,
        with_words (with_log c index (holding i log))
            (record { words = set c.state_slots.words i new; now = later }),
      ) in
    (
      later,
      subst granted (next_word_lem (get_or c.state_slots.words i 0) r)
          (simp (asked index c log may.registered, run)),
    )
