-- ===== src/EventDataControl/Reference/Latest.antt =====
-- ReferenceNextEvent (event_data_control.cpp) while no other process interferes.
use native.Mathlib.Decide.{dec_lt}
use inc_mw_com.TransactionLog.Phases.{Reads}
use inc_mw_com.Base.{
  ℕ, zero, suc, ◌+◌, ◌%◌, ◌^◌, ◌≤◌, ◌<◌, ◌≡◌, refl, sym, ap, subst, ◌∙◌, ◌⊎◌, inl, inr, true, false,
  Option, none, some, List, arith, Bool-cases, length, get_or, set, alone,
}
use inc_mw_com.EventSlotStatus.{get_time_stamp, event_slot_status, is_time_stamp_between}
use inc_mw_com.EventSlotStatus.Laws.{event_slot_status_fields}
use inc_mw_com.TransactionLog.{TransactionLog}
use inc_mw_com.TransactionLogSet.Access.{LogAt}
use inc_mw_com.EventDataControl.State.{EventDataControl, with_words}
use inc_mw_com.EventDataControl.Reference.{
  returns, count_ref, newest_loop, reference_newest, reference_next_round, reference_next_loop,
  reference_next_event,
}
use inc_mw_com.EventDataControl.Reference.Newest.{is_time_stamp_between_trans}
use inc_mw_com.EventDataControl.Reference.Alone.{
  with_log, MayReference, holding, take_reference_undisturbed, IsReferable, next_word_lem, asked,
}

-- The slot `j` has a written event whose time stamp is in the range.
abbrev pub InRange : List ℕ → ℕ → ℕ → ℕ → Type 0
InRange ws last upper j = is_time_stamp_between (get_or ws j 0) last upper ≡ true

-- Slot `i` has the greatest time stamp in the range.
abbrev pub IsNewest : List ℕ → ℕ → ℕ → ℕ → Type 0
IsNewest ws last upper i =
    (i < length ws)
    × InRange ws last upper i
    × ((j : ℕ)
        → j < length ws
        → InRange ws last upper j
        → get_time_stamp (get_or ws j 0) ≤ get_time_stamp (get_or ws i 0))

-- What the scan knows after the slots below `i`.
record Best (ws : List ℕ) (last upper i : ℕ) (sel : Option ℕ) (v : ℕ) : Type 0 where
  highest :
      (j : ℕ) → j < i → InRange ws last upper j → get_time_stamp (get_or ws j 0) ≤ get_time_stamp v
  above : last ≤ get_time_stamp v
  chosen : elim sel as (λ _. Type 0) [
    | none ↦ get_time_stamp v ≡ last
    | some k ↦ (k < length ws) × (get_or ws k 0 ≡ v) × (is_time_stamp_between v last upper ≡ true)
  ]

pub in_range_above :
    (v last upper : ℕ) → is_time_stamp_between v last upper ≡ true → last < get_time_stamp v
unfolding is_time_stamp_between
in_range_above v last upper h = ground arith

not_newer :
    (s t last upper : ℕ)
    → is_time_stamp_between s t upper ≡ false
    → is_time_stamp_between s last upper ≡ true
    → get_time_stamp s ≤ t
unfolding is_time_stamp_between
not_newer s t last upper h k = ground arith

up :
    (ws : List ℕ) (last upper i t t' : ℕ)
    → t ≤ t'
    → ((j : ℕ) → j < i → InRange ws last upper j → get_time_stamp (get_or ws j 0) ≤ t)
    → (InRange ws last upper i → get_time_stamp (get_or ws i 0) ≤ t')
    → (j : ℕ) → j < i + 1
    → InRange ws last upper j
    → get_time_stamp (get_or ws j 0) ≤ t'
up ws last upper i t t' le below here j lt range = elim (dec_lt j i) [
  | yes earlier ↦ omega (arith, below j earlier range)
  | no late ↦ let same : j ≡ i = omega arith in rw same (here (rw same at range))
]

abbrev Found : List ℕ → ℕ → ℕ → Option ℕ → ℕ → Type 0
Found ws last upper none v = (j : ℕ) → j < length ws → ¬ InRange ws last upper j
Found ws last upper (some k) v = IsNewest ws last upper k × (get_or ws k 0 ≡ v)

Best-Found :
    (ws : List ℕ) (last upper : ℕ) (sel : Option ℕ) (v : ℕ)
    → Best ws last upper (length ws) sel v
    → Found ws last upper sel v
Best-Found ws last upper none v b = λ j lt range.
    omega (arith, b.highest j lt range, in_range_above (get_or ws j 0) last upper range, b.chosen)
Best-Found ws last upper (some k) v b =
    let (lt, at, range) = b.chosen in
    ((lt, rw at range, λ j j_lt j_range. rw at (b.highest j j_lt j_range)), at)

newest_loop-Found :
    (ws : List ℕ) (last upper n i now : ℕ) (sel : Option ℕ) (v : ℕ)
    → i + n ≡ length ws
    → Best ws last upper i sel v
    → (r : Option ℕ) × (v' : ℕ) × (later : ℕ) × (newest_loop alone n i upper sel v
          (record { words = ws; now = now })
        ≡ (r, v', record { words = ws; now = later }))
      × Found ws last upper r v'
unfolding newest_loop
newest_loop-Found ws last upper zero i now sel v e b =
    let end : i ≡ length ws = omega arith in
    (sel, v, now, refl, Best-Found ws last upper sel v (rw end at b))
newest_loop-Found ws last upper (suc n) i now sel v e b =
    let s = get_or ws i 0 in
    elim (Bool-cases (is_time_stamp_between s (get_time_stamp v) upper)) [
      | inl newer ↦
          let (range, le) =
            is_time_stamp_between_trans s (get_time_stamp v) last upper b.above newer in
          let gt = in_range_above s (get_time_stamp v) upper newer in
          let b' : Best ws last upper (i + 1) (some i) s = record {
            highest =
                up ws last upper i (get_time_stamp v) (get_time_stamp s) (omega (arith, gt))
                  b.highest (λ _. omega arith);
            above = le;
            chosen = (omega arith, refl, range);
          } in
          let (r, v', later, run, found) =
            newest_loop-Found ws last upper n (i + 1) (suc now) (some i) s (omega arith) b' in
          (r, v', later, simp newer run, found)
      | inr older ↦
          let b' : Best ws last upper (i + 1) sel v = record {
            highest =
                up ws last upper i (get_time_stamp v) (get_time_stamp v) (omega arith) b.highest
                  (λ range. not_newer s (get_time_stamp v) last upper older range);
            above = b.above;
            chosen = b.chosen;
          } in
          let (r, v', later, run, found) =
            newest_loop-Found ws last upper n (i + 1) (suc now) sel v (omega arith) b' in
          (r, v', later, simp older run, found)
    ]

-- Every slot in the range can be referenced under the index: the process's log is registered there and records nothing of the slot, and the word has room for a reference.
pub record MayTake (c : EventDataControl) (last upper index : ℕ) (log : TransactionLog)
    : Type 0 where
  pub registered : LogAt c.transaction_log_set index log
  pub grantable :
      (i : ℕ)
      → i < length c.state_slots.words
      → InRange c.state_slots.words last upper i
      → Reads log i false false × IsReferable (get_or c.state_slots.words i 0)

abbrev pub with_reference : EventDataControl → ℕ → ℕ → TransactionLog → ℕ → EventDataControl
with_reference c index i log later =
    with_words (with_log c index (holding i log)) (record {
      words = set c.state_slots.words i (get_or c.state_slots.words i 0 + 1);
      now = later;
    })

take_newest :
    (c : EventDataControl) (last upper index i now : ℕ) (log : TransactionLog)
    → MayTake c last upper index log
    → i < length c.state_slots.words
    → InRange c.state_slots.words last upper i
    → (v : ℕ) → get_or c.state_slots.words i 0 ≡ v
    → (later : ℕ) × (reference_newest alone index
          (some i, v, record { words = c.state_slots.words; now = now })
          c
        ≡ some (returns (some i), with_reference c index i log later))
unfolding reference_newest
take_newest c last upper index i now log may lt range v at =
    let (unrecorded, r) = may.grantable i lt range in
    let c₁ = with_words c (record { words = c.state_slots.words; now = now }) in
    let may₁ : MayReference c₁ index i log = record {
      registered = may.registered;
      unrecorded = unrecorded;
      exists = lt;
    } in
    let (later, run) = take_reference_undisturbed c₁ index i log may₁ v ((v + 1) % 2 ^ 64) at in
    let next : (v + 1) % 2 ^ 64 ≡ get_or c.state_slots.words i 0 + 1 =
      next_word_lem v (subst IsReferable at r) ∙ ap (λ k. k + 1) (sym at) in
    (later, simp run (simp next))

-- While no other process interferes, and if every slot in the range between last_search_time and the upper limit can be referenced: if there is no such slot, none is returned and slots and logs are as before; otherwise a slot with the greatest time stamp in the range is referenced at the first try and returned, with the reference committed in the log.
pub reference_next_event_undisturbed :
    (last index upper : ℕ) (c : EventDataControl) (log : TransactionLog)
    → last < 2 ^ 32
    → MayTake c last upper index log
    → (((j : ℕ) → j < length c.state_slots.words → ¬ InRange c.state_slots.words last upper j)
        × (later : ℕ) × (reference_next_event alone last index upper c
            ≡ some (none, with_words c (record { words = c.state_slots.words; now = later }))))
      ⊎ ((i : ℕ) × IsNewest c.state_slots.words last upper i
          × (later : ℕ) × (reference_next_event alone last index upper c
              ≡ some (some i, count_ref 0 0 (with_reference c index i log later))))
unfolding reference_next_event reference_next_loop reference_next_round
reference_next_event_undisturbed last index upper c log small may =
    let ws = c.state_slots.words in
    let (stamp, _, _) = event_slot_status_fields last 0 small (omega arith) in
    let start : Best ws last upper 0 none (event_slot_status last 0) = record {
      highest = λ j lt range. absurd (omega arith);
      above = omega (arith, stamp);
      chosen = stamp;
    } in
    let (r, v, later, run, found) =
      newest_loop-Found ws last upper (length ws) 0 c.state_slots.now none
        (event_slot_status last 0) (omega arith) start in
    split r v later run found
  where
    split :
        (r : Option ℕ) (v later : ℕ)
        → newest_loop alone
            (length c.state_slots.words)
            0
            upper
            none
            (event_slot_status last 0)
            c.state_slots
          ≡ (r, v, record { words = c.state_slots.words; now = later })
        → Found c.state_slots.words last upper r v
        → (((j : ℕ) → j < length c.state_slots.words → ¬ InRange c.state_slots.words last upper j)
            × (later : ℕ) × (reference_next_event alone last index upper c
                ≡ some (none, with_words c (record { words = c.state_slots.words; now = later }))))
          ⊎ ((i : ℕ) × IsNewest c.state_slots.words last upper i
              × (later : ℕ) × (reference_next_event alone last index upper c
                  ≡ some (some i, count_ref 0 0 (with_reference c index i log later))))
    split none v later run found =
        inl (found, later, simp (asked index c log may.registered, run, reference_newest))
    split (some i) v later run (newest, at) =
        let (end, taken) = take_newest c last upper index i later log may newest.0 newest.1 v at in
        inr (i, newest, end, simp (asked index c log may.registered, run, taken))
