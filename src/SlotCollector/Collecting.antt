-- ===== src/SlotCollector/Collecting.antt =====
-- CollectSlots (slot_collector.cpp) while no other process interferes.
use inc_mw_com.Base.{
  ℕ, zero, suc, ◌+◌, ◌^◌, ◌≤◌, ◌<◌, ◌≡◌, refl, sym, ap, subst, ◌∙◌, inl, inr, true, some, List, [],
  ◌∷◌, arith, ◌==◌, ==→eq, Bool-cases, get_or, set, length-set, get_or-set_self, get_or-set_ne,
  get_elem?-set_ne, alone,
}
use inc_mw_com.EventSlotStatus.{get_time_stamp, is_time_stamp_between}
use inc_mw_com.TransactionLog.{TransactionLog}
use inc_mw_com.TransactionLogSet.Access.{LogAt-put_log}
use inc_mw_com.EventDataControl.State.{EventDataControl, with_words, slot_status}
use inc_mw_com.EventDataControl.Reference.{count_ref}
use inc_mw_com.EventDataControl.Reference.Alone.{holding, IsReferable}
use inc_mw_com.EventDataControl.Reference.Latest.{
  IsNewest, MayTake, with_reference, reference_next_event_undisturbed,
}
use inc_mw_com.SlotCollector.{collect_loop}
use inc_mw_com.SlotCollector.Collected.{
  Collected, referenced, same_stamp, between_bounds, between_weaken, not_itself, same_word,
  set-Agrees, Collected-Agrees,
}

-- The control when the newest slot was referenced and its word was read.
abbrev pub after_one : EventDataControl → ℕ → ℕ → TransactionLog → ℕ → EventDataControl
after_one c index i log later =
    (slot_status alone i (count_ref 0 0 (with_reference c index i log later))).1

module _ (c : EventDataControl) (last upper index i : ℕ) (log : TransactionLog) (later : ℕ)
    (may : MayTake c last upper index log)
    (newest : IsNewest c.state_slots.words last upper i) where
  abbrev ws : List ℕ
  ws = c.state_slots.words

  abbrev top : ℕ
  top = get_time_stamp (get_or ws i 0)

  taken_IsReferable : IsReferable (get_or ws i 0)
  taken_IsReferable = (may.grantable i newest.0 newest.1).1

  below_top : top ≤ upper
  below_top = omega (arith, between_bounds (get_or ws i 0) last upper newest.1)

  pub next_MayTake : MayTake (after_one c index i log later) last top index (holding i log)
  unfolding slot_status
  next_MayTake = record {
    registered = LogAt-put_log index c.transaction_log_set log (holding i log) may.registered;
    grantable = λ j lt range.
        let ne = not_itself ws last i newest.0 taken_IsReferable j range in
        let same = same_word ws last i newest.0 taken_IsReferable j ne in
        let (unrecorded, referable) =
          may.grantable j (subst (λ n. j < n) (length-set ws i (get_or ws i 0 + 1)) lt) (
            between_weaken (get_or ws j 0) last top upper below_top
              (subst (λ v. is_time_stamp_between v last top ≡ true) same range)) in
        (
          get_elem?-set_ne log.reference_count_slots i j
                (record { transaction_begin = true; transaction_end = true }) ne
              ∙ unrecorded,
          subst IsReferable (sym same) referable,
        );
  }

  pub read_stamp :
      get_time_stamp (slot_status alone i (count_ref 0 0 (with_reference c index i log later))).0
      ≡ top
  unfolding slot_status
  read_stamp =
      ap get_time_stamp (get_or-set_self ws i (get_or ws i 0 + 1) 0 newest.0)
      ∙ same_stamp (get_or ws i 0) taken_IsReferable

  -- No time stamp differs from before.
  same_stamps :
      (j : ℕ)
      → get_time_stamp (get_or (after_one c index i log later).state_slots.words j 0)
        ≡ get_time_stamp (get_or ws j 0)
  unfolding slot_status
  same_stamps j = elim (Bool-cases (i == j)) [
    | inl h ↦
        subst
          (λ k.
            get_time_stamp (get_or (after_one c index i log later).state_slots.words k 0)
            ≡ get_time_stamp (get_or ws k 0))
          (==→eq i j h) read_stamp
    | inr h ↦
        ap get_time_stamp (get_or-set_ne ws i j (get_or ws i 0 + 1) 0 (λ e. ground (arith, h, e)))
  ]

-- What is collected, with the slots as they are then: only the reference counts differ from before.
pub collect_loop_undisturbed :
    (count room last index upper : ℕ) (c : EventDataControl) (log : TransactionLog)
    → last < 2 ^ 32
    → MayTake c last upper index log
    → (is : List ℕ) × (c' : EventDataControl) × (collect_loop alone last index count room upper c
        ≡ some (is, c'))
      × Collected c.state_slots.words last count room upper is
      × (c'.state_slots.words ≡ referenced is c.state_slots.words)
      × ((j : ℕ)
          → get_time_stamp (get_or c'.state_slots.words j 0)
            ≡ get_time_stamp (get_or c.state_slots.words j 0))
unfolding collect_loop slot_status
collect_loop_undisturbed zero room last index upper c log small may =
    ([], c, refl, refl, refl, λ j. refl)
collect_loop_undisturbed (suc count) zero last index upper c log small may =
    ([], c, refl, refl, refl, λ j. refl)
collect_loop_undisturbed (suc count) (suc room) last index upper c log small may =
    elim (reference_next_event_undisturbed last index upper c log small may) [
      | inl (nothing, later, run) ↦ (
        [],
        with_words c (record { words = c.state_slots.words; now = later }),
        simp run,
        nothing,
        refl,
        λ j. refl,
      )
      | inr (i, newest, later, run) ↦
          let stamp = read_stamp c last upper index i log later may newest in
          let (is, c', rest, collected, words, stamps) =
            collect_loop_undisturbed count room last index
              (get_time_stamp (get_or c.state_slots.words i 0)) (after_one c index i log later)
              (holding i log) small (next_MayTake c last upper index i log later may newest) in
          (
            i ∷ is,
            c',
            simp (run, stamp, rest),
            (
              newest,
              Collected-Agrees c.state_slots.words
                  (set c.state_slots.words i (get_or c.state_slots.words i 0 + 1)) last count room
                  (get_time_stamp (get_or c.state_slots.words i 0)) is
                  (set-Agrees c.state_slots.words last i newest.0
                    (may.grantable i newest.0 newest.1).1)
                  collected,
            ),
            words,
            λ j. stamps j ∙ same_stamps c last upper index i log later may newest j,
          )
    ]
