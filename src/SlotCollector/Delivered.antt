-- ===== src/SlotCollector/Delivered.antt =====
-- GetNewSamplesSlotIndices (slot_collector.cpp) while no other process interferes.
use mathlib.Core.List.{reverse, reverse-cons}
use inc_mw_com.Base.{
  ℕ, zero, suc, ◌^◌, ◌≤◌, ◌<◌, max, ◌≡◌, refl, ap, ◌∙◌, some, List, [], ◌∷◌, ◌++◌, arith, length,
  get_or, drop, alone,
}
use inc_mw_com.EventSlotStatus.{timestamp_max, get_time_stamp}
use inc_mw_com.TransactionLog.{TransactionLog}
use inc_mw_com.EventDataControl.State.{EventDataControl, with_words, slot_status}
use inc_mw_com.EventDataControl.Reference.Latest.{in_range_above, MayTake}
use inc_mw_com.SlotCollector.{
  SlotCollector, collect_slots, highest_loop, get_new_samples_slot_indices,
}
use inc_mw_com.SlotCollector.Collected.{Collected, referenced, between_bounds}
use inc_mw_com.SlotCollector.Collecting.{collect_loop_undisturbed}

-- The time stamp of the newest of the collected slots; `last` without any.
abbrev pub newest_stamp : List ℕ → ℕ → List ℕ → ℕ
newest_stamp ws last [] = last
newest_stamp ws last (i ∷ is) = get_time_stamp (get_or ws i 0)

module _ (ws : List ℕ) where
  abbrev pub highest : List ℕ → ℕ → ℕ
  highest [] t = t
  highest (i ∷ is) t = highest is (max t (get_time_stamp (get_or ws i 0)))

  highest-append :
      (xs : List ℕ) (i t : ℕ)
      → highest (xs ++ i ∷ []) t ≡ max (highest xs t) (get_time_stamp (get_or ws i 0))
  highest-append [] i t = refl
  highest-append (x ∷ xs) i t = highest-append xs i (max t (get_time_stamp (get_or ws x 0)))

  newest_stamp_below :
      (last count room upper : ℕ) (is : List ℕ)
      → last ≤ upper
      → Collected ws last count room upper is
      → newest_stamp ws last is ≤ upper
  newest_stamp_below last count room upper [] le h = le
  newest_stamp_below last zero room upper (i ∷ is) le h = cc
  newest_stamp_below last (suc count) zero upper (i ∷ is) le h = cc
  newest_stamp_below last (suc count) (suc room) upper (i ∷ is) le (newest, rest) =
      omega (arith, between_bounds (get_or ws i 0) last upper newest.1)

  -- The newest slot is collected first and read last.
  highest-reverse :
      (last count room upper : ℕ) (is : List ℕ)
      → Collected ws last count room upper is
      → highest (reverse is) last ≡ newest_stamp ws last is
  highest-reverse last count room upper [] h = refl
  highest-reverse last zero room upper (i ∷ is) h = cc
  highest-reverse last (suc count) zero upper (i ∷ is) h = cc
  highest-reverse last (suc count) (suc room) upper (i ∷ is) (newest, rest) =
      let top = get_time_stamp (get_or ws i 0) in
      let le =
        newest_stamp_below last count room top is
          (omega (arith, in_range_above (get_or ws i 0) last upper newest.1)) rest in
      ap (λ xs. highest xs last) (reverse-cons i is)
      ∙ highest-append (reverse is) i last
      ∙ ap (λ t. max t top) (highest-reverse last count room top is rest)
      ∙ omega (arith, le)

-- The loop reads the stamps and changes nothing.
pub highest_loop-alone :
    (ws : List ℕ) (is : List ℕ) (t : ℕ) (c : EventDataControl)
    → ((j : ℕ) → get_time_stamp (get_or c.state_slots.words j 0) ≡ get_time_stamp (get_or ws j 0))
    → (later : ℕ) × (highest_loop alone is t c
        ≡ (highest ws is t, with_words c (record { words = c.state_slots.words; now = later })))
unfolding highest_loop slot_status
highest_loop-alone ws [] t c h = (c.state_slots.now, refl)
highest_loop-alone ws (i ∷ is) t c h =
    let (later, run) =
      highest_loop-alone ws is (max t (get_time_stamp (get_or ws i 0)))
        (with_words c (record { words = c.state_slots.words; now = suc c.state_slots.now })) h in
    (later, simp (h i, run))

-- While no other process interferes, and if every slot in the range from last_ts up can be referenced, GetNewSamplesSlotIndices collects the newest slot, then the newest among the older ones, and so on, until max_count, the room for indices or the slots above last_ts run out; it hands the slots out in the reverse order, last_ts becomes the time stamp of the newest one, and each collected slot has one more reference.
pub get_new_samples_slot_indices_undisturbed :
    (max_count : ℕ) (s : SlotCollector) (c : EventDataControl) (log : TransactionLog)
    → s.last_ts < 2 ^ 32
    → MayTake c s.last_ts timestamp_max s.transaction_log_index log
    → (is : List ℕ) × (c' : EventDataControl) × (get_new_samples_slot_indices alone max_count s c
        ≡ some (
          reverse is,
          record s {
            last_ts = newest_stamp c.state_slots.words s.last_ts is;
            collected_slots = is ++ drop (length is) s.collected_slots;
          },
          c',
        ))
      × Collected c.state_slots.words s.last_ts max_count
          (length s.collected_slots)
          timestamp_max
          is
      × (c'.state_slots.words ≡ referenced is c.state_slots.words)
unfolding get_new_samples_slot_indices collect_slots
get_new_samples_slot_indices_undisturbed max_count s c log small may =
    let ws = c.state_slots.words in
    let room = length s.collected_slots in
    let (is, c', run, collected, words, stamps) =
      collect_loop_undisturbed max_count room s.last_ts s.transaction_log_index timestamp_max c log
        small may in
    let (later, read) = highest_loop-alone ws (reverse is) s.last_ts c' stamps in
    (
      is,
      with_words c' (record { words = c'.state_slots.words; now = later }),
      simp (run, read, highest-reverse ws s.last_ts max_count room timestamp_max is collected),
      collected,
      words,
    )
