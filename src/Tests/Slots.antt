-- ===== src/Tests/Slots.antt =====
-- The slots of an event (event_data_control.cpp) on concrete words.
use inc_mw_com.Base.{
  ℕ, zero, suc, ◌+◌, ◌*◌, ◌^◌, ◌<◌, ◌≡◌, refl, ◌⊎◌, inr, true, false, none, some, [], ◌∷◌, arith,
  ltb, ◌==◌, get_or, set, Interference, alone, compare_exchange,
}
use inc_mw_com.EventSlotStatus.{
  in_writing, get_reference_count, get_time_stamp, is_invalid, is_in_writing, set_time_stamp,
  set_reference_count, event_slot_status, is_time_stamp_between,
}
use inc_mw_com.TransactionLog.{reference_transaction_begin, reference_transaction_commit}
use inc_mw_com.TransactionLogSet.{with_transaction_log}
use inc_mw_com.EventDataControl.State.{
  EventDataControl, with_words, dereference_event, remove_allocations_loop,
  remove_allocations_for_writing,
}
use inc_mw_com.EventDataControl.Allocate.{
  consider, find_oldest_loop, find_oldest_unused_slot, lock_selected, allocate_attempt,
  allocate_loop, allocate_next_slot,
}
use inc_mw_com.EventDataControl.Allocate.Exclusive.{Allocates, allocate_next_slot_lem}
use inc_mw_com.EventDataControl.Allocate.Oldest.{
  IsOldest, IsExhausted, allocate_next_slot_undisturbed,
}
use inc_mw_com.EventDataControl.Reference.{
  count_ref, settle, take_reference, reference_specific_round, reference_specific_loop,
  reference_specific_event, newest_loop, reference_newest, reference_next_round,
  reference_next_loop, reference_next_event,
}
use inc_mw_com.EventDataControl.Reference.Taken.{ReferencesSpecific, reference_specific_event_lem}
use inc_mw_com.EventDataControl.Reference.Newest.{SampleTaken, reference_next_event_lem}
use inc_mw_com.EventDataControl.Reference.GiveBack.{dereference-reference}
use inc_mw_com.EventDataControl.Reference.Alone.{MayReference, holding, IsReferable}
use inc_mw_com.EventDataControl.Reference.Latest.{
  InRange, IsNewest, MayTake, with_reference, reference_next_event_undisturbed,
}
use inc_mw_com.TransactionLog.Phases.{Reads}
use inc_mw_com.Tests.{meddling, empty_log, node_of, logs_of, three_slots, control}

allocate_next_slot_example : Allocates meddling control (allocate_next_slot meddling control)
allocate_next_slot_example = allocate_next_slot_lem meddling control

allocate_next_slot_undisturbed_example :
    ((i : ℕ) × IsOldest control.state_slots.words i
      × ((allocate_next_slot alone control).0 ≡ some i)
      × ((allocate_next_slot alone control).1.state_slots.words
          ≡ set control.state_slots.words i in_writing))
    ⊎ (IsExhausted control.state_slots.words
        × ((allocate_next_slot alone control).0 ≡ none)
        × ((allocate_next_slot alone control).1.state_slots.words ≡ control.state_slots.words))
allocate_next_slot_undisturbed_example = allocate_next_slot_undisturbed control

-- The slot with the older time stamp is taken.
takes_older : (allocate_next_slot alone control).0 ≡ some 1
unfolding allocate_next_slot allocate_loop allocate_attempt find_oldest_unused_slot find_oldest_loop
    lock_selected compare_exchange consider is_invalid is_in_writing get_reference_count
    get_time_stamp
takes_older = refl

-- The log once slot `i` is referenced.
abbrev referenced : ℕ → EventDataControl
referenced i = record control {
  state_slots = record { words = set three_slots i (get_or three_slots i 0 + 1); now = 2 };
  transaction_log_set = logs_of (holding i empty_log);
}

references_specific : reference_specific_event alone 1 0 control ≡ some (true, referenced 1)
unfolding reference_specific_event reference_specific_loop reference_specific_round take_reference
    settle compare_exchange is_invalid is_in_writing get_reference_count with_transaction_log
    reference_transaction_begin reference_transaction_commit
references_specific = refl

reference_specific_event_example :
    ReferencesSpecific alone control.state_slots 1 true (referenced 1).state_slots
reference_specific_event_example =
    reference_specific_event_lem alone 1 0 control (referenced 1) true references_specific

abbrev newest : EventDataControl
newest = record (referenced 0) {
  state_slots = record { words = set three_slots 0 (5 * 2 ^ 32 + 1); now = 4 };
}

references_newest : reference_next_event alone 3 0 100 control ≡ some (some 0, newest)
unfolding reference_next_event reference_next_loop reference_next_round reference_newest newest_loop
    take_reference settle compare_exchange is_invalid is_in_writing get_reference_count
    get_time_stamp is_time_stamp_between event_slot_status set_time_stamp set_reference_count
    with_transaction_log reference_transaction_begin reference_transaction_commit
references_newest = refl

reference_next_event_example :
    SampleTaken alone control.state_slots 3 100 (some 0) newest.state_slots
reference_next_event_example =
    reference_next_event_lem alone 3 0 100 control newest (some 0) (omega arith) references_newest

may_reference : MayReference control 0 1 empty_log
may_reference = record {
  registered = inr (node_of empty_log, refl, refl, refl, refl);
  unrecorded = refl;
  exists = omega arith;
}

word-IsReferable : IsReferable (4 * 2 ^ 32)
unfolding is_in_writing is_invalid get_reference_count
word-IsReferable = record { fits = omega arith; written = refl; room = omega arith }

dereference-reference_example :
    (c₁ : EventDataControl) × (c₂ : EventDataControl) × (reference_specific_event alone 1 0 control
      ≡ some (true, c₁))
    × (dereference_event alone 1 0 c₁ ≡ some c₂)
    × (c₂.state_slots.words ≡ three_slots)
    × (c₂.transaction_log_set ≡ control.transaction_log_set)
dereference-reference_example =
    dereference-reference control 0 1 empty_log may_reference word-IsReferable

-- The only slot cannot be exchanged before access 300, which is that of the last round.
abbrev stubborn : Interference
stubborn = record alone { spurious = λ n. ltb n 300 }

abbrev one_slot : EventDataControl
one_slot = record control { state_slots = record { words = 0 ∷ []; now = 0 } }

-- A slot that is locked in the last round is withheld, and stays in writing.
lost_slot :
    ((allocate_next_slot stubborn one_slot).0 ≡ none)
    × ((allocate_next_slot stubborn one_slot).1.state_slots.words ≡ in_writing ∷ [])
unfolding allocate_next_slot allocate_loop allocate_attempt find_oldest_unused_slot find_oldest_loop
    lock_selected compare_exchange consider is_invalid is_in_writing get_reference_count
    get_time_stamp
lost_slot = (refl, refl)

-- A weak exchange that fails idly ends the process that cleans up after a dead skeleton.
terminates : remove_allocations_for_writing (record alone { spurious = λ n. n == 3 }) control ≡ none
unfolding remove_allocations_for_writing remove_allocations_loop is_in_writing compare_exchange
terminates = refl

slot_0-IsReferable : IsReferable (5 * 2 ^ 32)
unfolding is_in_writing is_invalid get_reference_count
slot_0-IsReferable = record { fits = omega arith; written = refl; room = omega arith }

slot_2-out : ¬ InRange three_slots 3 100 2
unfolding is_time_stamp_between is_in_writing
slot_2-out range = absurd cc

may_take : MayTake control 3 100 0 empty_log
may_take = record {
  registered = inr (node_of empty_log, refl, refl, refl, refl);
  grantable = grant;
}
  where
    grant :
        (i : ℕ)
        → i < 3
        → InRange three_slots 3 100 i
        → Reads empty_log i false false × IsReferable (get_or three_slots i 0)
    grant zero lt range = (refl, slot_0-IsReferable)
    grant (suc zero) lt range = (refl, word-IsReferable)
    grant (suc (suc zero)) lt range = absurd (slot_2-out range)
    grant (suc (suc (suc i))) lt range = absurd (omega arith)

reference_next_event_undisturbed_example :
    (((j : ℕ) → j < 3 → ¬ InRange three_slots 3 100 j)
      × (later : ℕ) × (reference_next_event alone 3 0 100 control
          ≡ some (none, with_words control (record { words = three_slots; now = later }))))
    ⊎ ((i : ℕ) × IsNewest three_slots 3 100 i
        × (later : ℕ) × (reference_next_event alone 3 0 100 control
            ≡ some (some i, count_ref 0 0 (with_reference control 0 i empty_log later))))
reference_next_event_undisturbed_example =
    reference_next_event_undisturbed 3 0 100 control empty_log (omega arith) may_take
