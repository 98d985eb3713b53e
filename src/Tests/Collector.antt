-- ===== src/Tests/Collector.antt =====
-- A proxy that collects samples (slot_collector.cpp), on concrete data.
use mathlib.Core.List.{reverse}
use inc_mw_com.Base.{
  ℕ, zero, suc, ◌*◌, ◌^◌, ◌<◌, ◌≡◌, refl, inr, false, Option, none, some, List, [], ◌∷◌, ◌++◌,
  arith, length, get_or, drop, alone, compare_exchange,
}
use inc_mw_com.EventSlotStatus.{
  timestamp_max, get_reference_count, get_time_stamp, is_invalid, is_in_writing, set_time_stamp,
  set_reference_count, event_slot_status, is_time_stamp_between,
}
use inc_mw_com.TransactionLog.{reference_transaction_begin, reference_transaction_commit}
use inc_mw_com.TransactionLog.Phases.{Reads}
use inc_mw_com.TransactionLogSet.{with_transaction_log}
use inc_mw_com.EventDataControl.State.{EventDataControl, slot_status}
use inc_mw_com.EventDataControl.Reference.{
  settle, take_reference, newest_loop, reference_newest, reference_next_round, reference_next_loop,
  reference_next_event,
}
use inc_mw_com.EventDataControl.Reference.Alone.{IsReferable}
use inc_mw_com.EventDataControl.Reference.Latest.{InRange, MayTake}
use inc_mw_com.SlotCollector.{
  SlotCollector, collect_loop, collect_slots, highest_loop, get_new_samples_slot_indices,
}
use inc_mw_com.SlotCollector.Collected.{Collected, referenced}
use inc_mw_com.SlotCollector.Delivered.{newest_stamp, get_new_samples_slot_indices_undisturbed}
use inc_mw_com.SlotCollector.GivenBack.{
  give_back, SameSlots, give_back-get_new_samples_slot_indices,
}
use inc_mw_com.Tests.{empty_log, node_of, three_slots, control}

-- The time stamps above 3 have not been seen, and there is room for two slots.
abbrev collector : SlotCollector
collector = record { last_ts = 3; collected_slots = 7 ∷ 7 ∷ []; transaction_log_index = 0 }

abbrev indices : Option (List ℕ × SlotCollector × EventDataControl) → List ℕ × ℕ
indices none = ([], 0)
indices (some (is, s, c)) = (is, s.last_ts)

oldest_first : indices (get_new_samples_slot_indices alone 5 collector control) ≡ (1 ∷ 0 ∷ [], 5)
unfolding get_new_samples_slot_indices collect_slots collect_loop highest_loop slot_status
    reference_next_event reference_next_loop reference_next_round reference_newest newest_loop
    take_reference settle compare_exchange is_invalid is_in_writing get_reference_count
    get_time_stamp is_time_stamp_between event_slot_status set_time_stamp set_reference_count
    with_transaction_log reference_transaction_begin reference_transaction_commit
oldest_first = refl

slot_0-IsReferable : IsReferable (5 * 2 ^ 32)
unfolding is_in_writing is_invalid get_reference_count
slot_0-IsReferable = record { fits = omega arith; written = refl; room = omega arith }

slot_1-IsReferable : IsReferable (4 * 2 ^ 32)
unfolding is_in_writing is_invalid get_reference_count
slot_1-IsReferable = record { fits = omega arith; written = refl; room = omega arith }

slot_2-out : ¬ InRange three_slots 3 timestamp_max 2
unfolding is_time_stamp_between is_in_writing
slot_2-out range = absurd cc

may_take : MayTake control 3 timestamp_max 0 empty_log
may_take = record {
  registered = inr (node_of empty_log, refl, refl, refl, refl);
  grantable = grant;
}
  where
    grant :
        (i : ℕ)
        → i < 3
        → InRange three_slots 3 timestamp_max i
        → Reads empty_log i false false × IsReferable (get_or three_slots i 0)
    grant zero lt range = (refl, slot_0-IsReferable)
    grant (suc zero) lt range = (refl, slot_1-IsReferable)
    grant (suc (suc zero)) lt range = absurd (slot_2-out range)
    grant (suc (suc (suc i))) lt range = absurd (omega arith)

get_new_samples_slot_indices_example :
    (is : List ℕ) × (c' : EventDataControl) × (get_new_samples_slot_indices alone 5 collector
        control
      ≡ some (
        reverse is,
        record collector {
          last_ts = newest_stamp three_slots 3 is;
          collected_slots = is ++ drop (length is) (7 ∷ 7 ∷ []);
        },
        c',
      ))
    × Collected three_slots 3 5 2 timestamp_max is
    × (c'.state_slots.words ≡ referenced is three_slots)
get_new_samples_slot_indices_example =
    get_new_samples_slot_indices_undisturbed 5 collector control empty_log (omega arith) may_take

give_back-get_new_samples_slot_indices_example :
    (is : List ℕ) × (s' : SlotCollector) × (c' : EventDataControl) × (d : EventDataControl)
    × (get_new_samples_slot_indices alone 5 collector control ≡ some (is, s', c'))
    × (give_back 0 is c' ≡ some d)
    × SameSlots control d
give_back-get_new_samples_slot_indices_example =
    give_back-get_new_samples_slot_indices 5 collector control empty_log (omega arith) may_take
