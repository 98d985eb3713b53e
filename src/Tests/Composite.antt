-- ===== src/Tests/Composite.antt =====
-- Both views of the slots (event_data_control_composite.cpp) on concrete words.
use inc_mw_com.Base.{◌+◌, ◌*◌, ◌^◌, ◌≡◌, refl, true, false, some, [], ◌∷◌, alone}
use inc_mw_com.EventDataControl.State.{EventDataControl}
use inc_mw_com.EventSlotStatus.{get_reference_count, is_invalid, is_in_writing, is_used}
use inc_mw_com.EventDataControlComposite.{
  EventDataControlComposite, event_data_control_composite, Both, consider_multi, next_free_loop,
  get_next_free_multi_slot, lock_found, multi_loop, allocate_next_multi_slot, composite_allocate,
  allocate_next_slot_composite, is_qm_control_disconnected, get_qm_event_data_control,
}
use inc_mw_com.EventDataControlComposite.Locking.{BothLocked, allocate_next_multi_slot_lem}
use inc_mw_com.EventDataControlComposite.Disconnected.{
  allocates, makes_ready, discards, run, IsDisconnected, stays_cut_off,
}
use inc_mw_com.Tests.{meddling, three_slots, control}

abbrev both : Both
both = record {
  qm = record { words = three_slots; now = 0 };
  b = record { words = three_slots; now = 0 };
}

allocate_next_multi_slot_example :
    BothLocked meddling alone both (allocate_next_multi_slot meddling alone both)
allocate_next_multi_slot_example = allocate_next_multi_slot_lem meddling alone both

-- QM readers hold the only slot, so the composite gives them up.
abbrev held : EventDataControl
held = record control { state_slots = record { words = (5 * 2 ^ 32 + 1) ∷ []; now = 0 } }

abbrev free : EventDataControl
free = record control { state_slots = record { words = (5 * 2 ^ 32) ∷ []; now = 0 } }

abbrev views : EventDataControlComposite
views = record { asil_qm_control = held; asil_b_control = some free; ignore_qm_control = false }

makes_views : event_data_control_composite (some held) (some free) ≡ some views
unfolding event_data_control_composite
makes_views = refl

disconnects : is_qm_control_disconnected (run alone alone (allocates ∷ []) views) ≡ true
unfolding is_qm_control_disconnected run allocate_next_slot_composite composite_allocate
    allocate_next_multi_slot multi_loop lock_found get_next_free_multi_slot next_free_loop
    consider_multi is_invalid is_used is_in_writing get_reference_count
disconnects = refl

stays_cut_off_example :
    IsDisconnected alone alone
      (get_qm_event_data_control (run alone alone (allocates ∷ []) views))
      (run alone alone (allocates ∷ makes_ready 0 6 ∷ discards 0 ∷ []) views)
stays_cut_off_example =
    stays_cut_off alone alone (some held) (some free) views (allocates ∷ [])
      (makes_ready 0 6 ∷ discards 0 ∷ []) makes_views disconnects
