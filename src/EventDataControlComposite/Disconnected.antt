-- ===== src/EventDataControlComposite/Disconnected.antt =====
-- The composite once QM readers are disconnected (event_data_control_composite.cpp).
use mathlib.Core.Option
use inc_mw_com.Base.{
  ℕ, ◌≡◌, refl, subst, Bool, true, false, Option, none, some, List, [], ◌∷◌, ◌++◌, some_eq,
  Interference,
}
use inc_mw_com.EventDataControl.State.{EventDataControl}
use inc_mw_com.EventDataControlComposite.{
  EventDataControlComposite, event_data_control_composite, Both, allocate_next_multi_slot,
  after_multi, composite_allocate, allocate_next_slot_composite, event_ready_composite,
  discard_composite, is_qm_control_disconnected, get_qm_event_data_control,
}

-- One call by the process that writes the event.
pub data Call : Type 0 where
  allocates : Call
  makes_ready : ℕ → ℕ → Call
  discards : ℕ → Call

-- QM readers are disconnected only where there is an ASIL-B control.
pub record IsSound (c : EventDataControlComposite) : Type 0 where
  pub b_left : c.ignore_qm_control ≡ true → (b : EventDataControl) × (c.asil_b_control ≡ some b)

pub event_data_control_composite-IsSound :
    (qm b : Option EventDataControl) (c : EventDataControlComposite)
    → event_data_control_composite qm b ≡ some c
    → IsSound c
unfolding event_data_control_composite
event_data_control_composite-IsSound (some qm) b c h =
    subst IsSound (some_eq h) (record { b_left = λ e. absurd cc })
event_data_control_composite-IsSound none b c h = absurd cc

module _ (env_qm env_b : Interference) where
  abbrev pub call : Call → EventDataControlComposite → EventDataControlComposite
  call allocates c = (allocate_next_slot_composite env_qm env_b c).1
  call (makes_ready slot time_stamp) c = event_ready_composite env_qm env_b slot time_stamp c
  call (discards slot) c = discard_composite env_qm env_b slot c

  unfoldable pub run : List Call → EventDataControlComposite → EventDataControlComposite
  run [] c = c
  run (x ∷ xs) c = run xs (call x c)

  -- QM readers are disconnected, and their control is `qm`.
  abbrev pub IsDisconnected : EventDataControl → EventDataControlComposite → Type 0
  IsDisconnected qm c =
      (c.ignore_qm_control ≡ true)
      × (c.asil_qm_control ≡ qm)
      × ((b : EventDataControl) × (c.asil_b_control ≡ some b))

  after_multi-IsSound :
      (c : EventDataControlComposite) (b : EventDataControl) (r : Option ℕ × Both)
      → IsSound (after_multi env_qm env_b c b r).1
  after_multi-IsSound c b (some slot, s) = record { b_left = λ _. (_, refl) }
  after_multi-IsSound c b (none, s) = record { b_left = λ _. (_, refl) }

  allocates-IsSound :
      (c : EventDataControlComposite) (b : Option EventDataControl) (ignored : Bool)
      → IsSound c
      → IsSound (composite_allocate env_qm env_b b ignored c).1
  unfolding composite_allocate
  allocates-IsSound c (some b) false h = after_multi-IsSound c b (
      allocate_next_multi_slot env_qm env_b
        (record { qm = c.asil_qm_control.state_slots; b = b.state_slots }))
  allocates-IsSound c (some b) true h = record { b_left = λ _. (_, refl) }
  allocates-IsSound c none ignored h = record { b_left = h.b_left }

  map-some :
      (f : EventDataControl → EventDataControl) (x : Option EventDataControl)
      → (b : EventDataControl) × (x ≡ some b)
      → (b : EventDataControl) × (Option.map f x ≡ some b)
  map-some f x (b, e) = (f b, rw e refl)

  call-IsSound : (x : Call) (c : EventDataControlComposite) → IsSound c → IsSound (call x c)
  unfolding allocate_next_slot_composite event_ready_composite discard_composite
  call-IsSound allocates c h = allocates-IsSound c c.asil_b_control c.ignore_qm_control h
  call-IsSound (makes_ready slot t) c h = record { b_left = λ e. map-some _ _ (h.b_left e) }
  call-IsSound (discards slot) c h = record { b_left = λ e. map-some _ _ (h.b_left e) }

  call-IsDisconnected :
      (x : Call) (qm : EventDataControl) (c : EventDataControlComposite)
      → IsDisconnected qm c
      → IsDisconnected qm (call x c)
  unfolding allocate_next_slot_composite event_ready_composite discard_composite composite_allocate
  call-IsDisconnected allocates qm c (ignored, same, (b, left)) =
      rw (left, ignored) (refl, same, (_, refl))
  call-IsDisconnected (makes_ready slot t) qm c (ignored, same, left) =
      (ignored, rw ignored same, map-some _ _ left)
  call-IsDisconnected (discards slot) qm c (ignored, same, left) =
      (ignored, rw ignored same, map-some _ _ left)

  pub run-IsSound :
      (xs : List Call) (c : EventDataControlComposite) → IsSound c → IsSound (run xs c)
  unfolding run
  run-IsSound [] c h = h
  run-IsSound (x ∷ xs) c h = run-IsSound xs (call x c) (call-IsSound x c h)

  run-IsDisconnected :
      (xs : List Call) (qm : EventDataControl) (c : EventDataControlComposite)
      → IsDisconnected qm c
      → IsDisconnected qm (run xs c)
  unfolding run
  run-IsDisconnected [] qm c h = h
  run-IsDisconnected (x ∷ xs) qm c h =
      run-IsDisconnected xs qm (call x c) (call-IsDisconnected x qm c h)

  run-append :
      (xs ys : List Call) (c : EventDataControlComposite) → run (xs ++ ys) c ≡ run ys (run xs c)
  unfolding run
  run-append [] ys c = refl
  run-append (x ∷ xs) ys c = run-append xs ys (call x c)

  -- Whatever other processes do: if QM readers are disconnected after some calls (allocate, ready, discard) on a newly made composite, they stay disconnected after any further calls, which leave the QM control exactly as it was, and there is an ASIL-B control.
  pub stays_cut_off :
      (qm b : Option EventDataControl) (c : EventDataControlComposite) (xs ys : List Call)
      → event_data_control_composite qm b ≡ some c
      → is_qm_control_disconnected (run xs c) ≡ true
      → IsDisconnected (get_qm_event_data_control (run xs c)) (run (xs ++ ys) c)
  unfolding is_qm_control_disconnected get_qm_event_data_control
  stays_cut_off qm b c xs ys made ignored =
      let sound = run-IsSound xs c (event_data_control_composite-IsSound qm b c made) in
      rw (run-append xs ys c) (
        run-IsDisconnected ys (run xs c).asil_qm_control (run xs c)
          (ignored, refl, sound.b_left ignored))
