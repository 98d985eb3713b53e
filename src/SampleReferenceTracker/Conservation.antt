-- ===== src/SampleReferenceTracker/Conservation.antt =====
-- Uses of factories and guards, and the balance (sample_reference_tracker.cpp).
use inc_mw_com.Base.{
  ℕ, zero, suc, ◌+◌, ◌-◌, ◌^◌, ◌≤◌, ◌<◌, min, ◌≡◌, refl, ap, ◌≢◌, inl, inr, true, false, ◌||◌,
  Option, some, List, [], ◌∷◌, arith, ltb, leb, ◌==◌, ltb→lt, Bool-cases, length, get_or, set,
  get_or-set_ne, ◌>>=◌, alone,
}
use inc_mw_com.SampleReferenceTracker.{
  TrackerGuardFactory, SampleReferenceGuard, sample_reference_tracker, destroy_factory,
  assign_guard, move_guard, move_factory, take_guard,
}
use inc_mw_com.SampleReferenceTracker.Allocation.{allocate_undisturbed}
use inc_mw_com.SampleReferenceTracker.Balance.{
  World, Use, allocates, drops_factory, moves_factory, takes_guard, drops_guard, moves_guard,
  assigns_guard, guard_at, factory_at, apply_use, guards_left, weight, live_guards, tracker_with,
  Balanced, guards_left-set, live_guards-set, live_guards-empty, deallocate_undisturbed,
  deallocate_guard_undisturbed,
}

-- The use does not fail, and keeps the balance.
abbrev pub KeepsBalance : ℕ → Option World → Type 0
KeepsBalance n result = (w' : World) × (result ≡ some w') × Balanced n w'

weight_le :
    (gs : List SampleReferenceGuard) (i : ℕ)
    → weight (get_or gs i (record { has_tracker = false })) ≤ live_guards gs
weight_le [] i = omega arith
weight_le (x ∷ gs) zero = omega arith
weight_le (x ∷ gs) (suc i) = omega (arith, weight_le gs i)

guards_le :
    (fs : List TrackerGuardFactory) (i : ℕ)
    → (get_or fs i (record { num_available_guards = 0 })).num_available_guards ≤ guards_left fs
guards_le [] i = omega arith
guards_le (x ∷ fs) zero = omega arith
guards_le (x ∷ fs) (suc i) = omega (arith, guards_le fs i)

destroy_factory_undisturbed :
    (n v now : ℕ) (f : TrackerGuardFactory)
    → n < 2 ^ 64
    → v + f.num_available_guards ≤ n
    → (later : ℕ) × (destroy_factory alone f (tracker_with n v now)
        ≡ some (
          record { num_available_guards = 0 },
          tracker_with n (v + f.num_available_guards) later,
        ))
unfolding destroy_factory
destroy_factory_undisturbed n v now f small h = elim (Bool-cases (ltb 0 f.num_available_guards)) [
  | inl more ↦
      (suc (suc now), simp (more, deallocate_undisturbed n f.num_available_guards v now small h))
  | inr few ↦
      let nothing : f.num_available_guards ≡ 0 = ground arith in
      let same : v + f.num_available_guards ≡ v = omega arith in
      let cleared : f ≡ record { num_available_guards = 0 } =
        ap (λ k. let r : TrackerGuardFactory = record { num_available_guards = k } in r) nothing in
      (now, simp (few, same) (ap (λ r. some (r, tracker_with n v now)) cleared))
]

apply_use-Balanced :
    (n : ℕ) (u : Use) (w : World) → n < 2 ^ 64 → Balanced n w → KeepsBalance n (apply_use u w)
unfolding apply_use move_factory take_guard move_guard assign_guard
apply_use-Balanced n (allocates k) w small (v, now, e, b) =
    let (later, run) = allocate_undisturbed 0 k v now (tracker_with n 0 0) in
    let f : TrackerGuardFactory = record { num_available_guards = min v k } in
    (
      record w { tracker = tracker_with n (v - min v k) later; factories = f ∷ w.factories },
      simp (e, run),
      (v - min v k, later, refl, omega arith),
    )
apply_use-Balanced n (drops_factory i) w small (v, now, e, b) =
    let f = factory_at i w in
    let fits : v + f.num_available_guards ≤ n = omega (arith, guards_le w.factories i) in
    let (later, run) = destroy_factory_undisturbed n v now f small fits in
    let none_left : TrackerGuardFactory = record { num_available_guards = 0 } in
    (
      record w {
        tracker = tracker_with n (v + f.num_available_guards) later;
        factories = set w.factories i none_left;
      },
      simp (e, run),
      (
        v + f.num_available_guards,
        later,
        refl,
        omega (arith, guards_left-set w.factories i none_left (omega arith)),
      ),
    )
apply_use-Balanced n (moves_factory i) w small (v, now, e, b) =
    let none_left : TrackerGuardFactory = record { num_available_guards = 0 } in
    (
      record w { factories = factory_at i w ∷ set w.factories i none_left },
      refl,
      (v, now, e, omega (arith, guards_left-set w.factories i none_left (omega arith))),
    )
apply_use-Balanced n (takes_guard i) w small (v, now, e, b) =
    let f = factory_at i w in
    elim (Bool-cases (ltb 0 f.num_available_guards)) [
      | inl more ↦
          let one_less : TrackerGuardFactory = record {
            num_available_guards = f.num_available_guards - 1;
          } in
          (
            record w {
              factories = set w.factories i one_less;
              guards = record { has_tracker = true } ∷ w.guards;
            },
            simp more,
            (
              v,
              now,
              e,
              (let some_left : 0 < f.num_available_guards = ltb→lt _ _ more in
                  omega (arith, guards_left-set w.factories i one_less (omega arith))),
            ),
          )
      | inr few ↦ (
        record w { factories = set w.factories i f },
        simp few,
        (v, now, e, omega (arith, guards_left-set w.factories i f (omega arith))),
      )
    ]
apply_use-Balanced n (drops_guard i) w small (v, now, e, b) =
    let fits : v + weight (guard_at i w) ≤ n = omega (arith, weight_le w.guards i) in
    let (later, run) = deallocate_guard_undisturbed n v now (guard_at i w) small fits in
    (
      record w {
        tracker = tracker_with n (v + weight (guard_at i w)) later;
        guards = set w.guards i (record { has_tracker = false });
      },
      simp (e, run),
      (v + weight (guard_at i w), later, refl, omega (arith, live_guards-empty w.guards i)),
    )
apply_use-Balanced n (moves_guard i) w small (v, now, e, b) = (
  record w { guards = guard_at i w ∷ set w.guards i (record { has_tracker = false }) },
  refl,
  (v, now, e, omega (arith, live_guards-empty w.guards i)),
)
apply_use-Balanced n (assigns_guard i j) w small (v, now, e, b) =
    elim (Bool-cases (i == j || leb (length w.guards) i)) [
      | inl same ↦ (w, simp same, (v, now, e, b))
      | inr apart ↦
          let there : i < length w.guards = ground arith in
          let differ : i ≢ j = ground arith in
          let cleared : SampleReferenceGuard = record { has_tracker = false } in
          let moved = set w.guards i (guard_at j w) in
          let kept : get_or moved j cleared ≡ guard_at j w =
            get_or-set_ne w.guards i j (guard_at j w) cleared differ in
          let fits : v + weight (guard_at i w) ≤ n = omega (arith, weight_le w.guards i) in
          let (later, run) = deallocate_guard_undisturbed n v now (guard_at i w) small fits in
          let first = live_guards-set w.guards i (guard_at j w) there in
          let second : live_guards (set moved j cleared) + weight (guard_at j w)
              ≡ live_guards moved =
            rw kept at (live_guards-empty moved j) in
          (
            record w {
              tracker = tracker_with n (v + weight (guard_at i w)) later;
              guards = set moved j cleared;
            },
            simp (apart, e, run),
            (v + weight (guard_at i w), later, refl, omega (arith, first, second)),
          )
    ]

unfoldable pub apply_uses : List Use → World → Option World
apply_uses [] w = some w
apply_uses (u ∷ us) w = do w' ← apply_use u w; apply_uses us w'

uses-Balanced :
    (n : ℕ) (us : List Use) (w : World)
    → n < 2 ^ 64
    → Balanced n w
    → KeepsBalance n (apply_uses us w)
unfolding apply_uses
uses-Balanced n [] w small b = (w, refl, b)
uses-Balanced n (u ∷ us) w small b =
    let (w₁, e₁, b₁) = apply_use-Balanced n u w small b in
    let (w', e, b') = uses-Balanced n us w₁ small b₁ in (w', simp (e₁, e), b')

-- However samples are allocated, and factories and guards taken, moved, assigned and destroyed, while no two of these run at the same time: no assertion of the tracker fails, and what is available and what the factories and guards still hold are the maximum together. So no sample is lost, and none is given back twice.
pub apply_uses-Balanced :
    (n : ℕ) (us : List Use)
    → n < 2 ^ 64
    → KeepsBalance n (
        apply_uses us
          (record { tracker = sample_reference_tracker n; factories = []; guards = [] }))
unfolding sample_reference_tracker
apply_uses-Balanced n us small = uses-Balanced n us _ small (n, 0, refl, omega arith)
