-- ===== src/SampleReferenceTracker/Balance.antt =====
-- The balance of samples, factories and guards (sample_reference_tracker.cpp).
use inc_mw_com.Base.{
  ℕ, zero, suc, ◌+◌, ◌%◌, ◌^◌, ◌≤◌, ◌<◌, ◌≡◌, refl, ap, Bool, true, false, ◌||◌, Option, none, some,
  List, [], ◌∷◌, arith, leb, ◌==◌, if◌then◌else◌, length, get_or, set, ◌>>=◌, alone,
}
use inc_mw_com.SampleReferenceTracker.{
  SampleReferenceTracker, TrackerGuardFactory, SampleReferenceGuard, allocate, deallocate,
  deallocate_guard, destroy_factory, assign_guard, move_guard, move_factory, take_guard,
}
use inc_mw_com.SampleReferenceTracker.Allocation.{one_word}

-- A tracker with all factories and guards that were ever made; a destroyed one is empty.
pub record World : Type 0 where
  pub tracker : SampleReferenceTracker
  pub factories : List TrackerGuardFactory
  pub guards : List SampleReferenceGuard

-- What the user of a proxy does: the numbers tell which factory or guard.
pub data Use : Type 0 where
  allocates drops_factory moves_factory takes_guard drops_guard moves_guard : ℕ → Use
  assigns_guard : ℕ → ℕ → Use

abbrev pub guard_at : ℕ → World → SampleReferenceGuard
guard_at i w = get_or w.guards i (record { has_tracker = false })

abbrev pub factory_at : ℕ → World → TrackerGuardFactory
factory_at i w = get_or w.factories i (record { num_available_guards = 0 })

abbrev pub add_guard :
    Option SampleReferenceGuard → List SampleReferenceGuard → List SampleReferenceGuard
add_guard none gs = gs
add_guard (some g) gs = g ∷ gs

-- Each use runs while nobody interferes; an index that is not there is an empty object.
unfoldable pub apply_use : Use → World → Option World
apply_use (allocates n) w = do
  (f, t) ← allocate alone 3 n w.tracker
  some (record w { tracker = t; factories = f ∷ w.factories })
apply_use (drops_factory i) w = do
  (f, t) ← destroy_factory alone (factory_at i w) w.tracker
  some (record w { tracker = t; factories = set w.factories i f })
apply_use (moves_factory i) w =
    let (new, old) = move_factory (factory_at i w) in
    some (record w { factories = new ∷ set w.factories i old })
apply_use (takes_guard i) w =
    let (g, f) = take_guard (factory_at i w) in
    some (record w { factories = set w.factories i f; guards = add_guard g w.guards })
apply_use (drops_guard i) w = do
  (g, t) ← deallocate_guard alone (guard_at i w) w.tracker
  some (record w { tracker = t; guards = set w.guards i g })
apply_use (moves_guard i) w =
    let (new, old) = move_guard (guard_at i w) in
    some (record w { guards = new ∷ set w.guards i old })
apply_use (assigns_guard i j) w = if i == j || leb (length w.guards) i then some w else (do
  (g, other, t) ← assign_guard alone (guard_at i w) (guard_at j w) w.tracker
  some (record w { tracker = t; guards = set (set w.guards i g) j other }))

-- The samples that factories and guards may still give back.
abbrev pub guards_left : List TrackerGuardFactory → ℕ
guards_left [] = 0
guards_left (f ∷ fs) = f.num_available_guards + guards_left fs

abbrev pub weight : SampleReferenceGuard → ℕ
weight g = if g.has_tracker then 1 else 0

abbrev pub live_guards : List SampleReferenceGuard → ℕ
live_guards [] = 0
live_guards (g ∷ gs) = weight g + live_guards gs

abbrev pub tracker_with : ℕ → ℕ → ℕ → SampleReferenceTracker
tracker_with n v now = record { available_samples = one_word v now; max_num_samples = n }

-- What is available, and what factories and guards hold, is the maximum together.
abbrev pub Balanced : ℕ → World → Type 0
Balanced n w =
    (v now : ℕ) × (w.tracker ≡ tracker_with n v now)
    × (v + guards_left w.factories + live_guards w.guards ≡ n)

pub guards_left-set :
    (fs : List TrackerGuardFactory) (i : ℕ) (f : TrackerGuardFactory)
    → let old = get_or fs i (record { num_available_guards = 0 }) in
      f.num_available_guards ≤ old.num_available_guards
      → guards_left (set fs i f) + old.num_available_guards
        ≡ guards_left fs + f.num_available_guards
guards_left-set [] i f h = omega arith
guards_left-set (x ∷ fs) zero f h = omega arith
guards_left-set (x ∷ fs) (suc i) f h = omega (arith, guards_left-set fs i f h)

pub live_guards-set :
    (gs : List SampleReferenceGuard) (i : ℕ) (g : SampleReferenceGuard)
    → i < length gs
    → live_guards (set gs i g) + weight (get_or gs i (record { has_tracker = false }))
      ≡ live_guards gs + weight g
live_guards-set [] i g h = absurd (omega arith)
live_guards-set (x ∷ gs) zero g h = omega arith
live_guards-set (x ∷ gs) (suc i) g h = omega (arith, live_guards-set gs i g (omega arith))

pub live_guards-empty :
    (gs : List SampleReferenceGuard) (i : ℕ)
    → live_guards (set gs i (record { has_tracker = false }))
        + weight (get_or gs i (record { has_tracker = false }))
      ≡ live_guards gs
live_guards-empty [] i = omega arith
live_guards-empty (x ∷ gs) zero = omega arith
live_guards-empty (x ∷ gs) (suc i) = omega (arith, live_guards-empty gs i)

pub deallocate_undisturbed :
    (n k v now : ℕ)
    → n < 2 ^ 64
    → v + k ≤ n
    → deallocate alone k (tracker_with n v now) ≡ some (tracker_with n (v + k) (suc (suc now)))
unfolding deallocate
deallocate_undisturbed n k v now small h =
    let whole : (v + k) % 2 ^ 64 ≡ v + k = omega arith in
    let fits : leb (v + k) n ≡ true = ground arith in simp (whole, fits)

pub deallocate_guard_undisturbed :
    (n v now : ℕ) (g : SampleReferenceGuard)
    → n < 2 ^ 64
    → v + weight g ≤ n
    → (later : ℕ) × (deallocate_guard alone g (tracker_with n v now)
        ≡ some (record { has_tracker = false }, tracker_with n (v + weight g) later))
unfolding deallocate_guard
deallocate_guard_undisturbed n v now g small h = by_tracker g.has_tracker refl
  where
    by_tracker :
        (b : Bool)
        → g.has_tracker ≡ b
        → (later : ℕ) × (deallocate_guard alone g (tracker_with n v now)
            ≡ some (record { has_tracker = false }, tracker_with n (v + weight g) later))
    by_tracker true e =
        let back : v + 1 ≤ n = ground (arith, e) in
        (suc (suc now), simp (e, deallocate_undisturbed n 1 v now small back))
    by_tracker false e =
        let same : v + 0 ≡ v = omega arith in
        let cleared : g ≡ record { has_tracker = false } =
          ap (λ b. let r : SampleReferenceGuard = record { has_tracker = b } in r) e in
        (now, simp (e, same) (ap (λ r. some (r, tracker_with n v now)) cleared))
