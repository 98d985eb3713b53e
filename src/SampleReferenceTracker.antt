-- ===== src/SampleReferenceTracker.antt =====
-- mw/com/impl/sample_reference_tracker.{h,cpp}: how many samples of an event the user of a proxy may
-- still hold, and the guards that give them back.
pub mod Allocation
pub mod Balance
pub mod Conservation
use inc_mw_com.Base.{
  ℕ, zero, suc, ◌+◌, ◌-◌, ◌*◌, ◌/◌, ◌%◌, ◌^◌, ◌≤◌, ◌<◌, min, max, ◌≡◌, refl, sym, ap, subst, ◌∙◌,
  ◌≢◌, ◌↔◌, ◌⊎◌, inl, inr, Bool, true, false, not, ◌&&◌, ◌||◌, Option, none, some, List, [], ◌∷◌,
  ◌++◌, map, arith, ltb, leb, ◌==◌, if◌then◌else◌, ltb→lt, ltb→ge, leb→le, leb→gt, ==→eq, ==_self,
  Bool-cases, Option-cases, length, get_elem?, get_or, set, take, drop, All, replicate,
  length-append, length-set, length-replicate, get_or-set_self, get_or-set_ne, set-set, set-get_or,
  get_elem?-set_self, get_elem?-set_ne, get_elem?-set, set_unchanged, get_elem?-append_length,
  length-map, get_elem?-map, get_elem?-replicate, ◌>>=◌, ◌>>◌, require, >>=-eq-some, some_eq,
  IfSome, IfSome-bind, IfSome-any, IfSome_eq, Interference, Words, alone, seen, load, store,
  fetch_modify, compare_exchange, Exchanged, compare_exchange_lem,
}

-- One word of 64 bits.
pub record SampleReferenceTracker : Type 0 where
  pub available_samples : Words
  pub max_num_samples : ℕ

-- A factory is known by the guards that it still has to give, a guard by whether it has a tracker.
pub record TrackerGuardFactory : Type 0 where
  pub num_available_guards : ℕ

pub record SampleReferenceGuard : Type 0 where
  pub has_tracker : Bool

unfoldable pub sample_reference_tracker : ℕ → SampleReferenceTracker
sample_reference_tracker max_num_samples = record {
  available_samples = record { words = max_num_samples ∷ []; now = 0 };
  max_num_samples = max_num_samples;
}

abbrev pub with_available : SampleReferenceTracker → Words → SampleReferenceTracker
with_available t w = record t { available_samples = w }

module _ (env : Interference) where
  unfoldable pub get_num_available_samples : SampleReferenceTracker → ℕ × SampleReferenceTracker
  get_num_available_samples t =
      let (n, w) = load env 0 t.available_samples in (n, with_available t w)

  unfoldable pub is_used : SampleReferenceTracker → Bool × SampleReferenceTracker
  unfolding get_num_available_samples
  is_used t = let (n, t') = get_num_available_samples t in (ltb n t.max_num_samples, t')

  -- A failed exchange reads the number that is there now; after a successful one the old number is
  -- still the expected one. `none` when the fuel ends.
  unfoldable pub allocate_loop : ℕ → ℕ → ℕ → ℕ → Words → Option (ℕ × Words)
  unfolding compare_exchange
  allocate_loop zero num_samples available allocated w = none
  allocate_loop (suc fuel) num_samples available allocated w =
      let count = min available num_samples in
      let (done, w') = compare_exchange env true 0 available (available - count) w in
      let taken = allocate_loop fuel (num_samples - count) available (allocated + count) w' in
      let again = allocate_loop fuel num_samples (get_or w'.words 0 0) allocated w' in
      if num_samples == 0 || available == 0
      then some (allocated, w)
      else if done
      then taken
      else again

  unfoldable pub allocate :
      ℕ → ℕ → SampleReferenceTracker → Option (TrackerGuardFactory × SampleReferenceTracker)
  unfolding allocate_loop get_num_available_samples
  allocate fuel num_samples t = do
    let (available, t') = get_num_available_samples t
    (allocated, w) ← allocate_loop fuel num_samples available 0 t'.available_samples
    some (record { num_available_guards = allocated }, with_available t w)

  unfoldable pub reset_tracker : ℕ → SampleReferenceTracker → SampleReferenceTracker
  reset_tracker max_num_samples t = record {
    available_samples = store env 0 max_num_samples t.available_samples;
    max_num_samples = max_num_samples;
  }

  -- More samples than the maximum end the process.
  unfoldable pub deallocate : ℕ → SampleReferenceTracker → Option SampleReferenceTracker
  deallocate num_deallocations t = do
    let w = fetch_modify env 0 (λ v. (v + num_deallocations) % 2 ^ 64) t.available_samples
    let (n, w') = load env 0 w
    require (leb n t.max_num_samples)
    some (with_available t w')

  -- SampleReferenceGuard::Deallocate, and its destructor.
  unfoldable pub deallocate_guard :
      SampleReferenceGuard
      → SampleReferenceTracker
      → Option (SampleReferenceGuard × SampleReferenceTracker)
  unfolding deallocate
  deallocate_guard g t =
      if g.has_tracker
      then (do t' ← deallocate 1 t; some (record { has_tracker = false }, t'))
      else some (g, t)

  -- The destructor of a factory; one without guards is left.
  unfoldable pub destroy_factory :
      TrackerGuardFactory
      → SampleReferenceTracker
      → Option (TrackerGuardFactory × SampleReferenceTracker)
  unfolding deallocate
  destroy_factory f t =
      if ltb 0 f.num_available_guards
      then (do
        t' ← deallocate f.num_available_guards t
        some (record { num_available_guards = 0 }, t'))
      else some (f, t)

  -- The assignment from another guard: the guard as it is then, and the other one.
  unfoldable pub assign_guard :
      SampleReferenceGuard
      → SampleReferenceGuard
      → SampleReferenceTracker
      → Option (SampleReferenceGuard × SampleReferenceGuard × SampleReferenceTracker)
  unfolding deallocate_guard
  assign_guard g other t = do
    (old, t') ← deallocate_guard g t
    some (other, record { has_tracker = false }, t')

unfoldable pub move_guard : SampleReferenceGuard → SampleReferenceGuard × SampleReferenceGuard
move_guard other = (other, record { has_tracker = false })

unfoldable pub move_factory : TrackerGuardFactory → TrackerGuardFactory × TrackerGuardFactory
move_factory other = (other, record { num_available_guards = 0 })

unfoldable pub take_guard : TrackerGuardFactory → Option SampleReferenceGuard × TrackerGuardFactory
take_guard f =
    if ltb 0 f.num_available_guards
    then (
      some (record { has_tracker = true }),
      record { num_available_guards = f.num_available_guards - 1 },
    )
    else (none, f)
