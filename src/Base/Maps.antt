-- ===== src/Base/Maps.antt =====
-- Maps with keys that are compared by a test, as lists of pairs.
use mathlib.Core.Path.{◌≡◌, refl}
use mathlib.Core.Bool.{Bool, true}
use mathlib.Core.Option.{Option, none, some}
use mathlib.Core.List.{List, [], ◌∷◌}
use mathlib.Core.Logic.{inl, inr}
use native.Mathlib.Omega.{arith}
use mathlib.Core.Path.{sym, ap, subst}
use inc_mw_com.Base.Outcome.{some_eq}
use inc_mw_com.Base.Tests.{if◌then◌else◌, Bool-cases}

-- The test tells equal keys: they are equal to the same keys, on both sides.
pub record SameKeys {ℓ} {K : Type ℓ} (same : K → K → Bool) : Type ℓ where
  pub forward : (a b c : K) → same a b ≡ true → same a c ≡ same b c
  pub right : (a b c : K) → same a b ≡ true → same c a ≡ same c b
  pub backward : (a b c : K) → same a c ≡ true → same b c ≡ true → same a b ≡ true

module _ {ℓ κ} {K : Type ℓ} {V : Type κ} (same : K → K → Bool) where
  abbrev pub find : K → List (K × V) → Option V
  find k [] = none
  find k ((j, v) ∷ m) = if same j k then some v else find k m

  -- The value of a key is replaced, or added behind all others.
  abbrev pub put : K → V → List (K × V) → List (K × V)
  put k v [] = (k, v) ∷ []
  put k v ((j, w) ∷ m) = if same j k then (j, v) ∷ m else (j, w) ∷ put k v m

  abbrev pub erase : K → List (K × V) → List (K × V)
  erase k [] = []
  erase k ((j, w) ∷ m) = if same j k then m else (j, w) ∷ erase k m

  pub find-put_self :
      (k : K) (v : V) (m : List (K × V)) → same k k ≡ true → find k (put k v m) ≡ some v
  find-put_self k v [] e = simp e
  find-put_self k v ((j, w) ∷ m) e = elim (Bool-cases (same j k)) [
    | inl h ↦ simp h
    | inr h ↦ simp h (find-put_self k v m e)
  ]

  pub put-put :
      (k : K) (v w : V) (m : List (K × V)) → same k k ≡ true → put k w (put k v m) ≡ put k w m
  put-put k v w [] e = simp e
  put-put k v w ((j, u) ∷ m) e = elim (Bool-cases (same j k)) [
    | inl h ↦ simp h
    | inr h ↦ simp h (simp (put-put k v w m e))
  ]

  -- A key that was not there can be taken out again.
  pub erase-put :
      (k : K) (v : V) (m : List (K × V))
      → same k k ≡ true
      → find k m ≡ none
      → erase k (put k v m) ≡ m
  erase-put k v [] e h = simp e
  erase-put k v ((j, u) ∷ m) e h = elim (Bool-cases (same j k)) [
    | inl t ↦ absurd (ground (arith, t))
    | inr t ↦ simp t (simp (erase-put k v m e (simp t at h)))
  ]

  pub put_found : (k : K) (v : V) (m : List (K × V)) → find k m ≡ some v → put k v m ≡ m
  put_found k v [] h = absurd cc
  put_found k v ((j, u) ∷ m) h = elim (Bool-cases (same j k)) [
    | inl t ↦ let e : u ≡ v = some_eq (simp t at h) in simp t (ap (λ w. (j, w) ∷ m) (sym e))
    | inr t ↦ simp t (simp (put_found k v m (simp t at h)))
  ]

  module _ {ρ} (P : V → Type ρ) where
    -- All values have a property.
    abbrev pub Values : List (K × V) → Type ρ
    Values [] = Unit
    Values ((j, v) ∷ m) = P v × Values m

    pub Values-put : (k : K) (v : V) (m : List (K × V)) → P v → Values m → Values (put k v m)
    Values-put k v [] p a = (p, tt)
    Values-put k v ((j, w) ∷ m) p (q, a) = elim (Bool-cases (same j k)) [
      | inl h ↦ simp h (p, a)
      | inr h ↦ simp h (q, Values-put k v m p a)
    ]

    pub Values-erase : (k : K) (m : List (K × V)) → Values m → Values (erase k m)
    Values-erase k [] a = tt
    Values-erase k ((j, w) ∷ m) (q, a) = elim (Bool-cases (same j k)) [
      | inl h ↦ simp h a
      | inr h ↦ simp h (q, Values-erase k m a)
    ]

    pub Values_find : (k : K) (m : List (K × V)) {v : V} → Values m → find k m ≡ some v → P v
    Values_find k [] a h = absurd cc
    Values_find k ((j, w) ∷ m) {v} (q, a) h = elim (Bool-cases (same j k)) [
      | inl t ↦ let e : w ≡ v = some_eq (simp t at h) in subst P e q
      | inr t ↦ Values_find k m a (simp t at h)
    ]

  pub Values-weaken {ρ σ} :
      (P : V → Type ρ) (Q : V → Type σ) (m : List (K × V))
      → ((v : V) → P v → Q v)
      → Values P m
      → Values Q m
  Values-weaken P Q [] f a = tt
  Values-weaken P Q ((j, w) ∷ m) f (q, a) = (f w q, Values-weaken P Q m f a)

  -- Every key keeps its value, but the one that is written.
  pub find-put :
      (j k : K) (v : V) (m : List (K × V))
      → SameKeys same
      → find k (put j v m) ≡ (if same j k then some v else find k m)
  find-put j k v [] s = refl
  find-put j k v ((i, w) ∷ m) s = elim (Bool-cases (same i j)) [
    | inl e ↦
        simp (e, s.forward i j k e)
          (elim (Bool-cases (same j k)) [ inl f ↦ simp f | inr f ↦ simp f ])
    | inr e ↦
        simp (e, find-put j k v m s)
          (elim (Bool-cases (same i k)) [
            | inl f ↦ elim (Bool-cases (same j k)) [
              | inl g ↦ absurd (let t = s.backward i j k f g in cc)
              | inr g ↦ simp (f, g)
            ]
            | inr f ↦ simp f
          ])
  ]

  -- Equal keys find the same.
  pub find_same :
      (j k : K) (m : List (K × V)) → SameKeys same → same j k ≡ true → find j m ≡ find k m
  find_same j k [] s e = refl
  find_same j k ((i, w) ∷ m) s e = simp (s.right j k i e, find_same j k m s e)
