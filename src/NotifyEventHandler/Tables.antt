-- ===== src/NotifyEventHandler/Tables.antt =====
-- Ascending lists, as the sets of process ids and the handlers of an event are kept.
use inc_mw_com.Base.{
  ℕ, zero, suc, ◌+◌, ◌≤◌, ◌<◌, ◌≡◌, refl, sym, ap, inl, inr, true, List, [], ◌∷◌, ◌++◌, arith, ltb,
  ltb→ge, Bool-cases, length, get_or, take, drop, All,
}
use inc_mw_com.NotifyEventHandler.{ids_from, copy_loop}

-- Each element is greater than the one before; the first is at least `lo`.
abbrev pub Ascending : ℕ → List ℕ → Type 0
Ascending lo [] = Unit
Ascending lo (x ∷ xs) = (lo ≤ x) × Ascending (suc x) xs

pub Ascending-weaken : (lo lo' : ℕ) (xs : List ℕ) → lo' ≤ lo → Ascending lo xs → Ascending lo' xs
Ascending-weaken lo lo' [] h a = tt
Ascending-weaken lo lo' (x ∷ xs) h (l, a) = (omega arith, a)

-- The ids from a start on stand together.
pub ids_from_all : (start : ℕ) (xs : List ℕ) → Ascending start xs → ids_from start xs ≡ xs
unfolding ids_from
ids_from_all start [] a = refl
ids_from_all start (x ∷ xs) (l, a) = ground arith

pub ids_from-Ascending :
    (start lo : ℕ) (xs : List ℕ) → Ascending lo xs → Ascending start (ids_from start xs)
unfolding ids_from
ids_from-Ascending start lo [] a = tt
ids_from-Ascending start lo (x ∷ xs) (l, a) = elim (Bool-cases (ltb x start)) [
  | inl e ↦ rw e (ids_from-Ascending start (suc x) xs a)
  | inr e ↦ rw e (ltb→ge x start e, a)
]

pub ids_from-ids_from : (s t : ℕ) (xs : List ℕ) → s ≤ t → ids_from t (ids_from s xs) ≡ ids_from t xs
unfolding ids_from
ids_from-ids_from s t [] h = refl
ids_from-ids_from s t (x ∷ xs) h = elim (Bool-cases (ltb x s)) [
  | inl e ↦
      let later : ltb x t ≡ true = ground arith in simp (e, later) (ids_from-ids_from s t xs h)
  | inr e ↦ simp e
]

-- The last of the first `n + 1` elements.
abbrev pub last_of : ℕ → List ℕ → ℕ
last_of n xs = get_or (take (suc n) xs) n 0

pub last_bound : (n lo : ℕ) (xs : List ℕ) → Ascending lo xs → n < length xs → lo ≤ last_of n xs
last_bound n lo [] a h = absurd (omega arith)
last_bound zero lo (x ∷ xs) (l, a) h = l
last_bound (suc n) lo (x ∷ []) (l, a) h = absurd (omega arith)
last_bound (suc n) lo (x ∷ y ∷ xs) (l, a) h =
    let ih = last_bound n (suc x) (y ∷ xs) a (omega arith) in omega (arith, ih)

-- Those that come after the last one taken are the ids from its successor on.
pub ids_from-drop :
    (n lo : ℕ) (xs : List ℕ)
    → Ascending lo xs
    → suc n < length xs
    → ids_from (last_of n xs + 1) xs ≡ drop (suc n) xs
unfolding ids_from
ids_from-drop n lo [] a h = absurd (omega arith)
ids_from-drop n lo (x ∷ []) a h = absurd (omega arith)
ids_from-drop zero lo (x ∷ y ∷ xs) (l, a) h =
    let past : ltb x (x + 1) ≡ true = ground arith in
    simp past (ids_from_all (x + 1) (y ∷ xs) (omega arith, a.1))
ids_from-drop (suc n) lo (x ∷ y ∷ xs) (l, a) h =
    let past : ltb x (last_of n (y ∷ xs) + 1) ≡ true =
      let b = last_bound n (suc x) (y ∷ xs) a (omega arith) in ground arith in
    simp past (ids_from-drop n (suc x) (y ∷ xs) a (omega arith))

ltb-suc : (n m : ℕ) → ltb (suc (suc n)) (suc m) ≡ ltb (suc n) m
ltb-suc n m = ground arith

pub copy_loop_lem :
    (n : ℕ) (ids : List ℕ) → copy_loop (suc n) ids ≡ (take (suc n) ids, ltb (suc n) (length ids))
unfolding copy_loop
copy_loop_lem n [] = ground arith
copy_loop_lem zero (x ∷ []) = refl
copy_loop_lem zero (x ∷ y ∷ ids) = ground arith
copy_loop_lem (suc n) (x ∷ ids) =
    simp (copy_loop_lem n ids) (ap (λ b. (x ∷ take (suc n) ids, b)) (sym (ltb-suc n (length ids))))

take_nil {ℓ} : {A : Type ℓ} (n : ℕ) → take {A = A} n [] ≡ []
take_nil zero = refl
take_nil (suc n) = refl

pub take-append_drop {ℓ} :
    {A : Type ℓ} (n m k : ℕ) (xs : List A) → n + m ≡ k → take n xs ++ take m (drop n xs) ≡ take k xs
take-append_drop zero m k xs h = let e : m ≡ k = omega arith in rw e
take-append_drop (suc n) m zero xs h = absurd (omega arith)
take-append_drop (suc n) m (suc k) [] h = take_nil m
take-append_drop (suc n) m (suc k) (x ∷ xs) h = ap (◌∷◌ x) (take-append_drop n m k xs (omega arith))

pub take_all {ℓ} : {A : Type ℓ} (n : ℕ) (xs : List A) → length xs ≤ n → take n xs ≡ xs
take_all zero [] h = refl
take_all zero (x ∷ xs) h = absurd (omega arith)
take_all (suc n) [] h = refl
take_all (suc n) (x ∷ xs) h = ap (◌∷◌ x) (take_all n xs (omega arith))

-- What holds for all elements holds for those that are picked out.
module _ {κ} (P : ℕ → Type κ) where
  pub All-take : (n : ℕ) (xs : List ℕ) → All P xs → All P (take n xs)
  All-take zero xs a = tt
  All-take (suc n) [] a = tt
  All-take (suc n) (x ∷ xs) (p, a) = (p, All-take n xs a)

  pub All-ids_from : (start : ℕ) (xs : List ℕ) → All P xs → All P (ids_from start xs)
  unfolding ids_from
  All-ids_from start [] a = tt
  All-ids_from start (x ∷ xs) (p, a) = elim (Bool-cases (ltb x start)) [
    | inl e ↦ rw e (All-ids_from start xs a)
    | inr e ↦ rw e (p, a)
  ]

  pub All-append : (xs ys : List ℕ) → All P xs → All P ys → All P (xs ++ ys)
  All-append [] ys a b = b
  All-append (x ∷ xs) ys (p, a) b = (p, All-append xs ys a b)

pub Ascending-take : (lo n : ℕ) (xs : List ℕ) → Ascending lo xs → Ascending lo (take n xs)
Ascending-take lo zero xs a = tt
Ascending-take lo (suc n) [] a = tt
Ascending-take lo (suc n) (x ∷ xs) (l, a) = (l, Ascending-take (suc x) n xs a)

-- More than `n` ascending ids, of which the first `n + 1` are followed by greater ones.
pub Ascending-append :
    (n lo : ℕ) (xs ys : List ℕ)
    → Ascending lo xs
    → n < length xs
    → Ascending (last_of n xs + 1) ys
    → Ascending lo (take (suc n) xs ++ ys)
Ascending-append n lo [] ys a h b = absurd (omega arith)
Ascending-append zero lo (x ∷ xs) ys (l, a) h b =
    (l, Ascending-weaken (x + 1) (suc x) ys (omega arith) b)
Ascending-append (suc n) lo (x ∷ xs) ys (l, a) h b =
    (l, Ascending-append n (suc x) xs ys a (omega arith) b)
