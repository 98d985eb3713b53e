-- ===== src/Base/Outcome.antt =====
-- A computation that may end the process: `none` stands for a violated assertion, an access out of
-- range in a noexcept function, or a call of std::terminate.
use mathlib.Core.Path.{◌≡◌, refl, subst}
use mathlib.Core.Bool.{Bool, true, false}
use mathlib.Core.Option.{Option, none, some}

infixl 5 ◌>>=◌ ◌>>◌
abbrev pub ◌>>=◌ {ℓ κ} : {A : Type ℓ} {B : Type κ} → Option A → (A → Option B) → Option B
none >>= f = none
some a >>= f = f a

abbrev pub ◌>>◌ {ℓ} : {B : Type ℓ} → Option (Unit {0}) → Option B → Option B
m >> k = m >>= λ _. k

-- AMP_PRECONDITION, AMP_ASSERT_PRD and the like.
abbrev pub require : Bool → Option (Unit {0})
require true = some tt
require false = none

pub >>=-eq-some {ℓ κ} :
    {A : Type ℓ} {B : Type κ} (m : Option A) (f : A → Option B) {b : B}
    → (m >>= f) ≡ some b
    → (a : A) × (m ≡ some a) × (f a ≡ some b)
>>=-eq-some none f h = cc
>>=-eq-some (some a) f h = (a, refl, h)

pub some_eq {ℓ} : {A : Type ℓ} {a b : A} → some a ≡ some b → a ≡ b
some_eq h = cc

-- What holds of the result, if there is one.
abbrev pub IfSome {ℓ κ} : {A : Type ℓ} → (A → Type κ) → Option A → Type κ
IfSome P none = Unit
IfSome P (some a) = P a

pub IfSome-bind {ℓ κ ρ σ} :
    {A : Type ℓ} {B : Type κ} (Q : A → Type ρ) (P : B → Type σ) (m : Option A) (f : A → Option B)
    → IfSome Q m
    → ((a : A) → Q a → IfSome P (f a))
    → IfSome P (m >>= f)
IfSome-bind Q P none f q p = tt
IfSome-bind Q P (some a) f q p = p a q

pub IfSome-any {ℓ κ σ} :
    {A : Type ℓ} {B : Type κ} (P : B → Type σ) (m : Option A) (f : A → Option B)
    → ((a : A) → IfSome P (f a))
    → IfSome P (m >>= f)
IfSome-any P none f p = tt
IfSome-any P (some a) f p = p a

pub IfSome_eq {ℓ κ} :
    {A : Type ℓ} (P : A → Type κ) (m : Option A) (a : A) → IfSome P m → m ≡ some a → P a
IfSome_eq P m a p e = subst (IfSome P) e p
