-- ===== src/Base/Outcome.antt =====
-- What a Go call comes to: a result, or a panic, which ends the process with its state.
use mathlib.Core.Path.{◌≡◌, refl, subst}
use mathlib.Core.Logic.{◌↔◌}
use mathlib.Core.Option.{Option, none, some}

pub data Outcome {ℓ} (A : Type ℓ) : Type ℓ where
  returns : A → Outcome A
  panics : Outcome A

infixl 5 ◌>>=◌
abbrev pub ◌>>=◌ {ℓ κ} : {A : Type ℓ} {B : Type κ} → Outcome A → (A → Outcome B) → Outcome B
returns a >>= f = f a
panics >>= f = panics

-- A read through a pointer that may be nil.
abbrev pub deref {ℓ} : {A : Type ℓ} → Option A → Outcome A
deref none = panics
deref (some a) = returns a

-- A step that cannot panic, after one that may.
module _ {A B : Type 0} (f : A → B) where
  pub then_panics : (m : Outcome A) → ((m >>= λ a. returns (f a)) ≡ panics) ↔ (m ≡ panics)
  then_panics (returns a) = ((λ h. cc), (λ h. cc))
  then_panics panics = ((λ h. refl), (λ h. refl))

  pub then_returns :
      (m : Outcome A) (b : B)
      → (m >>= λ a. returns (f a)) ≡ returns b
      → (a : A) × (m ≡ returns a) × (b ≡ f a)
  then_returns (returns a) b h = (a, refl, cc)
  then_returns panics b h = cc

-- What holds of a result, if there is one: nothing is kept after a panic.
abbrev pub OnReturn {ℓ} : {A : Type ℓ} → (A → Type 0) → Outcome A → Type 0
OnReturn P (returns a) = P a
OnReturn P panics = Unit

pub OnReturn-bind {ℓ κ} :
    {A : Type ℓ} {B : Type κ} (P : B → Type 0) (m : Outcome A) (f : A → Outcome B)
    → ((a : A) → m ≡ returns a → OnReturn P (f a))
    → OnReturn P (m >>= f)
OnReturn-bind P (returns a) f h = h a refl
OnReturn-bind P panics f h = tt

pub OnReturn-map {ℓ} :
    {A : Type ℓ} (P Q : A → Type 0) (m : Outcome A)
    → ((a : A) → P a → Q a)
    → OnReturn P m
    → OnReturn Q m
OnReturn-map P Q (returns a) f h = f a h
OnReturn-map P Q panics f h = tt

pub OnReturn-holds {ℓ} :
    {A : Type ℓ} (P : A → Type 0) (m : Outcome A) (a : A) → OnReturn P m → m ≡ returns a → P a
OnReturn-holds P m a h e = subst (OnReturn P) e h

-- That a call gives a result.
abbrev pub Returns {ℓ} : {A : Type ℓ} → Outcome A → Type ℓ
Returns {A} m = (a : A) × (m ≡ returns a)

pub Returns-bind {ℓ κ} :
    {A : Type ℓ} {B : Type κ} (m : Outcome A) (f : A → Outcome B)
    → Returns m
    → ((a : A) → Returns (f a))
    → Returns (m >>= f)
Returns-bind (returns a) f h k = k a
Returns-bind panics f h k = cc
