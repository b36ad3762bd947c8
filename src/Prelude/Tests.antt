-- ===== src/Prelude/Tests.antt =====
-- Boolean tests on the native numbers, the conditional, and splits that keep the equation.
use Prim.Native.Nat.{ℕ, compare, Ordering}
use mathlib.Core.Option.{some-injective, Option, none, some}
use mathlib.Core.Path.{subst, ◌≡◌, refl}
use mathlib.Core.Logic.{◌⊎◌, inl, inr}
use mathlib.Core.Bool.{Bool, true, false, ◌&&◌}

abbrev pub ltb : ℕ → ℕ → Bool
ltb a b = elim (compare a b) [ Ordering.lt ↦ true | _ ↦ false ]

abbrev pub leb : ℕ → ℕ → Bool
leb a b = elim (compare a b) [ Ordering.gt ↦ false | _ ↦ true ]

infix 1 if◌then◌else◌
abbrev pub if◌then◌else◌ {ℓ} : {A : Type ℓ} → Bool → A → A → A
if true then x else y = x
if false then x else y = y

pub Bool-cases : (b : Bool) → (b ≡ true) ⊎ (b ≡ false)
Bool-cases true = inl refl
Bool-cases false = inr refl

pub &&_both : (a b : Bool) → (a && b) ≡ true → (a ≡ true) × (b ≡ true)
&&_both true b h = (refl, h)
&&_both false b h = absurd (cc)

pub Option-cases {ℓ} : {A : Type ℓ} (o : Option A) → (o ≡ none) ⊎ ((a : A) × (o ≡ some a))
Option-cases none = inl refl
Option-cases (some a) = inr (a, refl)

module _ {ℓ κ} {A : Type ℓ} {B : Type κ} where
  infixl 5 ◌>>=◌
  abbrev pub ◌>>=◌ : Option A → (A → Option B) → Option B
  none >>= f = none
  some a >>= f = f a

  -- Inversion of a successful step.
  pub >>=-eq-some :
      (m : Option A) (f : A → Option B) {b : B}
      → (m >>= f) ≡ some b
      → (a : A) × (m ≡ some a) × (f a ≡ some b)
  >>=-eq-some none f h = absurd (cc)
  >>=-eq-some (some a) f h = (a, refl, h)

pub if-eq-some {ℓ} :
    {A : Type ℓ} (t : Bool) (o : Option A) {a : A}
    → (if t then none else o) ≡ some a
    → (t ≡ false) × (o ≡ some a)
if-eq-some true o h = absurd (cc)
if-eq-some false o h = (refl, h)

-- A result, if there is one, satisfies P.
abbrev pub Returns {ℓ} : {A : Type ℓ} → (A → Type 0) → Option A → Type 0
Returns P none = Unit
Returns P (some a) = P a

module _ {ℓ} {A : Type ℓ} (P : A → Type 0) where
  pub Returns-eq-some : (o : Option A) {a : A} → Returns P o → o ≡ some a → P a
  Returns-eq-some none h e = absurd (cc)
  Returns-eq-some (some b) h e = subst P (some-injective b _ e) h

  pub if-Returns :
      (t : Bool) (o : Option A) → (t ≡ false → Returns P o) → Returns P (if t then none else o)
  if-Returns true o h = tt
  if-Returns false o h = h refl

module _ {ℓ κ} {A : Type ℓ} {B : Type κ} (P : A → Type 0) (Q : B → Type 0) where
  pub >>=-Returns :
      (m : Option A) (f : A → Option B)
      → Returns P m
      → ((a : A) → P a → Returns Q (f a))
      → Returns Q (m >>= f)
  >>=-Returns none f h k = tt
  >>=-Returns (some a) f h k = k a h

pub Returns-any {ℓ} : {A : Type ℓ} (o : Option A) → Returns (λ a. Unit) o
Returns-any none = tt
Returns-any (some a) = tt

-- What holds in both branches holds of the conditional.
pub if_keeps {ℓ} :
    {A : Type ℓ} (P : A → Type 0) (t : Bool) (x y : A) → P x → P y → P (if t then x else y)
if_keeps P true x y h k = h
if_keeps P false x y h k = k

pub Returns-self : {A : Type 0} (o : Option A) → Returns (λ a. o ≡ some a) o
Returns-self none = tt
Returns-self (some a) = refl

pub Returns-imp {ℓ} :
    {A : Type ℓ} (P Q : A → Type 0) (o : Option A)
    → Returns P o
    → ((a : A) → P a → Q a)
    → Returns Q o
Returns-imp P Q none h k = tt
Returns-imp P Q (some a) h k = k a h

abbrev pub or_else {ℓ} : {A : Type ℓ} → A → Option A → A
or_else x none = x
or_else x (some y) = y

abbrev pub is_none {ℓ} : {A : Type ℓ} → Option A → Bool
is_none none = true
is_none (some a) = false

-- A result that is there.
pub some-or_else {ℓ} :
    {A : Type ℓ} (x : A) (o : Option A) → is_none o ≡ false → o ≡ some (or_else x o)
some-or_else x none h = absurd (cc)
some-or_else x (some y) h = refl
