-- ===== src/Prelude/Lists.antt =====
-- Lists measured by native numbers, Boolean filters and quantifiers, and membership in them.
use Prim.Native.Nat.{ℕ, zero, suc}
use mathlib.Core.Path.{◌≡◌, refl}
use mathlib.Core.Logic.{inl, inr}
use mathlib.Core.Bool.{Bool, true, false, not, ◌&&◌, ◌||◌}
use mathlib.Core.List.{List, [], ◌∷◌, ◌++◌, map}
use native.Mathlib.Omega.{arith}
use k8s_homelab.Prelude.Tests.{if◌then◌else◌, Bool-cases}
use k8s_homelab.Prelude.Equality.{Eq, ◌==◌, contains}

module _ {ℓ} {A : Type ℓ} where
  abbrev pub length : List A → ℕ
  length [] = 0
  length (x ∷ xs) = suc (length xs)

  abbrev pub is_nil : List A → Bool
  is_nil [] = true
  is_nil (x ∷ xs) = false

  -- `xs[n:]`
  abbrev pub drop : ℕ → List A → List A
  drop zero xs = xs
  drop (suc n) [] = []
  drop (suc n) (x ∷ xs) = drop n xs

  abbrev pub filter : (A → Bool) → List A → List A
  filter p [] = []
  filter p (x ∷ xs) = let rest = filter p xs in if p x then x ∷ rest else rest

  abbrev pub any : (A → Bool) → List A → Bool
  any p [] = false
  any p (x ∷ xs) = p x || any p xs

  abbrev pub all : (A → Bool) → List A → Bool
  all p [] = true
  all p (x ∷ xs) = p x && all p xs

  abbrev pub All {κ} : (A → Type κ) → List A → Type κ
  All P [] = Unit
  All P (x ∷ xs) = P x × All P xs

  pub All-append {κ} : (P : A → Type κ) (xs ys : List A) → All P xs → All P ys → All P (xs ++ ys)
  All-append P [] ys h k = k
  All-append P (x ∷ xs) ys (a, h) k = (a, All-append P xs ys h k)

  pub all-append :
      (p : A → Bool) (xs ys : List A) → all p xs ≡ true → all p ys ≡ true → all p (xs ++ ys) ≡ true
  all-append p [] ys h k = k
  all-append p (x ∷ xs) ys h k = ground (arith, all-append p xs ys)

  pub all_imp :
      (p q : A → Bool) (xs : List A)
      → ((x : A) → p x ≡ true → q x ≡ true)
      → all p xs ≡ true
      → all q xs ≡ true
  all_imp p q [] h a = refl
  all_imp p q (x ∷ xs) h a = ground (arith, h x, all_imp p q xs h)

  pub any-filter : (p q : A → Bool) (xs : List A) → any p (filter q xs) ≡ any (λ x. q x && p x) xs
  any-filter p q [] = refl
  any-filter p q (x ∷ xs) = ground (arith, any-filter p q xs)

  pub filter-eq-nil : (p : A → Bool) (xs : List A) → any p xs ≡ false → filter p xs ≡ []
  filter-eq-nil p [] h = refl
  filter-eq-nil p (x ∷ xs) h = ground (arith, filter-eq-nil p xs)

module _ {ℓ} {A : Type ℓ} ⦃e : Eq A⦄ where
  -- No item stands twice.
  abbrev pub are_distinct : List A → Bool
  are_distinct [] = true
  are_distinct (x ∷ xs) = not (contains xs x) && are_distinct xs

  pub contains-append :
      (xs ys : List A) (a : A) → contains (xs ++ ys) a ≡ (contains xs a || contains ys a)
  contains-append [] ys a = refl
  contains-append (x ∷ xs) ys a = ground (arith, contains-append xs ys a)

  pub contains-filter :
      (p : A → Bool) (xs : List A) (a : A) → contains (filter p xs) a ≡ (contains xs a && p a)
  contains-filter p [] a = refl
  contains-filter p (x ∷ xs) a = ground (arith, contains-filter p xs a)

  pub all-contains :
      (p : A → Bool) (xs : List A) (a : A) → all p xs ≡ true → contains xs a ≡ true → p a ≡ true
  all-contains p [] a h m = cc
  all-contains p (x ∷ xs) a h m = ground (arith, all-contains p xs a)

  pub all_of_contains :
      (p : A → Bool) (xs : List A) → ((a : A) → contains xs a ≡ true → p a ≡ true) → all p xs ≡ true
  all_of_contains p [] h = refl
  all_of_contains p (x ∷ xs) h =
      ground (arith, h x, all_of_contains p xs (λ a m. h a (ground arith)))

  pub any_of_contains :
      (p : A → Bool) (xs : List A) (a : A) → contains xs a ≡ true → p a ≡ true → any p xs ≡ true
  any_of_contains p [] a m h = cc
  any_of_contains p (x ∷ xs) a m h = ground (arith, any_of_contains p xs a)

  -- A test fails throughout a list if it fails at each member.
  pub any-eq-false :
      (p : A → Bool) (xs : List A)
      → ((a : A) → contains xs a ≡ true → p a ≡ false)
      → any p xs ≡ false
  any-eq-false p [] h = refl
  any-eq-false p (x ∷ xs) h = ground (arith, h x, any-eq-false p xs (λ a m. h a (ground arith)))

  -- A Python set as a list: `add` writes a member once.
  abbrev pub add : A → List A → List A
  add a xs = if contains xs a then xs else a ∷ xs

  pub contains-add :
      (a : A) (xs : List A) (b : A) → contains (add a xs) b ≡ (b == a || contains xs b)
  contains-add a xs b = ground arith

  -- The set of a list's members.
  unfoldable pub set_of : List A → List A
  set_of [] = []
  set_of (x ∷ xs) = add x (set_of xs)

  pub contains-set_of : (xs : List A) (b : A) → contains (set_of xs) b ≡ contains xs b
  unfolding set_of
  contains-set_of [] b = refl
  contains-set_of (x ∷ xs) b = ground (arith, contains-set_of xs b, contains-add x (set_of xs) b)

  -- `a - b` and `a | b` on sets.
  abbrev pub minus : List A → List A → List A
  minus xs ys = filter (λ a. not (contains ys a)) xs

  abbrev pub union : List A → List A → List A
  union xs ys = xs ++ minus ys xs

  pub contains-union :
      (xs ys : List A) (a : A) → contains (union xs ys) a ≡ (contains xs a || contains ys a)
  contains-union xs ys a =
      ground
        (arith, contains-append xs (minus ys xs) a, contains-filter (λ b. not (contains xs b)) ys a)

  pub eq_nil_of_contains : (xs : List A) → ((a : A) → contains xs a ≡ false) → xs ≡ []
  eq_nil_of_contains [] h = refl
  eq_nil_of_contains (x ∷ xs) h = ground (arith, h x)

  -- A test that holds somewhere in a list holds at a member.
  pub any_witness :
      (p : A → Bool) (xs : List A)
      → any p xs ≡ true
      → (a : A) × (contains xs a ≡ true) × (p a ≡ true)
  any_witness p [] h = absurd (cc)
  any_witness p (x ∷ xs) h = elim (Bool-cases (p x)) [
    | inl e ↦ (x, ground arith, e)
    | inr e ↦ let (a, m, q) = any_witness p xs (ground arith) in (a, ground arith, q)
  ]

  pub minus-eq-nil :
      (xs ys : List A) → ((a : A) → contains xs a ≡ true → contains ys a ≡ true) → minus xs ys ≡ []
  minus-eq-nil xs ys h =
      filter-eq-nil (λ a. not (contains ys a)) xs
        (any-eq-false (λ a. not (contains ys a)) xs (λ a m. ground (arith, h a m)))

module _ {ℓ κ} {A : Type ℓ} {B : Type κ} ⦃e : Eq B⦄ where
  pub contains-map :
      (f : A → B) (xs : List A) (b : B) → contains (map f xs) b ≡ any (λ x. b == f x) xs
  contains-map f [] b = refl
  contains-map f (x ∷ xs) b = ground (arith, contains-map f xs b)
