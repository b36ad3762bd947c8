-- ===== src/Prelude/Sort.antt =====
-- `sorted` on texts and on numbers: an insertion sort, which keeps the members.
use Prim.Native.Nat.{ℕ, suc}
use mathlib.Core.Path.{◌≡◌, refl}
use mathlib.Core.Bool.{Bool, true, false, ◌&&◌, ◌||◌}
use mathlib.Core.List.{List, [], ◌∷◌}
use native.Mathlib.Omega.{arith}
use k8s_homelab.Prelude.Tests.{leb, ltb, if◌then◌else◌}
use k8s_homelab.Prelude.Equality.{Eq, ◌==◌, contains, nat_eq, list_eq}
use k8s_homelab.Prelude.Lists.{any}
use k8s_homelab.Prelude.Text.{Text}

-- Python's `<=` on texts, by code points.
unfoldable pub text_leb : Text → Text → Bool
text_leb [] t = true
text_leb (c ∷ s) [] = false
text_leb (c ∷ s) (d ∷ t) = ltb c d || (c == d && text_leb s t)

module _ {ℓ} {A : Type ℓ} where
  -- How many members pass a test.
  abbrev pub count : (A → Bool) → List A → ℕ
  count p [] = 0
  count p (x ∷ xs) = if p x then suc (count p xs) else count p xs

module _ {ℓ} {A : Type ℓ} (le : A → A → Bool) where
  unfoldable pub insert_sorted : A → List A → List A
  insert_sorted a [] = a ∷ []
  insert_sorted a (x ∷ xs) =
      let rest = insert_sorted a xs in if le a x then a ∷ x ∷ xs else x ∷ rest

  unfoldable pub sorted_by : List A → List A
  unfolding insert_sorted
  sorted_by [] = []
  sorted_by (x ∷ xs) = insert_sorted x (sorted_by xs)

  count-insert_sorted :
      (p : A → Bool) (a : A) (xs : List A) → count p (insert_sorted a xs) ≡ count p (a ∷ xs)
  unfolding insert_sorted
  count-insert_sorted p a [] = refl
  count-insert_sorted p a (x ∷ xs) = ground (arith, count-insert_sorted p a xs)

  pub count-sorted_by : (p : A → Bool) (xs : List A) → count p (sorted_by xs) ≡ count p xs
  unfolding sorted_by
  count-sorted_by p [] = refl
  count-sorted_by p (x ∷ xs) =
      ground (arith, count-insert_sorted p x (sorted_by xs), count-sorted_by p xs)

  any-insert_sorted :
      (p : A → Bool) (a : A) (xs : List A) → any p (insert_sorted a xs) ≡ any p (a ∷ xs)
  unfolding insert_sorted
  any-insert_sorted p a [] = refl
  any-insert_sorted p a (x ∷ xs) = ground (arith, any-insert_sorted p a xs)

  pub any-sorted_by : (p : A → Bool) (xs : List A) → any p (sorted_by xs) ≡ any p xs
  unfolding sorted_by
  any-sorted_by p [] = refl
  any-sorted_by p (x ∷ xs) =
      ground (arith, any-insert_sorted p x (sorted_by xs), any-sorted_by p xs)

module _ {ℓ} {A : Type ℓ} ⦃e : Eq A⦄ (le : A → A → Bool) where
  contains-insert_sorted :
      (a : A) (xs : List A) (b : A) → contains (insert_sorted le a xs) b ≡ (b == a || contains xs b)
  unfolding insert_sorted
  contains-insert_sorted a [] b = refl
  contains-insert_sorted a (x ∷ xs) b = ground (arith, contains-insert_sorted a xs b)

  pub contains-sorted_by : (xs : List A) (b : A) → contains (sorted_by le xs) b ≡ contains xs b
  unfolding sorted_by
  contains-sorted_by [] b = refl
  contains-sorted_by (x ∷ xs) b =
      ground (arith, contains-insert_sorted x (sorted_by le xs) b, contains-sorted_by xs b)

-- `sorted` on texts.
unfoldable pub sorted : List Text → List Text
unfolding sorted_by text_leb
sorted = sorted_by text_leb

pub contains-sorted : (xs : List Text) (b : Text) → contains (sorted xs) b ≡ contains xs b
unfolding sorted
contains-sorted xs b = contains-sorted_by text_leb xs b

-- `sorted` on numbers.
unfoldable pub sorted_ids : List ℕ → List ℕ
unfolding sorted_by
sorted_ids = sorted_by leb

pub contains-sorted_ids : (xs : List ℕ) (b : ℕ) → contains (sorted_ids xs) b ≡ contains xs b
unfolding sorted_ids
contains-sorted_ids xs b = contains-sorted_by leb xs b
