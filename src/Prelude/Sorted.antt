-- ===== src/Prelude/Sorted.antt =====
-- Lists in order, for a total order given as a test, and what `sorted` makes of them.
use mathlib.Core.Path.{◌≡◌, refl, ap, ◌∙◌}
use mathlib.Core.Logic.{inl, inr}
use mathlib.Core.Bool.{Bool, true, false}
use mathlib.Core.List.{List, [], ◌∷◌}
use native.Mathlib.Omega.{arith}
use k8s_homelab.Prelude.Tests.{Bool-cases}
use k8s_homelab.Prelude.Equality.{nat_eq}
use k8s_homelab.Prelude.Text.{Text}
use k8s_homelab.Prelude.Lists.{All, filter}
use k8s_homelab.Prelude.Sort.{text_leb, sorted_by, insert_sorted, sorted}

-- Each member is at most all the later ones.
abbrev pub IsSorted {ℓ} : {A : Type ℓ} → (A → A → Bool) → List A → Type 0
IsSorted le [] = Unit
IsSorted le (x ∷ xs) = All (λ y. le x y ≡ true) xs × IsSorted le xs

module _ {ℓ} {A : Type ℓ} (le : A → A → Bool) where
  filter-All : (P : A → Type 0) (p : A → Bool) (xs : List A) → All P xs → All P (filter p xs)
  filter-All P p [] h = tt
  filter-All P p (x ∷ xs) (a, h) = elim (Bool-cases (p x)) [
    | inl e ↦ rw e (a, filter-All P p xs h)
    | inr e ↦ rw e (filter-All P p xs h)
  ]

  pub filter-IsSorted : (p : A → Bool) (xs : List A) → IsSorted le xs → IsSorted le (filter p xs)
  filter-IsSorted p [] h = tt
  filter-IsSorted p (x ∷ xs) (a, h) = elim (Bool-cases (p x)) [
    | inl e ↦ rw e (filter-All (λ y. le x y ≡ true) p xs a, filter-IsSorted p xs h)
    | inr e ↦ rw e (filter-IsSorted p xs h)
  ]

  insert_sorted_fixed :
      (a : A) (xs : List A) → All (λ y. le a y ≡ true) xs → insert_sorted le a xs ≡ a ∷ xs
  unfolding insert_sorted
  insert_sorted_fixed a [] h = refl
  insert_sorted_fixed a (x ∷ xs) (e, h) = ground arith

  -- A list in order is left as it is.
  pub sorted_by_fixed : (xs : List A) → IsSorted le xs → sorted_by le xs ≡ xs
  unfolding sorted_by
  sorted_by_fixed [] h = refl
  sorted_by_fixed (x ∷ xs) (a, h) =
      ap (insert_sorted le x) (sorted_by_fixed xs h) ∙ insert_sorted_fixed x xs a

  pub All-insert_sorted :
      (P : A → Type 0) (a : A) (xs : List A) → P a → All P xs → All P (insert_sorted le a xs)
  unfolding insert_sorted
  All-insert_sorted P a [] p h = (p, tt)
  All-insert_sorted P a (x ∷ xs) p (q, h) = elim (Bool-cases (le a x)) [
    | inl e ↦ rw e (p, (q, h))
    | inr e ↦ rw e (q, All-insert_sorted P a xs p h)
  ]

  pub All-sorted_by : (P : A → Type 0) (xs : List A) → All P xs → All P (sorted_by le xs)
  unfolding sorted_by
  All-sorted_by P [] h = tt
  All-sorted_by P (x ∷ xs) (p, h) = All-insert_sorted P x (sorted_by le xs) p (All-sorted_by P xs h)

  module _ (total : (a b : A) → le a b ≡ false → le b a ≡ true)
      (trans : (a b c : A) → le a b ≡ true → le b c ≡ true → le a c ≡ true) where
    All-trans :
        (a x : A) (xs : List A)
        → le a x ≡ true
        → All (λ y. le x y ≡ true) xs
        → All (λ y. le a y ≡ true) xs
    All-trans a x [] e h = tt
    All-trans a x (y ∷ ys) e (f, h) = (trans a x y e f, All-trans a x ys e h)

    insert_sorted-IsSorted :
        (a : A) (xs : List A) → IsSorted le xs → IsSorted le (insert_sorted le a xs)
    unfolding insert_sorted
    insert_sorted-IsSorted a [] h = (tt, tt)
    insert_sorted-IsSorted a (x ∷ xs) (b, h) = elim (Bool-cases (le a x)) [
      | inl e ↦ rw e ((e, All-trans a x xs e b), (b, h))
      | inr e ↦ rw e (
        All-insert_sorted (λ y. le x y ≡ true) a xs (total a x e) b,
        insert_sorted-IsSorted a xs h,
      )
    ]

    pub sorted_by-IsSorted : (xs : List A) → IsSorted le (sorted_by le xs)
    unfolding sorted_by
    sorted_by-IsSorted [] = tt
    sorted_by-IsSorted (x ∷ xs) = insert_sorted-IsSorted x (sorted_by le xs) (sorted_by-IsSorted xs)

pub text_leb_total : (s t : Text) → text_leb s t ≡ false → text_leb t s ≡ true
unfolding text_leb
text_leb_total [] t h = absurd (cc)
text_leb_total (c ∷ s) [] h = refl
text_leb_total (c ∷ s) (d ∷ t) h = ground (arith, text_leb_total s t)

pub text_leb_trans :
    (s t u : Text) → text_leb s t ≡ true → text_leb t u ≡ true → text_leb s u ≡ true
unfolding text_leb
text_leb_trans [] t u h k = refl
text_leb_trans (c ∷ s) [] u h k = absurd (cc)
text_leb_trans (c ∷ s) (d ∷ t) [] h k = absurd (cc)
text_leb_trans (c ∷ s) (d ∷ t) (e ∷ u) h k = ground (arith, text_leb_trans s t u)

abbrev pub IsTextSorted : List Text → Type 0
IsTextSorted = IsSorted text_leb

pub sorted-IsTextSorted : (xs : List Text) → IsTextSorted (sorted xs)
unfolding sorted
sorted-IsTextSorted xs = sorted_by-IsSorted text_leb text_leb_total text_leb_trans xs

pub sorted_fixed : (xs : List Text) → IsTextSorted xs → sorted xs ≡ xs
unfolding sorted
sorted_fixed xs h = sorted_by_fixed text_leb xs h
