-- ===== src/Backup/Ownership/Glob.antt =====
-- What a path that matches a pattern begins and ends with.
use mathlib.Core.Path.{subst}
use k8s_homelab.Prelude.{
  ◌∙◌, not, ap, sym, inr, refl, inl, nat_eq, arith, ◌==◌, Bool-cases, true, if◌then◌else◌, false,
  ◌∷◌, Bool, ◌≡◌, contains, [], ℕ,
}
use k8s_homelab.Prelude.Text.{lacks, starts_with, ends_with, Text}
use k8s_homelab.Backup.Ownership.{star, char_then, fnmatch}

-- The text before the first star, and after the last.
unfoldable pub head_of : Text → Text
head_of [] = []
head_of (c ∷ p) = let rest = head_of p in if c == b'*' then [] else c ∷ rest

unfoldable pub tail_of : Text → Text
tail_of [] = []
tail_of (c ∷ p) = let rest = tail_of p in if contains (c ∷ p) b'*' then rest else c ∷ p

pub starts_with-head_of : (p s : Text) → fnmatch p s ≡ true → starts_with s (head_of p) ≡ true
unfolding head_of fnmatch char_then starts_with
starts_with-head_of [] s h = refl
starts_with-head_of (c ∷ p) [] h = ground arith
starts_with-head_of (c ∷ p) (d ∷ s) h = ground (arith, starts_with-head_of p s)

-- A pattern without a star matches itself only.
pub eq_of_literal : (p s : Text) → lacks b'*' p ≡ true → fnmatch p s ≡ true → s ≡ p
unfolding fnmatch char_then
eq_of_literal [] [] l h = refl
eq_of_literal [] (d ∷ s) l h = absurd (cc)
eq_of_literal (c ∷ p) [] l h = absurd (ground arith)
eq_of_literal (c ∷ p) (d ∷ s) l h = ground (arith, eq_of_literal p s)

ends_with-cons : (d : ℕ) (s t : Text) → ends_with s t ≡ true → ends_with (d ∷ s) t ≡ true
unfolding ends_with
ends_with-cons d s t h = ground arith

ends_with_self : (t : Text) → ends_with t t ≡ true
unfolding ends_with
ends_with_self [] = ground arith
ends_with_self (c ∷ t) = ground arith

ends_with-star :
    (rest : Text → Bool) (t : Text)
    → ((s : Text) → rest s ≡ true → ends_with s t ≡ true)
    → (s : Text) → star rest s ≡ true
    → ends_with s t ≡ true
unfolding star
ends_with-star rest t k [] h = k [] h
ends_with-star rest t k (d ∷ s) h = elim (Bool-cases (rest (d ∷ s))) [
  | inl e ↦ k (d ∷ s) e
  | inr e ↦ ends_with-cons d s t (ends_with-star rest t k s (ground arith))
]

ends_with-char_then :
    (rest : Text → Bool) (c : ℕ) (t : Text)
    → ((s : Text) → rest s ≡ true → ends_with s t ≡ true)
    → (s : Text) → char_then rest c s ≡ true
    → ends_with s t ≡ true
unfolding char_then
ends_with-char_then rest c t k [] h = absurd (cc)
ends_with-char_then rest c t k (d ∷ s) h = ends_with-cons d s t (k s (ground arith))

tail_of_literal : (c : ℕ) (p : Text) → contains (c ∷ p) b'*' ≡ false → tail_of (c ∷ p) ≡ c ∷ p
unfolding tail_of
tail_of_literal c p e = rw e refl

tail_of_starred : (c : ℕ) (p : Text) → contains (c ∷ p) b'*' ≡ true → tail_of (c ∷ p) ≡ tail_of p
unfolding tail_of
tail_of_starred c p e = rw e refl

ends_with-fnmatch :
    (c : ℕ) (p t : Text)
    → ((s : Text) → fnmatch p s ≡ true → ends_with s t ≡ true)
    → (s : Text) → fnmatch (c ∷ p) s ≡ true
    → ends_with s t ≡ true
unfolding fnmatch
ends_with-fnmatch c p t k s h = elim (Bool-cases (c == b'*')) [
  | inl f ↦ ends_with-star (fnmatch p) t k s (ground arith)
  | inr f ↦ ends_with-char_then (fnmatch p) c t k s (ground arith)
]

empty_only : (s : Text) → fnmatch [] s ≡ true → ends_with s (tail_of []) ≡ true
unfolding fnmatch tail_of
empty_only [] h = ends_with_self []
empty_only (d ∷ s) h = absurd (cc)

pub ends_with-tail_of : (p s : Text) → fnmatch p s ≡ true → ends_with s (tail_of p) ≡ true
ends_with-tail_of [] s h = empty_only s h
ends_with-tail_of (c ∷ p) s h = elim (Bool-cases (contains (c ∷ p) b'*')) [
  | inl e ↦
      subst (λ t. ends_with s t ≡ true) (sym (tail_of_starred c p e))
        (ends_with-fnmatch c p (tail_of p) (ends_with-tail_of p) s h)
  | inr e ↦
      subst (λ t. ends_with s t ≡ true)
        (eq_of_literal (c ∷ p) s (ap not e) h ∙ sym (tail_of_literal c p e)) (ends_with_self s)
]
