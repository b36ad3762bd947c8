-- ===== src/Backup/Ownership/Apart.antt =====
-- No path is owned by both phases.
use mathlib.Core.Path.{subst}
use native.Mathlib.Decide.{ℕ_discrete}
use k8s_homelab.Prelude.{
  all, refl, all-contains, ==_eq, nat_eq, any_witness, list_eq, ap, inr, [], ◌&&◌, any, inl, ◌==◌,
  Bool-cases, arith, ◌∷◌, false, true, not, ◌||◌, ◌≡◌, Bool,
}
use k8s_homelab.Prelude.Text.{lacks, starts_with, ends_with, Text}
use k8s_homelab.Backup.Ownership.Glob.{
  ends_with-tail_of, starts_with-head_of, eq_of_literal, tail_of, head_of,
}
use k8s_homelab.Backup.Ownership.{
  star, char_then, fnmatch, matches, capture_exclude, generate_owns, generate_patterns,
  capture_owns, capture_patterns,
}

-- One text begins the other.
unfoldable pub agree : Text → Text → Bool
agree [] b = true
agree (c ∷ a) [] = true
agree (c ∷ a) (d ∷ b) = c == d && agree a b

agree_heads : (s a b : Text) → starts_with s a ≡ true → starts_with s b ≡ true → agree a b ≡ true
unfolding agree starts_with
agree_heads s [] b h k = refl
agree_heads s (c ∷ a) [] h k = refl
agree_heads [] (c ∷ a) (d ∷ b) h k = absurd (cc)
agree_heads (x ∷ s) (c ∷ a) (d ∷ b) h k = ground (arith, agree_heads s a b)

-- One text ends the other.
abbrev tails_agree : Text → Text → Bool
tails_agree a b = ends_with a b || ends_with b a

agree_tails : (s a b : Text) → ends_with s a ≡ true → ends_with s b ≡ true → tails_agree a b ≡ true
unfolding ends_with
agree_tails [] a b h k = ground arith
agree_tails (x ∷ s) a b h k = elim (Bool-cases ((x ∷ s) == a)) [
  | inl e ↦ subst (λ t. tails_agree t b ≡ true) (==_eq (x ∷ s) a e) (ground (arith, k))
  | inr e ↦ elim (Bool-cases ((x ∷ s) == b)) [
    | inl f ↦ subst (λ t. tails_agree a t ≡ true) (==_eq (x ∷ s) b f) (ground (arith, h))
    | inr f ↦ agree_tails s a b (ground arith) (ground arith)
  ]
]

-- Whether the two patterns tell at once that no path matches both, but for an excluded one.
abbrev are_apart : Text → Text → Bool
are_apart p q =
    not (agree (head_of p) (head_of q))
    || not (tails_agree (tail_of p) (tail_of q))
    || (lacks b'*' q && (not (fnmatch p q) || matches q capture_exclude))

excluded_of_both :
    (p q s : Text)
    → are_apart p q ≡ true
    → fnmatch p s ≡ true
    → fnmatch q s ≡ true
    → matches s capture_exclude ≡ true
excluded_of_both p q s h k l = elim (Bool-cases (lacks b'*' q)) [
  | inl e ↦
      let same = eq_of_literal q s e l in
      ground (
        arith,
        ap (fnmatch p) same,
        ap (λ t. matches t capture_exclude) same,
        agree_heads s (head_of p) (head_of q) (starts_with-head_of p s k)
            (starts_with-head_of q s l),
        agree_tails s (tail_of p) (tail_of q) (ends_with-tail_of p s k) (ends_with-tail_of q s l),
      )
  | inr e ↦ ground (
    arith,
    agree_heads s (head_of p) (head_of q) (starts_with-head_of p s k) (starts_with-head_of q s l),
    agree_tails s (tail_of p) (tail_of q) (ends_with-tail_of p s k) (ends_with-tail_of q s l),
  )
]

all_apart : all (λ p. all (are_apart p) generate_patterns) capture_patterns ≡ true
unfolding capture_patterns generate_patterns capture_exclude agree head_of tail_of ends_with fnmatch
    char_then star matches list_eq nat_eq ℕ_discrete
all_apart = refl

pub generate_owns_apart : (rel : Text) → capture_owns rel ≡ true → generate_owns rel ≡ false
unfolding capture_owns generate_owns matches
generate_owns_apart rel h = elim (Bool-cases (any (λ q. fnmatch q rel) generate_patterns)) [
  | inr e ↦ e
  | inl e ↦
      let (p, m, k) = any_witness (λ p. fnmatch p rel) capture_patterns (ground arith) in
      let (q, n, l) = any_witness (λ q. fnmatch q rel) generate_patterns e in
      let row =
        all-contains (λ p. all (are_apart p) generate_patterns) capture_patterns p all_apart m in
      absurd (
        ground (
          arith,
          excluded_of_both p q rel (all-contains (are_apart p) generate_patterns q row n) k l,
        ))
]
