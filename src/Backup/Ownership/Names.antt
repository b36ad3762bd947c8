-- ===== src/Backup/Ownership/Names.antt =====
-- The names of the files that generate owns.
use mathlib.Core.Path.{subst}
use native.Mathlib.Decide.{ℕ_discrete}
use k8s_homelab.Prelude.{
  ℕ, sym, ==_refl, all, refl, all-contains, ==_eq, nat_eq, any_witness, list_eq, ap, inr, [], ◌&&◌,
  inl, ◌==◌, Bool-cases, arith, ◌∷◌, true, ◌||◌, ◌≡◌, Bool,
}
use k8s_homelab.Prelude.{contains, if◌then◌else◌, map, List, ◌∙◌}
use k8s_homelab.Prelude.Text.{lacks, ends_with, Text}
use k8s_homelab.Backup.Ownership.Glob.{ends_with-tail_of, eq_of_literal, tail_of}
use k8s_homelab.Backup.Ownership.{fnmatch, matches, generate_owns, generate_patterns}

-- The text after the last slash.
unfoldable pub file_name : Text → Text
file_name [] = []
file_name (c ∷ s) =
    let rest = file_name s in if contains s b'/' then rest else if c == b'/' then s else c ∷ s

-- The last names of the patterns of generate, none of which has a star.
unfoldable pub generate_names : List Text
generate_names = map file_name generate_patterns

contains-ends_with :
    (s t : Text) → ends_with s t ≡ true → contains t b'/' ≡ true → contains s b'/' ≡ true
unfolding ends_with
contains-ends_with [] t h m = subst (λ x. contains x b'/' ≡ true) (==_eq t [] h) m
contains-ends_with (c ∷ s) t h m = elim (Bool-cases ((c ∷ s) == t)) [
  | inl e ↦ subst (λ x. contains x b'/' ≡ true) (sym (==_eq (c ∷ s) t e)) m
  | inr e ↦ ground (arith, contains-ends_with s t (ground arith) m)
]

file_name_under : (c : ℕ) (s : Text) → contains s b'/' ≡ true → file_name (c ∷ s) ≡ file_name s
unfolding file_name
file_name_under c s h = rw h refl

file_name-ends_with :
    (s t : Text) → ends_with s t ≡ true → contains t b'/' ≡ true → file_name s ≡ file_name t
unfolding ends_with
file_name-ends_with [] t h m = ap file_name (sym (==_eq t [] h))
file_name-ends_with (c ∷ s) t h m = elim (Bool-cases ((c ∷ s) == t)) [
  | inl e ↦ ap file_name (==_eq (c ∷ s) t e)
  | inr e ↦
      let within : ends_with s t ≡ true = ground arith in
      file_name_under c s (contains-ends_with s t within m) ∙ file_name-ends_with s t within m
]

-- Whether a pattern gives the name of each path that matches it.
abbrev gives_name : Text → Bool
gives_name p = lacks b'*' p || (contains (tail_of p) b'/' && file_name (tail_of p) == file_name p)

file_name-fnmatch :
    (p s : Text) → gives_name p ≡ true → fnmatch p s ≡ true → file_name s ≡ file_name p
file_name-fnmatch p s n h = elim (Bool-cases (lacks b'*' p)) [
  | inl e ↦ ap file_name (eq_of_literal p s e h)
  | inr e ↦
      file_name-ends_with s (tail_of p) (ends_with-tail_of p s h) (ground arith)
      ∙ ==_eq (file_name (tail_of p)) (file_name p) (ground arith)
]

all_named : all gives_name generate_patterns ≡ true
unfolding generate_patterns tail_of file_name list_eq nat_eq ℕ_discrete
all_named = refl

contains_mapped :
    (ps : List Text) (p : Text)
    → contains ps p ≡ true
    → contains (map file_name ps) (file_name p) ≡ true
contains_mapped [] p m = absurd (cc)
contains_mapped (q ∷ ps) p m = elim (Bool-cases (p == q)) [
  | inl e ↦ ground (arith, ap file_name (==_eq p q e), ==_refl (file_name q))
  | inr e ↦ ground (arith, contains_mapped ps p)
]

pub generate_owns_named :
    (rel : Text) → generate_owns rel ≡ true → contains generate_names (file_name rel) ≡ true
unfolding generate_owns matches generate_names
generate_owns_named rel h =
    let (q, m, k) = any_witness (λ q. fnmatch q rel) generate_patterns h in
    let same =
      file_name-fnmatch q rel (all-contains gives_name generate_patterns q all_named m) k in
    subst (λ n. contains (map file_name generate_patterns) n ≡ true) (sym same)
      (contains_mapped generate_patterns q m)
