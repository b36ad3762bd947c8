-- ===== src/Backup/Substitute/Fresh.antt =====
-- The free placeholder that varsub.py's `_next_placeholder` finds, and the fuel its loop takes.
use mathlib.Core.Path.{subst}
use mathlib.Core.List.{append_cancel_left, append_cancel_right}
use mathlib.Core.Option.{some-injective}
use k8s_homelab.Prelude.{
  ap, if◌then◌else◌, refl, inr, sym, inl, zero, [], list_eq, nat_eq, Bool-cases, ◌∙◌, false, ◌∷◌,
  ◌==◌, arith, ◌++◌, ◌≤◌, suc, not, some, contains-filter, true,
}
use k8s_homelab.Prelude.{contains, ◌≢◌, length, ◌<◌, filter, ◌≡◌, ℕ, List}
use k8s_homelab.Prelude.Decimal.{read_decimal, read_decimal-decimal, decimal}
use k8s_homelab.Prelude.Text.{codes, Text}
use k8s_homelab.Backup.Substitute.Entries.{wrapped}
use k8s_homelab.Backup.Substitute.Seeds.{numbered, next_from, next_placeholder}

others : Text → List Text → List Text
others a xs = filter (λ b. not (b == a)) xs

length-others_le : (a : Text) (xs : List Text) → length (others a xs) ≤ length xs
unfolding others
length-others_le a [] = omega arith
length-others_le a (x ∷ xs) = ground (arith, length-others_le a xs)

length-others_lt :
    (a : Text) (xs : List Text) → contains xs a ≡ true → length (others a xs) < length xs
unfolding others
length-others_lt a [] h = absurd (cc)
length-others_lt a (x ∷ xs) h = ground (arith, length-others_lt a xs, length-others_le a xs)

contains-others : (a b : Text) (xs : List Text) → a ≢ b → contains (others a xs) b ≡ contains xs b
unfolding others
contains-others a b xs h = contains-filter (λ c. not (c == a)) xs b ∙ ground arith

numbered_injective : (base : Text) (i j : ℕ) → numbered base i ≡ numbered base j → i ≡ j
numbered_injective base i j e =
    let inner =
      append_cancel_right (base ++ b'_' ∷ decimal i) (base ++ b'_' ∷ decimal j) (codes "}")
        (append_cancel_left (codes "${") _ _ e) in
    let same =
      append_cancel_left (b'_' ∷ []) (decimal i) (decimal j) (append_cancel_left base _ _ inner) in
    some-injective i j
      (sym (read_decimal-decimal i) ∙ (ap read_decimal same ∙ read_decimal-decimal j))

-- A text numbered less is not met from here on.
next_from-others :
    (fuel : ℕ) (base : Text) (k i : ℕ) (taken : List Text)
    → k < i
    → next_from fuel base i (others (numbered base k) taken) ≡ next_from fuel base i taken
unfolding next_from
next_from-others zero base k i taken h = refl
next_from-others (suc fuel) base k i taken h =
    rw
      (
        contains-others (numbered base k) (numbered base i) taken
            (λ e. let same = numbered_injective base k i e in omega arith),
        next_from-others fuel base k (suc i) taken (omega arith),
      )
      refl

next_from_returns :
    (fuel : ℕ) (base : Text) (i : ℕ) (taken : List Text)
    → length taken < fuel
    → (p : Text) × (next_from fuel base i taken ≡ some p)
unfolding next_from
next_from_returns zero base i taken h = absurd (omega arith)
next_from_returns (suc fuel) base i taken h = elim (Bool-cases (contains taken (numbered base i))) [
  | inl e ↦
      let (p, f) =
        next_from_returns fuel base (suc i) (others (numbered base i) taken)
          (let less = length-others_lt (numbered base i) taken e in omega arith) in
      (p, rw e (sym (next_from-others fuel base i (suc i) taken (omega arith)) ∙ f))
  | inr e ↦ (numbered base i, rw e refl)
]

next_from_free :
    (fuel : ℕ) (base : Text) (i : ℕ) (taken : List Text) (p : Text)
    → next_from fuel base i taken ≡ some p
    → contains taken p ≡ false
unfolding next_from
next_from_free zero base i taken p h = absurd (cc)
next_from_free (suc fuel) base i taken p h = elim (Bool-cases (contains taken (numbered base i))) [
  | inl e ↦ next_from_free fuel base (suc i) taken p (
      subst
        (λ b. (if b then next_from fuel base (suc i) taken else some (numbered base i)) ≡ some p) e
        h)
  | inr e ↦
      subst (λ q. contains taken q ≡ false)
        (some-injective _ _ (
          subst
            (λ b.
              (if b then next_from fuel base (suc i) taken else some (numbered base i)) ≡ some p)
            e h))
        e
]

pub next_placeholder_free :
    (base : Text) (taken : List Text)
    → (p : Text) × (next_placeholder base taken ≡ some p) × (contains taken p ≡ false)
unfolding next_placeholder
next_placeholder_free base taken = elim (Bool-cases (contains taken (wrapped base))) [
  | inl e ↦
      let (p, f) = next_from_returns (suc (length taken)) base 2 taken (omega arith) in
      (p, rw e f, next_from_free (suc (length taken)) base 2 taken p f)
  | inr e ↦ (wrapped base, rw e refl, e)
]
