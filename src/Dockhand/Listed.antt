-- ===== src/Dockhand/Listed.antt =====
-- A name that `states` finds to add is none of those that the vault lists.
use k8s_homelab.Prelude.{
  refl, ◌==◌, Bool-cases, ◌∷◌, inl, list_eq, [], nat_eq, ◌||◌, Option-cases, arith, inr, map, all,
  not, ◌⊎◌, false, none, true, some, Bool, ◌&&◌, is_none,
}
use k8s_homelab.Prelude.{contains, List, ◌≡◌}
use k8s_homelab.Prelude.Dict.{lookup-insert, insert, keys, lookup, Dict}
use k8s_homelab.Prelude.Text.{lower, Text}
use k8s_homelab.Dockhand.States.{is_disabled, held_as, state_of, states, lower_names, to_write}
use k8s_homelab.Keyvault.{keyvault_name}
use k8s_homelab.Dockhand.Plan.{Target}
use k8s_homelab.Keyvault.Source.{Codec}
use k8s_homelab.Keyvault.Vault.{Held}

abbrev pub is_listed : Dict Text Held → List Text → Text → Bool
is_listed held disabled n =
    contains (map lower (keys held)) (lower n) || contains (map lower disabled) (lower n)

lower_names-is_none :
    (x : Text) (held : Dict Text Held) (names : Dict Text Text)
    → is_none (lookup x (lower_names held names))
      ≡ (is_none (lookup x names) && not (contains (map lower (keys held)) x))
unfolding lower_names keys
lower_names-is_none x [] names = ground arith
lower_names-is_none x ((n, h) ∷ held) names = ground (
  arith,
  lookup-insert (lower n) x n names,
  lower_names-is_none x held (insert (lower n) n names),
)

-- Each of the names by their lower case is one that is held.
lower_names-held :
    (x o : Text) (held : Dict Text Held) (names : Dict Text Text)
    → lookup x (lower_names held names) ≡ some o
    → (contains (keys held) o ≡ true) ⊎ (lookup x names ≡ some o)
unfolding lower_names keys
lower_names-held x o [] names e = inr e
lower_names-held x o ((n, h) ∷ held) names e =
    elim (lower_names-held x o held (insert (lower n) n names) e) [
      | inl c ↦ inl (ground (arith, c))
      | inr f ↦ elim (Bool-cases (lower n == x)) [
        | inl s ↦ inl (ground (arith, s, f, lookup-insert (lower n) x n names))
        | inr d ↦ inr (ground (arith, d, f, lookup-insert (lower n) x n names))
      ]
    ]

lookup_held :
    (o : Text) (held : Dict Text Held)
    → contains (keys held) o ≡ true
    → is_none (lookup o held) ≡ false
unfolding lookup keys
lookup_held o [] h = absurd (cc)
lookup_held o ((n, v) ∷ held) h = ground (arith, lookup_held o held)

-- What is not held under a name is not listed.
held_as-unlisted :
    (held : Dict Text Held) (n : Text)
    → held_as held n ≡ none
    → contains (map lower (keys held)) (lower (keyvault_name n)) ≡ false
unfolding lookup
held_as-unlisted held n e =
    elim (Option-cases (lookup (lower (keyvault_name n)) (lower_names held []))) [
      | inl f ↦ ground (arith, f, lower_names-is_none (lower (keyvault_name n)) held [])
      | inr (o, f) ↦ elim (lower_names-held (lower (keyvault_name n)) o held [] f) [
        | inl c ↦ ground (arith, e, f, lookup_held o held c)
        | inr g ↦ absurd (cc)
      ]
    ]

pub to_write-unlisted :
    (codec : Codec) (held : Dict Text Held) (disabled : List Text) (targets : Dict Text Target)
    → all
        (λ n. not (is_listed held disabled (keyvault_name n)))
        (to_write (states codec held disabled targets).0)
      ≡ true
unfolding to_write states state_of
to_write-unlisted codec held disabled [] = refl
to_write-unlisted codec held disabled ((n, t) ∷ targets) =
    elim (Bool-cases (is_disabled disabled n)) [
      | inl d ↦ ground (arith, d, to_write-unlisted codec held disabled targets)
      | inr d ↦ elim (Option-cases (held_as held n)) [
        | inl e ↦
            ground (
              arith,
              d,
              e,
              held_as-unlisted held n e,
              to_write-unlisted codec held disabled targets,
            )
        | inr (h, e) ↦ ground (arith, d, e, to_write-unlisted codec held disabled targets)
      ]
    ]
