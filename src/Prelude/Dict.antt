-- ===== src/Prelude/Dict.antt =====
-- Python dicts in insertion order, as association lists.
use mathlib.Core.Logic.{inr, inl}
use mathlib.Core.Path.{sym, subst, ◌≡◌, refl}
use mathlib.Core.Bool.{false}
use mathlib.Core.Option.{Option, none, some}
use mathlib.Core.List.{List, [], ◌∷◌, map}
use native.Mathlib.Omega.{arith}
use k8s_homelab.Prelude.Lists.{All}
use k8s_homelab.Prelude.Equality.{==_eq, Eq, ◌==◌, contains}
use k8s_homelab.Prelude.Tests.{Returns, Bool-cases, if◌then◌else◌}

abbrev pub Dict {ℓ κ} : Type ℓ → Type κ → Type (ℓ ⊔ κ)
Dict K V = List (K × V)

unfoldable pub keys {ℓ κ} : {K : Type ℓ} {V : Type κ} → Dict K V → List K
keys d = map (λ e. e.0) d

unfoldable pub values {ℓ κ} : {K : Type ℓ} {V : Type κ} → Dict K V → List V
values d = map (λ e. e.1) d

module _ {ℓ κ} {K : Type ℓ} {V : Type κ} ⦃e : Eq K⦄ where
  unfoldable pub lookup : K → Dict K V → Option V
  lookup k [] = none
  lookup k ((j, v) ∷ d) = let rest = lookup k d in if j == k then some v else rest

  -- `d[k] = v`
  unfoldable pub insert : K → V → Dict K V → Dict K V
  insert k v [] = (k, v) ∷ []
  insert k v ((j, w) ∷ d) = let rest = insert k v d in if j == k then (j, v) ∷ d else (j, w) ∷ rest

  -- `d.pop(k, None)`
  unfoldable pub erase : K → Dict K V → Dict K V
  erase k [] = []
  erase k ((j, w) ∷ d) = let rest = erase k d in if j == k then rest else (j, w) ∷ rest

  pub lookup-insert :
      (k j : K) (v : V) (d : Dict K V)
      → lookup j (insert k v d) ≡ (if k == j then some v else lookup j d)
  unfolding lookup insert
  lookup-insert k j v [] = ground arith
  lookup-insert k j v ((i, w) ∷ d) = ground (arith, lookup-insert k j v d)

  pub lookup-erase :
      (k j : K) (d : Dict K V) → lookup j (erase k d) ≡ (if k == j then none else lookup j d)
  unfolding lookup erase
  lookup-erase k j [] = ground arith
  lookup-erase k j ((i, w) ∷ d) = ground (arith, lookup-erase k j d)

  pub lookup_unheld : (k : K) (d : Dict K V) → contains (keys d) k ≡ false → lookup k d ≡ none
  unfolding lookup keys
  lookup_unheld k [] h = refl
  lookup_unheld k ((j, w) ∷ d) h = ground (arith, lookup_unheld k d)

-- Every entry of a dict satisfies P.
abbrev pub AllEntries {ℓ κ} : {K : Type ℓ} {V : Type κ} → (K → V → Type 0) → Dict K V → Type 0
AllEntries P [] = Unit
AllEntries P ((k, v) ∷ d) = P k v × AllEntries P d

module _ {ℓ κ} {K : Type ℓ} {V : Type κ} ⦃e : Eq K⦄ (P : K → V → Type 0) where
  pub insert-AllEntries :
      (k : K) (v : V) (d : Dict K V) → P k v → AllEntries P d → AllEntries P (insert k v d)
  unfolding insert
  insert-AllEntries k v [] p h = (p, tt)
  insert-AllEntries k v ((j, w) ∷ d) p (q, h) = elim (Bool-cases (j == k)) [
    | inl same ↦ rw same (subst (λ i. P i v) (sym (==_eq j k same)) p, h)
    | inr other ↦ rw other (q, insert-AllEntries k v d p h)
  ]

  pub lookup-AllEntries : (k : K) (d : Dict K V) → AllEntries P d → Returns (P k) (lookup k d)
  unfolding lookup
  lookup-AllEntries k [] h = tt
  lookup-AllEntries k ((j, w) ∷ d) (q, h) = elim (Bool-cases (j == k)) [
    | inl same ↦ rw same (subst (λ i. P i w) (==_eq j k same) q)
    | inr other ↦ rw other (lookup-AllEntries k d h)
  ]

pub All-AllEntries {ℓ κ} :
    {K : Type ℓ} {V : Type κ} (P : K → V → Type 0) (d : Dict K V)
    → AllEntries P d
    → All (λ e. P e.0 e.1) d
All-AllEntries P [] h = tt
All-AllEntries P ((k, v) ∷ d) (p, h) = (p, All-AllEntries P d h)
