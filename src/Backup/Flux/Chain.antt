-- ===== src/Backup/Flux/Chain.antt =====
-- The walk up the chain of Kustomizations.
use mathlib.Core.Path.{ap₂}
use mathlib.Core.Option.{some-injective}
use k8s_homelab.Prelude.{
  ℕ, zero, suc, ◌+◌, ◌≤◌, ◌<◌, ◌≡◌, refl, ap, sym, ◌∙◌, ◌⊎◌, inl, inr, List, [], ◌∷◌, map, none,
  some, true, false, ◌||◌, arith, if◌then◌else◌, ◌==◌, ==_eq,
}
use k8s_homelab.Prelude.{
  ==_of_eq, contains, length, list_eq, nat_eq, option_eq, pair_eq, Bool-cases, Option-cases,
}
use k8s_homelab.Prelude.Dict.{keys, lookup_unheld}
use k8s_homelab.Backup.Flux.{Key, Parents, as_entry, parent_of, is_seen, walk}

module _ (parents : Parents) where
  -- A chain climbed from a Kustomization: each next one is the parent, and is new.
  pub data Climb (k : Key) : Key → List Key → Type 0 where
    here : Climb k k []
    up :
        {last parent : Key} {below : List Key}
        → Climb k last below
        → parent_of parents last ≡ some parent
        → contains (last ∷ below) parent ≡ false
        → Climb k parent (last ∷ below)

  -- It goes no further.
  abbrev pub IsTop : Key → List Key → Type 0
  IsTop last below =
      (parent_of parents last ≡ none)
      ⊎ ((parent : Key) × (parent_of parents last ≡ some parent)
          × (contains (last ∷ below) parent ≡ true))

-- How many entries the chain has not met.
abbrev pub unmet : Parents → List Key → ℕ
unmet [] chain = 0
unmet ((e, v) ∷ d) chain =
    if contains (map as_entry chain) e then unmet d chain else suc (unmet d chain)

unmet-cons_le : (d : Parents) (k : Key) (chain : List Key) → unmet d (k ∷ chain) ≤ unmet d chain
unmet-cons_le [] k chain = omega arith
unmet-cons_le ((e, v) ∷ d) k chain = ground (arith, unmet-cons_le d k chain)

as_entry-== : (k j : Key) → (as_entry k == as_entry j) ≡ (k == j)
as_entry-== k j = elim (Bool-cases (as_entry k == as_entry j)) [
  | inl e ↦
      let q = ==_eq (as_entry k) (as_entry j) e in
      e
      ∙ sym (
          ==_of_eq k j
            (ap₂ (λ n m. (n, m)) (ap (λ t. t.0) q) (some-injective k.1 j.1 (ap (λ t. t.1) q))))
  | inr e ↦ elim (Bool-cases (k == j)) [
    | inl same ↦ absurd (cc (e, ==_of_eq (as_entry k) (as_entry j) (ap as_entry (==_eq k j same))))
    | inr differ ↦ e ∙ sym differ
  ]
]

contains-as_entry :
    (chain : List Key) (k : Key) → contains (map as_entry chain) (as_entry k) ≡ contains chain k
contains-as_entry [] k = refl
contains-as_entry (c ∷ chain) k = ap₂ ◌||◌ (as_entry-== k c) (contains-as_entry chain k)

pub unmet_le : (d : Parents) (chain : List Key) → unmet d chain ≤ length d
unmet_le [] chain = omega arith
unmet_le ((e, v) ∷ d) chain = ground (arith, unmet_le d chain)

-- A new entry leaves fewer.
unmet-cons_lt :
    (d : Parents) (k : Key) (chain : List Key)
    → contains (keys d) (as_entry k) ≡ true
    → contains chain k ≡ false
    → unmet d (k ∷ chain) < unmet d chain
unfolding keys
unmet-cons_lt [] k chain m h = ground arith
unmet-cons_lt ((e, v) ∷ d) k chain m h =
    ground (arith, unmet-cons_lt d k chain, unmet-cons_le d k chain, contains-as_entry chain k)

module _ (parents : Parents) where
  parent_of-unseen : (k : Key) → is_seen parents k ≡ false → parent_of parents k ≡ none
  unfolding is_seen parent_of
  parent_of-unseen k h = ground (arith, lookup_unheld (as_entry k) parents)

  walk_stop :
      (fuel : ℕ) (last : Key) (below : List Key)
      → parent_of parents last ≡ none
      → walk parents (suc fuel) last below ≡ some (last, below)
  unfolding walk
  walk_stop fuel last below h = ground arith

  pub walk_top :
      (fuel : ℕ) (last parent : Key) (below : List Key)
      → parent_of parents last ≡ some parent
      → contains (last ∷ below) parent ≡ true
      → walk parents (suc fuel) last below ≡ some (last, below)
  unfolding walk
  walk_top fuel last parent below h m = ground arith

  pub walk_on :
      (fuel : ℕ) (last parent : Key) (below : List Key)
      → parent_of parents last ≡ some parent
      → contains (last ∷ below) parent ≡ false
      → walk parents (suc fuel) last below ≡ walk parents fuel parent (last ∷ below)
  unfolding walk
  walk_on fuel last parent below h m = ground arith

  -- With fuel for every entry not met yet the walk ends, at the top of the chain.
  pub walk_ends :
      (k : Key) (fuel : ℕ) (last : Key) (below : List Key)
      → Climb parents k last below
      → unmet parents (last ∷ below) + 2 ≤ fuel
      → (chain : Key × List Key) × (walk parents fuel last below ≡ some chain)
        × Climb parents k chain.0 chain.1
        × IsTop parents chain.0 chain.1
  walk_ends k zero last below c h = absurd (omega arith)
  walk_ends k (suc zero) last below c h = absurd (omega arith)
  walk_ends k (suc (suc fuel)) last below c h = elim (Option-cases (parent_of parents last)) [
    | inl e ↦ ((last, below), walk_stop (suc fuel) last below e, c, inl e)
    | inr (p, e) ↦ elim (Bool-cases (contains (last ∷ below) p)) [
      | inl m ↦ ((last, below), walk_top (suc fuel) last p below e m, c, inr (p, e, m))
      | inr n ↦ elim (Bool-cases (is_seen parents p)) [
        | inl s ↦
            let lt = unmet-cons_lt parents p (last ∷ below) (unfold is_seen in s) n in
            let (chain, w, d, t) =
              walk_ends k (suc fuel) p (last ∷ below) (up c e n) (omega arith) in
            (chain, walk_on (suc fuel) last p below e n ∙ w, d, t)
        | inr u ↦
            let stop = parent_of-unseen p u in
            (
              (p, last ∷ below),
              walk_on (suc fuel) last p below e n ∙ walk_stop fuel p (last ∷ below) stop,
              up c e n,
              inl stop,
            )
      ]
    ]
  ]
