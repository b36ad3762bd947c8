-- ===== src/Backup/Flux.antt =====
-- FluxOwnership of scripts/k8s_backup/fluxowner.py: the Flux Kustomization that an object came
-- from. A chain is kept with its last element first, and the walk has fuel.
pub mod Chain
pub mod Entry
use k8s_homelab.Prelude.{
  ℕ, zero, suc, ◌+◌, List, [], ◌∷◌, ◌++◌, Option, none, some, Bool, true, false, ◌||◌,
  if◌then◌else◌, Eq, ◌==◌, contains, length, list_eq, nat_eq, option_eq,
}
use k8s_homelab.Prelude.{pair_eq, ◌>>=◌}
use k8s_homelab.Prelude.Text.{Text, codes, is_empty}
use k8s_homelab.Prelude.Dict.{Dict, keys, lookup, insert}

-- What is read of an object: its metadata's namespace, name and labels.
pub record Object : Type 0 where
  pub namespace : Option Text
  pub name : Option Text
  pub labels : Option (Dict Text Text)

-- The namespace and name of a Kustomization.
abbrev pub Key : Type 0
Key = Option Text × Text

-- The parent of each Kustomization that is seen.
abbrev pub Parents : Type 0
Parents = Dict (Option Text × Option Text) (Option Key)

unfoldable pub generator_entrypoints : List Text
generator_entrypoints = codes "cluster" ∷ codes "cluster-resources" ∷ codes "cluster-meta" ∷ []

unfoldable pub ks_name_label : Text
ks_name_label = codes "kustomize.toolkit.fluxcd.io/name"

unfoldable pub ks_namespace_label : Text
ks_namespace_label = codes "kustomize.toolkit.fluxcd.io/namespace"

unfoldable pub labels_of : Object → Dict Text Text
labels_of obj = elim obj.labels [ none ↦ [] | some labels ↦ labels ]

-- `_applied_by`
unfoldable pub applied_by : Object → Option Key
applied_by obj = elim (lookup ks_name_label (labels_of obj)) [
  | none ↦ none
  | some name ↦
      if is_empty name then none else some (lookup ks_namespace_label (labels_of obj), name)
]

unfoldable pub flux_ownership : List Object → Parents → Parents
flux_ownership [] parents = parents
flux_ownership (ks ∷ rest) parents =
    flux_ownership rest (insert (ks.namespace, ks.name) (applied_by ks) parents)

abbrev pub as_entry : Key → Option Text × Option Text
as_entry k = (k.0, some k.1)

-- `self._parent.get(key)`, and `key in self._parent`
unfoldable pub parent_of : Parents → Key → Option Key
parent_of parents k = elim (lookup (as_entry k) parents) [ none ↦ none | some parent ↦ parent ]

unfoldable pub is_seen : Parents → Key → Bool
unfolding keys
is_seen parents k = contains (keys parents) (as_entry k)

-- The loop of `entrypoint`: the chain above its last element, which is `last`.
unfoldable pub walk : Parents → ℕ → Key → List Key → Option (Key × List Key)
walk parents zero last below = none
walk parents (suc fuel) last below = elim (parent_of parents last) [
  | none ↦ some (last, below)
  | some parent ↦
      let rest = walk parents fuel parent (last ∷ below) in
      if contains (last ∷ below) parent then some (last, below) else rest
]

-- `chain[-2][1] if len(chain) >= 2 else key[1]`, where a chain of one element is the key.
unfoldable pub below_root : Key → List Key → Text
below_root last [] = last.1
below_root last (k ∷ below) = k.1

unfoldable pub entrypoint : Parents → Object → Option Text
entrypoint parents obj = elim (applied_by obj) [
  | none ↦ none
  | some k ↦
      let found = walk parents (suc (suc (length parents))) k [] in
      if is_seen parents k
      then elim found [ none ↦ none | some chain ↦ some (below_root chain.0 chain.1) ]
      else none
]

abbrev pub app_reason : Text → Text
app_reason name =
    codes "applied by the app Flux Kustomization '"
    ++ name
    ++ codes "' (already in its folder in git)"

unfoldable pub app_owned_reason : Object → Option Text
app_owned_reason obj = elim (applied_by obj) [
  | none ↦ none
  | some k ↦ if contains generator_entrypoints k.1 then none else some (app_reason k.1)
]

unfoldable pub other_app_reason : Object → Text → Option Text
other_app_reason obj own_kustomization = elim (applied_by obj) [
  | none ↦ none
  | some k ↦
      if contains generator_entrypoints k.1 || k.1 == own_kustomization
      then none
      else some (app_reason k.1)
]

unfoldable pub foreign_reason : Parents → Object → Option Text
foreign_reason parents obj = elim (entrypoint parents obj) [
  | none ↦ none
  | some entry ↦
      if contains generator_entrypoints entry
      then none
      else some (
          codes "applied by Flux Kustomization '"
          ++ entry
          ++ codes "' (hand-written, already in git)")
]
