-- ===== src/Organizr/Ids.antt =====
-- The ids that category_ids of organizr-sync.py takes from Organizr's list of categories.
use mathlib.Core.Option.{some-injective}
use mathlib.Core.Path.{subst}
use k8s_homelab.Prelude.{
  refl, ◌∙◌, ◌∷◌, sym, none, List, inr, inl, Option-cases, [], some, ◌≡◌, ◌>>=◌, list_eq, nat_eq,
  arith,
}
use k8s_homelab.Prelude.Dict.{lookup, Dict, AllEntries}
use k8s_homelab.Prelude.Text.{codes, Text}
use k8s_homelab.Organizr.Main.{ids_of}
use k8s_homelab.Organizr.{Items}
use k8s_homelab.Json.{get, Fields, Value}

-- The list has a category of the name, with the id.
abbrev pub HasId : Items → Text → Value → Type 0
HasId have name id =
    (item : Fields) × ((lookup name have ≡ some item) × (get (codes "category_id") item ≡ some id))

ids_of_missing :
    (have : Items) (name : Text) (names : List Text)
    → lookup name have ≡ none
    → ids_of have (name ∷ names) ≡ ids_of have names
unfolding ids_of
ids_of_missing have name names e = rw (ids_of, e) refl

ids_of_listed :
    (have : Items) (name : Text) (names : List Text) (item : Fields)
    → lookup name have ≡ some item
    → ids_of have (name ∷ names) ≡ (
        get (codes "category_id") item >>= λ id.
        ids_of have names >>= λ ids. some ((name, id) ∷ ids))
unfolding ids_of
ids_of_listed have name names item e = rw (ids_of, e) refl

pub ids_of-HasId :
    (have : Items) (names : List Text) (ids : Dict Text Value)
    → ids_of have names ≡ some ids
    → AllEntries (HasId have) ids
unfolding ids_of
ids_of-HasId have [] ids h = subst (AllEntries (HasId have)) (some-injective _ _ h) tt
ids_of-HasId have (name ∷ names) ids h = elim (Option-cases (lookup name have)) [
  | inl e ↦ ids_of-HasId have names ids (sym (ids_of_missing have name names e) ∙ h)
  | inr (item, e) ↦
      let run = sym (ids_of_listed have name names item e) ∙ h in
      elim (Option-cases (get (codes "category_id") item)) [
        | inl f ↦ absurd (ground (arith, run))
        | inr (id, f) ↦ elim (Option-cases (ids_of have names)) [
          | inl g ↦ absurd (ground (arith, run))
          | inr (rest, g) ↦
              let same : some ((name, id) ∷ rest) ≡ some ids = ground (arith, run) in
              subst (AllEntries (HasId have)) (some-injective _ _ same)
                ((item, (e, f)), ids_of-HasId have names rest g)
        ]
      ]
]
