-- ===== src/Organizr/Placed.antt =====
-- The tabs that `main` of organizr-sync.py applies, as the list of categories and the specification
-- have them.
use mathlib.Core.Option.{some-injective}
use mathlib.Core.Path.{subst}
use k8s_homelab.Prelude.{
  ==_eq, Bool-cases, ap, Returns, ◌∙◌, ◌∷◌, sym, none, inr, inl, Option-cases, [], some, ◌≡◌,
  list_eq, nat_eq, arith, ◌==◌, if◌then◌else◌, Option, refl,
}
use k8s_homelab.Prelude.Dict.{lookup, lookup-AllEntries, Dict, AllEntries}
use k8s_homelab.Prelude.Text.{codes, Text}
use k8s_homelab.Organizr.Main.{with_id, placed_tab, placed_tabs}
use k8s_homelab.Json.{pop, put, get, get-put, get-pop, null, text, Fields, Value}
use k8s_homelab.Organizr.Ids.{HasId}
use k8s_homelab.Organizr.{Items}

-- A tab that names a category has the id of that category in the list, in place of the name; one that
-- names none has the fields of the specification.
abbrev pub IsPlaced : Items → Fields → Option Value → Fields → Type 0
IsPlaced listed tab (some (text name)) placed =
    (id : Value) × HasId listed name id
    × ((j : Text)
        → get j placed ≡ (
            if codes "category_id" == j
            then some id
            else if codes "category" == j
            then none
            else get j tab))
IsPlaced listed tab v placed =
    (j : Text) → get j placed ≡ (if codes "category" == j then none else get j tab)

-- Each of the tabs, in order and under its name.
abbrev pub ArePlaced : Items → Items → Items → Type 0
ArePlaced listed [] [] = Unit
ArePlaced listed ((name, tab) ∷ tabs) ((n, placed) ∷ rest) =
    (n ≡ name)
    × IsPlaced listed tab (get (codes "category") tab) placed
    × ArePlaced listed tabs rest
ArePlaced listed tabs rest = ⊥

without :
    (k : Text) (o : Fields)
    → get k o ≡ none
    → (j : Text) → get j o ≡ (if k == j then none else get j o)
without k o h j = elim (Bool-cases (k == j)) [
  | inl e ↦ rw e (subst (λ i. get i o ≡ none) (==_eq k j e) h)
  | inr e ↦ rw e refl
]

get-with_id :
    (tab : Fields) (id : Value) (j : Text)
    → get j (put (codes "category_id") id (pop (codes "category") tab)) ≡ (
        if codes "category_id" == j
        then some id
        else if codes "category" == j
        then none
        else get j tab)
get-with_id tab id j = ground (
  arith,
  get-put (codes "category_id") j id (pop (codes "category") tab),
  get-pop (codes "category") j tab,
)

module _ (listed : Items) (ids : Dict Text Value) (held : AllEntries (HasId listed) ids) where
  listed_id : (name : Text) (id : Value) → lookup name ids ≡ some id → HasId listed name id
  listed_id name id e =
      subst (Returns (HasId listed name)) e (lookup-AllEntries (HasId listed) name ids held)

  placed_tab-IsPlaced :
      (tab placed : Fields) (category : Option Value)
      → get (codes "category") tab ≡ category
      → placed_tab ids tab category ≡ some placed
      → IsPlaced listed tab category placed
  placed_tab-IsPlaced tab placed none c h =
      subst (IsPlaced listed tab none) (some-injective _ _ h) (without (codes "category") tab c)
  placed_tab-IsPlaced tab placed (some null) c h =
      subst (IsPlaced listed tab (some null)) (some-injective _ _ h)
        (λ j. get-pop (codes "category") j tab)
  placed_tab-IsPlaced tab placed (some (text name)) c h = elim (Option-cases (lookup name ids)) [
    | inl e ↦ absurd (ground (arith, ap (with_id tab) e, h))
    | inr (id, e) ↦
        subst (IsPlaced listed tab (some (text name)))
          (some-injective _ _ (sym (ap (with_id tab) e) ∙ h))
          (id, listed_id name id e, get-with_id tab id)
  ]
  placed_tab-IsPlaced tab placed (some v) c h = absurd (cc)

  pub placed_tabs-ArePlaced :
      (tabs placed : Items) → placed_tabs ids tabs ≡ some placed → ArePlaced listed tabs placed
  unfolding placed_tabs
  placed_tabs-ArePlaced [] placed h = subst (ArePlaced listed []) (some-injective _ _ h) tt
  placed_tabs-ArePlaced ((name, tab) ∷ tabs) placed h =
      let category = get (codes "category") tab in
      elim (Option-cases (placed_tab ids tab category)) [
        | inl e ↦ absurd (ground (arith, h))
        | inr (one, e) ↦ elim (Option-cases (placed_tabs ids tabs)) [
          | inl f ↦ absurd (ground (arith, h))
          | inr (rest, f) ↦
              let same : some ((name, one) ∷ rest) ≡ some placed = ground (arith, h) in
              subst (ArePlaced listed ((name, tab) ∷ tabs)) (some-injective _ _ same) (
                refl,
                placed_tab-IsPlaced tab one category refl e,
                placed_tabs-ArePlaced tabs rest f,
              )
        ]
      ]
