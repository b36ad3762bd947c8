-- ===== src/Organizr/Verified.antt =====
-- What it takes for organizr-sync.py to end well: that it read back what it was to apply.
use k8s_homelab.Prelude.{
  contains-filter, inr, list_eq, arith, all_of_contains, nat_eq, minus, none, Bool-cases, inl, refl,
  ◌&&◌, Option-cases, ◌∷◌, contains, some, ◌||◌, [],
}
use k8s_homelab.Prelude.{
  if◌then◌else◌, filter, not, all, true, ◌≡◌, false, map, Option, Bool, ◌++◌, List,
}
use k8s_homelab.Prelude.Sort.{contains-sorted, sorted}
use k8s_homelab.Prelude.Dict.{keys, lookup}
use k8s_homelab.Prelude.Text.{Text}
use k8s_homelab.Organizr.Setup.{resolve, is_secret, Env}
use k8s_homelab.Organizr.Main.{
  category_missing, tab_problem, same_setting, problems_of, unlisted, tab_problems, missing,
  setting_problems, Problem,
}
use k8s_homelab.Organizr.{differs, Items}
use k8s_homelab.Json.{get, no_fields, is_empty_dict, is_truthy, field, Fields, Value}

pub both_nil : (xs ys : List Problem) → xs ++ ys ≡ [] → (xs ≡ []) × (ys ≡ [])
both_nil [] ys h = (refl, h)
both_nil (x ∷ xs) ys h = absurd (cc)

map_nil : (problem : Text → Problem) (names : List Text) → map problem names ≡ [] → names ≡ []
map_nil problem [] h = refl
map_nil problem (n ∷ names) h = absurd (cc)

filter_nil :
    (p : Text → Bool) (names : List Text) → filter (λ n. not (p n)) names ≡ [] → all p names ≡ true
filter_nil p [] h = refl
filter_nil p (n ∷ names) h = elim (Bool-cases (p n)) [
  | inl e ↦ ground (arith, e, filter_nil p names)
  | inr e ↦ absurd (ground arith)
]

module _ (repr : Value → Text) where
  -- Whether a setting that was read back is as wanted: a secret one is there, another one is the same.
  abbrev pub same_value : Option Value → Option Value → Bool
  same_value got none = false
  same_value got (some wanted) = same_setting repr got wanted

  abbrev pub setting_holds : Env → Fields → Text → Value → Bool
  setting_holds env config key v =
      if is_secret key
      then is_truthy (get key config)
      else same_value (get key config) (resolve env v)

  unfoldable pub settings_hold : Env → Fields → Fields → Bool
  settings_hold env config no_fields = true
  settings_hold env config (field key v settings) =
      setting_holds env config key v && settings_hold env config settings

  abbrev pub is_same_tab : Fields → Option Fields → Bool
  is_same_tab tab none = false
  is_same_tab tab (some there) = is_empty_dict (differs repr there tab)

  -- Each tab is there, and differs in nothing that is wanted of it.
  abbrev pub tabs_hold : Items → Items → Bool
  tabs_hold there tabs = all (λ e. is_same_tab e.1 (lookup e.0 there)) tabs

  -- Of the items of a list, all that are wanted are there, and with remove_unlisted no others.
  abbrev pub none_else : Bool → Items → List Text → Bool
  none_else exact have names = not exact || all (λ n. contains names n) (keys have)

  pub setting_problems_nil :
      (env : Env) (config settings : Fields)
      → setting_problems repr env config settings ≡ some []
      → settings_hold env config settings ≡ true
  unfolding setting_problems settings_hold problems_of
  setting_problems_nil env config no_fields h = refl
  setting_problems_nil env config (field key v settings) h =
      elim (Option-cases (problems_of repr env config key v)) [
        | inl e ↦ absurd (ground arith)
        | inr (ps, e) ↦ elim (Option-cases (setting_problems repr env config settings)) [
          | inl f ↦ absurd (ground arith)
          | inr (rest, f) ↦
              let (p, r) = both_nil ps rest (ground arith) in
              ground (arith, setting_problems_nil env config settings)
        ]
      ]

  pub tab_problems_nil :
      (there tabs : Items) → tab_problems repr there tabs ≡ [] → tabs_hold there tabs ≡ true
  unfolding tab_problems
  tab_problems_nil there [] h = refl
  tab_problems_nil there ((name, tab) ∷ tabs) h =
      let (p, r) =
        both_nil (tab_problem repr name tab (lookup name there)) (tab_problems repr there tabs) h in
      ground (arith, tab_problems_nil there tabs)

  pub unlisted_nil :
      (problem : Text → Problem) (exact : Bool) (have : Items) (names : List Text)
      → unlisted problem exact have names ≡ []
      → none_else exact have names ≡ true
  unlisted_nil problem false have names h = refl
  unlisted_nil problem true have names h =
      let empty = map_nil problem (sorted (minus (keys have) names)) h in
      all_of_contains (λ n. contains names n) (keys have)
        (λ n m. elim (Bool-cases (contains names n)) [
          | inl e ↦ e
          | inr e ↦ absurd (
              ground (
                arith,
                m,
                e,
                empty,
                contains-sorted (minus (keys have) names) n,
                contains-filter (λ b. not (contains names b)) (keys have) n,
              ))
        ])

  pub missing_nil :
      (have : Items) (names : List Text)
      → missing have names ≡ []
      → all (λ n. contains (keys have) n) names ≡ true
  missing_nil have names h =
      filter_nil (λ n. contains (keys have) n) names
        (map_nil category_missing (filter (λ n. not (contains (keys have) n)) names) h)
