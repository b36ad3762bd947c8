-- ===== src/Organizr/ReadBack.antt =====
-- The read-back of organizr-sync.py, where it finds nothing amiss.
use mathlib.Core.Option.{some-injective}
use mathlib.Core.Path.{subst}
use k8s_homelab.Prelude.{
  ◌∙◌, ap, sym, ◌++◌, refl, List, list_eq, nat_eq, inr, arith, inl, contains, Option-cases, all, [],
  true, some, Option, ◌≡◌, Bool,
}
use k8s_homelab.Prelude.Dict.{keys}
use k8s_homelab.Prelude.Text.{codes, Text}
use k8s_homelab.Organizr.Verified.{
  tab_problems_nil, unlisted_nil, missing_nil, setting_problems_nil, tabs_hold, none_else,
  settings_hold, both_nil,
}
use k8s_homelab.Organizr.Main.{
  tab_problems, tab_unlisted, category_unlisted, unlisted, missing, setting_problems, config_of,
  verify_lists, verify, Problem, Spec,
}
use k8s_homelab.Organizr.Setup.{read_config, Env}
use k8s_homelab.Organizr.{list_of, Answers, Session, Items}
use k8s_homelab.Json.{Fields, Value}

module _ (repr : Value → Text) (os_error : Session → Bool) (answer : Answers) (env : Env) where
  -- What Organizr gave of its settings after `s`, and then of its categories and of its tabs.
  abbrev pub config_after : Session → Option Fields
  config_after s = config_of (read_config os_error answer s).0

  abbrev pub categories_after : Session → Option Items × Session
  categories_after s =
      list_of answer (codes "categories") (codes "category") (read_config os_error answer s).1

  abbrev pub tabs_after : Session → Option Items × Session
  tabs_after s = list_of answer (codes "tabs") (codes "name") (categories_after s).1

  -- The last three requests of `sent`, which follow `s`, gave the settings, the categories and the tabs
  -- that were to be applied.
  abbrev pub Matches : Spec → Items → Session → Session → Type 0
  Matches spec tabs s sent =
      (config : Fields) × (have : Items) × (there : Items) × ((config_after s ≡ some config)
        × ((categories_after s).0 ≡ some have)
        × ((tabs_after s).0 ≡ some there)
        × (sent ≡ (tabs_after s).1))
      × (settings_hold repr env config spec.settings ≡ true)
      × ((all (λ n. contains (keys have) n) (keys spec.categories) ≡ true)
          × (none_else repr spec.exact have (keys spec.categories) ≡ true))
      × ((tabs_hold repr there tabs ≡ true) × (none_else repr spec.exact there (keys tabs) ≡ true))

  abbrev all_problems : Spec → Items → List Problem → Items → Items → List Problem
  all_problems spec tabs ps have there =
      ps
      ++ (missing have (keys spec.categories)
          ++ (unlisted category_unlisted spec.exact have (keys spec.categories)
              ++ (unlisted tab_unlisted spec.exact there (keys tabs)
                  ++ tab_problems repr there tabs)))

  verify_run :
      (spec : Spec) (tabs : Items) (s : Session) (config : Fields) (ps : List Problem)
      (have there : Items)
      → config_after s ≡ some config
      → setting_problems repr env config spec.settings ≡ some ps
      → (categories_after s).0 ≡ some have
      → (tabs_after s).0 ≡ some there
      → verify repr os_error answer env spec.settings spec.categories tabs spec.exact s
        ≡ (some (all_problems spec tabs ps have there), (tabs_after s).1)
  unfolding verify verify_lists
  verify_run spec tabs s config ps have there e f g k = rw (verify, e, f, verify_lists, g, k) refl

  problems_Matches :
      (spec : Spec) (tabs : Items) (s : Session) (config : Fields) (ps : List Problem)
      (have there : Items)
      → config_after s ≡ some config
      → setting_problems repr env config spec.settings ≡ some ps
      → (categories_after s).0 ≡ some have
      → (tabs_after s).0 ≡ some there
      → all_problems spec tabs ps have there ≡ []
      → Matches spec tabs s (tabs_after s).1
  problems_Matches spec tabs s config ps have there e f g k h =
      let wanted = keys spec.categories in
      let (a, h1) = both_nil ps _ h in
      let (b, h2) = both_nil (missing have wanted) _ h1 in
      let (c, h3) = both_nil (unlisted category_unlisted spec.exact have wanted) _ h2 in
      let (d, t) = both_nil (unlisted tab_unlisted spec.exact there (keys tabs)) _ h3 in
      (
        config,
        have,
        there,
        (e, g, k, refl),
        setting_problems_nil repr env config spec.settings (f ∙ ap some a),
        (
          missing_nil repr have wanted b,
          unlisted_nil repr category_unlisted spec.exact have wanted c,
        ),
        (
          tab_problems_nil repr there tabs t,
          unlisted_nil repr tab_unlisted spec.exact there (keys tabs) d,
        ),
      )

  pub verify-Matches :
      (spec : Spec) (tabs : Items) (s : Session)
      → (verify repr os_error answer env spec.settings spec.categories tabs spec.exact s).0
        ≡ some []
      → Matches spec tabs s
          (verify repr os_error answer env spec.settings spec.categories tabs spec.exact s).1
  unfolding verify verify_lists
  verify-Matches spec tabs s h = elim (Option-cases (config_after s)) [
    | inl e ↦ absurd (ground arith)
    | inr (config, e) ↦ elim (Option-cases (setting_problems repr env config spec.settings)) [
      | inl f ↦ absurd (ground arith)
      | inr (ps, f) ↦ elim (Option-cases (categories_after s).0) [
        | inl g ↦ absurd (ground arith)
        | inr (have, g) ↦ elim (Option-cases (tabs_after s).0) [
          | inl k ↦ absurd (ground arith)
          | inr (there, k) ↦
              let run = verify_run spec tabs s config ps have there e f g k in
              subst (Matches spec tabs s) (sym (ap (λ r. r.1) run)) (
                problems_Matches spec tabs s config ps have there e f g k
                  (some-injective _ _ (sym (ap (λ r. r.0) run) ∙ h)))
        ]
      ]
    ]
  ]
