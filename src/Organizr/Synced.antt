-- ===== src/Organizr/Synced.antt =====
-- The end of a run of organizr-sync.py that does not fail.
use mathlib.Core.Path.{subst}
use k8s_homelab.Prelude.{
  ◌∙◌, ◌∷◌, ap, sym, refl, none, List, list_eq, nat_eq, inr, arith, inl, false, Option-cases, [],
  true, some, Option, ◌≡◌, Bool,
}
use k8s_homelab.Prelude.Dict.{AllEntries, keys, Dict}
use k8s_homelab.Prelude.Text.{codes, Text}
use k8s_homelab.Organizr.Placed.{placed_tabs-ArePlaced, ArePlaced}
use k8s_homelab.Organizr.Ids.{ids_of-HasId, HasId}
use k8s_homelab.Organizr.Follows.{remove_unlisted-Follows, apply_list-Follows, later_trans, Follows}
use k8s_homelab.Organizr.Main.{
  ids_of, category_ids, sync_given, verified, main, sync_placed, sync_tabs, then_run, placed_tabs,
  Problem, Spec,
}
use k8s_homelab.Organizr.{remove_unlisted, apply_list, list_of, Answers, Session, Items}
use k8s_homelab.Organizr.ReadBack.{Matches, verify-Matches}
use k8s_homelab.Organizr.Setup.{Env}
use k8s_homelab.Json.{Value}

module _ (repr : Value → Text) (os_error : Session → Bool) (answer : Answers) (env : Env) where
  -- Organizr's list of its categories, in answer to a request after `s`.
  abbrev pub categories_at : Session → Option Items × Session
  categories_at s = list_of answer (codes "categories") (codes "category") s

  -- `listed` is the list of categories that Organizr gave after `before`. The tabs that are read back
  -- at the end, which comes after that, are those of the specification with the ids from the list.
  abbrev pub Synced : Spec → Session → Type 0
  Synced spec sent =
      (before : Session) × (listed : Items) × (tabs : Items) × (s : Session) × ((categories_at
          before).0
        ≡ some listed)
      × ArePlaced listed spec.tabs tabs
      × Follows (categories_at before).1 s
      × Matches repr os_error answer env spec tabs s sent

  then_run_ends :
      (P : Session → Type 0) (before : Bool × Session) (next : Session → Bool × Session)
      → ((next before.1).0 ≡ true → P (next before.1).1)
      → (then_run before next).0 ≡ true
      → P (then_run before next).1
  unfolding then_run
  then_run_ends P (true, s) next f h = f h
  then_run_ends P (false, s) next f h = absurd (cc)

  verified_lem :
      (r : Option (List Problem) × Session)
      → (verified r).0 ≡ true
      → (r.0 ≡ some []) × ((verified r).1 ≡ r.1)
  verified_lem (some [], s) h = (refl, refl)
  verified_lem (some (p ∷ ps), s) h = absurd (cc)
  verified_lem (none, s) h = absurd (cc)

  -- What the last requests of a run give, which follow `sent`.
  abbrev Ends : Spec → Items → Session → Session → Type 0
  Ends spec tabs sent t =
      (s : Session) × Follows sent s × Matches repr os_error answer env spec tabs s t

  sync_tabs-Ends :
      (spec : Spec) (tabs : Items) (sent : Session)
      → (sync_tabs repr os_error answer env spec tabs sent).0 ≡ true
      → Ends spec tabs sent (sync_tabs repr os_error answer env spec tabs sent).1
  unfolding sync_tabs
  sync_tabs-Ends spec tabs sent =
      let s = (apply_list repr answer (codes "tabs") (codes "name") tabs sent).1 in
      let rest = remove_unlisted repr answer in
      let t = (rest (codes "tabs") (codes "name") (keys tabs) spec.exact s).1 in
      let names = keys spec.categories in
      let u = (rest (codes "categories") (codes "category") names spec.exact t).1 in
      let later : Follows sent u =
        later_trans sent s u (apply_list-Follows repr answer _ _ tabs sent) (
          later_trans s t u (remove_unlisted-Follows repr answer _ _ (keys tabs) spec.exact s)
            (remove_unlisted-Follows repr answer _ _ names spec.exact t)) in
      let P : Session → Type 0 = Ends spec tabs sent in
      then_run_ends P _ _ (
        then_run_ends P _ _ (
          then_run_ends P _ _ (λ h.
            let (e, q) = verified_lem _ h in
            (
              u,
              later,
              subst (Matches repr os_error answer env spec tabs u) (sym q)
                  (verify-Matches repr os_error answer env spec tabs u e),
            ))))

  sync_given-Synced :
      (spec : Spec) (before : Session) (listed : Items) (ids : Dict Text Value) (o : Option Items)
      → (categories_at before).0 ≡ some listed
      → AllEntries (HasId listed) ids
      → placed_tabs ids spec.tabs ≡ o
      → (sync_given repr os_error answer env spec o (categories_at before).1).0 ≡ true
      → Synced spec (sync_given repr os_error answer env spec o (categories_at before).1).1
  sync_given-Synced spec before listed ids none l a e h = absurd (cc)
  sync_given-Synced spec before listed ids (some tabs) l a e h =
      let (s, f, m) = sync_tabs-Ends spec tabs (categories_at before).1 h in
      (before, listed, tabs, s, l, placed_tabs-ArePlaced listed ids a spec.tabs tabs e, f, m)

  category_ids_lem :
      (names : List Text) (before : Session) (listed : Items)
      → (categories_at before).0 ≡ some listed
      → category_ids repr os_error answer env names before
        ≡ (ids_of listed names, (categories_at before).1)
  unfolding category_ids
  category_ids_lem names before listed e = rw e refl

  category_ids-none :
      (names : List Text) (before : Session)
      → (categories_at before).0 ≡ none
      → (category_ids repr os_error answer env names before).0 ≡ none
  unfolding category_ids
  category_ids-none names before e = rw e refl

  none_fails :
      (spec : Spec) (r : Option (Dict Text Value) × Session)
      → r.0 ≡ none
      → (sync_placed repr os_error answer env spec r).0 ≡ false
  none_fails spec (none, sent) e = refl
  none_fails spec (some ids, sent) e = absurd (cc)

  sync_placed-Synced :
      (spec : Spec) (before : Session)
      → let r = category_ids repr os_error answer env (keys spec.categories) before in
        (sync_placed repr os_error answer env spec r).0 ≡ true
        → Synced spec (sync_placed repr os_error answer env spec r).1
  sync_placed-Synced spec before h =
      let names = keys spec.categories in
      let r = category_ids repr os_error answer env names before in
      elim (Option-cases (categories_at before).0) [
        | inl e ↦ absurd (ground (arith, none_fails spec r (category_ids-none names before e)))
        | inr (listed, e) ↦
            let run = category_ids_lem names before listed e in
            elim (Option-cases (ids_of listed names)) [
              | inl f ↦ absurd (ground (arith, none_fails spec r (ap (λ r. r.0) run ∙ f)))
              | inr (ids, f) ↦
                  let t = (categories_at before).1 in
                  let Q : Option (Dict Text Value) × Session → Type 0 = λ r.
                    (sync_placed repr os_error answer env spec r).0 ≡ true
                    → Synced spec (sync_placed repr os_error answer env spec r).1 in
                  subst Q (sym (run ∙ ap (λ o. (o, t)) f))
                    (sync_given-Synced spec before listed ids (placed_tabs ids spec.tabs) e
                      (ids_of-HasId listed names ids f) refl)
                    h
            ]
      ]

  -- A run of organizr-sync.py that does not fail ends with three requests that read back Organizr's
  -- settings, categories and tabs. Each secret setting is there then and each other one is as wanted, in
  -- either case; each category and each tab is there, and each tab differs in nothing that is wanted of
  -- it, with the id that Organizr's list of categories gave, earlier in the run, for its category; with
  -- remove_unlisted there are no other categories and tabs.
  pub main-Synced :
      (spec : Spec) (sent : Session)
      → (main repr os_error answer env spec sent).0 ≡ true
      → Synced spec (main repr os_error answer env spec sent).1
  unfolding main
  main-Synced spec sent =
      let P = Synced spec in
      then_run_ends P _ _ (
        then_run_ends P _ _ (then_run_ends P _ _ (then_run_ends P _ _ (sync_placed-Synced spec _))))
