-- ===== src/Keyvault/Differ.antt =====
-- The names that main works with differ, ignoring case.
use mathlib.Core.Path.{subst}
use k8s_homelab.Prelude.{
  are_distinct, inr, option_eq, list_eq, ◌∙◌, [], nat_eq, ap, arith, sym, ◌∷◌, inl, true, refl, not,
  Bool-cases, if_keeps, map, ◌≡◌, List,
}
use k8s_homelab.Prelude.Dict.{keys, Dict}
use k8s_homelab.Prelude.Text.{lower, Text}
use k8s_homelab.Keyvault.SignIn.{sign_in}
use k8s_homelab.Keyvault.{
  is_done-stopped, keyvault_name, not_read, is_vault_name, is_done, done, check_names, stopped,
  Result,
}
use k8s_homelab.Keyvault.Source.{source_values, Codec}
use k8s_homelab.Keyvault.Names.{check_names-is_done, check_names_named, folded, named}
use k8s_homelab.Keyvault.Main.{target_of, or_stopped, Work, ◌then_on◌, Given, work}

-- What a result is like, if there is one.
abbrev pub Done : {A : Type 0} → (A → Type 0) → Result A → Type 0
Done P (stopped s) = Unit
Done P (done a) = P a

then_on-Done :
    {A B : Type 0} (P : B → Type 0) (r : Result A) (f : A → Result B)
    → ((a : A) → r ≡ done a → Done P (f a))
    → Done P (r then_on f)
then_on-Done P (stopped s) f h = tt
then_on-Done P (done a) f h = h a refl

pub Done-eq-done :
    {A : Type 0} (P : A → Type 0) (r : Result A) (a : A) → Done P r → r ≡ done a → P a
Done-eq-done P (stopped s) a h e = absurd (cc)
Done-eq-done P (done b) a h e = subst (λ r. Done P r) e h

-- The names differ, ignoring case.
abbrev pub Differ : Dict Text Text → Type 0
Differ names = are_distinct (map (λ n. lower n.1) names) ≡ true

folded-named : (vs : List Text) → map (λ n. lower n.1) (named vs) ≡ folded vs
folded-named [] = refl
folded-named (v ∷ vs) = ap (λ rest. lower (keyvault_name v) ∷ rest) (folded-named vs)

check_names-Differ : (vs : List Text) → Done Differ (check_names vs)
check_names-Differ vs = elim (Bool-cases (is_done (check_names vs))) [
  | inl d ↦
      subst (λ r. Done Differ r) (sym (check_names_named vs d))
        (ap are_distinct (folded-named vs) ∙ ground (arith, d, check_names-is_done vs))
  | inr d ↦ subst (λ r. Done Differ r) (sym (is_done-stopped (check_names vs) d).1) tt
]

pub work-Differ : (codec : Codec) (g : Given) → Done (λ w. Differ w.names) (work codec g)
unfolding work
work-Differ codec g =
    if_keeps (λ r. Done (λ (w : Work). Differ w.names) r) (not (is_vault_name g.vault)) _ _ tt
      (then_on-Done (λ (w : Work). Differ w.names) (or_stopped not_read g.external_secret) _
        (λ es _.
          then_on-Done (λ (w : Work). Differ w.names)
            (or_stopped not_read (g.secret (target_of es))) _
            (λ data_of _.
              then_on-Done (λ (w : Work). Differ w.names) (source_values codec es data_of) _
                (λ values _.
                  then_on-Done (λ (w : Work). Differ w.names) (check_names (keys values)) _
                    (λ names e.
                      then_on-Done (λ (w : Work). Differ w.names) (sign_in g.environ) _
                        (λ how _.
                          if_keeps (λ r. Done (λ (w : Work). Differ w.names) r) (g.signs_in how) _ _
                            (Done-eq-done Differ (check_names (keys values)) names
                              (check_names-Differ (keys values)) e)
                            tt))))))
