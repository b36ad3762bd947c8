-- ===== src/Keyvault/Run.antt =====
-- main, with --apply, over a Key Vault that keeps what is written.
use mathlib.Core.Path.{subst}
use k8s_homelab.Prelude.{
  map, ◌∙◌, sym, ap, if◌then◌else◌, ℕ, List, [], all, true, ◌≡◌, Bool, Option,
}
use k8s_homelab.Prelude.Dict.{Dict}
use k8s_homelab.Prelude.Text.{Text}
use k8s_homelab.Keyvault.Copied.{
  entries_copied, entries_ready, same_ready, carry_out_copies, entry_at, holds-survey, survey_kept,
  is_copied,
}
use k8s_homelab.Keyvault.Holds.{holds, Keeps}
use k8s_homelab.Keyvault.Main.{carry_out, Entry, work, copy, Work, Given, main}
use k8s_homelab.Keyvault.{stopped, Result, done}
use k8s_homelab.Keyvault.Vault.{Session, Answers}
use k8s_homelab.Keyvault.Differ.{work-Differ, Done-eq-done, Differ}
use k8s_homelab.Keyvault.Source.{Codec}

module _ (codec : Codec) (start : Text → Option Text) (answer : Answers)
    (keeps : Keeps start answer) where
  copy_copies :
      (values : Dict Text Text) (encodes : Dict Text Bool) (names : Dict Text Text)
      → Differ names
      → ((copy codec answer true values encodes names []).0 ≡ 0)
        × (all
              (is_copied codec start values encodes
                (copy codec answer true values encodes names []).1)
              names
            ≡ true)
  unfolding copy
  copy_copies values encodes names d =
      let (last, q) = survey_kept codec start values encodes answer keeps names [] in
      let unchanged = λ (n : Text).
        ap (λ (p : Result (List Entry) × Session). holds start p.1 n) (sym q)
        ∙ holds-survey codec start values encodes answer keeps n names [] in
      let es = map (entry_at codec start values encodes []) names in
      let (zero, settled) =
        carry_out_copies codec start values encodes answer keeps names [] last d (
          same_ready codec start values encodes [] last unchanged es
          ∙ entries_ready codec start values encodes names []) in
      subst
        (λ (p : Result (List Entry) × Session).
          ((copied_from true p).0 ≡ 0)
          × (all (is_copied codec start values encodes (copied_from true p).1) names ≡ true))
        (sym q) (zero, entries_copied codec start values encodes names [] _ settled)
    where
      copied_from : Bool → Result (List Entry) × Session → ℕ × Session
      copied_from apply p = elim p.0 [
        | stopped s ↦ (2, p.1)
        | done es ↦ if apply then carry_out codec answer es p.1 else (0, p.1)
      ]

main-work :
    (codec : Codec) (answer : Answers) (g : Given) (w : Work)
    → work codec g ≡ done w
    → g.apply ≡ true
    → main codec answer g ≡ copy codec answer true w.values w.encodes w.names []
unfolding main
main-work codec answer g w e a =
    rw (e, main) (ap (λ b. copy codec answer b w.values w.encodes w.names []) a)

-- With --apply and a Key Vault that keeps what is written, ignoring the case of names, a run that can
-- work out the names and the values ends with the exit code 0, and Key Vault then holds under each
-- name a value with the digest of the variable's value, or, where the template does not encode the
-- variable, with the digest of what that value decodes to.
pub main_copies :
    (codec : Codec) (start : Text → Option Text) (answer : Answers) (g : Given) (w : Work)
    → Keeps start answer
    → work codec g ≡ done w
    → g.apply ≡ true
    → ((main codec answer g).0 ≡ 0)
      × (all (is_copied codec start w.values w.encodes (main codec answer g).1) w.names ≡ true)
main_copies codec start answer g w keeps e a =
    subst
      (λ (p : ℕ × Session).
        (p.0 ≡ 0) × (all (is_copied codec start w.values w.encodes p.1) w.names ≡ true))
      (sym (main-work codec answer g w e a))
      (copy_copies codec start answer keeps w.values w.encodes w.names
        (Done-eq-done (λ v. Differ v.names) (work codec g) w (work-Differ codec g) e))
