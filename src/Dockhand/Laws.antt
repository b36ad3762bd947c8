-- ===== src/Dockhand/Laws.antt =====
-- What a run of the Dockhand copy writes.
use mathlib.Core.Path.{subst}
use k8s_homelab.Prelude.{
  all_imp, not, Bool-cases, ◌||◌, is_none, is_nil, ◌&&◌, refl, inr, inl, all-append, sym, some,
  &&_both, ◌∙◌, [], ◌++◌, ◌∷◌, true, arith, ◌≡◌, all, Option, List,
}
use k8s_homelab.Prelude.{Bool}
use k8s_homelab.Prelude.Text.{lower, Text}
use k8s_homelab.Prelude.Dict.{Dict}
use k8s_homelab.Dockhand.Listed.{to_write-unlisted, is_listed}
use k8s_homelab.Dockhand.States.{
  to_write, states, settle, source_tag, value_for, write_names, read_names,
}
use k8s_homelab.Keyvault.Vault.{Held, Session, request, remote_secret, write, Answers}
use k8s_homelab.Keyvault.{Result-cases, keyvault_name}
use k8s_homelab.Json.{Fields}
use k8s_homelab.Keyvault.Writes.{puts}
use k8s_homelab.Dockhand.Plan.{Target}
use k8s_homelab.Keyvault.Source.{Codec}

module _ (codec : Codec) (answer : Answers) where
  remote_secret-puts :
      (n : Text) (sent : Session) → puts (remote_secret codec answer n sent).1 ≡ puts sent
  unfolding remote_secret request puts
  remote_secret-puts n sent = ground arith

  read_names-puts :
      (targets : Dict Text Target) (ns : List Text) (sent : Session)
      → puts (read_names codec answer targets ns sent).1 ≡ puts sent
  unfolding read_names
  read_names-puts targets [] sent = refl
  read_names-puts targets (n ∷ ns) sent =
      read_names-puts targets ns (remote_secret codec answer (keyvault_name n) sent).1
      ∙ remote_secret-puts (keyvault_name n) sent

  write-puts :
      (n t : Text) (tags : Option Fields) (sent : Session)
      → puts (write answer n t tags sent).1 ≡ puts sent ++ (n, t) ∷ []
  unfolding write request puts
  write-puts n t tags sent = refl

  -- What holds of each name to write holds of each that is written.
  write_names-all :
      (q : Text → Bool) (targets : Dict Text Target) (ns : List Text) (sent : Session)
      → all (λ p. q p.0) (puts sent) ≡ true
      → all (λ n. q (keyvault_name n)) ns ≡ true
      → all (λ p. q p.0) (puts (write_names answer targets ns sent).1) ≡ true
  unfolding write_names
  write_names-all q targets [] sent a b = a
  write_names-all q targets (n ∷ ns) sent a b =
      let (c, d) = &&_both (q (keyvault_name n)) (all (λ m. q (keyvault_name m)) ns) b in
      let sent' = (write answer (keyvault_name n) (value_for targets n) (some source_tag) sent).1 in
      let now =
        subst (λ l. all (λ p. q p.0) l ≡ true)
          (sym (write-puts (keyvault_name n) (value_for targets n) (some source_tag) sent))
          (all-append (λ p. q p.0) (puts sent) ((keyvault_name n, value_for targets n) ∷ []) a
            (ground (arith, c))) in
      elim (Result-cases
        (write answer (keyvault_name n) (value_for targets n) (some source_tag) sent).0) [
          | inl (s, e) ↦ ground (arith, e, now)
          | inr (why, e) ↦ ground (arith, e, write_names-all q targets ns sent' now d)
        ]

-- A name that the start lacks is written only with --apply and where nothing conflicts.
abbrev pub may_write : Bool → List Text → (Text → Option Text) → Text → Bool
may_write apply conflicts start name = apply && is_nil conflicts && is_none (start (lower name))

-- Where the vault's listing names every secret that it holds, ignoring case, all that a run from the
-- states on writes is new to Key Vault, whatever it answers: each name written is one under which it
-- held nothing. Without --apply, or with a conflict, nothing is written.
pub settle-puts :
    (codec : Codec) (answer : Answers) (apply : Bool) (targets : Dict Text Target)
    (held : Dict Text Held) (disabled built_conflicts : List Text) (start : Text → Option Text)
    → ((name : Text) → (is_none (start (lower name)) || is_listed held disabled name) ≡ true)
    → all
        (λ p. may_write apply ((states codec held disabled targets).1 ++ built_conflicts) start p.0)
        (puts
          (settle codec answer apply targets
            (states codec held disabled targets)
            built_conflicts
            []).1)
      ≡ true
unfolding settle puts
settle-puts codec answer apply targets held disabled built_conflicts start listed =
    elim (Bool-cases (is_nil ((states codec held disabled targets).1 ++ built_conflicts))) [
      | inr c ↦ ground (arith, c)
      | inl c ↦ elim (Bool-cases apply) [
        | inr a ↦ ground (arith, a, c)
        | inl a ↦
            let ns = to_write (states codec held disabled targets).0 in
            let new =
              all_imp (λ n. not (is_listed held disabled (keyvault_name n)))
                (λ n.
                  may_write apply ((states codec held disabled targets).1 ++ built_conflicts) start
                    (keyvault_name n))
                ns (λ n h. ground (arith, h, a, c, listed (keyvault_name n)))
                (to_write-unlisted codec held disabled targets) in
            let wrote =
              write_names-all codec answer
                (may_write apply ((states codec held disabled targets).1 ++ built_conflicts) start)
                targets ns [] refl new in
            ground (
              arith,
              a,
              c,
              wrote,
              read_names-puts codec answer targets ns (write_names answer targets ns []).1,
            )
      ]
    ]
