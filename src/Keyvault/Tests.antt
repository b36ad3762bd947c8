-- ===== src/Keyvault/Tests.antt =====
-- Witnesses and runs of the Key Vault copy.
use native.Mathlib.Decide.{ℕ_discrete}
use k8s_homelab.Prelude.{
  are_distinct, false, option_eq, list_eq, nat_eq, ◌&&◌, ◌==◌, none, if◌then◌else◌, all, [], some,
  ◌++◌, true, ◌∷◌, Option, Bool, refl, ◌≡◌,
}
use k8s_homelab.Prelude.Dict.{keys, lookup, insert, Dict}
use k8s_homelab.Prelude.Text.{lower_char, lower, codes, Text}
use k8s_homelab.Keyvault.SignIn.{sp_variables, sign_in}
use k8s_homelab.Json.{get}
use k8s_homelab.Keyvault.Vault.{
  error_code, write, request, remote_secret, put, remote_digest, read, Answers,
}
use k8s_homelab.Keyvault.{
  done, same_name, stopped, is_secret_name, is_name_char, keyvault_name, check_from, is_vault_name,
  check_names,
}
use k8s_homelab.Keyvault.Main.{read_back, write_all, judge, survey, copy, Given, work, main, Work}
use k8s_homelab.Keyvault.Names.{accepted-check_names, named, folded, are_names, accepted}
use k8s_homelab.Keyvault.Source.{
  value_of, values_from, template_encodes, ready_status, source_values, ExternalSecret, Codec,
}
use k8s_homelab.Keyvault.Run.{main_copies}
use k8s_homelab.Keyvault.Laws.{main-puts, asked_by}
use k8s_homelab.Keyvault.Holds.{holds, reply, Keeps}
use k8s_homelab.Keyvault.Copied.{is_copied}
use k8s_homelab.Keyvault.Writes.{puts}

-- A stand-in for SHA-256 and for base64, which marks what it encodes.
abbrev unmarked : Text → Option Text
unmarked (c ∷ t) = if c == b'=' then some t else none
unmarked [] = none

abbrev codec : Codec
codec = record { digest = λ t. b'#' ∷ t; decode = unmarked; decode_strict = unmarked }

-- A Key Vault that holds one value under two names in lower case.
abbrev start : Text → Option Text
start name =
    if name == codes "b-key"
    then some (codes "old")
    else if name == codes "c-key"
    then some (codes "plain")
    else none

abbrev vault : Answers
vault sent (read name) = some (reply (holds start sent name))
vault sent (put name value tags) = some (reply (some value))

vault-Keeps : Keeps start vault
vault-Keeps = (λ sent name. refl, λ sent name value tags. refl)

abbrev secret : ExternalSecret
secret = record {
  conditions = record { type = codes "Ready"; status = codes "True" } ∷ [];
  data_keys = codes "A_KEY" ∷ codes "B_KEY" ∷ codes "C_KEY" ∷ [];
  template = (codes "A_KEY", codes "{{ .A_KEY | b64enc }}") ∷ [];
  target = none;
}

abbrev given : Bool → Given
given apply = record {
  vault = codes "home-vault";
  apply = apply;
  external_secret = some secret;
  secret = λ name. some (
      (codes "A_KEY", codes "==a")
      ∷ (codes "B_KEY", codes "=b")
      ∷ (codes "C_KEY", codes "==plain")
      ∷ []);
  environ = λ name. [];
  signs_in = λ how. true;
}

abbrev worked : Work
worked = record {
  values =
      (codes "A_KEY", codes "a")
      ∷ (codes "B_KEY", codes "b")
      ∷ (codes "C_KEY", codes "=plain")
      ∷ [];
  encodes = (codes "A_KEY", true) ∷ [];
  names =
      (codes "A_KEY", codes "A-KEY")
      ∷ (codes "B_KEY", codes "B-KEY")
      ∷ (codes "C_KEY", codes "C-KEY")
      ∷ [];
}

works : work codec (given true) ≡ done worked
unfolding work sign_in sp_variables is_vault_name is_name_char source_values ready_status
    template_encodes values_from value_of check_names check_from keyvault_name is_secret_name keys
    insert lookup lower lower_char list_eq option_eq nat_eq ℕ_discrete
works = refl

writes :
    puts (main codec vault (given true)).1
    ≡ (codes "A-KEY", codes "a") ∷ (codes "B-KEY", codes "b") ∷ []
unfolding main copy survey judge remote_digest remote_secret request write write_all read_back puts
    reply holds error_code get work sign_in sp_variables is_vault_name is_name_char source_values
    ready_status template_encodes values_from value_of check_names check_from keyvault_name
    is_secret_name keys insert lookup lower lower_char list_eq option_eq nat_eq ℕ_discrete
writes = refl

dry : (puts (main codec vault (given false)).1 ≡ []) × ((main codec vault (given false)).0 ≡ 0)
unfolding main copy survey judge remote_digest remote_secret request write write_all read_back puts
    reply holds error_code get work sign_in sp_variables is_vault_name is_name_char source_values
    ready_status template_encodes values_from value_of check_names check_from keyvault_name
    is_secret_name keys insert lookup lower lower_char list_eq option_eq nat_eq ℕ_discrete
dry = (refl, refl)

-- A write without an answer ends the writing, and every name is still read back.
abbrev silent : Answers
silent sent (read name) = some (reply (start (lower name)))
silent sent (put name value tags) = none

stops :
    ((main codec silent (given true)).0 ≡ 1)
    × (puts (main codec silent (given true)).1 ≡ (codes "A-KEY", codes "a") ∷ [])
unfolding main copy survey judge remote_digest remote_secret request write write_all read_back puts
    reply holds error_code get work sign_in sp_variables is_vault_name is_name_char source_values
    ready_status template_encodes values_from value_of check_names check_from keyvault_name
    is_secret_name keys insert lookup lower lower_char list_eq option_eq nat_eq ℕ_discrete
stops = (refl, refl)

unanswered :
    main codec (λ sent r. none) (given true) ≡ (2, read (codes "A-KEY") ∷ read (codes "A-KEY") ∷ [])
unfolding main copy survey judge remote_digest remote_secret request write write_all read_back puts
    reply holds error_code get work sign_in sp_variables is_vault_name is_name_char source_values
    ready_status template_encodes values_from value_of check_names check_from keyvault_name
    is_secret_name keys insert lookup lower lower_char list_eq option_eq nat_eq ℕ_discrete
unanswered = refl

refuses :
    check_names (codes "A_B" ∷ codes "a-b" ∷ [])
    ≡ stopped (same_name (codes "a-b") (codes "A_B") (codes "a-b"))
unfolding check_names check_from keyvault_name is_secret_name is_name_char insert lookup lower
    lower_char list_eq nat_eq ℕ_discrete
refuses = refl

accepted-check_names_example : accepted (check_names (codes "A_KEY" ∷ codes "B_KEY" ∷ [])) ≡ (
    if are_names (codes "A_KEY" ∷ codes "B_KEY" ∷ [])
      && are_distinct (folded (codes "A_KEY" ∷ codes "B_KEY" ∷ []))
    then some (named (codes "A_KEY" ∷ codes "B_KEY" ∷ []))
    else none)
accepted-check_names_example = accepted-check_names (codes "A_KEY" ∷ codes "B_KEY" ∷ [])

main-puts_example :
    (rest : Dict Text Text) × (puts (main codec silent (given true)).1 ++ rest
      ≡ asked_by codec silent true (work codec (given true)))
main-puts_example = main-puts codec silent (given true)

main_copies_example :
    ((main codec vault (given true)).0 ≡ 0)
    × (all
          (is_copied codec start worked.values worked.encodes (main codec vault (given true)).1)
          worked.names
        ≡ true)
main_copies_example = main_copies codec start vault (given true) worked vault-Keeps works refl
