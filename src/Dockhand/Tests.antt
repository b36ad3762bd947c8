-- ===== src/Dockhand/Tests.antt =====
-- Witnesses and runs of the Dockhand copy.
use native.Mathlib.Decide.{ℕ_discrete}
use k8s_homelab.Prelude.{
  option_eq, inr, arith, inl, Bool-cases, none, contains, nat_eq, ◌++◌, ◌==◌, ◌||◌, true,
  if◌then◌else◌, list_eq, some, [], ◌∷◌, is_none, Option, all, String,
}
use k8s_homelab.Prelude.{List, refl, ◌≡◌}
use k8s_homelab.Prelude.Text.{
  is_space, rstrip_spaces, lstrip_spaces, strip, starts_with, lower_char, lower, codes, Text,
}
use k8s_homelab.Prelude.Dict.{insert, lookup, Dict, keys}
use k8s_homelab.Keyvault.Vault.{put, read, error_code, remote_secret, request, write, Held, Answers}
use k8s_homelab.Keyvault.Holds.{holds, reply}
use k8s_homelab.Keyvault.{not_in_map, done, two_values, keyvault_name, not_an_entry, stopped}
use k8s_homelab.Dockhand.Plan.{
  add_target, add_named, add_mapped, add_variable, plan_from, Target, Rules, Plan, plan,
}
use k8s_homelab.Json.{no_values, text, field, dict, value, no_fields, get}
use k8s_homelab.Dockhand.States.{
  read_names, write_names, to_write, lower_names, state_of, states, settle,
}
use k8s_homelab.Dockhand.{
  unlast, reference_schemes, unread, is_reference, selectors, built, name, Variable, read_entries,
}
use k8s_homelab.Dockhand.Laws.{settle-puts, may_write}
use k8s_homelab.Keyvault.Writes.{puts}
use k8s_homelab.Dockhand.Placed.{plan-is_placed}
use k8s_homelab.Dockhand.Listed.{is_listed}
use k8s_homelab.Dockhand.Grows.{is_placed}
use k8s_homelab.Keyvault.Source.{Codec}

abbrev codec : Codec
codec = record { digest = λ t. b'#' ∷ t; decode = λ t. some t; decode_strict = λ t. none }

abbrev variable : String → String → String → Variable
variable stack key t = record { stack = codes stack; key = codes key; value = codes t }

abbrev rules : Rules
rules =
    (
      codes "web",
      (codes "PASS", name (codes "WEB_PASS"))
          ∷ (codes "URL", built (codes "x${WEB_PASS}") (codes "WEB_PASS" ∷ []))
          ∷ [],
    )
    ∷ (
      codes "job",
      (codes "PW", name (codes "WEB_PASS")) ∷ (codes "TZ", unread (codes "a setting")) ∷ [],
    )
    ∷ []

abbrev export : List Variable
export =
    variable "web" "PASS" "p"
    ∷ variable "web" "URL" "xp"
    ∷ variable "job" "PW" "p"
    ∷ variable "job" "TZ" "UTC"
    ∷ variable "job" "REF" "'op://x'"
    ∷ []

abbrev planned : Plan
planned = record {
  targets =
      (
        codes "WEB_PASS",
        record { value = codes "p"; readers = codes "web PASS" ∷ codes "job PW" ∷ [] },
      )
      ∷ [];
  by_lower = (codes "web-pass", codes "WEB_PASS") ∷ [];
  builts =
      record {
        reader = codes "web URL";
        template = codes "x${WEB_PASS}";
        names = codes "WEB_PASS" ∷ [];
        value = codes "xp";
      }
      ∷ [];
  skipped = codes "job TZ: a setting" ∷ codes "job REF: already a secret-provider reference" ∷ [];
  refs = (codes "web", codes "WEB_PASS" ∷ []) ∷ (codes "job", codes "WEB_PASS" ∷ []) ∷ [];
  unmapped = [];
}

plans : plan export rules ≡ done planned
unfolding plan plan_from add_variable selectors is_reference reference_schemes unlast starts_with
    strip lstrip_spaces rstrip_spaces is_space add_mapped add_named add_target lookup insert lower
    lower_char keyvault_name list_eq nat_eq ℕ_discrete
plans = refl

-- One name with two values, and a variable that the map lacks.
refuses :
    (plan (variable "web" "PASS" "p" ∷ variable "job" "PW" "q" ∷ []) rules
      ≡ stopped (two_values (codes "job PW") (codes "web PASS") (codes "WEB_PASS")))
    × (plan (variable "web" "OTHER" "p" ∷ []) rules ≡ stopped (not_in_map (codes "web OTHER" ∷ [])))
unfolding plan plan_from add_variable selectors is_reference reference_schemes unlast starts_with
    strip lstrip_spaces rstrip_spaces is_space add_mapped add_named add_target lookup insert lower
    lower_char keyvault_name list_eq nat_eq ℕ_discrete
refuses = (refl, refl)

reads_export :
    read_entries 1 (
      value
        (dict
          (field (codes "stack") (text (codes "web")) (field (codes "key") (text []) no_fields)))
        no_values)
    ≡ stopped (not_an_entry 1)
unfolding read_entries get list_eq nat_eq ℕ_discrete
reads_export = refl

plan-is_placed_example : all (is_placed rules planned) export ≡ true
plan-is_placed_example = plan-is_placed export rules planned plans

-- A vault that holds one secret that can be read, and lists one that is disabled.
abbrev start : Text → Option Text
start n = if n == codes "a-key" then some (codes "old") else none

abbrev held : Dict Text Held
held = (codes "A-KEY", record { digest = codes "#old"; tags = no_fields; decoded = none }) ∷ []

abbrev disabled : List Text
disabled = codes "OFF" ∷ []

abbrev targets : Dict Text Target
targets =
    (codes "A_KEY", record { value = codes "old"; readers = [] })
    ∷ (codes "B_KEY", record { value = codes "b"; readers = [] })
    ∷ []

abbrev vault : Answers
vault sent (read n) = some (reply (holds start sent n))
vault sent (put n t tags) = some (reply (some t))

writes :
    puts (settle codec vault true targets (states codec held disabled targets) [] []).1
    ≡ (codes "B-KEY", codes "b") ∷ []
unfolding settle states state_of lower_names to_write write_names read_names write request
    remote_secret puts reply holds keys lookup insert lower lower_char keyvault_name list_eq
    option_eq nat_eq ℕ_discrete error_code get
writes = refl

conflicts :
    settle codec vault true
      ((codes "OFF", record { value = []; readers = [] }) ∷ [])
      (states codec held disabled ((codes "OFF", record { value = []; readers = [] }) ∷ []))
      []
      []
    ≡ (2, [])
unfolding settle states state_of lower_names to_write write_names read_names write request
    remote_secret puts reply holds keys lookup insert lower lower_char keyvault_name list_eq
    option_eq nat_eq ℕ_discrete error_code get
conflicts = refl

lists :
    (n : Text)
    → (is_none (start n) || (contains (codes "a-key" ∷ []) n || contains (codes "off" ∷ []) n))
      ≡ true
lists n = elim (Bool-cases (n == codes "a-key")) [
  | inl e ↦ ground (arith, e)
  | inr e ↦ ground (arith, e)
]

listed : (n : Text) → (is_none (start (lower n)) || is_listed held disabled n) ≡ true
unfolding keys lower lower_char
listed n = lists (lower n)

settle-puts_example :
    all
      (λ p. may_write true ((states codec held disabled targets).1 ++ []) start p.0)
      (puts (settle codec vault true targets (states codec held disabled targets) [] []).1)
    ≡ true
settle-puts_example = settle-puts codec vault true targets held disabled [] start listed
