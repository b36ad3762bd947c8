-- ===== src/Organizr/MainTests.antt =====
-- Runs of the whole sync, and a witness.
use native.Mathlib.Decide.{ℕ_discrete}
use k8s_homelab.Prelude.{
  refl, false, nat_eq, ◌∷◌, list_eq, ℕ, none, [], ◌==◌, true, Option, Bool, some, if◌then◌else◌,
  ◌≡◌,
}
use k8s_homelab.Prelude.Text.{lower_char, lower, starts_with, codes, Text}
use k8s_homelab.Prelude.Sort.{text_leb, sorted_by, sorted, insert_sorted}
use k8s_homelab.Prelude.Dict.{lookup, keys, insert}
use k8s_homelab.Organizr.{
  values_of, remove_unlisted, remove_each, list_of, is_builtin, first_true, differs, by_name,
  apply_item, apply_each, apply_list, call, data_of, call_open,
}
use k8s_homelab.Organizr.{Answers, Session, get_method}
use k8s_homelab.Organizr.Setup.{
  is_secret, resolve, resolve_all, apply_settings, read_config, first_run, wait_ready, Env,
}
use k8s_homelab.Organizr.Main.{
  verify_lists, verify, tab_problems, sync_tabs, setting_problems, same_setting, problems_of,
  placed_tabs, ids_of, category_ids, then_run, main, Spec,
}
use k8s_homelab.Json.{
  str_value, put, pop, is_zero, is_truthy, get, or_empty, no_values, value, list, number, dict,
  text, null, no_fields, Value, field, Fields,
}
use k8s_homelab.Backup.Substitute.{occurs}
use k8s_homelab.Organizr.Synced.{main-Synced, Synced}

abbrev no_repr : Value → Text
no_repr v = []

abbrev never : Session → Bool
never s = true

abbrev home_env : Env
home_env name = if name == codes "PW" then some (codes "s3") else none

abbrev data_answer : Value → Option (ℕ × Value)
data_answer v =
    some (200, dict (field (codes "response") (dict (field (codes "data") v no_fields)) no_fields))

abbrev kept_config : Fields
kept_config =
    field (codes "title") (text (codes "home"))
      (field (codes "ldapPassword") (text (codes "***")) no_fields)

abbrev media : Fields
media =
    field (codes "category") (text (codes "media"))
      (field (codes "category_id") (number (codes "3")) no_fields)

abbrev plex : Fields
plex = field (codes "name") (text (codes "plex")) (
    field (codes "category_id") (number (codes "3"))
      (field (codes "id") (number (codes "7")) no_fields))

abbrev get_answer : Text → Option (ℕ × Value)
get_answer path =
    if path == codes "/ping"
    then data_answer (text (codes "pong"))
    else if path == codes "/config"
    then data_answer (dict kept_config)
    else if path == codes "/categories"
    then data_answer (list (value (dict media) no_values))
    else data_answer (list (value (dict plex) no_values))

-- An Organizr that has all that is wanted.
abbrev settled : Answers
settled sent r = elim r.method [ get_method ↦ get_answer r.path | _ ↦ some (200, null) ]

abbrev home : Spec
home = record {
  wizard = no_fields;
  settings =
      field (codes "title") (text (codes "Home"))
        (field (codes "ldapPassword") (text (codes "env:PW")) no_fields);
  categories = (codes "media", field (codes "category") (text (codes "media")) no_fields) ∷ [];
  tabs =
      (
        codes "plex",
        field (codes "name") (text (codes "plex"))
            (field (codes "category") (text (codes "media")) no_fields),
      )
      ∷ [];
  exact = true;
}

running : Spec → Bool × Session
unfolding main then_run wait_ready call_open data_of or_empty get first_run read_config call
    apply_settings resolve_all resolve starts_with apply_list apply_each apply_item occurs is_truthy
    is_zero pop put str_value category_ids ids_of placed_tabs problems_of same_setting
    setting_problems sync_tabs tab_problems verify verify_lists is_secret by_name differs first_true
    is_builtin list_of remove_each remove_unlisted values_of insert keys lookup insert_sorted sorted
    sorted_by text_leb lower lower_char list_eq nat_eq ℕ_discrete
running spec = main no_repr never settled home_env spec []

home_settled : (running home).0 ≡ true
unfolding running
home_settled = refl

-- A setting that the environment lacks ends the run.
lacking :
    (running (record home { settings = field (codes "a") (text (codes "env:NO")) no_fields })).0
    ≡ false
unfolding running
lacking = refl

-- So does a value that is not read back.
unlike :
    (running (record home { settings = field (codes "title") (text (codes "x")) no_fields })).0
    ≡ false
unfolding running
unlike = refl

main-home : (main no_repr never settled home_env home []).0 ≡ true
main-home = unfold running in home_settled

main-Synced_example :
    Synced no_repr never settled home_env home (main no_repr never settled home_env home []).1
main-Synced_example = main-Synced no_repr never settled home_env home [] main-home
