-- ===== src/Organizr/Tests.antt =====
-- Witnesses and runs of the Organizr lists.
use native.Mathlib.Decide.{ℕ_discrete}
use k8s_homelab.Prelude.{
  none, false, nat_eq, list_eq, true, minus, some, ◌∷◌, [], all, String, refl, ◌≡◌,
}
use k8s_homelab.Prelude.Sort.{text_leb, insert_sorted, sorted_by, sorted}
use k8s_homelab.Prelude.Dict.{insert, lookup, keys}
use k8s_homelab.Prelude.Text.{codes, Text}
use k8s_homelab.Json.{
  str_value, is_truthy, get, no_fields, number, text, list, or_empty, field, no_values, dict, value,
  Fields, Value, Values,
}
use k8s_homelab.Organizr.{
  get_method, put_method, by_name, is_builtin, differs, apply_item, data_of, remove_each, call,
  apply_each, Answers, remove_unlisted, apply_list, Items, list_of,
}
use k8s_homelab.Organizr.Laws.{deleted-remove_unlisted, deleted, removable}

abbrev repr : Value → Text
repr v = []

abbrev tab : String → String → String → Fields
tab name id type =
    field (codes "name") (text (codes name)) (
      field (codes "id") (number (codes id)) (field (codes "type") (number (codes type)) no_fields))

abbrev answered : Values → Value
answered vs =
    dict (field (codes "response") (dict (field (codes "data") (list vs) no_fields)) no_fields)

-- An Organizr that lists three tabs, or one of its own as well, and accepts all that it is sent.
abbrev three : Values
three =
    value (dict (tab "a" "1" "1"))
      (value (dict (tab "b" "2" "1")) (value (dict (tab "c" "3" "2")) no_values))

abbrev lists_tabs : Values → Answers
lists_tabs tabs sent r = some (200, answered tabs)

removes :
    deleted
      (remove_unlisted repr
        (lists_tabs three)
        (codes "tabs")
        (codes "name")
        (codes "b" ∷ [])
        true
        []).1
    ≡ codes "/tabs/3" ∷ codes "/tabs/1" ∷ []
unfolding remove_unlisted deleted remove_each is_builtin str_value sorted sorted_by insert_sorted
    text_leb keys lookup is_truthy list_of call data_of or_empty by_name get insert list_eq nat_eq
    ℕ_discrete
removes = refl

keeps_own :
    remove_unlisted repr
      (lists_tabs (value (dict (tab "home" "9" "0")) three))
      (codes "tabs")
      (codes "name")
      []
      true
      []
    ≡ (false, record { method = get_method; path = codes "/tabs"; body = none; auth = true } ∷ [])
unfolding remove_unlisted deleted remove_each is_builtin str_value sorted sorted_by insert_sorted
    text_leb keys lookup is_truthy list_of call data_of or_empty by_name get insert list_eq nat_eq
    ℕ_discrete
keeps_own = refl

applies :
    apply_list repr
      (lists_tabs three)
      (codes "tabs")
      (codes "name")
      ((codes "a", tab "a" "1" "2") ∷ (codes "b", tab "b" "2" "1") ∷ [])
      []
    ≡ (
      true,
      record {
        method = put_method;
        path = codes "/tabs/1";
        body = some (field (codes "type") (number (codes "2")) no_fields);
        auth = true;
      }
          ∷ record { method = get_method; path = codes "/tabs"; body = none; auth = true }
          ∷ [],
    )
unfolding apply_list apply_each apply_item differs str_value lookup list_of call data_of or_empty
    by_name get insert list_eq nat_eq ℕ_discrete
applies = refl

abbrev listing : Items
listing =
    (codes "a", tab "a" "1" "1") ∷ (codes "b", tab "b" "2" "1") ∷ (codes "c", tab "c" "3" "2") ∷ []

listed : (list_of (lists_tabs three) (codes "tabs") (codes "name") []).0 ≡ some listing
unfolding list_of call data_of or_empty by_name get insert list_eq nat_eq ℕ_discrete
listed = refl

deleted-remove_unlisted_example :
    all
      (removable repr
        (codes "tabs")
        (codes "b" ∷ [])
        listing
        (sorted (minus (keys listing) (codes "b" ∷ [])))
        true)
      (deleted
        (remove_unlisted repr
          (lists_tabs three)
          (codes "tabs")
          (codes "name")
          (codes "b" ∷ [])
          true
          []).1)
    ≡ true
deleted-remove_unlisted_example =
    deleted-remove_unlisted repr (lists_tabs three) (codes "tabs") (codes "name") (codes "b" ∷ [])
      true listing listed
