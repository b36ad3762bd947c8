-- ===== src/Organizr.antt =====
-- kubernetes/prod/services/organizr/organizr/app/sync/organizr-sync.py: the lists of tabs and of
-- categories. What Organizr answers is a parameter, which may depend on all the requests before; a
-- session is the requests sent, the last one first. The names of items are texts.
pub mod Laws
pub mod Setup
pub mod Main
pub mod Follows
pub mod Ids
pub mod Placed
pub mod Verified
pub mod ReadBack
pub mod Synced
pub mod Tests
pub mod MainTests
use k8s_homelab.Prelude.{
  filter, nat_eq, minus, list_eq, ◌||◌, ◌==◌, not, contains, is_nil, ◌>>=◌, if◌then◌else◌, true,
  ◌++◌, false, [], some, ℕ, Bool, ◌∷◌, none, List, Option,
}
use k8s_homelab.Prelude.Dict.{keys, insert, lookup, Dict}
use k8s_homelab.Prelude.Sort.{sorted}
use k8s_homelab.Prelude.Text.{codes, Text}
use k8s_homelab.Json.{
  str_value, str_of, is_truthy, is_empty_dict, no_fields, value, text, no_values, or_empty, field,
  get, Values, list, dict, Value, Fields,
}

pub data Method : Type 0 where
  get_method : Method
  post_method : Method
  put_method : Method
  delete_method : Method

pub record Request : Type 0 where
  pub method : Method
  pub path : Text
  pub body : Option Fields
  pub auth : Bool

abbrev pub Session : Type 0
Session = List Request

-- A status and the answer as JSON; none where `call` raises.
abbrev pub Answers : Type 0
Answers = Session → Request → Option (ℕ × Value)

-- `none` ends the Job: it fails, or the source raises.
abbrev pub Step : Type 0 → Type 0
Step A = Session → Option A × Session

unfoldable pub call : Answers → Method → Text → Option Fields → Step (ℕ × Value)
call answer m path body sent =
    let r : Request = record { method = m; path = path; body = body; auth = true } in
    (answer sent r, r ∷ sent)

-- `call` without the token.
unfoldable pub call_open : Answers → Method → Text → Option Fields → Step (ℕ × Value)
call_open answer m path body sent =
    let r : Request = record { method = m; path = path; body = body; auth = false } in
    (answer sent r, r ∷ sent)

unfoldable pub data_of : Value → Option (Option Value)
data_of (dict resp) = or_empty (get (codes "response") resp) >>= λ d. some (get (codes "data") d)
data_of v = none

abbrev pub Items : Type 0
Items = Dict Text Fields

abbrev add_item : Text → Fields → Option Value → Items → Items
add_item key item (some (text name)) items = insert name item items
add_item key item v items = items

-- `by_name` of the items that are dicts with the field.
unfoldable pub by_name : Text → Values → Items → Items
by_name key no_values items = items
by_name key (value (dict item) vs) items = by_name key vs (add_item key item (get key item) items)
by_name key (value v vs) items = by_name key vs items

unfoldable pub values_of : Fields → Values
values_of no_fields = no_values
values_of (field k v o) = value v (values_of o)

-- The first of some values that is true.
unfoldable pub first_true : List (Option Value) → Value → Value
first_true [] last = last
first_true (none ∷ vs) last = first_true vs last
first_true (some v ∷ vs) last =
    let rest = first_true vs last in if is_truthy (some v) then v else rest

abbrev items_at : Text → Fields → Value
items_at what o =
    first_true (get what o ∷ get (codes "tabs") o ∷ get (codes "categories") o ∷ [])
      (list (values_of o))

abbrev items_in : Text → Value → Option Items
items_in key (list vs) = some (by_name key vs [])
items_in key (text t) = some []
items_in key (dict o) = some []
items_in key v = if is_truthy (some v) then none else some []

-- What a path names, which is its text after the slash.
abbrev listed_items : Text → Text → Option Value → Option Items
listed_items what key (some (dict o)) = items_in key (items_at what o)
listed_items what key none = some []
listed_items what key (some v) = items_in key v

abbrev answered_items : Text → Text → Option (ℕ × Value) → Option Items
answered_items what key none = none
answered_items what key (some (status, resp)) =
    if not (status == 200) then none else data_of resp >>= λ found. listed_items what key found

-- The path of a list, of what it lists.
abbrev path_of : Text → Text
path_of what = codes "/" ++ what

unfoldable pub list_of : Answers → Text → Text → Step Items
list_of answer what key sent =
    let (r, sent') = call answer get_method (path_of what) none sent in
    (answered_items what key r, sent')

abbrev pub has_status : List ℕ → Option (ℕ × Value) → Bool
has_status good none = false
has_status good (some (status, resp)) = contains good status

module _ (repr : Value → Text) where
  unfoldable pub differs : Fields → Fields → Fields
  differs have no_fields = no_fields
  differs have (field k v want) =
      let rest = differs have want in
      if not (str_of repr (get k have) == str_value repr v) then field k v rest else rest

  -- `path/id`; an item without an id raises.
  abbrev pub item_path : Text → Option Value → Option Text
  item_path what none = none
  item_path what (some id) = some (path_of what ++ codes "/" ++ str_value repr id)

  unfoldable pub is_builtin : Text → Fields → Bool
  is_builtin what item =
      if what == codes "tabs"
      then str_of repr (get (codes "type") item) == codes "0"
      else str_of repr (get (codes "default") item) == codes "1"
        || str_of repr (get (codes "category_id") item) == codes "0"

  abbrev pub is_builtin_at : Text → Option Fields → Bool
  is_builtin_at what none = false
  is_builtin_at what (some item) = is_builtin what item

  module _ (answer : Answers) where
    -- One item of `apply_list`: whether it is as wanted now.
    unfoldable pub apply_item : Text → Fields → Option Fields → Session → Bool × Session
    apply_item what item none sent =
        let (r, sent') = call answer post_method (path_of what) (some item) sent in
        (has_status (200 ∷ 201 ∷ []) r, sent')
    apply_item what item (some have) sent =
        if is_empty_dict (differs have item)
        then (true, sent)
        else elim (item_path what (get (codes "id") have)) [
          | none ↦ (false, sent)
          | some path ↦
              let (r, sent') = call answer put_method path (some (differs have item)) sent in
              (has_status (200 ∷ []) r, sent')
        ]

    unfoldable pub apply_each : Text → Items → Items → Session → Bool × Session
    apply_each what have [] sent = (true, sent)
    apply_each what have ((name, item) ∷ wanted) sent =
        let (ok, sent') = apply_item what item (lookup name have) sent in
        elim ok [ false ↦ (false, sent') | true ↦ apply_each what have wanted sent' ]

    -- `apply_list`, of the wanted items by their names.
    unfoldable pub apply_list : Text → Text → Items → Session → Bool × Session
    apply_list what key wanted sent =
        let (found, sent') = list_of answer what key sent in
        elim found [ none ↦ (false, sent') | some have ↦ apply_each what have wanted sent' ]

    abbrev pub path_at : Text → Option Fields → Option Text
    path_at what none = none
    path_at what (some item) = item_path what (get (codes "id") item)

    unfoldable pub remove_each : Text → Items → List Text → Session → Bool × Session
    remove_each what have [] sent = (true, sent)
    remove_each what have (name ∷ names) sent = elim (path_at what (lookup name have)) [
      | none ↦ (false, sent)
      | some path ↦
          let (r, sent') = call answer delete_method path none sent in
          elim (has_status (200 ∷ 204 ∷ []) r) [
            | false ↦ (false, sent')
            | true ↦ remove_each what have names sent'
          ]
    ]

    abbrev pub remove_extra : Text → Items → List Text → Bool → Session → Bool × Session
    remove_extra what have extra enabled sent =
        if is_nil extra || not enabled
        then (true, sent)
        else if not (is_nil (filter (λ name. is_builtin_at what (lookup name have)) extra))
        then (false, sent)
        else remove_each what have extra sent

    unfoldable pub remove_unlisted : Text → Text → List Text → Bool → Session → Bool × Session
    remove_unlisted what key wanted enabled sent =
        let (found, sent') = list_of answer what key sent in
        elim found [
          | none ↦ (false, sent')
          | some have ↦ remove_extra what have (sorted (minus (keys have) wanted)) enabled sent'
        ]
