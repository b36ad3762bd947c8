-- ===== src/Termix.antt =====
-- kubernetes/prod/services/termix/termix/app/sync/termix-netbox-sync.py: the hosts that NetBox wants
-- and those that Termix has. A host of Termix is a JSON dict; `str` of a list or a dict is the parameter
-- `repr`, and tags are texts.
pub mod Host
pub mod Netbox
pub mod Reach
pub mod Wanted
pub mod Plan
pub mod Run
pub mod Body
pub mod Owned
pub mod Tests
use k8s_homelab.Prelude.{
  false, refl, true, ap, set_of, nat_eq, ◌∙◌, ◌>>=◌, list_eq, ◌==◌, none, ◌≡◌, [], some, ◌∷◌,
  if◌then◌else◌, Option, map, Bool, List,
}
use k8s_homelab.Prelude.Text.{words, codes, Text}
use k8s_homelab.Json.{
  str_of, null, get-put, dict, text, value, put, number, list, is_truthy, get, bool, no_values,
  Fields, Value, Values,
}

unfoldable pub owned_tag : Text
owned_tag = codes "netbox"

-- What NetBox's tags say of a login, and where the answer was found.
pub data Login : Type 0 where
  named : Text → Login
  looked_up : Text → Text → Bool → Login
  rdp_login : Login
  no_login_tag : Login

-- A host as NetBox wants it; the port is a JSON number.
pub record Want : Type 0 where
  pub name : Text
  pub ip : Text
  pub port : Text
  pub username : Text
  pub folder : Text
  pub login : Login
  pub by_primary : Bool
  pub credential : Text
  pub is_rdp : Bool

-- `dict.update`
unfoldable pub put_all : List (Text × Value) → Fields → Fields
put_all [] o = o
put_all ((k, v) ∷ kvs) o = put_all kvs (put k v o)

-- The texts of a list of texts; `none` stands for another member.
unfoldable pub texts_in : Values → Option (List Text)
texts_in no_values = some []
texts_in (value (text t) vs) = let rest = texts_in vs in rest >>= λ ts. some (t ∷ ts)
texts_in (value v vs) = none

unfoldable pub text_values : List Text → Values
text_values [] = no_values
text_values (t ∷ ts) = value (text t) (text_values ts)

-- `s.replace(",", " ")`
unfoldable pub commas_to_spaces : Text → Text
commas_to_spaces s = map (λ c. if c == b',' then 32 else c) s

module _ (repr : Value → Text) where
  -- `str(o.get(k) or "")`
  unfoldable pub str_or_blank : Option Value → Text
  str_or_blank v = if is_truthy v then str_of repr v else []

  unfoldable pub tags_at : Option Value → Option (List Text)
  tags_at (some (list vs)) = texts_in vs >>= λ ts. some (set_of ts)
  tags_at v = some (set_of (words (commas_to_spaces (str_or_blank v))))

  unfoldable pub tags_of : Fields → Option (List Text)
  tags_of h = tags_at (get (codes "tags") h)

-- What a run of updates leaves at a key.
abbrev pub found_in : Text → List (Text × Value) → Option Value → Option Value
found_in j [] before = before
found_in j ((k, v) ∷ kvs) before = found_in j kvs (if k == j then some v else before)

pub get-put_all :
    (j : Text) (kvs : List (Text × Value)) (o : Fields)
    → get j (put_all kvs o) ≡ found_in j kvs (get j o)
unfolding put_all
get-put_all j [] o = refl
get-put_all j ((k, v) ∷ kvs) o =
    get-put_all j kvs (put k v o) ∙ ap (found_in j kvs) (get-put k j v o)
