-- ===== src/Webhook/Zones.antt =====
-- Zones and names of netbox-dns-webhook.py.
pub mod Laws
pub mod Names
use k8s_homelab.Prelude.{
  ℕ, zero, suc, ◌+◌, ◌-◌, String, List, [], ◌∷◌, ◌++◌, Bool, true, false, not, ◌&&◌, ◌||◌, Option,
  none, some, if◌then◌else◌, ◌==◌, contains, any, filter, length,
}
use k8s_homelab.Prelude.{ltb, list_eq, nat_eq, string_eq, option_eq, map}
use k8s_homelab.Prelude.Text.{Text, codes, lower, rstrip, ends_with}
use k8s_homelab.Prelude.Dict
use k8s_homelab.Prelude.Dict.{Dict}

-- What the code reads of a zone: `default_view` says that its view's `default_view` is `True`.
pub record Zone : Type 0 where
  pub id : ℕ
  pub name : Text
  pub default_view : Bool

-- The zone that a record names inside itself.
pub record ZoneRef : Type 0 where
  pub id : Option ℕ
  pub name : Option Text

pub record Record : Type 0 where
  pub id : ℕ
  pub zone : Option ZoneRef
  pub fqdn : Option Text
  pub name : Text
  pub kind : String
  pub value : Text
  pub ttl : Option ℕ
  pub description : Option String

abbrev pub owner_mark : String
owner_mark = "external-dns"

abbrev pub is_owned : Record → Bool
is_owned r = r.description == some owner_mark

abbrev pub is_nil {ℓ} : {A : Type ℓ} → List A → Bool
is_nil [] = true
is_nil (x ∷ xs) = false

abbrev zone_id : Option ZoneRef → Option ℕ
zone_id none = none
zone_id (some z) = z.id

-- `none` is `NetBoxError`.
unfoldable pub local_view : List Zone → List Record → Option (List Zone × List Record)
local_view zones records =
    let local = filter (λ z. z.default_view) zones in
    let ids = map (λ (z : Zone). some z.id) local in
    if not (is_nil zones) && is_nil local
    then none
    else some (local, filter (λ r. contains ids (zone_id r.zone)) records)

-- `s.rstrip(".").lower()`
unfoldable pub normal : Text → Text
normal s = lower (rstrip b'.' s)

unfoldable pub is_under : Text → Text → Bool
is_under fqdn name = fqdn == name || ends_with fqdn (b'.' ∷ name)

abbrev is_longer : Text → Option Zone → Bool
is_longer name none = true
is_longer name (some best) = ltb (length best.name) (length name)

-- The loop of `zone_for`, over the best zone so far.
unfoldable pub zone_loop : Text → List Zone → Option Zone → Option Zone
zone_loop fqdn [] best = best
zone_loop fqdn (z ∷ zones) best =
    let name = normal z.name in
    zone_loop fqdn zones (if is_under fqdn name && is_longer name best then some z else best)

unfoldable pub zone_for : Text → List Zone → Option Zone
zone_for fqdn zones = zone_loop (normal fqdn) zones none

abbrev pub take {ℓ} : {A : Type ℓ} → ℕ → List A → List A
take zero xs = []
take (suc n) [] = []
take (suc n) (x ∷ xs) = x ∷ take n xs

unfoldable pub relative : Text → Text → Text
relative fqdn zone_name =
    let f = normal fqdn in
    let z = normal zone_name in if f == z then codes "@" else take (length f - (length z + 1)) f

abbrev or_empty : Option Text → Text
or_empty none = []
or_empty (some t) = t

abbrev ref_name : Option ZoneRef → Text
ref_name none = []
ref_name (some z) = or_empty z.name

abbrev known_name : Option Zone → Option ZoneRef → Text
known_name none ref = ref_name ref
known_name (some z) ref = z.name

-- `zones_by_id.get(zone.get("id"), zone).get("name", "")`
abbrev zone_name : Option ℕ → Option ZoneRef → Dict ℕ Zone → Text
zone_name none ref zones_by_id = ref_name ref
zone_name (some i) ref zones_by_id = known_name (Dict.lookup i zones_by_id) ref

abbrev in_its_zone : Text → Text → Text
in_its_zone name zname = if name == codes "@" then zname else name ++ b'.' ∷ zname

unfoldable pub fqdn_of : Record → Dict ℕ Zone → Text
fqdn_of r zones_by_id =
    let own = or_empty r.fqdn in
    if is_nil own
    then in_its_zone r.name (rstrip b'.' (zone_name (zone_id r.zone) r.zone zones_by_id))
    else rstrip b'.' own

-- `{z["id"]: z for z in zones}`
unfoldable pub by_id : List Zone → Dict ℕ Zone → Dict ℕ Zone
by_id [] d = d
by_id (z ∷ zones) d = by_id zones (Dict.insert z.id z d)
