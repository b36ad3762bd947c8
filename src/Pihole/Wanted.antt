-- ===== src/Pihole/Wanted.antt =====
-- `netbox_wanted` of netbox_pihole_sync.py: the records that NetBox wants every Pi-hole to hold.
pub mod Laws
pub mod Pages
use k8s_homelab.Prelude.{
  ℕ, zero, suc, String, ◌++◌, List, [], ◌∷◌, Bool, true, false, not, ◌&&◌, ◌||◌, Option, none, some,
  if◌then◌else◌, ◌>>=◌, add, ◌==◌, contains, nat_eq, list_eq,
}
use k8s_homelab.Prelude.{pair_eq, string_eq, option_eq}
use k8s_homelab.Prelude.Text.{Text, codes, lower, rstrip, strip}
use k8s_homelab.Prelude.Sort.{sorted}
use k8s_homelab.Prelude.Dict
use k8s_homelab.Prelude.Dict.{Dict}
use k8s_homelab.Pihole.Plan.{Entry}

-- A row's `status` in NetBox's JSON: missing or null, a text, or an object with a `value`.
pub data Status : Type 0 where
  unset : Status
  plain : String → Status
  labelled : Option String → Status

abbrev or_active : Option String → String
or_active none = "active"
or_active (some s) = if s == "" then "active" else s

unfoldable pub status_of : Status → String
status_of unset = or_active none
status_of (plain s) = or_active (some s)
status_of (labelled s) = or_active s

-- What the code reads of a zone: `default_view` says that its view's `default_view` is `True`.
pub record ZoneRow : Type 0 where
  pub id : ℕ
  pub name : Text
  pub status : Status
  pub default_view : Bool

-- What the code reads of a record: its zone's id, if it names one.
pub record RecordRow : Type 0 where
  pub zone : Option ℕ
  pub status : Status
  pub kind : Option String
  pub name : Text
  pub value : Text

-- One page of a listing: `body` is absent when the answer is no object with `results`.
pub record Answer (A : Type 0) : Type 0 where
  pub status : ℕ
  pub body : Option (List A × Option Text)

-- `every`: all pages, over the calls of NetBox's API. `none` is `Refused`, by no answer or by one
-- that is not usable; the loop has fuel, a round for each page.
module _ {A : Type 0} (call : Text → Option (Answer A)) where
  abbrev pub answered_page : Answer A → Option (List A × Option Text)
  answered_page a = if a.status == 200 then a.body else none

  unfoldable pub every : ℕ → Option Text → List A → Option (List A)
  every fuel none out = some out
  every zero (some url) out = none
  every (suc fuel) (some url) out = do
    answer ← call url
    page ← answered_page answer
    every fuel page.1 (out ++ page.0)

unfoldable pub zone_counts : ZoneRow → Bool
unfolding status_of
zone_counts z = status_of z.status == "active" && z.default_view

-- The dict from a zone's id to its name.
unfoldable pub zone_names : List ZoneRow → Dict ℕ Text → Dict ℕ Text
unfolding zone_counts
zone_names [] d = d
zone_names (z ∷ zs) d =
    zone_names zs (if zone_counts z then Dict.insert z.id (lower (rstrip b'.' z.name)) d else d)

abbrev pub find_zone : Option ℕ → Dict ℕ Text → Option Text
find_zone none d = none
find_zone (some i) d = Dict.lookup i d

abbrev pub is_wanted_kind : Option String → Bool
is_wanted_kind none = false
is_wanted_kind (some t) = t == "A" || (t == "AAAA" || t == "CNAME")

unfoldable pub record_name : Text → Text → Text
record_name name zone =
    if name == codes "@" || name == [] then zone else lower (rstrip b'.' name) ++ b'.' ∷ zone

unfoldable pub record_value : Text → String → Text → Text
record_value value kind zone =
    let v = strip value in
    let target = lower (rstrip b'.' v) in
    if kind == "CNAME" then (if contains target b'.' then target else target ++ b'.' ∷ zone) else v

-- One record of the listing: what it adds to `wanted`.
unfoldable pub record_entry : Dict ℕ Text → RecordRow → Option Entry
unfolding status_of record_name record_value
record_entry zones r = do
  zone ← find_zone r.zone zones
  kind ← r.kind
  if not (status_of r.status == "active") || not (is_wanted_kind (some kind))
      then none
      else some (record_name r.name zone, (kind, record_value r.value kind zone))

abbrev pub add_some : Option Entry → List Entry → List Entry
add_some none xs = xs
add_some (some w) xs = add w xs

unfoldable pub wanted_from : Dict ℕ Text → List RecordRow → List Entry → List Entry
unfolding record_entry
wanted_from zones [] wanted = wanted
wanted_from zones (r ∷ rs) wanted = wanted_from zones rs (add_some (record_entry zones r) wanted)

abbrev pub is_nil {ℓ} : {A : Type ℓ} → List A → Bool
is_nil [] = true
is_nil (x ∷ xs) = false

unfoldable pub wanted_in : Dict ℕ Text → List RecordRow → Option (List Text × List Entry)
unfolding wanted_from
wanted_in zones rows =
    let wanted = wanted_from zones rows [] in
    if is_nil wanted then none else some (sorted (Dict.values zones), wanted)

-- `none` is `Refused`: no zone, or no record, is never read as nothing wanted. The calls and the
-- first page's address of each listing are those of NetBox's API.
module _ (zone_call : Text → Option (Answer ZoneRow))
    (record_call : Text → Option (Answer RecordRow)) (zones_url records_url : Text) where
  unfoldable pub netbox_wanted : ℕ → Option (List Text × List Entry)
  unfolding zone_names wanted_in
  netbox_wanted fuel = do
    zone_rows ← every zone_call fuel (some zones_url) []
    let zones = zone_names zone_rows []
    if is_nil zones
        then none
        else do rows ← every record_call fuel (some records_url) []; wanted_in zones rows
