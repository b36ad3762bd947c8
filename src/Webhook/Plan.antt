-- ===== src/Webhook/Plan.antt =====
-- `plan` of netbox-dns-webhook.py: what to create and to delete in NetBox, and what is skipped.
pub mod Current
pub mod Owned
pub mod Created
pub mod Settles
use k8s_homelab.Prelude.{
  ℕ, String, List, [], ◌∷◌, ◌++◌, Bool, true, false, not, ◌&&◌, ◌||◌, map, Option, none, some,
  if◌then◌else◌, ◌==◌, contains, any, filter, add, minus, list_eq,
}
use k8s_homelab.Prelude.{nat_eq, string_eq, pair_eq, option_eq}
use k8s_homelab.Prelude.Text.{Text, codes, lower}
use k8s_homelab.Prelude.Sort.{sorted, sorted_ids}
use k8s_homelab.Prelude.Dict
use k8s_homelab.Prelude.Dict.{Dict}
use k8s_homelab.Webhook.Zones.{
  Zone, Record, is_owned, owner_mark, normal, zone_for, relative, fqdn_of, by_id,
}

-- One of ExternalDNS's endpoints; a missing `recordType` is an A.
pub record Endpoint : Type 0 where
  pub dns_name : Text
  pub record_type : Option String
  pub targets : List Text
  pub record_ttl : Option ℕ

-- The body of a POST to /records, as the lists that it names.
abbrev pub Changes : Type 0
Changes = Dict Text (List Endpoint)

-- What is sent to NetBox to create a record.
pub record Create : Type 0 where
  pub zone : ℕ
  pub name : Text
  pub kind : String
  pub value : Text
  pub ttl : Option ℕ
  pub status : String
  pub description : String

abbrev pub Key : Type 0
Key = Text × String

-- `{k.lower(): v for k, v in changes.items()}`
unfoldable pub lower_keys : Changes → Changes → Changes
lower_keys [] d = d
lower_keys ((k, v) ∷ changes) d = lower_keys changes (Dict.insert (lower k) v d)

abbrev or_nil {ℓ} : {A : Type ℓ} → Option (List A) → List A
or_nil none = []
or_nil (some xs) = xs

abbrev pub listed : String → Changes → List Endpoint
listed name changes = or_nil (Dict.lookup (codes name) changes)

abbrev pub Current : Type 0
Current = Dict Key (List Record)

-- `current.setdefault(key, []).append(r)`
unfoldable pub append_at : Key → Record → Current → Current
append_at k r [] = (k, r ∷ []) ∷ []
append_at k r ((j, rs) ∷ d) =
    let rest = append_at k r d in if j == k then (j, rs ++ r ∷ []) ∷ d else (j, rs) ∷ rest

unfoldable pub key_of : Dict ℕ Zone → Record → Key
key_of zones_by_id r = (lower (fqdn_of r zones_by_id), r.kind)

unfoldable pub current_loop : Dict ℕ Zone → List Record → Current → Current
current_loop zones_by_id [] d = d
current_loop zones_by_id (r ∷ rs) d =
    current_loop zones_by_id rs (append_at (key_of zones_by_id r) r d)

abbrev pub have_of : Key → Current → List Record
have_of k current = or_nil (Dict.lookup k current)

abbrev kind_or_a : Option String → String
kind_or_a none = "A"
kind_or_a (some t) = t

unfoldable pub endpoint_key : Endpoint → Key
endpoint_key ep = (normal ep.dns_name, kind_or_a ep.record_type)

unfoldable pub is_handled : String → Bool
is_handled t = t == "A" || (t == "AAAA" || (t == "CNAME" || t == "TXT"))

abbrev positive : Option ℕ → Option ℕ
positive none = none
positive (some t) = if t == 0 then none else some t

unfoldable pub set_of : List Text → List Text
set_of [] = []
set_of (t ∷ ts) = add t (set_of ts)

unfoldable pub create_for : Zone → Key → Endpoint → Text → Create
create_for z k ep v = record {
  zone = z.id;
  name = relative k.0 z.name;
  kind = k.1;
  value = v;
  ttl = positive ep.record_ttl;
  status = "active";
  description = owner_mark;
}

-- The three lists that `plan` fills.
pub record Work : Type 0 where
  pub creates : List Create
  pub deletes : List ℕ
  pub skipped : List Text

abbrev skip : Key → String → Work → Work
skip k why w = record w { skipped = w.skipped ++ (k.0 ++ 32 ∷ (codes k.1 ++ codes why)) ∷ [] }

abbrev pub values_of : List Record → List Text
values_of = map (λ r. r.value)

-- The records whose value is not wanted any more, and the values that no record has yet.
unfoldable pub stale : Endpoint → List Record → List ℕ
stale ep have = map (λ r. r.id) (filter (λ r. not (contains ep.targets r.value)) have)

unfoldable pub missing : Endpoint → List Record → List Text
missing ep have = sorted (minus (set_of ep.targets) (values_of have))

module _ (zones : List Zone) (current : Current) where
  unfoldable pub change_records : Zone → Key → Endpoint → Work → Work
  change_records z k ep w =
      let have = have_of k current in
      if any (λ r. not (is_owned r)) have
      then skip k ": a hand-made record has that name; left alone" w
      else record w {
        deletes = w.deletes ++ stale ep have;
        creates = w.creates ++ map (create_for z k ep) (missing ep have);
      }

  -- One endpoint of `create` or `updatenew`.
  unfoldable pub want_endpoint : Endpoint → Work → Work
  want_endpoint ep w =
      let k = endpoint_key ep in
      if not (is_handled k.1) then skip k ": type not handled" w else elim (zone_for k.0 zones) [
        | none ↦ skip k ": no NetBox DNS zone holds it" w
        | some z ↦ change_records z k ep w
      ]

  unfoldable pub want_all : List Endpoint → Work → Work
  want_all [] w = w
  want_all (ep ∷ eps) w = want_all eps (want_endpoint ep w)

  -- One endpoint of `delete`.
  unfoldable pub unwant_endpoint : Endpoint → Work → Work
  unwant_endpoint ep w = record w {
    deletes = w.deletes ++ map (λ r. r.id) (filter is_owned (have_of (endpoint_key ep) current));
  }

  unfoldable pub unwant_all : List Endpoint → Work → Work
  unwant_all [] w = w
  unwant_all (ep ∷ eps) w = unwant_all eps (unwant_endpoint ep w)

unfoldable pub id_set : List ℕ → List ℕ
id_set [] = []
id_set (i ∷ is) = add i (id_set is)

unfoldable pub plan : Changes → List Record → List Zone → Work
plan changes records zones =
    let asked = lower_keys changes [] in
    let current = current_loop (by_id zones []) records [] in
    let wanted = listed "create" asked ++ listed "updatenew" asked in
    let w = want_all zones current wanted (record { creates = []; deletes = []; skipped = [] }) in
    let u = unwant_all zones current (listed "delete" asked) w in
    record u { deletes = sorted_ids (id_set u.deletes); skipped = sorted u.skipped }
