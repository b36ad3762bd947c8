-- ===== src/Webhook/Tests.antt =====
-- Runs of netbox-dns-webhook.py, and its theorems at concrete records.
use native.Mathlib.Decide.{ℕ_discrete}
use k8s_homelab.Prelude.{
  ◌≡◌, refl, List, [], ◌∷◌, ◌++◌, true, false, ◌↔◌, contains, any, all, All, if◌then◌else◌, ◌==◌,
  filter, ◌&&◌, not, Option, none, some, list_eq, nat_eq,
}
use k8s_homelab.Prelude.{string_eq, option_eq, pair_eq}
use k8s_homelab.Prelude.Text
use k8s_homelab.Prelude.Text.{Text, codes, lower, lacks}
use k8s_homelab.Prelude.Sort
use k8s_homelab.Prelude.Dict
use k8s_homelab.Webhook.Handler.Laws.{stops_at, Permitted, post_records_lem}
use k8s_homelab.Webhook.Zones
use k8s_homelab.Webhook.Zones.{
  Zone, ZoneRef, Record, zone_for, normal, is_under, relative, fqdn_of, by_id, is_owned,
}
use k8s_homelab.Webhook.Zones.Laws.{is_dotless, Found, zone_for-Found}
use k8s_homelab.Webhook.Plan
use k8s_homelab.Webhook.Plan.{Endpoint, Changes, Create, Work, plan, stale, missing, values_of}
use k8s_homelab.Webhook.Plan.Owned.{owned_in, plan-owned}
use k8s_homelab.Webhook.Plan.Created.{IsAllowed, plan-IsAllowed}
use k8s_homelab.Webhook.Plan.Settles.{values-change, distinct, ids_of}
use k8s_homelab.Webhook.Endpoints.{endpoints}
use k8s_homelab.Webhook.Endpoints.Laws.{key_count, has_target, is_under_key, endpoints_lem}
use k8s_homelab.Webhook.Handler.{
  NetBox, Session, Request, no_content, read_all, requests_of, post_records,
}

-- What a run opens.
run : Changes → List Record → List Zone → Work
unfolding Plan.plan Plan.lower_keys Plan.append_at Plan.key_of Plan.current_loop Plan.endpoint_key
    Plan.is_handled Plan.set_of Plan.create_for Plan.stale Plan.missing Plan.change_records
    Plan.want_endpoint Plan.want_all Plan.unwant_endpoint Plan.unwant_all Plan.id_set Zones.normal
    Zones.is_under Zones.zone_loop Zones.zone_for Zones.relative Zones.fqdn_of Zones.by_id
    Zones.local_view Sort.sorted Sort.sorted_by Sort.text_leb Sort.sorted_ids Text.lower
    Text.lower_char Text.ends_with Text.rstrip Dict.lookup Dict.insert nat_eq list_eq pair_eq
    string_eq option_eq ℕ_discrete
run changes records zones = Plan.plan changes records zones

abbrev lan : Zone
lan = record { id = 1; name = codes "lan"; default_view = true }

abbrev lab : Zone
lab = record { id = 2; name = codes "Lab.lan"; default_view = true }

abbrev zones : List Zone
zones = lan ∷ lab ∷ []

abbrev in_lab : Option ZoneRef
in_lab = some (record { id = some 2; name = none })

-- An owned record with an old address, and a hand-made one.
abbrev app : Record
app = record {
  id = 10;
  zone = in_lab;
  fqdn = none;
  name = codes "app";
  kind = "A";
  value = codes "10.0.0.1";
  ttl = none;
  description = some "external-dns";
}

abbrev nas : Record
nas = record {
  id = 11;
  zone = in_lab;
  fqdn = some (codes "nas.lab.lan.");
  name = codes "nas";
  kind = "A";
  value = codes "10.0.0.2";
  ttl = none;
  description = none;
}

abbrev records : List Record
records = app ∷ nas ∷ []

abbrev endpoint_of : Text → Endpoint
endpoint_of name = record {
  dns_name = name;
  record_type = none;
  targets = codes "10.0.0.7" ∷ [];
  record_ttl = some 0;
}

abbrev changes : Changes
changes =
    (codes "Create", endpoint_of (codes "App.lab.lan.") ∷ endpoint_of (codes "nas.lab.lan") ∷ [])
    ∷ (codes "delete", endpoint_of (codes "nas.lab.lan") ∷ [])
    ∷ []

abbrev expected : Work
expected = record {
  creates =
      record {
        zone = 2;
        name = codes "app";
        kind = "A";
        value = codes "10.0.0.7";
        ttl = none;
        status = "active";
        description = "external-dns";
      }
      ∷ [];
  deletes = 10 ∷ [];
  skipped = codes "nas.lab.lan A: a hand-made record has that name; left alone" ∷ [];
}

planned : plan changes records zones ≡ expected
unfolding run
planned = refl

app_deleted : contains (plan changes records zones).deletes 10 ≡ true
unfolding run
app_deleted = refl

plan-owned_example : owned_in 10 records ≡ true
plan-owned_example = plan-owned changes records zones 10 app_deleted

plan-IsAllowed_example : All (IsAllowed records zones) (plan changes records zones).creates
plan-IsAllowed_example = plan-IsAllowed changes records zones

zones_dotless : all is_dotless zones ≡ true
unfolding run
zones_dotless = refl

zone_for-Found_example : Found (codes "app.lab.lan") zones (zone_for (codes "app.lab.lan") zones)
zone_for-Found_example = zone_for-Found (codes "app.lab.lan") zones zones_dotless

app_under : is_under (normal (codes "App.lab.lan.")) (normal (codes "Lab.lan")) ≡ true
unfolding run
app_under = refl

app_plain : lacks b'@' (normal (codes "App.lab.lan.")) ≡ true
unfolding run
app_plain = refl

lab_known : Dict.lookup 2 (by_id zones []) ≡ some lab
unfolding run
lab_known = refl

app_named : codes "app" ≡ relative (codes "App.lab.lan.") (codes "Lab.lan")
unfolding run
app_named = refl

abbrev made : Record
made = record app { id = 12; value = codes "10.0.0.7" }

app-distinct : distinct (ids_of (app ∷ [])) ≡ true
unfolding run
app-distinct = refl

made-missing : values_of (made ∷ []) ≡ missing (endpoint_of (codes "app.lab.lan")) (app ∷ [])
unfolding run
made-missing = refl

values-change_example :
    contains
      (values_of (
        filter
          (λ r. not (contains (stale (endpoint_of (codes "app.lab.lan")) (app ∷ [])) r.id))
          (app ∷ [])
        ++ made ∷ []))
      (codes "10.0.0.7")
    ≡ contains (endpoint_of (codes "app.lab.lan")).targets (codes "10.0.0.7")
values-change_example =
    values-change (endpoint_of (codes "app.lab.lan")) (app ∷ []) (made ∷ []) (codes "10.0.0.7")
      app-distinct made-missing

endpoints_lem_example :
    (key_count (codes "app.Lab.lan", "A") (endpoints records (by_id zones []))
      ≡ (if any (is_under_key (by_id zones []) (codes "app.Lab.lan", "A")) records then 1 else 0))
    × (has_target (codes "app.Lab.lan", "A") (codes "10.0.0.1") (endpoints records (by_id zones []))
        ≡ any
            (λ r.
              is_under_key (by_id zones []) (codes "app.Lab.lan", "A") r
              && codes "10.0.0.1" == r.value)
            records)
endpoints_lem_example =
    endpoints_lem records (by_id zones []) (codes "app.Lab.lan", "A") (codes "10.0.0.1")

-- A NetBox that answers its listings and refuses to create.
abbrev netbox : NetBox
netbox = record {
  zones = some zones;
  records = some records;
  accepts = λ r. elim r [ Request.remove i ↦ true | Request.create c ↦ false ];
}

abbrev idle : Session
idle = record { sent = []; last_skipped = [] }

netbox_read : read_all netbox ≡ some (zones, records)
unfolding read_all run
netbox_read = refl

post_records_lem_example :
    (done : List Request) × (rest : List Request) × ((post_records netbox changes idle).1.sent
      ≡ [] ++ done)
    × (done ++ rest ≡ requests_of netbox (plan changes records zones))
    × ((all netbox.accepts done ≡ true) × (stops_at netbox rest ≡ true))
    × All (Permitted records zones) done
    × (((post_records netbox changes idle).0 ≡ no_content) ↔ (rest ≡ []))
post_records_lem_example = post_records_lem netbox changes idle zones records netbox_read

abbrev silent : NetBox
silent = record netbox { records = none }

silent_unread : read_all silent ≡ none
unfolding read_all
silent_unread = refl
