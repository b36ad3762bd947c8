-- ===== src/Webhook/Endpoints.antt =====
-- `endpoints` of netbox-dns-webhook.py: the owned records, one endpoint for each name and type.
pub mod Laws
use k8s_homelab.Prelude.{
  ℕ, ◌≡◌, refl, ◌∙◌, String, List, [], ◌∷◌, ◌++◌, Bool, true, false, not, ◌&&◌, ◌||◌, map, arith,
  Option, none, some, if◌then◌else◌, ◌==◌, contains, any, filter,
}
use k8s_homelab.Prelude.{contains-append, ltb, list_eq, nat_eq, string_eq, pair_eq, option_eq}
use k8s_homelab.Prelude.Text.{Text, codes}
use k8s_homelab.Prelude.Sort.{sorted, sorted_by, text_leb, contains-sorted}
use k8s_homelab.Prelude.Dict
use k8s_homelab.Prelude.Dict.{Dict}
use k8s_homelab.Webhook.Zones.{Zone, Record, is_owned, fqdn_of}
use k8s_homelab.Webhook.Plan.{Key, is_handled}

-- An endpoint as it is listed; its labels and provider fields are empty.
pub record Group : Type 0 where
  pub key : Key
  pub targets : List Text
  pub ttl : ℕ

abbrev pub or_zero : Option ℕ → ℕ
or_zero none = 0
or_zero (some n) = n

-- `grouped.setdefault(key, …)["targets"].append(value)`: the first record's ttl stays.
unfoldable pub group_at : Key → ℕ → Text → List Group → List Group
group_at k ttl v [] = record { key = k; targets = v ∷ []; ttl = ttl } ∷ []
group_at k ttl v (g ∷ gs) =
    let rest = group_at k ttl v gs in
    if g.key == k then record g { targets = g.targets ++ v ∷ [] } ∷ gs else g ∷ rest

unfoldable pub is_listed : Record → Bool
is_listed r = is_owned r && is_handled r.kind

unfoldable pub listed_key : Dict ℕ Zone → Record → Key
listed_key zones_by_id r = (fqdn_of r zones_by_id, r.kind)

unfoldable pub group_loop : Dict ℕ Zone → List Record → List Group → List Group
group_loop zones_by_id [] gs = gs
group_loop zones_by_id (r ∷ rs) gs =
    group_loop zones_by_id rs
      (if is_listed r then group_at (listed_key zones_by_id r) (or_zero r.ttl) r.value gs else gs)

-- The order of `(dnsName, recordType)`.
unfoldable pub group_leb : Group → Group → Bool
group_leb g h =
    if g.key.0 == h.key.0
    then text_leb (codes g.key.1) (codes h.key.1)
    else text_leb g.key.0 h.key.0

unfoldable pub sort_targets : List Group → List Group
sort_targets [] = []
sort_targets (g ∷ gs) = record g { targets = sorted g.targets } ∷ sort_targets gs

unfoldable pub endpoints : List Record → Dict ℕ Zone → List Group
unfolding sort_targets
endpoints records zones_by_id =
    sorted_by group_leb (sort_targets (group_loop zones_by_id records []))
