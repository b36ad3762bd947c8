-- ===== src/Kea/Main.antt =====
-- docker/kea/tools/dnsmasq_to_kea.py: Converter.leases, and main from the files' lines to what is
-- written. `none` stands for an uncaught exception; a negative expiry is not modelled.
use k8s_homelab.Prelude.{
  ltb, ◌++◌, ◌&&◌, not, nat_eq, list_eq, none, length, ◌∷◌, ◌==◌, suc, if◌then◌else◌, ◌>>=◌, some,
  Option, List, [], ℕ,
}
use k8s_homelab.Prelude.Dict.{lookup, insert, Dict}
use k8s_homelab.Prelude.Decimal.{read_decimal}
use k8s_homelab.Prelude.Text.{codes, words, Text}
use k8s_homelab.Ipv4.{read_strict, network_eq, address, read_network, Network, address_text}
use k8s_homelab.Kea.Values.{is_mac, normal_mac}
use k8s_homelab.Kea.Site.{positive, site, Entry, SiteData}
use k8s_homelab.Kea.Resolve.{resolve}
use k8s_homelab.Kea.Read.{key_value, read}
use k8s_homelab.Kea.{leases_counted, inform, subnet_containing, converter, Subnet, Converter}

pub record Lease : Type 0 where
  pub ip_address : Text
  pub hw_address : Text
  pub subnet_id : ℕ
  pub valid_lft : ℕ
  pub expire : Option ℕ
  pub hostname : Option Text
  pub client_id : Option Text

-- The leases so far, and the counts of the expired and the unknown ones.
pub record Tally : Type 0 where
  pub out : List Lease
  pub expired : ℕ
  pub unknown : ℕ

-- A line of the file that is a lease's, with an expiry that is still text.
pub record LeaseLine : Type 0 where
  pub expiry : Text
  pub mac : Text
  pub ip : ℕ
  pub hostname : Text
  pub client : Option Text

abbrev first_of : List Text → Option Text
first_of [] = none
first_of (s ∷ later) = some s

unfoldable pub lease_line : List Text → Option LeaseLine
lease_line (e ∷ m ∷ a ∷ h ∷ later) =
    if e == codes "duid"
    then none
    else address a >>= λ ip.
        some (record { expiry = e; mac = m; ip = ip; hostname = h; client = first_of later })
lease_line _ = none

-- A field that is not `*`.
abbrev given : Option Text → Option Text
given none = none
given (some s) = if s == codes "*" then none else some s

abbrev default_lifetime : Option ℕ → ℕ
default_lifetime (some (suc n)) = suc n
default_lifetime _ = 3600

unfoldable pub make_lease : LeaseLine → ℕ → ℕ → Subnet → Lease
make_lease l expiry id sub = record {
  ip_address = address_text l.ip;
  hw_address = normal_mac l.mac;
  subnet_id = id;
  valid_lft = default_lifetime sub.lifetime;
  expire = positive (some expiry);
  hostname = given (some l.hostname);
  client_id = given l.client;
}

-- The lease, with the subnet that holds its address.
unfoldable pub import_lease : Dict Network ℕ → LeaseLine → ℕ → Option Subnet → Tally → Option Tally
import_lease ids l expiry none t = some (record t { unknown = suc t.unknown })
import_lease ids l expiry (some sub) t =
    if is_mac l.mac
    then (lookup sub.network ids >>= λ id.
        some (record t { out = t.out ++ make_lease l expiry id sub ∷ [] }))
    else some (record t { unknown = suc t.unknown })

module _ (c : Converter) (now : ℕ) (ids : Dict Network ℕ) where
  unfoldable pub import_line : LeaseLine → ℕ → Tally → Option Tally
  import_line l expiry t =
      if not (expiry == 0) && ltb expiry now
      then some (record t { expired = suc t.expired })
      else import_lease ids l expiry (subnet_containing l.ip c) t

  abbrev pub import_read : Option LeaseLine → Tally → Option Tally
  import_read none t = some t
  import_read (some l) t = read_decimal l.expiry >>= λ expiry. import_line l expiry t

  unfoldable pub read_lease : Text → Tally → Option Tally
  read_lease raw t = import_read (lease_line (words raw)) t

  unfoldable pub read_leases : List Text → Tally → Option Tally
  read_leases [] t = some t
  read_leases (raw ∷ lines) t = read_lease raw t >>= λ t'. read_leases lines t'

abbrev pub no_leases : Tally
no_leases = record { out = []; expired = 0; unknown = 0 }

unfoldable pub leases : Converter → ℕ → List Text → Dict Network ℕ → Option (List Lease × Converter)
leases c now lines ids = read_leases c now ids lines no_leases >>= λ t.
    some (t.out, inform (leases_counted (length t.out) t.expired t.unknown) c)

-- `{IPv4Network(s["subnet"]): s["id"] for s in site["subnet4"]}`
unfoldable pub ids_from : List Entry → Dict Network ℕ → Option (Dict Network ℕ)
ids_from [] ids = some ids
ids_from (e ∷ later) ids = read_strict e.subnet >>= λ net. ids_from later (insert net e.id ids)

-- The tags that `--tag-subnet` gives.
unfoldable pub tags_from : List Text → Dict Text Network → Option (Dict Text Network)
tags_from [] tags = some tags
tags_from (item ∷ later) tags = key_value item >>= λ (tag, cidr).
    read_network cidr >>= λ net. tags_from later (insert tag net tags)

unfoldable pub convert : ℕ → ℕ → List Text → List Text → Option Converter
convert prefix router_host tag_subnets lines = tags_from tag_subnets [] >>= λ tags.
    read lines (converter prefix router_host tags) >>= λ c. some (resolve c)

-- The site, and the leases to import, of a leases file's lines.
unfoldable pub main : ℕ → ℕ → List Text → List Text → ℕ → List Text → Option (SiteData × List Lease)
main prefix router_host tag_subnets lines now lease_lines =
    convert prefix router_host tag_subnets lines >>= λ c. site c >>= λ made.
    ids_from made.0.subnet4 [] >>= λ ids.
    leases made.1 now lease_lines ids >>= λ out. some (made.0, out.0)
