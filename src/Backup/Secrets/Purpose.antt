-- ===== src/Backup/Secrets/Purpose.antt =====
-- secretscan.py: what an address is for, of the infrastructure that is known and of where it was found. The
-- objects are as the API server gives them. Letters are matched in either case, for the ASCII ones.
use k8s_homelab.Prelude.{
  ◌+◌, is_none, true, contains, ◌>>=◌, ◌||◌, list_eq, false, map, leb, none, ◌++◌, nat_eq, Bool,
  ◌∷◌, some, ℕ, if◌then◌else◌, ◌==◌, [], Option, not, List,
}
use k8s_homelab.Prelude.Dict.{insert, lookup, Dict}
use k8s_homelab.Prelude.Decimal.{is_digit, decimal}
use k8s_homelab.Prelude.Text.{lower, strip, is_empty, starts_with, split_on, codes, Text}
use k8s_homelab.Json.{no_values, dict, text, value, get, Values, Fields}
use k8s_homelab.Backup.Secrets.Classes.{classify_ip, read_address, Ipv6, Address, v4, v6}
use k8s_homelab.Backup.Secrets.Pattern.{match_here, found_by, Piece, literal, class, at_end}
use k8s_homelab.Backup.Substitute.Seeds.{
  texts_of, fields_at, values_at, text_at, object_name, server_of,
}
use k8s_homelab.Ipv4.{lies_in, read_network, Network}
use k8s_homelab.Backup.Substitute.{occurs}

-- `start <= target`; none for the TypeError that two versions raise.
abbrev pub address_leb : Address → Address → Option Bool
address_leb (v4 a) (v4 b) = some (leb a b)
address_leb (v6 a) (v6 b) = some (leb a b)
address_leb (v4 a) (v6 b) = none
address_leb (v6 a) (v4 b) = none

-- The text before the first dash and that after it.
unfoldable pub before_dash : Text → Text
before_dash s = (split_on b'-' s).0

unfoldable pub after_dash : Text → Text
after_dash [] = []
after_dash (c ∷ s) = let rest = after_dash s in if c == b'-' then s else rest

unfoldable pub read_stripped : Ipv6 → Text → Option Address
read_stripped ipv6 s = read_address ipv6 (strip s)

-- Whether the address lies between two texts.
unfoldable pub below_end : Ipv6 → Address → Text → Option Bool
below_end ipv6 target s = elim (read_stripped ipv6 s) [
  | none ↦ some false
  | some last ↦ address_leb target last
]

unfoldable pub in_range : Ipv6 → Address → Text → Text → Option Bool
in_range ipv6 target start last = elim (read_stripped ipv6 start) [
  | none ↦ some false
  | some first ↦
      address_leb first target >>= λ b. if b then below_end ipv6 target last else some false
]

-- `target in ip_network(spec, strict=False)`
abbrev in_ipv6 : Option (ℕ → Bool) → Address → Bool
in_ipv6 none a = false
in_ipv6 (some p) (v4 a) = false
in_ipv6 (some p) (v6 a) = p a

abbrev in_ipv4 : Network → Address → Bool
in_ipv4 net (v4 a) = lies_in a net
in_ipv4 net (v6 a) = false

unfoldable pub in_network : Ipv6 → Address → Text → Bool
in_network ipv6 target spec = elim (read_network spec) [
  | some net ↦ in_ipv4 net target
  | none ↦ in_ipv6 (ipv6.network spec) target
]

-- `_ip_in_metallb_range`; none for a TypeError.
unfoldable pub ip_in_metallb_range : Ipv6 → Text → Text → Option Bool
ip_in_metallb_range ipv6 ip spec = elim (read_address ipv6 ip) [
  | none ↦ some false
  | some target ↦
      if contains spec b'-'
      then in_range ipv6 target (before_dash spec) (after_dash spec)
      else some (in_network ipv6 target (strip spec))
]

pub record IpContext : Type 0 where
  pub node_ips : Dict Text Text
  pub nfs_servers : Dict Text Text
  pub metallb_pools : List (Text × Text)

abbrev type_of : Fields → Text
type_of addr = elim (get (codes "type") addr) [ some (text t) ↦ t | _ ↦ codes "Address" ]

abbrev node_label : Text → Fields → Text
node_label name addr = codes "node " ++ (name ++ (codes " (" ++ (type_of addr ++ codes ")")))

unfoldable pub add_addresses : Ipv6 → Text → Values → Dict Text Text → Dict Text Text
add_addresses ipv6 name no_values ips = ips
add_addresses ipv6 name (value (dict addr) vs) ips = add_addresses ipv6 name vs (
    if is_none (classify_ip ipv6 (text_at (codes "address") addr))
    then ips
    else insert (text_at (codes "address") addr) (node_label name addr) ips)
add_addresses ipv6 name (value v vs) ips = add_addresses ipv6 name vs ips

unfoldable pub node_ips_of : Ipv6 → List Fields → Dict Text Text → Dict Text Text
node_ips_of ipv6 [] ips = ips
node_ips_of ipv6 (node ∷ nodes) ips = node_ips_of ipv6 nodes (
    add_addresses ipv6 (object_name node)
      (values_at (codes "addresses") (fields_at (codes "status") node)) ips)

abbrev count_of : Text → Dict Text ℕ → ℕ
count_of server counts = elim (lookup server counts) [ none ↦ 0 | some n ↦ n ]

unfoldable pub nfs_counts : Ipv6 → List Fields → Dict Text ℕ → Dict Text ℕ
nfs_counts ipv6 [] counts = counts
nfs_counts ipv6 (pv ∷ pvs) counts = nfs_counts ipv6 pvs (
    if is_empty (server_of pv) || is_none (classify_ip ipv6 (server_of pv))
    then counts
    else insert (server_of pv) (count_of (server_of pv) counts + 1) counts)

abbrev nfs_label : Text × ℕ → Text × Text
nfs_label (server, n) = (
  server,
  codes "NFS server (backs "
      ++ (decimal n
          ++ (codes " PersistentVolume" ++ ((if n == 1 then [] else codes "s") ++ codes ")"))),
)

unfoldable pub pools_of : List Fields → List (Text × Text)
pools_of [] = []
pools_of (pool ∷ pools) =
    map (λ spec. (object_name pool, spec))
      (texts_of (values_at (codes "addresses") (fields_at (codes "spec") pool)))
    ++ pools_of pools

-- Of the nodes, the volumes and the address pools.
unfoldable pub build_ip_context : Ipv6 → List Fields → List Fields → List Fields → IpContext
build_ip_context ipv6 nodes pvs pools = record {
  node_ips = node_ips_of ipv6 nodes [];
  nfs_servers = map nfs_label (nfs_counts ipv6 pvs []);
  metallb_pools = pools_of pools;
}

-- `_FIELD_PATH_HINTS`, of a path in lower case.
abbrev any_chars : Piece
any_chars = class (λ c. not (c == 10)) 0 none

abbrev is_ingress_path : Text → Bool
is_ingress_path path =
    found_by (literal (codes "loadbalancer") ∷ any_chars ∷ literal (codes "ip") ∷ []) path
    || found_by (literal (codes "ingress[") ∷ class is_digit 1 none ∷ literal (codes "].ip") ∷ [])
        path

abbrev is_external_path : Text → Bool
is_external_path path =
    found_by
      (literal (codes "externalip") ∷ class (λ c. c == b's') 0 (some 1) ∷ literal (codes "[") ∷ [])
      path

abbrev is_server_path : Text → Bool
is_server_path path =
    occurs (codes "nfs.server") path
    || (match_here (literal (codes "server") ∷ at_end ∷ []) false path
        || found_by (literal (codes ".server") ∷ at_end ∷ []) path)

unfoldable pub hint_of : Text → Option Text
hint_of path =
    if occurs (codes "clusterip") path
    then some (codes "Kubernetes Service clusterIP")
    else if is_ingress_path path
    then some (codes "Service LoadBalancer ingress IP")
    else if is_external_path path
    then some (codes "Service externalIPs entry")
    else if occurs (codes "hostip") path
    then some (codes "node host IP (the node a pod landed on)")
    else if occurs (codes "podip") path
    then some (codes "pod IP")
    else if is_server_path path
    then some (codes "NFS server address")
    else if occurs (codes "nameserver") path || occurs (codes "dns") path
    then some (codes "DNS server address")
    else if occurs (codes "addresses[") path
    then some (codes "address pool / range entry")
    else none

-- The purpose where neither the context nor the path tells it.
abbrev default_purpose : Text → Text
default_purpose classification =
    if classification == codes "public"
    then codes "public address, purpose not identified from context -- review this one"
    else codes "private address, no more specific role identified from context"

unfoldable pub purpose_of_path : Text → Text → Text → Text
purpose_of_path ip classification path =
    if ip == codes "0.0.0.0"
    then codes "bind-all address (listen on every interface)"
    else if ip == codes "127.0.0.1"
    then codes "loopback"
    else if starts_with ip (codes "169.254.")
    then codes "link-local (APIPA) -- often a metrics/health bind address"
    else elim (hint_of (lower path)) [ some label ↦ label | none ↦ default_purpose classification ]

-- The first pool that the address lies in, else what `otherwise` says; none for a TypeError.
unfoldable pub purpose_of_pool : Ipv6 → Text → List (Text × Text) → Text → Option Text
purpose_of_pool ipv6 ip [] otherwise = some otherwise
purpose_of_pool ipv6 ip ((name, spec) ∷ pools) otherwise = elim (ip_in_metallb_range ipv6 ip spec) [
  | none ↦ none
  | some true ↦ some (codes "MetalLB IPAddressPool address (" ++ (name ++ codes ")"))
  | some false ↦ purpose_of_pool ipv6 ip pools otherwise
]

unfoldable pub classify_ip_purpose : Ipv6 → Text → Text → Text → IpContext → Option Text
classify_ip_purpose ipv6 ip classification path context = elim (lookup ip context.node_ips) [
  | some label ↦ some label
  | none ↦ elim (lookup ip context.nfs_servers) [
    | some label ↦ some label
    | none ↦ purpose_of_pool ipv6 ip context.metallb_pools (purpose_of_path ip classification path)
  ]
]
