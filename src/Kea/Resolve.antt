-- ===== src/Kea/Resolve.antt =====
-- docker/kea/tools/dnsmasq_to_kea.py: Converter.resolve, which gives the options to their subnets and
-- the reservations to the subnets that hold their addresses.
use k8s_homelab.Prelude.{
  is_nil, is_none, length, list_eq, ltb, contains, nat_eq, filter, ◌++◌, union, ◌>>=◌, ◌||◌, ◌+◌,
  none, ◌==◌, map, [], ◌∷◌, if◌then◌else◌, some, Option, List, ℕ,
}
use k8s_homelab.Prelude.Text.{join, codes, is_empty, Text}
use k8s_homelab.Prelude.Sort.{sorted}
use k8s_homelab.Prelude.Dict.{lookup, insert, Dict}
use k8s_homelab.Ipv4.{network_eq, address_text, Network}
use k8s_homelab.Kea.{
  odd_routes, unknown_subnet, subnet_containing, own_address, host_tags, no_tag_subnet, no_address,
  no_kea_name, hostname_only, host_lease_time, shared_addresses,
}
use k8s_homelab.Kea.{
  skipped_option, empty_option, ignored_host, inform, hw_address, subnet_for, client_id, note,
  Reservation, Ident, Subnet, Converter, Host, Pending,
}
use k8s_homelab.Kea.Range.{nets_of}
use k8s_homelab.Kea.Options.{kea_option_names, skipped_options}

-- The values two by two; `none` for an odd number of them.
unfoldable pub route_pairs : List Text → Option (List Text)
route_pairs [] = some []
route_pairs (v ∷ []) = none
route_pairs (v ∷ w ∷ later) =
    let rest = route_pairs later in rest >>= λ more. some ((v ++ codes " - " ++ w) ∷ more)

abbrev pub route_text : Text → Option (List Text) → Converter → Option Text × Converter
route_text line none c = (none, note (odd_routes line) c)
route_text line (some pairs) c = (some (join (codes ", ") pairs), c)

unfoldable pub option_text : ℕ → List Text → Text → Converter → Option Text × Converter
option_text code found line c =
    if found == [] || found == [] ∷ []
    then (none, note (empty_option code line) c)
    else if contains found (codes "0.0.0.0")
    then (none, note (own_address line) c)
    else if code == 121 || code == 33
    then route_text line (route_pairs found) c
    else (some (join (codes ", ") found), c)

-- `why` is the table's reason to skip the option.
abbrev pub option_known : Option Text → ℕ → List Text → Text → Converter → Option Text × Converter
option_known (some why) code found line c = (none, inform (skipped_option why line) c)
option_known none code found line c = option_text code found line c

unfoldable pub option_data : ℕ → List Text → Text → Converter → Option Text × Converter
option_data code found line c = option_known (lookup code skipped_options) code found line c

-- `nets |= self.tag_subnets.get(tag, set())` for each tag.
unfoldable pub tagged_networks : Dict Text (List Network) → List Text → List Network
tagged_networks known [] = []
tagged_networks known (tag ∷ tags) = union (nets_of (lookup tag known)) (tagged_networks known tags)

-- The option in each network; a set's order is not modelled, and the list's is taken.
unfoldable pub set_option : ℕ → Text → List Network → Converter → Converter
set_option code text [] c = c
set_option code text (net ∷ nets) c =
    set_option code text nets
      (subnet_for net (λ sub. record sub { options = insert code text sub.options }) c)

unfoldable pub place_option : Pending → Text → Converter → Converter
place_option p text c =
    if is_none (lookup p.code kea_option_names)
    then note (no_kea_name p.code p.line) c
    else if p.tags == []
    then record c { global_options = insert p.code text c.global_options }
    else let nets = tagged_networks c.tag_subnets p.tags in
      if nets == [] then note (no_tag_subnet p.tags p.line) c else set_option p.code text nets c

abbrev pub place_found : Pending → Option Text → Converter → Converter
place_found p none c = c
place_found p (some text) c = place_option p text c

unfoldable pub resolve_option : Pending → Converter → Converter
resolve_option p c =
    let (found, told) = option_data p.code p.data_values p.line c in place_found p found told

unfoldable pub resolve_options : List Pending → Converter → Converter
resolve_options [] c = c
resolve_options (p ∷ later) c = resolve_options later (resolve_option p c)

-- The clients of a host: its MAC addresses, else its client id; none if it names neither.
abbrev client_of : Option Text → List Ident
client_of none = []
client_of (some s) = if is_empty s then [] else client_id s ∷ []

unfoldable pub idents : Host → List Ident
idents h = elim h.macs [ [] ↦ client_of h.client | m ∷ macs ↦ map hw_address (m ∷ macs) ]

-- A name that is not empty.
unfoldable pub name_of : Option Text → Option Text
name_of none = none
name_of (some s) = if is_empty s then none else some s

abbrev pub reservation : Option Text → ℕ → Ident → Reservation
reservation name ip ident = record {
  ident = ident;
  ip_address = address_text ip;
  hostname = name_of name;
}

unfoldable pub reserve : Host → ℕ → Subnet → Converter → Converter
reserve h ip sub c =
    let c = if is_none h.lifetime then c else inform (host_lease_time h.line) c in
    let c = if h.tags == [] then c else inform (host_tags h.tags h.line) c in
    subnet_for sub.network
      (λ s. record s { reservations = s.reservations ++ map (reservation h.name ip) (idents h) }) c

-- One host, and how often each address has been reserved.
abbrev counted : ℕ → ℕ → Dict ℕ ℕ → Dict ℕ ℕ
counted ip n counts = insert ip (count_of (lookup ip counts) + n) counts
  where
    count_of : Option ℕ → ℕ
    count_of none = 0
    count_of (some k) = k

-- The host at its address, with the subnet that holds it.
unfoldable pub place_host : Host → ℕ → Option Subnet → Converter × Dict ℕ ℕ → Converter × Dict ℕ ℕ
place_host h ip none (c, counts) = (note (unknown_subnet h.line) c, counts)
place_host h ip (some sub) (c, counts) = (reserve h ip sub c, counted ip (length (idents h)) counts)

unfoldable pub host_at : Host → Option ℕ → Converter × Dict ℕ ℕ → Converter × Dict ℕ ℕ
host_at h none (c, counts) = (note (no_address h.line) c, counts)
host_at h (some ip) (c, counts) = place_host h ip (subnet_containing ip c) (c, counts)

unfoldable pub resolve_host : Host → Converter × Dict ℕ ℕ → Converter × Dict ℕ ℕ
resolve_host h (c, counts) =
    if h.ignore
    then (note (ignored_host h.line) c, counts)
    else if is_nil (idents h)
    then (note (hostname_only h.line) c, counts)
    else host_at h h.ip (c, counts)

unfoldable pub resolve_hosts : List Host → Converter × Dict ℕ ℕ → Converter × Dict ℕ ℕ
resolve_hosts [] s = s
resolve_hosts (h ∷ later) s = resolve_hosts later (resolve_host h s)

-- The addresses that more than one client has.
unfoldable pub shared_of : Dict ℕ ℕ → List Text
shared_of counts = sorted (map (λ e. address_text e.0) (filter (λ e. ltb 1 e.1) counts))

unfoldable pub tell_shared : List Text → Converter → Converter
tell_shared shared c =
    let told = record c { shared_ips = shared } in
    if shared == [] then told else inform (shared_addresses shared) told

unfoldable pub resolve : Converter → Converter
resolve c =
    let placed = resolve_options c.pending_options c in
    let (reserved, counts) = resolve_hosts placed.hosts (placed, []) in
    tell_shared (shared_of counts) reserved
