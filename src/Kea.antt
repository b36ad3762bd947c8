-- ===== src/Kea.antt =====
-- docker/kea/tools/dnsmasq_to_kea.py: the state of its Converter. The messages are kept as data, one
-- constructor for each; a network is a member of `ipaddress` (Ipv4), an address a number.
pub mod Options
pub mod Values
pub mod Range
pub mod Read
pub mod Resolve
pub mod Site
pub mod Main
pub mod Known
pub mod Reads
pub mod ReadLines
pub mod Resolves
pub mod Resolved
pub mod Ids
pub mod Entries
pub mod Leases
pub mod Returns
pub mod Tests
use Prim.Native.Nat.{◌%◌, ◌/◌}
use k8s_homelab.Prelude.{
  nat_eq, false, map, Bool, none, ◌==◌, some, Option, [], ◌∷◌, if◌then◌else◌, List, ℕ, ◌++◌,
}
use k8s_homelab.Prelude.Dict.{lookup, insert, Dict}
use k8s_homelab.Prelude.Text.{Text}
use k8s_homelab.Ipv4.{network_eq, lies_in, Network}

-- What `notes` and `info` tell, with the line it was met in.
pub data Note : Type 0 where
  not_converted : Text → Note
  ipv6_range : Text → Note
  not_understood : Text → Note
  proxy_range : Text → Note
  unknown_part : Text → Text → Note
  assumed_prefix : ℕ → Network → Note
  reservations_only : Network → Note
  tagged_range : Network → List Text → Text → Note
  wildcard_mac : Text → Note
  ipv6_part : Text → Note
  vendor_option : Text → Note
  unknown_option : Text → Note
  domain_unread : Text → Note
  skipped_option : Text → Text → Note
  empty_option : ℕ → Text → Note
  own_address : Text → Note
  odd_routes : Text → Note
  no_kea_name : ℕ → Text → Note
  no_tag_subnet : List Text → Text → Note
  ignored_host : Text → Note
  hostname_only : Text → Note
  no_address : Text → Note
  unknown_subnet : Text → Note
  host_lease_time : Text → Note
  host_tags : List Text → Text → Note
  shared_addresses : List Text → Note
  assumed_router : Network → Text → Note
  no_dns_server : Note
  leases_counted : ℕ → ℕ → ℕ → Note

-- The member of a reservation that names the client.
pub data Ident : Type 0 where
  hw_address : Text → Ident
  client_id : Text → Ident

pub record Reservation : Type 0 where
  pub ident : Ident
  pub ip_address : Text
  pub hostname : Option Text

pub record Subnet : Type 0 where
  pub network : Network
  pub pools : List Text
  pub lifetime : Option ℕ
  pub options : Dict ℕ Text
  pub reservations : List Reservation
  pub domain : Option Text
  pub static_only : Bool

abbrev pub empty_subnet : Network → Subnet
empty_subnet net = record {
  network = net;
  pools = [];
  lifetime = none;
  options = [];
  reservations = [];
  domain = none;
  static_only = false;
}

-- The third octet of a /24, else 0.
unfoldable pub subnet_id : Subnet → ℕ
subnet_id sub = if sub.network.prefix == 24 then sub.network.first / 256 % 256 else 0

-- An option line that waits for its tags, and a dhcp-host entry.
pub record Pending : Type 0 where
  pub tags : List Text
  pub code : ℕ
  pub data_values : List Text
  pub line : Text

pub record Host : Type 0 where
  pub macs : List Text
  pub client : Option Text
  pub ip : Option ℕ
  pub name : Option Text
  pub lifetime : Option ℕ
  pub tags : List Text
  pub ignore : Bool
  pub line : Text

-- `prefix` and `router_host` are taken to be natural numbers.
pub record Converter : Type 0 where
  pub prefix : ℕ
  pub router_host : ℕ
  pub subnets : Dict Network Subnet
  pub tag_subnets : Dict Text (List Network)
  pub global_options : Dict ℕ Text
  pub global_domain : Option Text
  pub notes : List Note
  pub info : List Note
  pub pending_options : List Pending
  pub hosts : List Host
  pub shared_ips : List Text

abbrev pub converter : ℕ → ℕ → Dict Text Network → Converter
converter prefix router_host tag_subnets = record {
  prefix = prefix;
  router_host = router_host;
  subnets = [];
  tag_subnets = map (λ e. (e.0, e.1 ∷ [])) tag_subnets;
  global_options = [];
  global_domain = none;
  notes = [];
  info = [];
  pending_options = [];
  hosts = [];
  shared_ips = [];
}

-- `self.notes.append(...)` and `self.info.append(...)`
abbrev pub note : Note → Converter → Converter
note n c = record c { notes = c.notes ++ n ∷ [] }

abbrev pub inform : Note → Converter → Converter
inform n c = record c { info = c.info ++ n ∷ [] }

-- `self.subnet_for(net)`, changed by `change`.
abbrev pub subnet_or_new : Network → Option Subnet → Subnet
subnet_or_new net none = empty_subnet net
subnet_or_new net (some sub) = sub

unfoldable pub subnet_for : Network → (Subnet → Subnet) → Converter → Converter
subnet_for net change c = record c {
  subnets = insert net (change (subnet_or_new net (lookup net c.subnets))) c.subnets;
}

-- The first subnet, in the order they were met, that holds the address.
unfoldable pub containing : ℕ → Dict Network Subnet → Option Subnet
containing ip [] = none
containing ip ((net, sub) ∷ later) =
    let rest = containing ip later in if lies_in ip net then some sub else rest

abbrev pub subnet_containing : ℕ → Converter → Option Subnet
subnet_containing ip c = containing ip c.subnets
