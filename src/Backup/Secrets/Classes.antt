-- ===== src/Backup/Secrets/Classes.antt =====
-- secretscan.py: what class an address is of. What `ipaddress` does with IPv6 is a parameter; its IPv4 ranges
-- are those of Python 3.13.
use k8s_homelab.Prelude.{
  list_eq, nat_eq, some, ◌+◌, ◌||◌, [], ◌∷◌, ◌==◌, any, if◌then◌else◌, ◌*◌, false, none, not, ◌&&◌,
  Option, Bool, List, ℕ,
}
use k8s_homelab.Prelude.Text.{codes, Text}
use k8s_homelab.Ipv4.{lies_in, address, Network}

-- `ipaddress.ip_address` of a text.
pub data Address : Type 0 where
  v4 : ℕ → Address
  v6 : ℕ → Address

pub record AddressFacts : Type 0 where
  pub is_loopback : Bool
  pub is_link_local : Bool
  pub is_private : Bool
  pub is_reserved : Bool
  pub is_multicast : Bool
  pub is_unspecified : Bool

-- The number of an IPv6 address, what is known of it, and the test for one in a network.
pub record Ipv6 : Type 0 where
  pub read : Text → Option ℕ
  pub facts : ℕ → AddressFacts
  pub network : Text → Option (ℕ → Bool)

abbrev net : ℕ → ℕ → ℕ → ℕ → ℕ → Network
net a b c d prefix = record { first = ((a * 256 + b) * 256 + c) * 256 + d; prefix = prefix }

abbrev pub in_any : List Network → ℕ → Bool
in_any nets a = any (λ n. lies_in a n) nets

unfoldable pub private_networks : List Network
private_networks =
    net 0 0 0 0 8
    ∷ net 10 0 0 0 8
    ∷ net 127 0 0 0 8
    ∷ net 169 254 0 0 16
    ∷ net 172 16 0 0 12
    ∷ net 192 0 0 0 24
    ∷ net 192 0 0 170 31
    ∷ net 192 0 2 0 24
    ∷ net 192 168 0 0 16
    ∷ net 198 18 0 0 15
    ∷ net 198 51 100 0 24
    ∷ net 203 0 113 0 24
    ∷ net 240 0 0 0 4
    ∷ net 255 255 255 255 32
    ∷ []

unfoldable pub private_exceptions : List Network
private_exceptions = net 192 0 0 9 32 ∷ net 192 0 0 10 32 ∷ []

unfoldable pub facts_of_ipv4 : ℕ → AddressFacts
facts_of_ipv4 a = record {
  is_loopback = in_any (net 127 0 0 0 8 ∷ []) a;
  is_link_local = in_any (net 169 254 0 0 16 ∷ []) a;
  is_private = in_any private_networks a && not (in_any private_exceptions a);
  is_reserved = in_any (net 240 0 0 0 4 ∷ []) a;
  is_multicast = in_any (net 224 0 0 0 4 ∷ []) a;
  is_unspecified = a == 0;
}

unfoldable pub read_address : Ipv6 → Text → Option Address
read_address ipv6 s = elim (address s) [
  | some a ↦ some (v4 a)
  | none ↦ elim (ipv6.read s) [ some a ↦ some (v6 a) | none ↦ none ]
]

abbrev facts_of : Ipv6 → Address → AddressFacts
facts_of ipv6 (v4 a) = facts_of_ipv4 a
facts_of ipv6 (v6 a) = ipv6.facts a

-- `_SHARED_ADDRESS_SPACE`
abbrev is_shared : Address → Bool
is_shared (v4 a) = in_any (net 100 64 0 0 10 ∷ []) a
is_shared (v6 a) = false

unfoldable pub class_of : Ipv6 → Address → Text
class_of ipv6 a =
    let facts = facts_of ipv6 a in
    if facts.is_loopback || (facts.is_link_local || facts.is_private)
    then codes "private"
    else if is_shared a
    then codes "private"
    else if facts.is_reserved || (facts.is_multicast || facts.is_unspecified)
    then codes "reserved"
    else codes "public"

abbrev pub classify_ip : Ipv6 → Text → Option Text
classify_ip ipv6 s = elim (read_address ipv6 s) [ none ↦ none | some a ↦ some (class_of ipv6 a) ]
