-- ===== src/Termix/Reach.antt =====
-- termix-netbox-sync.py: the address by which a host is reached. Addresses and prefixes are IPv4, and
-- `none` stands for the ValueError of one that is not.
use k8s_homelab.Prelude.{
  option_eq, list_eq, ◌||◌, [], ◌==◌, any, true, nat_eq, not, ◌&&◌, ◌∷◌, ◌>>=◌, none, some, false,
  filter, ℕ, if◌then◌else◌, Bool, List, Option,
}
use k8s_homelab.Prelude.Text.{split_on, strip, starts_with, is_empty, codes, Text}
use k8s_homelab.Ipv4.{lies_in, address_text, read_network, Network, address}
use k8s_homelab.Termix.Netbox.{Prefix, Primary, Address, Object}

-- `t in s`
unfoldable pub has_text : Text → Text → Bool
has_text t [] = is_empty t
has_text t (c ∷ s) = starts_with (c ∷ s) t || has_text t s

abbrev pub is_nonzero : Option ℕ → Bool
is_nonzero none = false
is_nonzero (some n) = not (n == 0)

abbrev is_of : Object → Address → Bool
is_of o a =
    let virtual = has_text (codes "virtualization") a.object_type in
    is_nonzero a.parent && a.parent == some o.id && (if o.is_vm then virtual else not virtual)

-- `ip_interface(text).ip`; a text without a prefix has the longest.
unfoldable pub interface_ip : Text → Option ℕ
unfolding split_on
interface_ip s = read_network s >>= λ net. address (split_on b'/' s).0

-- `ip_network(text)`, which refuses an address that is not the network's first.
unfoldable pub strict_network : Text → Option Network
strict_network s =
    read_network s >>= λ net. interface_ip s >>= λ ip. if ip == net.first then some net else none

unfoldable pub management : List Prefix → Option (List Network)
management [] = some []
management (p ∷ prefixes) =
    let rest = management prefixes in
    if strip p.description == codes "Management"
    then (strict_network p.prefix >>= λ net. rest >>= λ nets. some (net ∷ nets))
    else rest

abbrev name_or : Text → ℕ → Text
name_or [] ip = address_text ip
name_or (c ∷ s) ip = c ∷ s

-- The name, else the address, of the first address in a management network.
unfoldable pub managed : List Network → List Address → Option (Option Text)
managed nets [] = some none
managed nets (a ∷ later) =
    let rest = managed nets later in
    interface_ip a.address >>= λ ip.
    if any (λ net. lies_in ip net) nets then some (some (name_or a.dns_name ip)) else rest

abbrev of_primary : Option Primary → Option (Option Text)
of_primary none = some none
of_primary (some p) =
    if is_empty p.address
    then some none
    else if is_empty p.dns_name
    then (interface_ip p.address >>= λ ip. some (some (address_text ip)))
    else some (some p.dns_name)

-- Where a host is reached, and whether that is its primary address.
unfoldable pub reached : List Network → List Address → Object → Option (Option (Text × Bool))
reached nets addresses o = managed nets (filter (is_of o) addresses) >>= λ found. elim found [
  | some a ↦ some (some (a, false))
  | none ↦ of_primary o.primary_ip4 >>= λ first.
      some (elim first [ none ↦ none | some a ↦ some (a, true) ])
]
