-- ===== src/Kea/Known.antt =====
-- What holds of a Converter's subnets at all times, and that the changes of one subnet keep it.
use k8s_homelab.Prelude.{
  nat_eq, refl, true, none, ap, all, false, ◌<◌, ◌∙◌, All, ◌≡◌, Bool, Returns, some, List, ℕ,
  Option,
}
use k8s_homelab.Prelude.Dict.{lookup-AllEntries, lookup, insert-AllEntries, AllEntries}
use k8s_homelab.Prelude.Text.{Text}
use k8s_homelab.Ipv4.{network_eq, lies_in, address, Network}
use k8s_homelab.Kea.{subnet_or_new, empty_subnet, Subnet, Reservation, Converter, subnet_for, Host}
use k8s_homelab.Ipv4.Networks.{IsNetwork}

-- The reservation's address lies in the network.
abbrev pub address_within : Network → Option ℕ → Bool
address_within net none = false
address_within net (some ip) = lies_in ip net

unfoldable pub is_within : Network → Reservation → Bool
is_within net r = address_within net (address r.ip_address)

-- A subnet as it is kept under a network.
unfoldable pub IsKept : Network → Subnet → Type 0
IsKept net sub = (sub.network ≡ net) × IsNetwork net × (all (is_within net) sub.reservations ≡ true)

abbrev pub AreNetworks : Text → List Network → Type 0
AreNetworks tag nets = All IsNetwork nets

-- The address of a host is an address.
abbrev pub AddressBound : Option ℕ → Type 0
AddressBound none = Unit
AddressBound (some ip) = ip < 4294967296

abbrev pub HostBound : Host → Type 0
HostBound h = AddressBound h.ip

abbrev pub IsKnown : Converter → Type 0
IsKnown c =
    AllEntries IsKept c.subnets × AllEntries AreNetworks c.tag_subnets × All HostBound c.hosts

empty_subnet-IsKept : (net : Network) → IsNetwork net → IsKept net (empty_subnet net)
unfolding IsKept
empty_subnet-IsKept net w = (refl, w, refl)

subnet_or_new-IsKept :
    (net : Network) (found : Option Subnet)
    → IsNetwork net
    → Returns (IsKept net) found
    → IsKept net (subnet_or_new net found)
subnet_or_new-IsKept net none w h = empty_subnet-IsKept net w
subnet_or_new-IsKept net (some sub) w h = h

pub subnet_for-IsKnown :
    (net : Network) (change : Subnet → Subnet) (c : Converter)
    → IsNetwork net
    → ((sub : Subnet) → IsKept net sub → IsKept net (change sub))
    → IsKnown c
    → IsKnown (subnet_for net change c)
unfolding subnet_for
subnet_for-IsKnown net change c w keeps (subnets, tags, hosts) = (
  insert-AllEntries IsKept net (change (subnet_or_new net (lookup net c.subnets))) c.subnets
      (keeps (subnet_or_new net (lookup net c.subnets)) (
        subnet_or_new-IsKept net (lookup net c.subnets) w
          (lookup-AllEntries IsKept net c.subnets subnets)))
      subnets,
  tags,
  hosts,
)

-- A change that leaves the network and the reservations keeps a subnet as it is kept.
pub same-IsKept :
    (net : Network) (sub sub' : Subnet)
    → sub'.network ≡ sub.network
    → sub'.reservations ≡ sub.reservations
    → IsKept net sub
    → IsKept net sub'
unfolding IsKept
same-IsKept net sub sub' e f (own, w, h) = (e ∙ own, w, ap (all (is_within net)) f ∙ h)

pub kept_network : (net : Network) (sub : Subnet) → IsKept net sub → IsNetwork net
unfolding IsKept
kept_network net sub (own, w, h) = w
