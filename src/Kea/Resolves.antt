-- ===== src/Kea/Resolves.antt =====
-- Resolving keeps what holds of the subnets: a reservation goes to a subnet that holds its address.
use mathlib.Core.Path.{subst}
use k8s_homelab.Prelude.{
  is_nil, is_none, all-append, list_eq, nat_eq, if_keeps, ◌∙◌, ap, sym, inr, refl, ◌==◌, [], map,
  none, inl, some, Bool-cases, ◌∷◌, true, Returns, All, ◌≡◌, ◌<◌,
}
use k8s_homelab.Prelude.{all, List, Option, ℕ}
use k8s_homelab.Prelude.Dict.{AllEntries, Dict}
use k8s_homelab.Prelude.Text.{Text}
use k8s_homelab.Kea.Resolve.{
  idents, reservation, place_host, resolve_host, reserve, host_at, resolve_hosts,
}
use k8s_homelab.Ipv4.Laws.{address-address_text}
use k8s_homelab.Kea.{subnet_containing, Converter, Ident, Host, Subnet, containing}
use k8s_homelab.Kea.Known.{subnet_for-IsKnown, IsKnown, HostBound, AddressBound, IsKept, is_within}
use k8s_homelab.Ipv4.{lies_in, Network, network_eq}
use k8s_homelab.Ipv4.Networks.{IsNetwork}

-- A subnet that is found for an address.
abbrev pub Holds : ℕ → Subnet → Type 0
Holds ip sub = IsNetwork sub.network × (lies_in ip sub.network ≡ true)

pub containing-Returns :
    (ip : ℕ) (known : Dict Network Subnet)
    → AllEntries IsKept known
    → Returns (Holds ip) (containing ip known)
unfolding containing IsKept
containing-Returns ip [] h = tt
containing-Returns ip ((net, sub) ∷ later) ((own, w, within), h) =
    elim (Bool-cases (lies_in ip net)) [
      | inl e ↦ rw e (subst IsNetwork (sym own) w, ap (lies_in ip) own ∙ e)
      | inr e ↦ rw e (containing-Returns ip later h)
    ]

is_within-reservation :
    (name : Option Text) (ip : ℕ) (ident : Ident) (net : Network)
    → ip < 4294967296
    → lies_in ip net ≡ true
    → is_within net (reservation name ip ident) ≡ true
unfolding is_within
is_within-reservation name ip ident net lt h = rw (address-address_text ip lt) h

all-reservation :
    (name : Option Text) (ip : ℕ) (named : List Ident) (net : Network)
    → ip < 4294967296
    → lies_in ip net ≡ true
    → all (is_within net) (map (reservation name ip) named) ≡ true
all-reservation name ip [] net lt h = refl
all-reservation name ip (ident ∷ named) net lt h =
    rw (is_within-reservation name ip ident net lt h) (all-reservation name ip named net lt h)

reserve-IsKnown :
    (h : Host) (ip : ℕ) (sub : Subnet) (c : Converter)
    → ip < 4294967296
    → Holds ip sub
    → IsKnown c
    → IsKnown (reserve h ip sub c)
unfolding reserve IsKept
reserve-IsKnown h ip sub c lt (w, inside) known =
    let told = if_keeps IsKnown (is_none h.lifetime) _ _ known known in
    subnet_for-IsKnown sub.network _ _ w
      (λ s (own, good, within). (
        own,
        good,
        all-append (is_within sub.network) s.reservations _ within
            (all-reservation h.name ip (idents h) sub.network lt inside),
      ))
      (if_keeps IsKnown (h.tags == []) _ _ told told)

place_host-IsKnown :
    (h : Host) (ip : ℕ) (found : Option Subnet) (c : Converter) (counts : Dict ℕ ℕ)
    → ip < 4294967296
    → Returns (Holds ip) found
    → IsKnown c
    → IsKnown (place_host h ip found (c, counts)).0
unfolding place_host
place_host-IsKnown h ip none c counts lt held known = known
place_host-IsKnown h ip (some sub) c counts lt held known = reserve-IsKnown h ip sub c lt held known

host_at-IsKnown :
    (h : Host) (found : Option ℕ) (c : Converter) (counts : Dict ℕ ℕ)
    → AddressBound found
    → IsKnown c
    → IsKnown (host_at h found (c, counts)).0
unfolding host_at
host_at-IsKnown h none c counts lt known = known
host_at-IsKnown h (some ip) c counts lt known =
    place_host-IsKnown h ip (subnet_containing ip c) c counts lt
      (containing-Returns ip c.subnets known.0) known

resolve_host-IsKnown :
    (h : Host) (c : Converter) (counts : Dict ℕ ℕ)
    → HostBound h
    → IsKnown c
    → IsKnown (resolve_host h (c, counts)).0
unfolding resolve_host
resolve_host-IsKnown h c counts lt known =
    if_keeps (λ (s : Converter × Dict ℕ ℕ). IsKnown s.0) h.ignore _ _ known
      (if_keeps (λ (s : Converter × Dict ℕ ℕ). IsKnown s.0) (is_nil (idents h)) _ _ known
        (host_at-IsKnown h h.ip c counts lt known))

pub resolve_hosts-IsKnown :
    (hosts : List Host) (c : Converter) (counts : Dict ℕ ℕ)
    → All HostBound hosts
    → IsKnown c
    → IsKnown (resolve_hosts hosts (c, counts)).0
unfolding resolve_hosts
resolve_hosts-IsKnown [] c counts lt known = known
resolve_hosts-IsKnown (h ∷ later) c counts (lt, bounds) known =
    resolve_hosts-IsKnown later (resolve_host h (c, counts)).0 (resolve_host h (c, counts)).1 bounds
      (resolve_host-IsKnown h c counts lt known)
