-- ===== src/Kea/Reads.antt =====
-- Reading dnsmasq's lines keeps what holds of the subnets.
use k8s_homelab.Prelude.{
  refl, arith, ◌++◌, list_eq, nat_eq, inr, [], inl, ◌==◌, none, contains, >>=-Returns, ◌∷◌, add,
  Option-cases, some, Bool-cases, All, ◌<◌, Returns, List, ℕ,
}
use k8s_homelab.Prelude.{Option}
use k8s_homelab.Prelude.Dict.{lookup-AllEntries, lookup, insert-AllEntries}
use k8s_homelab.Prelude.Text.{Text}
use k8s_homelab.Kea.Known.{HostBound, same-IsKept, subnet_for-IsKnown, AreNetworks, IsKnown}
use k8s_homelab.Kea.{Note, Host, Converter}
use k8s_homelab.Kea.Read.{host_part}
use k8s_homelab.Kea.Range.{
  pool_end, no_parts, range_parts, nets_of, RangeParts, range_network, range_made, range_lifetime,
  tag_networks, range_at, range_from, dhcp_range, range_pool,
}
use k8s_homelab.Kea.Range.{range_subnet}
use k8s_homelab.Ipv4.{network_eq, address_text, read_network, network, address, Network}
use k8s_homelab.Ipv4.Networks.{read_network-Returns, network-Returns, address-Returns, IsNetwork}

range_network-Returns :
    (start : ℕ) (r : RangeParts) (c : Converter)
    → start < 4294967296
    → IsKnown c
    → Returns (λ found. IsNetwork found.0 × IsKnown found.1) (range_network start r c)
unfolding range_network
range_network-Returns start r c lt h = elim (Option-cases r.mask) [
  | inl e ↦ rw e (
      >>=-Returns IsNetwork _ (network start c.prefix) _ (network-Returns start c.prefix lt)
        (λ net w. (w, h)))
  | inr (mask, e) ↦ rw e (
      >>=-Returns IsNetwork _ (read_network (address_text start ++ b'/' ∷ mask)) _
        (read_network-Returns (address_text start ++ b'/' ∷ mask)) (λ net w. (w, h)))
]

range_pool-IsKnown :
    (start : ℕ) (end : Option ℕ) (net : Network) (c : Converter)
    → IsNetwork net
    → IsKnown c
    → IsKnown (range_pool start end net c)
unfolding range_pool
range_pool-IsKnown start none net c w h =
    subnet_for-IsKnown net _ c w (λ sub. same-IsKept net sub _ refl refl) h
range_pool-IsKnown start (some end) net c w h =
    subnet_for-IsKnown net _ c w (λ sub. same-IsKept net sub _ refl refl) h

range_lifetime-IsKnown :
    (lifetime : Option ℕ) (net : Network) (c : Converter)
    → IsNetwork net
    → IsKnown c
    → IsKnown (range_lifetime lifetime net c)
unfolding range_lifetime
range_lifetime-IsKnown none net c w h = h
range_lifetime-IsKnown (some n) net c w h =
    subnet_for-IsKnown net _ c w (λ sub. same-IsKept net sub _ refl refl) h

pub nets_of-All :
    (found : Option (List Network)) → Returns (All IsNetwork) found → All IsNetwork (nets_of found)
nets_of-All none h = tt
nets_of-All (some nets) h = h

add-All :
    (net : Network) (nets : List Network)
    → IsNetwork net
    → All IsNetwork nets
    → All IsNetwork (add net nets)
add-All net nets w h = elim (Bool-cases (contains nets net)) [
  | inl e ↦ rw e h
  | inr e ↦ rw e (w, h)
]

tag_networks-IsKnown :
    (net : Network) (sets : List Text) (c : Converter)
    → IsNetwork net
    → IsKnown c
    → IsKnown (tag_networks net sets c)
unfolding tag_networks
tag_networks-IsKnown net [] c w h = h
tag_networks-IsKnown net (tag ∷ sets) c w (subnets, tags, hosts) =
    tag_networks-IsKnown net sets _ w (
      subnets,
      insert-AllEntries AreNetworks tag _ c.tag_subnets
          (add-All net (nets_of (lookup tag c.tag_subnets)) w (
            nets_of-All (lookup tag c.tag_subnets)
              (lookup-AllEntries AreNetworks tag c.tag_subnets tags)))
          tags,
      hosts,
    )

range_subnet-IsKnown :
    (start : ℕ) (r : RangeParts) (sets matches : List Text) (line : Text) (net : Network)
    (c : Converter)
    → IsNetwork net
    → IsKnown c
    → IsKnown (range_subnet start r sets matches line net c)
unfolding range_subnet
range_subnet-IsKnown start r sets matches line net c w h =
    let kept = tag_networks-IsKnown net sets _ w (
      range_lifetime-IsKnown r.lifetime net _ w
        (range_pool-IsKnown start (pool_end r) net c w h)) in
    elim (Bool-cases (matches == [])) [ inl e ↦ rw e kept | inr e ↦ rw e kept ]

range_made-Returns :
    (line : Text) (sets matches : List Text) (start : ℕ) (found : Option RangeParts) (c : Converter)
    → start < 4294967296
    → IsKnown c
    → Returns IsKnown (range_made line sets matches start found c)
unfolding range_made
range_made-Returns line sets matches start none c lt h = h
range_made-Returns line sets matches start (some r) c lt h =
    >>=-Returns _ IsKnown (range_network start r c) _ (range_network-Returns start r c lt h)
      (λ found (w, kept). range_subnet-IsKnown start r sets matches line found.0 found.1 w kept)

range_at-Returns :
    (line : Text) (sets matches : List Text) (first : Text) (later : List Text) (found : Option ℕ)
    (c : Converter)
    → Returns (λ n. n < 4294967296) found
    → IsKnown c
    → Returns IsKnown (range_at line sets matches first later found c)
unfolding range_at
range_at-Returns line sets matches first later none c lt h =
    elim (Bool-cases (contains first b':')) [ inl e ↦ rw e h | inr e ↦ rw e h ]
range_at-Returns line sets matches first later (some start) c lt h =
    range_made-Returns line sets matches start (range_parts line later no_parts c.notes).0 _ lt h

range_from-Returns :
    (line : Text) (sets matches parts : List Text) (c : Converter)
    → IsKnown c
    → Returns IsKnown (range_from line sets matches parts c)
unfolding range_from
range_from-Returns line sets matches [] c h = h
range_from-Returns line sets matches (first ∷ later) c h =
    range_at-Returns line sets matches first later (address first) c (address-Returns first) h

pub dhcp_range-Returns :
    (value line : Text) (c : Converter) → IsKnown c → Returns IsKnown (dhcp_range value line c)
unfolding dhcp_range
dhcp_range-Returns value line c h = range_from-Returns line _ _ _ c h

pub host_part-Returns :
    (line p : Text) (h : Host) (info : List Note)
    → HostBound h
    → Returns HostBound (host_part line p h info).0
unfolding host_part
host_part-Returns line p h info b = ground (arith, address-Returns p)
