-- ===== src/Kea/Resolved.antt =====
-- Resolving keeps what holds of the subnets: the options, and the whole conversion.
use k8s_homelab.Prelude.{
  is_none, if_keeps, list_eq, contains, nat_eq, inr, refl, Returns-any, ◌||◌, map, inl, [], filter,
  Returns-eq-some, none, ◌==◌, All-append, >>=-Returns,
}
use k8s_homelab.Prelude.{Bool-cases, ◌∷◌, All, some, Returns, Bool, ◌≡◌, Option, List, ℕ}
use k8s_homelab.Prelude.Dict.{
  insert-AllEntries, insert, lookup-AllEntries, lookup, AllEntries, Dict,
}
use k8s_homelab.Prelude.Text.{codes, Text}
use k8s_homelab.Kea.Resolve.{
  route_text, option_known, route_pairs, place_found, resolve_option, tell_shared, place_option,
  tagged_networks, option_text, set_option, resolve,
}
use k8s_homelab.Kea.Resolve.{option_data, resolve_options}
use k8s_homelab.Kea.Resolves.{resolve_hosts-IsKnown}
use k8s_homelab.Ipv4.Networks.{read_network-Returns, IsNetwork}
use k8s_homelab.Kea.Reads.{nets_of-All}
use k8s_homelab.Kea.ReadLines.{read-Returns}
use k8s_homelab.Ipv4.{read_network, Network, network_eq}
use k8s_homelab.Kea.Read.{read, key_value}
use k8s_homelab.Kea.Range.{nets_of}
use k8s_homelab.Kea.Options.{kea_option_names, skipped_options}
use k8s_homelab.Kea.Known.{same-IsKept, subnet_for-IsKnown, IsKept, AreNetworks, IsKnown}
use k8s_homelab.Kea.{converter, Converter, Pending}
use k8s_homelab.Kea.Main.{tags_from, convert}

filter-All :
    (p : Network → Bool) (nets : List Network) → All IsNetwork nets → All IsNetwork (filter p nets)
filter-All p [] h = tt
filter-All p (net ∷ nets) (w, h) = elim (Bool-cases (p net)) [
  | inl e ↦ rw e (w, filter-All p nets h)
  | inr e ↦ rw e (filter-All p nets h)
]

tagged_networks-All :
    (known : Dict Text (List Network)) (tags : List Text)
    → AllEntries AreNetworks known
    → All IsNetwork (tagged_networks known tags)
unfolding tagged_networks
tagged_networks-All known [] h = tt
tagged_networks-All known (tag ∷ tags) h =
    All-append IsNetwork (nets_of (lookup tag known)) _
      (nets_of-All (lookup tag known) (lookup-AllEntries AreNetworks tag known h))
      (filter-All _ (tagged_networks known tags) (tagged_networks-All known tags h))

set_option-IsKnown :
    (code : ℕ) (text : Text) (nets : List Network) (c : Converter)
    → All IsNetwork nets
    → IsKnown c
    → IsKnown (set_option code text nets c)
unfolding set_option
set_option-IsKnown code text [] c w known = known
set_option-IsKnown code text (net ∷ nets) c (w, more) known =
    set_option-IsKnown code text nets _ more
      (subnet_for-IsKnown net _ c w (λ sub. same-IsKept net sub _ refl refl) known)

place_option-IsKnown :
    (p : Pending) (text : Text) (c : Converter) → IsKnown c → IsKnown (place_option p text c)
unfolding place_option
place_option-IsKnown p text c known =
    if_keeps IsKnown (is_none (lookup p.code kea_option_names)) _ _ known (
      if_keeps IsKnown (p.tags == []) _ _ known (
        if_keeps IsKnown (tagged_networks c.tag_subnets p.tags == []) _ _ known (
          set_option-IsKnown p.code text (tagged_networks c.tag_subnets p.tags) c
            (tagged_networks-All c.tag_subnets p.tags known.1) known)))

IsRead : Option Text × Converter → Type 0
IsRead r = IsKnown r.1

route_text-IsRead :
    (line : Text) (found : Option (List Text)) (c : Converter)
    → IsKnown c
    → IsRead (route_text line found c)
unfolding IsRead
route_text-IsRead line none c known = known
route_text-IsRead line (some pairs) c known = known

option_text-IsRead :
    (code : ℕ) (found : List Text) (line : Text) (c : Converter)
    → IsKnown c
    → IsRead (option_text code found line c)
unfolding option_text IsRead
option_text-IsRead code found line c known =
    if_keeps IsRead (found == [] || found == [] ∷ []) _ _ known (
      if_keeps IsRead (contains found (codes "0.0.0.0")) _ _ known (
        if_keeps IsRead (code == 121 || code == 33) _ _
          (route_text-IsRead line (route_pairs found) c known) known))

option_known-IsRead :
    (why : Option Text) (code : ℕ) (found : List Text) (line : Text) (c : Converter)
    → IsKnown c
    → IsRead (option_known why code found line c)
unfolding IsRead
option_known-IsRead none code found line c known = option_text-IsRead code found line c known
option_known-IsRead (some why) code found line c known = known

place_found-IsKnown :
    (p : Pending) (found : Option Text) (c : Converter)
    → IsKnown c
    → IsKnown (place_found p found c)
place_found-IsKnown p none c known = known
place_found-IsKnown p (some text) c known = place_option-IsKnown p text c known

resolve_options-IsKnown :
    (pending : List Pending) (c : Converter) → IsKnown c → IsKnown (resolve_options pending c)
unfolding resolve_options resolve_option option_data IsRead
resolve_options-IsKnown [] c known = known
resolve_options-IsKnown (p ∷ later) c known = resolve_options-IsKnown later _ (
    place_found-IsKnown p _ _
      (option_known-IsRead (lookup p.code skipped_options) p.code p.data_values p.line c known))

pub resolve-IsKnown : (c : Converter) → IsKnown c → IsKnown (resolve c)
unfolding resolve tell_shared
resolve-IsKnown c known =
    let placed = resolve_options-IsKnown c.pending_options c known in
    let held =
      resolve_hosts-IsKnown (resolve_options c.pending_options c).hosts _ [] placed.2 placed in
    if_keeps IsKnown _ _ _ held held

tags_from-Returns :
    (items : List Text) (tags : Dict Text Network)
    → AllEntries (λ t net. IsNetwork net) tags
    → Returns (AllEntries (λ t net. IsNetwork net)) (tags_from items tags)
unfolding tags_from
tags_from-Returns [] tags h = h
tags_from-Returns (item ∷ later) tags h =
    >>=-Returns (λ p. Unit) _ (key_value item) _ (Returns-any (key_value item))
      (λ (tag, cidr) t.
        >>=-Returns IsNetwork _ (read_network cidr) _ (read_network-Returns cidr) (λ net w.
          tags_from-Returns later (insert tag net tags)
            (insert-AllEntries (λ t net. IsNetwork net) tag net tags w h)))

converter-IsKnown :
    (prefix router_host : ℕ) (tags : Dict Text Network)
    → AllEntries (λ t net. IsNetwork net) tags
    → IsKnown (converter prefix router_host tags)
converter-IsKnown prefix router_host tags h = (tt, sets tags h, tt)
  where
    sets :
        (tags : Dict Text Network)
        → AllEntries (λ t net. IsNetwork net) tags
        → AllEntries AreNetworks (map (λ e. (e.0, e.1 ∷ [])) tags)
    sets [] h = tt
    sets ((tag, net) ∷ tags) (w, h) = ((w, tt), sets tags h)

pub convert-Returns :
    (prefix router_host : ℕ) (tag_subnets lines : List Text)
    → Returns IsKnown (convert prefix router_host tag_subnets lines)
unfolding convert
convert-Returns prefix router_host tag_subnets lines =
    >>=-Returns (AllEntries (λ t net. IsNetwork net)) IsKnown (tags_from tag_subnets []) _
      (tags_from-Returns tag_subnets [] tt)
      (λ tags h.
        >>=-Returns IsKnown IsKnown (read lines (converter prefix router_host tags)) _
          (read-Returns lines _ (converter-IsKnown prefix router_host tags h))
          (λ c known. resolve-IsKnown c known))

-- Whatever lines are read, each subnet of the converted configuration is kept under its own network,
-- the network is one that `ipaddress` can make, and the address of each of its reservations lies in it.
pub convert-IsKnown :
    (prefix router_host : ℕ) (tag_subnets lines : List Text) (c : Converter)
    → convert prefix router_host tag_subnets lines ≡ some c
    → AllEntries IsKept c.subnets
convert-IsKnown prefix router_host tag_subnets lines c h =
    let known =
      Returns-eq-some IsKnown (convert prefix router_host tag_subnets lines)
        (convert-Returns prefix router_host tag_subnets lines) h in
    known.0
