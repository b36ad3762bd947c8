-- ===== src/Kea/Site.antt =====
-- docker/kea/tools/dnsmasq_to_kea.py: Converter.site, what Kea is given. `none` stands for the
-- exceptions: a router address past the last one, a name that the table lacks.
use k8s_homelab.Prelude.{
  is_none, all, nat_eq, list_eq, not, contains, ◌&&◌, ltb, none, ◌||◌, [], suc, ◌∷◌, ◌==◌, map, ◌+◌,
  ◌>>=◌, if◌then◌else◌, some, any, leb, Bool, Option, List, ℕ,
}
use k8s_homelab.Prelude.Dict.{insert, lookup, Dict}
use k8s_homelab.Prelude.Text.{codes, Text}
use k8s_homelab.Prelude.Sort.{sorted_by}
use k8s_homelab.Kea.{assumed_router, no_dns_server, note, subnet_id, Reservation, Converter, Subnet}
use k8s_homelab.Ipv4.{address_text, address, network_text, network_leb, Network}
use k8s_homelab.Kea.Options.{kea_option_names}
use k8s_homelab.Kea.Resolve.{name_of}

pub record OptionData : Type 0 where
  pub name : Text
  pub option_value : Text

-- An entry; an empty list or `none` stands for a member that is left out.
pub record Entry : Type 0 where
  pub id : ℕ
  pub subnet : Text
  pub pools : List Text
  pub valid_lifetime : Option ℕ
  pub option_data : List OptionData
  pub reservations : List Reservation

pub record SiteData : Type 0 where
  pub valid_lifetime : ℕ
  pub option_data : List OptionData
  pub subnet4 : List Entry
  pub reservations_unique : Bool

abbrev pub code_leb : ℕ × Text → ℕ × Text → Bool
code_leb a b = leb a.0 b.0

unfoldable pub option_entries : Dict ℕ Text → Option (List OptionData)
option_entries [] = some []
option_entries ((code, text) ∷ later) =
    let rest = option_entries later in
    lookup code kea_option_names >>= λ name.
    rest >>= λ more. some (record { name = name; option_value = text } ∷ more)

-- The reservations beside their addresses, by which they are sorted.
unfoldable pub keyed : List Reservation → Option (List (ℕ × Reservation))
keyed [] = some []
keyed (r ∷ later) =
    let rest = keyed later in address r.ip_address >>= λ ip. rest >>= λ more. some ((ip, r) ∷ more)

abbrev key_leb : ℕ × Reservation → ℕ × Reservation → Bool
key_leb a b = leb a.0 b.0

unfoldable pub sorted_reservations : List Reservation → Option (List Reservation)
sorted_reservations found = keyed found >>= λ pairs. some (map (λ e. e.1) (sorted_by key_leb pairs))

-- The id of the next subnet, and the next free id from 1000 up.
unfoldable pub choose_id : ℕ → ℕ → List ℕ → ℕ × ℕ
choose_id sid next_id used =
    if sid == 0 || contains used sid then (next_id, suc next_id) else (sid, next_id)

abbrev pub lacks_code : ℕ → Dict ℕ Text → Converter → Bool
lacks_code code options c = is_none (lookup code options) && is_none (lookup code c.global_options)

-- The router where dnsmasq sets none.
abbrev assume_router : Network → ℕ → Dict ℕ Text → Converter → Option (Dict ℕ Text × Converter)
assume_router net router options c =
    if ltb 4294967295 router
    then none
    else some
        (insert 3 (address_text router) options, note (assumed_router net (address_text router)) c)

unfoldable pub with_router : Network → Dict ℕ Text → Converter → Option (Dict ℕ Text × Converter)
with_router net options c =
    if lacks_code 3 options c
    then assume_router net (net.first + c.router_host) options c
    else some (options, c)

abbrev full_or : Option Text → Option Text → Option Text
full_or none later = later
full_or (some []) later = later
full_or (some (x ∷ s)) later = some (x ∷ s)

unfoldable pub with_domain : Subnet → Dict ℕ Text → Converter → Dict ℕ Text
with_domain sub options c =
    if lacks_code 15 options c
    then elim (name_of (full_or sub.domain c.global_domain)) [
      | none ↦ options
      | some text ↦ insert 15 text options
    ]
    else options

abbrev pub positive : Option ℕ → Option ℕ
positive (some (suc n)) = some (suc n)
positive _ = none

unfoldable pub site_entry : ℕ → Network → Subnet → Converter → Option (Entry × Converter)
site_entry sid net sub c = with_router net sub.options c >>= λ routed.
    option_entries (sorted_by code_leb (with_domain sub routed.0 routed.1)) >>= λ options.
    sorted_reservations sub.reservations >>= λ reservations. some (
      record {
        id = sid;
        subnet = network_text net;
        pools = sub.pools;
        valid_lifetime = positive sub.lifetime;
        option_data = options;
        reservations = reservations;
      },
      routed.1,
    )

-- The subnets in order, with the ids that are used and the next free one.
unfoldable pub entries :
    List (Network × Subnet) → ℕ → List ℕ → Converter → Option (List Entry × Converter)
entries [] next_id used c = some ([], c)
entries ((net, sub) ∷ later) next_id used c =
    let (sid, next) = choose_id (subnet_id sub) next_id used in
    site_entry sid net sub c >>= λ made.
    entries later next (sid ∷ used) made.1 >>= λ rest. some (made.0 ∷ rest.0, rest.1)

abbrev pub by_network : Network × Subnet → Network × Subnet → Bool
by_network a b = network_leb a.0 b.0

abbrev pub serves_dns : Entry → Bool
serves_dns e = any (λ o. o.name == codes "domain-name-servers") e.option_data

unfoldable pub site : Converter → Option (SiteData × Converter)
site c = entries (sorted_by by_network c.subnets) 1000 [] c >>= λ (subnets, told).
    option_entries (sorted_by code_leb told.global_options) >>= λ options. some (
      record {
        valid_lifetime = 3600;
        option_data = options;
        subnet4 = subnets;
        reservations_unique = told.shared_ips == [];
      },
      if is_none (lookup 6 told.global_options) && not (all serves_dns subnets)
          then note no_dns_server told
          else told,
    )
