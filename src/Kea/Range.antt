-- ===== src/Kea/Range.antt =====
-- docker/kea/tools/dnsmasq_to_kea.py: Converter.dhcp_range. `none` stands for the ValueError of a
-- network that `ipaddress` refuses.
use k8s_homelab.Prelude.{
  is_none, contains, nat_eq, ◌>>=◌, list_eq, ◌||◌, ◌++◌, add, not, drop, filter, [], ◌==◌, ◌&&◌,
  map, true, some, ◌∷◌, Bool, List, if◌then◌else◌, false, none, ℕ,
}
use k8s_homelab.Prelude.{Option, String}
use k8s_homelab.Prelude.Text.{lacks, codes, strip, split_on, starts_with, Text}
use k8s_homelab.Prelude.Dict.{lookup, insert}
use k8s_homelab.Kea.{
  ipv6_range, unknown_part, assumed_prefix, proxy_range, tagged_range, not_understood, note,
  reservations_only, subnet_for, Note, inform, Converter,
}
use k8s_homelab.Kea.Values.{lease_seconds}
use k8s_homelab.Ipv4.{address, is_ipv4, address_text, read_network, Network, network, network_eq}

abbrev pub stripped_fields : Text → Text × List Text
stripped_fields value = let (f, later) = split_on b',' value in (strip f, map strip later)

abbrev pub is_marked : Text → Bool
is_marked p = starts_with p (codes "set:") || starts_with p (codes "tag:")

-- The first part of a range, with the older syntax of a bare name read as a tag.
unfoldable pub range_head : Text → Text
range_head p =
    let name = if starts_with p (codes "net:") then drop 4 p else p in
    if not (is_ipv4 p) && not (is_marked p) && lacks b':' name then codes "set:" ++ name else p

pub record RangeParts : Type 0 where
  pub end : Option ℕ
  pub mask : Option Text
  pub lifetime : Option ℕ
  pub static : Bool

abbrev pub no_parts : RangeParts
no_parts = record { end = none; mask = none; lifetime = none; static = false }

unfoldable pub range_address : Text → ℕ → RangeParts → RangeParts
range_address p a r =
    if is_none r.end && is_none r.mask && not (starts_with p (codes "255."))
    then record r { end = some a }
    else if is_none r.mask
    then record r { mask = some p }
    else r

-- One later part; `none` beside the notes where a proxy range ends the handler.
unfoldable pub range_part : Text → Text → RangeParts → List Note → Option RangeParts × List Note
range_part line p r notes =
    if p == codes "static"
    then (some (record r { static = true }), notes)
    else if p == codes "proxy"
    then (none, notes ++ proxy_range line ∷ [])
    else elim (address p) [
      | some a ↦ (some (range_address p a r), notes)
      | none ↦ elim (lease_seconds p) [
        | some n ↦ (some (record r { lifetime = some n }), notes)
        | none ↦ (some r, notes ++ unknown_part p line ∷ [])
      ]
    ]

unfoldable pub range_parts :
    Text → List Text → RangeParts → List Note → Option RangeParts × List Note
range_parts line [] r notes = (some r, notes)
range_parts line (p ∷ later) r notes =
    let (found, told) = range_part line p r notes in
    elim found [ none ↦ (none, told) | some r' ↦ range_parts line later r' told ]

-- The network of the range, and what is told of it.
unfoldable pub range_network : ℕ → RangeParts → Converter → Option (Network × Converter)
range_network start r c = elim r.mask [
  | some mask ↦ read_network (address_text start ++ b'/' ∷ mask) >>= λ net. some (net, c)
  | none ↦ network start c.prefix >>= λ net. some (net, inform (assumed_prefix c.prefix net) c)
]

-- The pool that ends at an address; none for a static range.
abbrev pub pool_end : RangeParts → Option ℕ
pool_end r = if r.static then none else r.end

unfoldable pub range_pool : ℕ → Option ℕ → Network → Converter → Converter
range_pool start none net c =
    inform (reservations_only net)
      (subnet_for net (λ sub. record sub { static_only = sub.static_only || sub.pools == [] }) c)
range_pool start (some end) net c =
    subnet_for net
      (λ sub. record sub {
        pools = sub.pools ++ (address_text start ++ codes " - " ++ address_text end) ∷ [];
      })
      c

unfoldable pub range_lifetime : Option ℕ → Network → Converter → Converter
range_lifetime none net c = c
range_lifetime (some n) net c = subnet_for net (λ sub. record sub { lifetime = some n }) c

-- `self.tag_subnets.setdefault(tag, set()).add(net)` for each tag.
abbrev pub nets_of : Option (List Network) → List Network
nets_of none = []
nets_of (some nets) = nets

unfoldable pub tag_networks : Network → List Text → Converter → Converter
tag_networks net [] c = c
tag_networks net (tag ∷ sets) c = tag_networks net sets (record c {
  tag_subnets = insert tag (add net (nets_of (lookup tag c.tag_subnets))) c.tag_subnets;
})

unfoldable pub range_subnet :
    ℕ → RangeParts → List Text → List Text → Text → Network → Converter → Converter
range_subnet start r sets matches line net c =
    let c =
      tag_networks net sets (range_lifetime r.lifetime net (range_pool start (pool_end r) net c)) in
    if matches == [] then c else note (tagged_range net matches line) c

abbrev pub with_mark : String → List Text → List Text
with_mark mark parts = map (drop 4) (filter (λ p. starts_with p (codes mark)) parts)

unfoldable pub range_made :
    Text → List Text → List Text → ℕ → Option RangeParts → Converter → Option Converter
range_made line sets matches start none c = some c
range_made line sets matches start (some r) c = range_network start r c >>= λ found.
    some (range_subnet start r sets matches line found.0 found.1)

-- The first part with the address it is read as, and the later parts.
unfoldable pub range_at :
    Text → List Text → List Text → Text → List Text → Option ℕ → Converter → Option Converter
range_at line sets matches first later none c =
    some (if contains first b':' then inform (ipv6_range line) c else note (not_understood line) c)
range_at line sets matches first later (some start) c =
    let (found, notes) = range_parts line later no_parts c.notes in
    range_made line sets matches start found (record c { notes = notes })

unfoldable pub range_from : Text → List Text → List Text → List Text → Converter → Option Converter
range_from line sets matches [] c = some (note (not_understood line) c)
range_from line sets matches (first ∷ later) c =
    range_at line sets matches first later (address first) c

unfoldable pub dhcp_range : Text → Text → Converter → Option Converter
dhcp_range value line c =
    let (first, later) = stripped_fields value in
    let parts = range_head first ∷ later in
    range_from line (with_mark "set:" parts) (with_mark "tag:" parts)
      (filter (λ p. not (is_marked p)) parts) c
