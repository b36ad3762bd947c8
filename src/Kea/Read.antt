-- ===== src/Kea/Read.antt =====
-- docker/kea/tools/dnsmasq_to_kea.py: the other handlers, and the reading of a file's lines. `none`
-- stands for the ValueError of a range's network.
use k8s_homelab.Prelude.{
  true, drop, all, nat_eq, list_eq, ◌||◌, ◌&&◌, ◌++◌, false, none, ◌==◌, contains, ◌>>=◌, not, [],
  some, ◌∷◌, if◌then◌else◌, Bool, Option, ℕ, List,
}
use k8s_homelab.Prelude.Text.{join, is_empty, codes, split_on, starts_with, strip, Text}
use k8s_homelab.Prelude.Decimal.{read_decimal, is_digit}
use k8s_homelab.Prelude.Dict.{lookup}
use k8s_homelab.Kea.{
  ipv6_part, not_understood, unknown_option, not_converted, subnet_for, vendor_option,
  domain_unread, wildcard_mac, note, Note, Converter, Host,
}
use k8s_homelab.Kea.Values.{lease_seconds, normal_mac, is_mac}
use k8s_homelab.Kea.Options.{dnsmasq_option_names}
use k8s_homelab.Ipv4.{address, is_ipv4, read_network, Network, network, network_eq}
use k8s_homelab.Kea.Range.{dhcp_range, is_marked, stripped_fields}

abbrev pub no_host : Text → Host
no_host line = record {
  macs = [];
  client = none;
  ip = none;
  name = none;
  lifetime = none;
  tags = [];
  ignore = false;
  line = line;
}

-- One part of a dhcp-host; `none` where a wildcard ends the handler.
unfoldable pub host_part : Text → Text → Host → List Note → Option Host × List Note
host_part line p h info =
    if p == []
    then (some h, info)
    else if is_marked p
    then (some (record h { tags = h.tags ++ p ∷ [] }), info)
    else if starts_with p (codes "id:")
    then (some (record h { client = some (drop 3 p) }), info)
    else if p == codes "ignore"
    then (some (record h { ignore = true }), info)
    else if is_mac p
    then (some (record h { macs = h.macs ++ normal_mac p ∷ [] }), info)
    else if contains p b'*' && contains p b':'
    then (none, info)
    else elim (address p) [
      | some a ↦ (some (record h { ip = some a }), info)
      | none ↦ elim (lease_seconds p) [
        | some n ↦ (some (record h { lifetime = some n }), info)
        | none ↦
            if starts_with p (codes "[") || contains p b':'
            then (some h, info ++ ipv6_part line ∷ [])
            else (some (record h { name = some p }), info)
      ]
    ]

unfoldable pub host_parts : Text → List Text → Host → List Note → Option Host × List Note
host_parts line [] h info = (some h, info)
host_parts line (p ∷ later) h info =
    let (found, told) = host_part line p h info in
    elim found [ none ↦ (none, told) | some h' ↦ host_parts line later h' told ]

abbrev pub host_made : Text → Option Host → Converter → Converter
host_made line none c = note (wildcard_mac line) c
host_made line (some h) c = record c { hosts = c.hosts ++ h ∷ [] }

unfoldable pub dhcp_host : Text → Text → Converter → Option Converter
dhcp_host value line c =
    let (first, later) = stripped_fields value in
    let (found, info) = host_parts line (first ∷ later) (no_host line) c.info in
    some (host_made line found (record c { info = info }))

abbrev pub is_option_name : Text → Bool
is_option_name p = starts_with p (codes "option:") || starts_with p (codes "option6:")

-- `text.isdigit()`
abbrev pub is_number : Text → Bool
is_number p = not (is_empty p) && all is_digit p

abbrev pub is_vendor : Text → Bool
is_vendor p =
    starts_with p (codes "encap:")
    || starts_with p (codes "vi-encap:")
    || starts_with p (codes "vendor:")

unfoldable pub queue : Text → List Text → List Text → Option ℕ → Note → Converter → Converter
queue line tags found none problem c = note problem c
queue line tags found (some code) problem c = record c {
  pending_options =
      c.pending_options
      ++ record { tags = tags; code = code; data_values = found; line = line } ∷ [];
}

-- The option that follows the tags.
unfoldable pub option_code : Text → List Text → Text → List Text → Converter → Converter
option_code line tags opt later c =
    if starts_with opt (codes "option6:")
    then c
    else if starts_with opt (codes "option:")
    then queue line tags later (lookup (drop 7 opt) dnsmasq_option_names) (unknown_option line) c
    else queue line tags later (read_decimal opt) (not_understood line) c

-- The tag that a part stands for, if it is one.
unfoldable pub option_tag : Text → Option Text
option_tag head =
    if is_vendor head
    then none
    else if starts_with head (codes "tag:") || starts_with head (codes "net:")
    then some (drop 4 head)
    else if not (is_number head) && not (is_option_name head)
    then some head
    else none

unfoldable pub option_last : Text → List Text → Text → List Text → Converter → Converter
option_last line tags head later c =
    if is_vendor head then note (vendor_option line) c else option_code line tags head later c

unfoldable pub option_from : Text → List Text → List Text → Converter → Converter
option_from line tags [] c = c
option_from line tags (head ∷ later) c = elim (option_tag head) [
  | some tag ↦ option_from line (tags ++ tag ∷ []) later c
  | none ↦ option_last line tags head later c
]

unfoldable pub dhcp_option : Text → Text → Converter → Option Converter
dhcp_option value line c =
    let (first, later) = stripped_fields value in some (option_from line [] (first ∷ later) c)

-- The network of a domain line, from its second part and the ones after it.
unfoldable pub domain_network : ℕ → Text → List Text → Option Network
domain_network prefix target later =
    if contains target b'/' then read_network target else elim later [
      | [] ↦ none
      | p ∷ more ↦ if is_ipv4 p then (address target >>= λ a. network a prefix) else none
    ]

abbrev pub domain_made : Text → Text → Option Network → Converter → Converter
domain_made line name none c = note (domain_unread line) c
domain_made line name (some net) c = subnet_for net (λ sub. record sub { domain = some name }) c

unfoldable pub domain_from : Text → Text → List Text → Converter → Converter
domain_from line name [] c = record c { global_domain = some name }
domain_from line name (target ∷ later) c =
    domain_made line name (domain_network c.prefix target later) c

unfoldable pub domain : Text → Text → Converter → Option Converter
domain value line c =
    let (name, parts) = stripped_fields value in some (domain_from line name parts c)

-- `item.split("=", 1)`; `none` where there is no `=`.
unfoldable pub key_value : Text → Option (Text × Text)
key_value item =
    let (key, later) = split_on b'=' item in
    elim later [ [] ↦ none | v ∷ more ↦ some (key, join (codes "=") (v ∷ more)) ]

abbrev pub is_unread : Text → Bool
is_unread key =
    starts_with key (codes "dhcp-")
    || key == codes "conf-file"
    || key == codes "conf-dir"
    || key == codes "addn-hosts"

unfoldable pub handle : Text → Text → Text → Converter → Option Converter
handle key value line c =
    if key == codes "dhcp-range"
    then dhcp_range value line c
    else if key == codes "dhcp-host"
    then dhcp_host value line c
    else if key == codes "dhcp-option" || key == codes "dhcp-option-force"
    then dhcp_option value line c
    else if key == codes "domain"
    then domain value line c
    else some (if is_unread key then note (not_converted line) c else c)

abbrev pub read_pair : Text → Option (Text × Text) → Converter → Option Converter
read_pair line none c = some c
read_pair line (some (key, value)) c = handle (strip key) (strip value) line c

unfoldable pub read_line : Text → Converter → Option Converter
read_line raw c =
    let line = strip raw in
    if is_empty line || starts_with line (codes "#")
    then some c
    else read_pair line (key_value line) c

-- The lines of a file.
unfoldable pub read : List Text → Converter → Option Converter
read [] c = some c
read (raw ∷ lines) c = read_line raw c >>= λ c'. read lines c'
