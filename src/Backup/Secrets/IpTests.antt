-- ===== src/Backup/Secrets/IpTests.antt =====
-- Runs of the search for addresses and of what they are for, and a witness.
use native.Mathlib.Decide.{ℕ_discrete}
use k8s_homelab.Prelude.{
  Option, List, pair_eq, arith, true, list_eq, refl, none, any, [], some, ◌∷◌, ◌++◌, ◌≡◌, ◌==◌,
  nat_eq, contains, if◌then◌else◌, false,
}
use k8s_homelab.Prelude.Text.{
  lower, rstrip_spaces, lstrip_spaces, strip, Text, split_on, is_space, codes,
}
use k8s_homelab.Prelude.Dict.{lookup}
use k8s_homelab.Prelude.Decimal.{read_digits, is_digit}
use k8s_homelab.Backup.Secrets.Pattern.{
  found_by, match_literal, match_upto, match_exact, match_many, match_piece, match_here,
}
use k8s_homelab.Backup.Substitute.{occurs}
use k8s_homelab.Ipv4.{lies_in, octet, quad, address, address_text}
use k8s_homelab.Backup.Secrets.Address.{
  octet_heads, dotted, joined_heads, number_heads, last_of, first_head, is_inside, goes_on,
  match_address, candidates_from, classified, tag_from,
}
use k8s_homelab.Backup.Secrets.Address.{find_ip_addresses_in_text, is_image_tag}
use k8s_homelab.Backup.Secrets.Classes.{
  private_exceptions, private_networks, facts_of_ipv4, read_address, class_of, Ipv6, AddressFacts,
  v4,
}
use k8s_homelab.Backup.Secrets.Purpose.{
  after_dash, before_dash, read_stripped, below_end, in_range, ip_in_metallb_range, hint_of,
  purpose_of_path, purpose_of_pool, classify_ip_purpose,
}
use k8s_homelab.Backup.Secrets.Purpose.{IpContext}
use k8s_homelab.Backup.Secrets.Ips.{find_ip_addresses_in_text-address_text}

abbrev no_facts : AddressFacts
no_facts = record {
  is_loopback = false;
  is_link_local = false;
  is_private = false;
  is_reserved = false;
  is_multicast = false;
  is_unspecified = false;
}

-- Of IPv6 these runs read one address.
abbrev one_ipv6 : Ipv6
one_ipv6 = record {
  read = λ s. if s == codes "fd00::1" then some 1 else none;
  facts = λ a. no_facts;
  network = λ s. none;
}

found : Text → List (Text × Text)
unfolding find_ip_addresses_in_text classified candidates_from match_address first_head number_heads
    joined_heads dotted octet_heads is_image_tag tag_from read_address facts_of_ipv4
    private_networks private_exceptions address quad octet read_digits is_digit lies_in split_on
    is_space list_eq nat_eq ℕ_discrete match_here match_piece match_many match_exact match_upto
    match_literal
found s = find_ip_addresses_in_text one_ipv6 s

found_runs :
    (found (codes "oid: 1.3.6.1.4.1.2021.4.5") ≡ [])
    × (found (codes "version 1.2.3.4.5") ≡ [])
    × (found (codes "reach 8.8.8.8.") ≡ (codes "8.8.8.8", codes "public") ∷ [])
    × (found (codes "url http://8.8.4.4:53/x") ≡ (codes "8.8.4.4", codes "public") ∷ [])
    × (found (codes "image: ghcr.io/a/b:v1.0.39.0") ≡ [])
    × (found (codes "10.0.0.1,100.64.0.9")
        ≡ (codes "10.0.0.1", codes "private") ∷ (codes "100.64.0.9", codes "private") ∷ [])
unfolding found class_of
found_runs = (refl, refl, refl, refl, refl, refl)

prefix_ok : (is_image_tag (codes "reach ") ≡ false)
unfolding is_image_tag tag_from match_here match_piece match_many match_exact match_upto
    match_literal is_space nat_eq ℕ_discrete
prefix_ok = refl

no_digits : (any is_digit (codes "reach ") ≡ false) × (is_inside (last_of (codes "reach ")) ≡ false)
unfolding is_digit nat_eq ℕ_discrete
no_digits = (refl, refl)

stops : goes_on (codes " and on") ≡ false
unfolding is_digit nat_eq ℕ_discrete
stops = refl

find_ip_addresses_in_text-address_text_example :
    contains
      (find_ip_addresses_in_text one_ipv6
        (codes "reach " ++ (address_text 134744072 ++ codes " and on")))
      (address_text 134744072, class_of one_ipv6 (v4 134744072))
    ≡ true
find_ip_addresses_in_text-address_text_example =
    find_ip_addresses_in_text-address_text one_ipv6 (codes "reach ") 134744072 (codes " and on")
      (omega arith) no_digits.0 no_digits.1 prefix_ok stops

abbrev context : IpContext
context = record {
  node_ips = (codes "10.0.0.4", codes "node a (InternalIP)") ∷ [];
  nfs_servers = [];
  metallb_pools =
      (codes "lan", codes "10.0.1.10 - 10.0.1.20") ∷ (codes "six", codes "fd00::1-fd00::1") ∷ [];
}

purpose : Text → Text → Text → Option Text
unfolding classify_ip_purpose purpose_of_pool purpose_of_path hint_of ip_in_metallb_range in_range
    below_end read_stripped before_dash after_dash read_address address quad octet read_digits
    is_digit split_on strip lstrip_spaces rstrip_spaces is_space list_eq nat_eq ℕ_discrete lookup
    lower occurs found_by
purpose ip classification path = classify_ip_purpose one_ipv6 ip classification path context

-- The range of IPv6 addresses ends the run with a TypeError where no pool before it holds the address.
purposes :
    (purpose (codes "10.0.0.4") (codes "private") (codes "a") ≡ some (codes "node a (InternalIP)"))
    × (purpose (codes "10.0.1.15") (codes "private") (codes "a")
        ≡ some (codes "MetalLB IPAddressPool address (lan)"))
    × (purpose (codes "10.0.2.1") (codes "private") (codes "spec.clusterIP") ≡ none)
unfolding purpose
purposes = (refl, refl, refl)
