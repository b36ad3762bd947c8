-- ===== src/Kea/Tests.antt =====
-- Runs of the converter, and witnesses.
use mathlib.Core.Path.{subst}
use native.Mathlib.Decide.{ℕ_discrete}
use k8s_homelab.Prelude.{
  option_eq, are_distinct, or_else, is_none, some-or_else, true, all, false, ◌≢◌, refl, list_eq,
  nat_eq, ◌≡◌, map, ◌>>=◌, none, some, [], ◌∷◌, String, List,
}
use k8s_homelab.Prelude.Text.{
  join, join_from, lower_char, lower, is_space, words, starts_with, split_on, strip, codes, Text,
}
use k8s_homelab.Prelude.Dict.{AllEntries, insert, lookup}
use k8s_homelab.Prelude.Sort.{sorted_by, sorted}
use k8s_homelab.Prelude.Decimal.{read_decimal, read_digits, is_digit, decimal}
use k8s_homelab.Ipv4.{
  read_strict, network_eq, network_leb, network_text, lies_in, read_network, prefix_of_text,
  prefix_of_mask, network, host_length, mask_length, address_text, is_ipv4,
}
use k8s_homelab.Ipv4.{address, quad, octet}
use k8s_homelab.Kea.Range.{
  range_at, range_made, dhcp_range, range_from, range_subnet, tag_networks, range_lifetime,
  range_pool, range_network, range_parts, range_part, range_address,
}
use k8s_homelab.Kea.Range.{range_head}
use k8s_homelab.Kea.Ids.{site-ids, is_subnet_id}
use k8s_homelab.Kea.Resolved.{convert-IsKnown}
use k8s_homelab.Kea.Leases.{main-is_assigned, is_assigned}
use k8s_homelab.Kea.Returns.{main_returns, is_readable}
use k8s_homelab.Kea.Known.{IsKept}
use k8s_homelab.Kea.{converter, Converter, containing, subnet_for, subnet_id, hw_address}
use k8s_homelab.Kea.Main.{
  import_line, convert, tags_from, ids_from, leases, read_leases, read_lease, import_lease,
  make_lease, lease_line, main, Lease,
}
use k8s_homelab.Kea.Read.{
  option_last, domain_from, domain, read, read_line, handle, key_value, domain_network, dhcp_option,
  option_from, option_tag, option_code, queue, dhcp_host,
}
use k8s_homelab.Kea.Read.{host_parts, host_part}
use k8s_homelab.Kea.Resolve.{
  tell_shared, host_at, place_host, option_data, resolve, shared_of, resolve_hosts, resolve_host,
  reserve, name_of, idents, resolve_options, resolve_option,
}
use k8s_homelab.Kea.Resolve.{place_option, set_option, tagged_networks, option_text, route_pairs}
use k8s_homelab.Kea.Options.{skipped_options, kea_option_names, dnsmasq_option_names}
use k8s_homelab.Kea.Site.{
  site, entries, site_entry, with_domain, with_router, choose_id, sorted_reservations, keyed,
  option_entries, Entry, OptionData, SiteData,
}
use k8s_homelab.Kea.Values.{
  normal_mac, fill_part, is_mac, is_mac_part, is_hex, mac_parts, lease_seconds, unit_seconds,
  leading_digits,
}

abbrev conf : List Text
conf =
    codes "# a comment"
    ∷ codes "dhcp-range=set:lan,10.0.5.10,10.0.5.99,255.255.255.0,12h"
    ∷ codes "dhcp-range=10.0.6.10,static"
    ∷ codes " dhcp-host = AA:b:cc:dd:ee:ff, 10.0.5.7 ,nas"
    ∷ codes "dhcp-host=id:x,10.9.9.9"
    ∷ codes "dhcp-option=option:dns-server,10.0.0.2"
    ∷ codes "dhcp-option=tag:lan,42,10.0.0.3,10.0.0.4"
    ∷ codes "domain=home.lan,10.0.6.0/24"
    ∷ codes "domain=lan"
    ∷ []

abbrev lease_file : List Text
lease_file =
    codes "0 aa:0b:cc:dd:ee:ff 10.0.5.7 nas *"
    ∷ codes "900 aa:0b:cc:dd:ee:01 10.0.5.8 old *"
    ∷ codes "1900 aa:0b:cc:dd:ee:01 10.9.5.8 far *"
    ∷ codes "1900 aa:0b:cc:dd:ee:02 10.0.6.8 * 01:02"
    ∷ []

abbrev read_conf : Converter
read_conf = or_else (converter 24 254 []) (convert 24 254 [] conf)

abbrev no_site : SiteData
no_site = record { valid_lifetime = 0; option_data = []; subnet4 = []; reservations_unique = false }

abbrev made_site : SiteData × Converter
made_site = or_else (no_site, converter 24 254 []) (site read_conf)

abbrev imported : SiteData × List Lease
imported = or_else (no_site, []) (main 24 254 [] conf 1000 lease_file)

abbrev option : String → String → OptionData
option name text = record { name = codes name; option_value = codes text }

abbrev expected_entries : List Entry
expected_entries =
    record {
      id = 5;
      subnet = codes "10.0.5.0/24";
      pools = codes "10.0.5.10 - 10.0.5.99" ∷ [];
      valid_lifetime = some 43200;
      option_data =
          option "routers" "10.0.5.254"
          ∷ option "domain-name" "lan"
          ∷ option "ntp-servers" "10.0.0.3, 10.0.0.4"
          ∷ [];
      reservations =
          record {
            ident = hw_address (codes "aa:0b:cc:dd:ee:ff");
            ip_address = codes "10.0.5.7";
            hostname = some (codes "nas");
          }
          ∷ [];
    }
    ∷ record {
      id = 6;
      subnet = codes "10.0.6.0/24";
      pools = [];
      valid_lifetime = none;
      option_data = option "routers" "10.0.6.254" ∷ option "domain-name" "home.lan" ∷ [];
      reservations = [];
    }
    ∷ []

run_succeeds :
    (is_none (convert 24 254 [] conf) ≡ false)
    × (is_none (convert 24 254 [] conf >>= site) ≡ false)
    × (is_none (main 24 254 [] conf 1000 lease_file) ≡ false)
    × (all is_readable lease_file ≡ true)
    × ((main 24 254 [] conf 1000 lease_file >>= λ out. some out.0.subnet4) ≡ some expected_entries)
    × ((main 24 254 [] conf 1000 lease_file >>= λ out. some (map (λ l. l.subnet_id) out.1))
        ≡ some (5 ∷ 6 ∷ []))
unfolding option_eq is_readable import_line option_last place_host host_at tell_shared range_made
    range_at domain_from subnet_id subnet_for containing leading_digits unit_seconds lease_seconds
    mac_parts is_hex is_mac_part is_mac fill_part join_from join normal_mac range_head range_address
    range_part range_parts range_network range_pool range_lifetime tag_networks range_subnet
    range_from dhcp_range host_part host_parts dhcp_host queue option_code option_tag option_from
    dhcp_option domain_network domain key_value handle read_line read route_pairs option_text
    option_data tagged_networks set_option place_option resolve_option resolve_options idents
    name_of reserve resolve_host resolve_hosts shared_of resolve option_entries keyed
    sorted_reservations choose_id with_router with_domain site_entry entries site lease_line
    make_lease import_lease read_lease read_leases leases ids_from tags_from convert main octet quad
    address is_ipv4 address_text network mask_length host_length prefix_of_mask prefix_of_text
    read_network read_strict lies_in network_text network_leb network_eq dnsmasq_option_names
    kea_option_names skipped_options strip split_on starts_with words is_space lower lower_char
    decimal is_digit read_digits read_decimal lookup insert sorted sorted_by nat_eq list_eq
    ℕ_discrete
run_succeeds = (refl, refl, refl, refl, refl, refl)

run_read : convert 24 254 [] conf ≡ some read_conf
run_read = some-or_else (converter 24 254 []) (convert 24 254 [] conf) run_succeeds.0

run_made : site read_conf ≡ some made_site
run_made =
    some-or_else (no_site, converter 24 254 []) (site read_conf)
      (subst (λ o. is_none (o >>= site) ≡ false) run_read run_succeeds.1)

run_imported : main 24 254 [] conf 1000 lease_file ≡ some imported
run_imported = some-or_else (no_site, []) (main 24 254 [] conf 1000 lease_file) run_succeeds.2

convert-IsKnown_example : AllEntries IsKept read_conf.subnets
convert-IsKnown_example = convert-IsKnown 24 254 [] conf read_conf run_read

site-ids_example :
    (are_distinct (map (λ e. e.id) made_site.0.subnet4) ≡ true)
    × (all is_subnet_id (map (λ e. e.id) made_site.0.subnet4) ≡ true)
site-ids_example = site-ids read_conf made_site.1 made_site.0 run_made

main-is_assigned_example : all (is_assigned imported.0.subnet4) imported.1 ≡ true
main-is_assigned_example =
    main-is_assigned 24 254 [] conf 1000 lease_file imported.0 imported.1 run_imported

main_returns_example : main 24 254 [] conf 1000 lease_file ≢ none
main_returns_example =
    main_returns 24 254 [] conf 1000 lease_file read_conf made_site run_read run_made run_succeeds.3
