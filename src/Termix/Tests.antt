-- ===== src/Termix/Tests.antt =====
-- Runs of the sync against a Termix that keeps its hosts, and witnesses.
use native.Mathlib.Decide.{ℕ_discrete}
use k8s_homelab.Prelude.{
  pair_eq, option_eq, refl, map, length, is_none, ◌>>=◌, set_of, not, filter, list_eq, nat_eq,
  some-or_else, ◌==◌, ◌++◌, none, if◌then◌else◌, [], ◌≡◌, some, Bool,
}
use k8s_homelab.Prelude.{false, or_else, ◌∷◌, true, String, List, Option, all}
use k8s_homelab.Prelude.Decimal.{read_decimal, read_digits, is_digit, decimal}
use k8s_homelab.Prelude.Text.{
  lower_char, lower, is_space, starts_with, split_on, strip, codes, Text,
}
use k8s_homelab.Prelude.Dict.{keys, insert, lookup, Dict}
use k8s_homelab.Prelude.Sort.{text_leb, sorted_by, sorted}
use k8s_homelab.Json.{
  str_value, str_of, or_empty, is_zero, is_truthy, list, get, put, text, no_fields, field,
  no_values, number, value, Values, Fields, Value,
}
use k8s_homelab.Termix.Wanted.{
  want_objects, want_object, login_of, port_for, ports_from, has_word, wanted_hosts,
}
use k8s_homelab.Termix.Reach.{reached, managed, management, strict_network, interface_ip, has_text}
use k8s_homelab.Termix.Netbox.{
  username_for, user_among, source_user, Prefix, Service, Object, accounts, Address,
}
use k8s_homelab.Termix.Plan.{
  name_at, plan_deletes, plan_wanted, plan_update, differences, hosts_from, choose, delete,
  settings, put_host, plan_hosts, post, Credential, Action,
}
use k8s_homelab.Ipv4.{
  network_eq, lies_in, read_network, prefix_of_text, prefix_of_mask, host_length, mask_length,
  network, address_text, is_ipv4, address, quad, octet,
}
use k8s_homelab.Termix.Run.{
  sync_hosts, apply_plan, set_desktops, verify, wrong_wanted, send_settings, send_writes,
  put_settings, done, sync, write, Exit, Request, Api,
}
use k8s_homelab.Termix.Host.{
  rdp_settings_differ, differs_rdp, differing, body_start, is_owned, host_body, differs,
}
use k8s_homelab.Termix.{
  tags_of, tags_at, str_or_blank, commas_to_spaces, text_values, texts_in, named, put_all,
  looked_up, Login, Want, owned_tag,
}
use k8s_homelab.Termix.Body.{differs-host_body}
use k8s_homelab.Termix.Owned.{plan_hosts-allowed, is_allowed}

abbrev plain : Value → Text
plain v = []

abbrev access_point : Object
access_point = record {
  is_vm = false;
  id = 3;
  name = codes "ap1";
  tags = codes "openwrt_aps" ∷ [];
  context = [];
  role = some (codes "Wireless");
  primary_ip4 = none;
}

abbrev database : Object
database = record {
  is_vm = true;
  id = 7;
  name = codes "db1";
  tags = codes "debian" ∷ [];
  context = [];
  role = none;
  primary_ip4 = some (record { address = codes "10.2.0.9/24"; dns_name = codes "db1.lan" });
}

abbrev addresses : List Address
addresses =
    record {
      object_type = codes "dcim.interface";
      parent = some 3;
      address = codes "10.1.0.5/24";
      dns_name = [];
    }
    ∷ []

abbrev prefixes : List Prefix
prefixes =
    record { prefix = codes "10.1.0.0/24"; description = codes "Management" }
    ∷ record { prefix = codes "10.2.0.0/24"; description = [] }
    ∷ []

abbrev services : List Service
services =
    record {
      name = codes "OpenSSH, SSH";
      ports = 2022 ∷ [];
      parent_type = codes "dcim.device";
      parent = some 3;
    }
    ∷ record {
      name = codes "ssh";
      ports = 2222 ∷ [];
      parent_type = codes "virtualization.virtualmachine";
      parent = some 7;
    }
    ∷ []

abbrev admin_env : Dict Text Text
admin_env = (codes "TERMIX_SSH_ADMIN_USER", codes " admin ") ∷ []

abbrev want_of : String → String → String → String → String → Login → Bool → Want
want_of name ip port user folder login by_primary = record {
  name = codes name;
  ip = codes ip;
  port = codes port;
  username = codes user;
  folder = codes folder;
  login = login;
  by_primary = by_primary;
  credential = codes "bastion";
  is_rdp = false;
}

abbrev want_ap : Want
want_ap = want_of "ap1" "10.1.0.5" "2022" "root" "Wireless" (named (codes "openwrt_aps")) false

-- The service of the virtual machine is not found, and its port stays 22.
abbrev want_db : Want
want_db =
    want_of "db1" "db1.lan" "22" "admin" "Other"
      (looked_up (codes "debian") (codes "TERMIX_SSH_ADMIN_USER") true) true

abbrev both : Dict Text Want
both = (codes "ap1", want_ap) ∷ (codes "db1", want_db) ∷ []

wanted_runs :
    wanted_hosts admin_env
      (codes "bastion")
      (access_point ∷ database ∷ [])
      addresses
      prefixes
      services
    ≡ some (both, [])
unfolding accounts source_user user_among username_for has_text has_word ports_from port_for
    interface_ip strict_network management managed reached login_of want_object want_objects
    wanted_hosts octet quad address is_ipv4 address_text network mask_length host_length
    prefix_of_mask prefix_of_text read_network lies_in network_eq strip split_on starts_with
    is_space lower lower_char decimal is_digit read_digits read_decimal lookup insert nat_eq list_eq
    option_eq pair_eq ℕ_discrete
wanted_runs = refl

abbrev host_of : String → String → Values → Fields
host_of name id tags =
    field (codes "name") (text (codes name))
      (field (codes "id") (number (codes id)) (field (codes "tags") (list tags) no_fields))

abbrev by_hand_host : Fields
by_hand_host = host_of "mine" "1" no_values

abbrev old_host : Fields
old_host = host_of "gone" "9" (value (text (codes "netbox")) no_values)

abbrev bastion : List Credential
bastion = record { name = codes "bastion"; id = number (codes "4") } ∷ []

-- A Termix that keeps its hosts; a new one has its name for an id.
abbrev has_id : Value → Fields → Bool
has_id id h = str_of plain (get (codes "id") h) == str_value plain id

replace : Value → Fields → List Fields → List Fields
replace id body [] = []
replace id body (h ∷ hosts) =
    let rest = replace id body hosts in
    if has_id id h then put (codes "id") id body ∷ rest else h ∷ rest

take : Request → List Fields → List Fields
take (write (post name body)) hosts = hosts ++ put (codes "id") (text name) body ∷ []
take (write (put_host id name body)) hosts = replace id body hosts
take (write (settings name)) hosts = hosts
take (write (delete id name)) hosts = filter (λ h. not (has_id id h)) hosts
take (put_settings id o) hosts = hosts

termix : Api (List Fields)
termix = record {
  send = λ r w. (true, take r w);
  hosts = λ w. some w;
  credentials = λ w. some bastion;
}

-- The hosts after a run, with how it ended.
synced_hosts : Option (Exit × List Fields)
synced_hosts = sync plain termix false (codes "bastion") both (by_hand_host ∷ old_host ∷ [])

abbrev is_done : Exit → Bool
is_done done = true
is_done e = false

told_of : Option (Exit × List Fields) → Option (Bool × List Text)
told_of none = none
told_of (some (e, hosts)) = some (is_done e, map name_at hosts)

sync_runs :
    (told_of synced_hosts ≡ some (true, codes "mine" ∷ codes "ap1" ∷ codes "db1" ∷ []))
    × ((synced_hosts >>= λ r. plan_hosts plain bastion (codes "bastion") r.1 both) ≡ some [])
unfolding told_of synced_hosts termix take replace owned_tag put_all texts_in text_values
    commas_to_spaces str_value str_or_blank tags_at tags_of body_start host_body differing
    differs_rdp differs rdp_settings_differ is_owned choose hosts_from differences plan_update
    plan_wanted plan_deletes plan_hosts send_writes send_settings wrong_wanted verify set_desktops
    apply_plan sync_hosts sync get put is_truthy is_zero or_empty set_of sorted sorted_by text_leb
    lookup insert keys nat_eq list_eq ℕ_discrete
sync_runs = (refl, refl)

abbrev start_hosts : List Fields
start_hosts = by_hand_host ∷ old_host ∷ []

abbrev ap_body : Fields
ap_body = or_else no_fields (host_body plain want_ap (number (codes "4")) old_host)

abbrev first_plan : List Action
first_plan = or_else [] (plan_hosts plain bastion (codes "bastion") start_hosts both)

plans_made :
    (is_none (host_body plain want_ap (number (codes "4")) old_host) ≡ false)
    × (is_none (plan_hosts plain bastion (codes "bastion") start_hosts both) ≡ false)
    × (length first_plan ≡ 3)
    × (is_zero (codes "2022") ≡ false)
unfolding owned_tag put_all texts_in text_values commas_to_spaces str_value str_or_blank tags_at
    tags_of body_start host_body differing differs_rdp differs rdp_settings_differ is_owned choose
    hosts_from differences plan_update plan_wanted plan_deletes plan_hosts get put is_truthy is_zero
    or_empty set_of sorted sorted_by text_leb lookup insert keys nat_eq list_eq ℕ_discrete
plans_made = (refl, refl, refl, refl)

differs-host_body_example :
    (differs plain ap_body want_ap (number (codes "4")) ≡ some [])
    × (is_owned plain ap_body ≡ some true)
differs-host_body_example =
    differs-host_body plain want_ap (number (codes "4")) old_host ap_body plans_made.3
      (some-or_else no_fields (host_body plain want_ap (number (codes "4")) old_host) plans_made.0)

plan_hosts-allowed_example : all (is_allowed plain start_hosts) first_plan ≡ true
plan_hosts-allowed_example =
    plan_hosts-allowed plain bastion (codes "bastion") start_hosts both first_plan
      (some-or_else [] (plan_hosts plain bastion (codes "bastion") start_hosts both) plans_made.1)
