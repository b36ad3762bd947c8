-- ===== src/Lib.antt =====
-- The automation of a homelab, described by Flux, Ansible and Docker files. What is modelled are
-- Python programs, most of which keep one record of the world in step with another and decide from
-- two listings what to add, to change and to delete.
--
-- docker/netbox/dns-sync/netbox_pihole_sync.py copies the DNS records of NetBox into Pi-hole.
--   Pihole.Wanted (fetch, fetch_all, wanted_records) reads the records out of NetBox's pages.
--   Pihole.Plan (plan, in_zone) compares them with the lines of a server's configuration.
--   Pihole.Server (sync_one, post, put, delete) carries the plan out over a session.
--   Pihole.Round (pihole_logins, main's loop over the servers) reads the settings and tries each.
--   NetBox and Pi-hole are services: what they answer is a parameter of the model. A Pi-hole
--   is taken to carry out a DELETE of a line that it has and a PUT of one that it does not have;
--   of other requests, which it refuses, nothing is assumed.
--
-- kubernetes/prod/system/external-dns/external-dns/app/netbox-dns-webhook.py lets ExternalDNS keep
-- its records in NetBox.
--   Webhook.Zones (local_view, zone_for, relative, fqdn_of) relates names and zones.
--   Webhook.Plan (plan) turns changes into records to delete and to create.
--   Webhook.Endpoints (endpoints) lists the records that ExternalDNS owns.
--   Webhook.Handler (do_GET, do_POST) answers requests. NetBox is a record of the listings it
--   gives and the requests it accepts, and a session keeps the requests sent.
--
-- scripts/k8s_backup writes the manifests of a cluster into the repository.
--   Backup.Tracker (FileTracker, Sink) records what a phase writes and removes what is left over.
--   The hash and the test of ownership are parameters. Directories are not modelled.
--   Backup.Ownership (capture_owner, generate_owner) says which paths each phase owns. The folders
--   of promoted releases and the paths that hand-written ones protect are given.
--   Backup.Dependencies (operator_kustomizations, depends_on) infers what an app depends on.
--   Backup.Flux (FluxOwnership) finds the Flux Kustomization that an object came from.
--   Backup.Neat (neat) cleans a manifest, a Json value, of what the API server adds.
--   Backup.Skip (should_skip) says which objects are not captured.
--   Backup.Locality (classify_cluster_locality) says which are captured into the ignored tree.
--   Backup.Derived (exposure, namespace_labels) works out the labels of a namespace.
--   Backup.Substitute (apply_substitutions) puts placeholders for private literals; Entries
--   (load_substitutions, from_live, pending_rows) is where they come from, and Seeds
--   (auto_seed_candidates) proposes new ones. The loop for a free placeholder has one round of fuel
--   more than there are placeholders taken.
--   Backup.Secrets (redact_credentials) finds credentials in a manifest and replaces them: Pattern
--   is the regular expressions, Find the walks that look and Redact the walks that replace.
--   Classes (classify_ip) and Address (find_ip_addresses) find addresses and Purpose (classify_ip_purpose,
--   build_ip_context) says what they are for.
--
-- kubernetes/prod/system/external-services/external-services/app/proxmox-endpoints.py keeps the
-- Proxmox hosts that answer in an EndpointSlice.
--   Proxmox (addresses, refresh, problem, endpoint_slice, written, pass) is one pass of its loop.
--   NetBox's and the hosts' answers are given for each pass; the cluster's API is a parameter.
--
-- docker/kea/tools/dnsmasq_to_kea.py converts a dnsmasq configuration into one for Kea.
--   Kea is the state of its Converter, Kea.Options its tables, Kea.Values its times and MACs.
--   Kea.Range and Kea.Read (read, dhcp_range, dhcp_host, dhcp_option, domain) read the lines.
--   Kea.Resolve (option_data, resolve) gives the options and reservations to their subnets.
--   Kea.Site (site) makes what Kea is given, and Kea.Main (leases, main) the leases to import.
--   Ipv4 is what the scripts use of Python's `ipaddress`, and Json of its JSON values.
--
-- kubernetes/prod/services/termix/termix/app/sync/termix-netbox-sync.py keeps the hosts of Termix.
--   Termix.Netbox (username_for), Termix.Reach and Termix.Wanted (wanted_hosts) work out the hosts
--   of NetBox's answers.
--   Termix.Host (host_body, differs, rdp_settings_differ) compares and makes a host's record.
--   Termix.Plan is main's plan, Termix.Run (sync) main from there to its exit code. Termix's API
--   is a parameter, and so is `str` of a list or a dict.
--
-- scripts/keyvault_copy.py copies the cluster's secrets into Azure Key Vault.
--   Keyvault (check_names) names the secrets, Keyvault.Source (template_encodes, source_values)
--   reads them, and Keyvault.SignIn (access_token) chooses how to sign in.
--   Keyvault.Vault (request, remote_secret, remote_digest, write) calls Key Vault, and
--   Keyvault.Main (main) finds what differs, writes it and reads it back. Key Vault's answers are a
--   parameter that may depend on all the requests before. kubectl's answers and the codecs are parameters too.
--
-- scripts/dockhand_keyvault_copy.py copies the variables of Dockhand's stacks there too.
--   Dockhand (is_reference, read_export) reads the export, Dockhand.Plan (plan) gives each variable
--   its name, and Dockhand.States (states, main) compares, writes and reads back. The names map, the
--   vault's listing and the conflicts of check_built are given as values.
--
-- kubernetes/prod/services/organizr/organizr/app/sync/organizr-sync.py keeps the tabs of Organizr.
--   Organizr (list_of, apply_list, remove_unlisted) reads a list, changes it and deletes from it.
--   Organizr.Setup (wait_ready, first_run, apply_settings) is what comes before, and Organizr.Main
--   (verify, main) the read-back and the whole run. The 60 tries of wait_ready are the source's.
--   Organizr's answers are a parameter, as Key Vault's are.
--
-- A text is the list of its code points where the program looks into it, and a native string where
-- it does not. A dict is an association list in insertion order, a set a list without repeats.
-- Errors are values, and end what the source's exceptions end.
--
-- Loops are recursion on lists but for those with fuel. The pages of NetBox and the numbered
-- settings are read with fuel, which must exceed their number. The walk up the Kustomizations has
-- fuel for two more than there are: each step up but the last meets one that is new.
--
-- The other scripts are not modelled: the jobs and exporters of single applications, the other key
-- vault scripts, the seed of NetBox, the rest of the backup tool. Network, files and logging are left out
-- of what is modelled, but for the order of requests and the contents of files.
pub mod Backup
pub mod Dockhand
pub mod Ipv4
pub mod Json
pub mod Kea
pub mod Keyvault
pub mod Organizr
pub mod Pihole
pub mod Prelude
pub mod Proxmox
pub mod Termix
pub mod Webhook
