-- ===== src/Pihole/Tests.antt =====
-- Runs of netbox_pihole_sync.py, and its theorems at concrete records.
use mathlib.Core.Path.{subst}
use native.Mathlib.Decide.{ℕ_discrete}
use k8s_homelab.Prelude.{
  sym, ==_refl, if◌then◌else◌, ◌≡◌, refl, List, [], ◌∷◌, Bool, true, false, arith, contains, inl,
  inr, Bool-cases, Option, none, some, ◌==◌, ==_eq, list_eq,
}
use k8s_homelab.Prelude.{nat_eq, pair_eq, string_eq, option_eq}
use k8s_homelab.Prelude.Dict
use k8s_homelab.Prelude.Text
use k8s_homelab.Prelude.Text.{Text, codes}
use k8s_homelab.Prelude.Sort.{sorted}
use k8s_homelab.Prelude.Sort
use k8s_homelab.Pihole.Server.{
  outstanding, change_all, hosts, carry_out, put, Server, ok, refused, sync_body, sync_one,
}
use k8s_homelab.Pihole.Server.Laws.{sync_one_settles}
use k8s_homelab.Pihole.Server.Requests.{is_sendable}
use k8s_homelab.Pihole.Plan
use k8s_homelab.Pihole.Plan.{Entry, Plan, plan, in_zone, kind_of, cname_target}
use k8s_homelab.Pihole.Clean.{IsClean}
use k8s_homelab.Pihole.Converge.{IsApplied}
use k8s_homelab.Pihole.Keep.{IsLowered, is_safe}
use k8s_homelab.Pihole.Wanted
use k8s_homelab.Pihole.Wanted.{ZoneRow, RecordRow, Answer, unset, labelled, every, netbox_wanted}
use k8s_homelab.Pihole.Wanted.Laws.{IsNamed, netbox_wanted-IsNamed}
use k8s_homelab.Pihole.Wanted.Pages.{Pages, last, page, page_count, every-of-Pages}
use k8s_homelab.Pihole.Settles.{IsSettled, plan-settles}
use k8s_homelab.Pihole.Resolves.{resolves, resolves-plan}
use k8s_homelab.Pihole.Server
use k8s_homelab.Pihole.Round.{Env, Login, add_outcome, round_loop}
use k8s_homelab.Pihole.Round.Laws.{Numbered, login, stop, Shown, round_loop-Tried}
use k8s_homelab.Pihole.Memory.{memory, memory-IsLawful, Lines, apply_lines, apply_lines-IsApplied}

-- What a run opens.
run : List Text → List Entry → Bool → Lines → Option Plan
unfolding Plan.plan Plan.scan_hosts Plan.host_words Plan.host_names Plan.host_single
    Plan.host_splits Plan.host_split Plan.split_pair Plan.want_a Plan.kind_of Plan.in_zone
    Plan.scan_cnames Plan.cname_line Plan.cname_pair Plan.cname_target Plan.no_hosts Plan.plan_from
    Sort.sorted Sort.sorted_by Sort.text_leb Text.words Text.is_space Text.lower Text.lower_char
    Text.ends_with Text.rstrip Text.strip Text.lstrip_spaces Text.rstrip_spaces Text.split_on nat_eq
    list_eq pair_eq string_eq ℕ_discrete
run zones wanted deletes s = Plan.plan zones wanted deletes s.host_lines s.cname_lines

abbrev zones : List Text
zones = codes "lan" ∷ []

abbrev nas : Entry
nas = (codes "nas.lan", ("A", codes "10.0.0.2"))

abbrev www : Entry
www = (codes "www.lan", ("CNAME", codes "nas.lan"))

abbrev wanted : List Entry
wanted = nas ∷ www ∷ []

-- A line of two names, one of them outside the zones; one that NetBox does not have; one outside.
abbrev before : Lines
before = record {
  host_lines =
      codes "10.0.0.2 NAS.lan printer"
      ∷ codes "10.0.0.9 old.lan"
      ∷ codes "1.1.1.1 dns.example"
      ∷ [];
  cname_lines = codes "gone.lan, nas.lan" ∷ [];
}

abbrev expected : Plan
expected = record {
  remove_hosts = codes "10.0.0.2 NAS.lan printer" ∷ codes "10.0.0.9 old.lan" ∷ [];
  add_hosts = codes "10.0.0.2 nas.lan" ∷ codes "10.0.0.2 printer" ∷ [];
  remove_cnames = codes "gone.lan, nas.lan" ∷ [];
  add_cnames = codes "www.lan,nas.lan" ∷ [];
  left = [];
}

planned : plan zones wanted true before.host_lines before.cname_lines ≡ some expected
unfolding run
planned = refl

nas-IsClean : IsClean zones nas
unfolding run
nas-IsClean = record {
  named = refl;
  lowered = refl;
  spaceless = refl;
  nonempty = refl;
  address_spaceless = λ h. refl;
  address_nonempty = λ h. refl;
  address_kind = λ h. refl;
  name_comma = λ h. refl;
  target_comma = λ h. refl;
  target_spelled = λ h. refl;
}

www-IsClean : IsClean zones www
unfolding run
www-IsClean = record {
  named = refl;
  lowered = refl;
  spaceless = refl;
  nonempty = refl;
  address_spaceless = λ h. refl;
  address_nonempty = λ h. refl;
  address_kind = λ h. absurd (cc);
  name_comma = λ h. refl;
  target_comma = λ h. refl;
  target_spelled = λ h. refl;
}

lan_IsClean : (w : Entry) → contains wanted w ≡ true → IsClean zones w
lan_IsClean w m = elim (Bool-cases (w == nas)) [
  | inl e ↦ subst (IsClean zones) (sym (==_eq w nas e)) nas-IsClean
  | inr e ↦ subst (IsClean zones) (sym (==_eq w www (ground arith))) www-IsClean
]

abbrev hosts_after : List Text
hosts_after = apply_lines before.host_lines expected.remove_hosts expected.add_hosts

abbrev cnames_after : List Text
cnames_after = apply_lines before.cname_lines expected.remove_cnames expected.add_cnames

plan-settles_example :
    (p' : Plan) × (plan zones wanted true hosts_after cnames_after ≡ some p') × IsSettled p'
plan-settles_example =
    plan-settles zones wanted true lan_IsClean before.host_lines before.cname_lines expected planned
      hosts_after cnames_after
      (apply_lines-IsApplied before.host_lines expected.remove_hosts expected.add_hosts)
      (apply_lines-IsApplied before.cname_lines expected.remove_cnames expected.add_cnames)

-- The printer's name lies outside the zones, and its line goes.
printer_resolves : resolves before.host_lines (codes "10.0.0.2") (codes "printer") ≡ true
unfolding run
printer_resolves = refl

printer_safe : is_safe zones wanted true (codes "printer") ≡ true
unfolding run
printer_safe = refl

zones-IsLowered : IsLowered zones
unfolding run
zones-IsLowered = refl

resolves-plan_example : resolves hosts_after (codes "10.0.0.2") (codes "printer") ≡ true
resolves-plan_example =
    resolves-plan zones wanted true zones-IsLowered before.host_lines before.cname_lines expected
      planned hosts_after
      (apply_lines-IsApplied before.host_lines expected.remove_hosts expected.add_hosts)
      (codes "10.0.0.2") (codes "printer") printer_safe printer_resolves

-- A request that the Pi-hole refuses.
refusal : (memory.change put hosts (codes "1.1.1.1 dns.example") before).0 ≡ refused
unfolding run
refusal = refl

-- A line of two names of which one has its own line as well: the plan adds that line again.
doubled : List Text
doubled = codes "10.0.0.2 nas.lan printer" ∷ codes "10.0.0.2 printer" ∷ []

doubled-plan :
    (p : Plan) × (plan zones wanted true doubled [] ≡ some p)
    × (contains p.add_hosts (codes "10.0.0.2 printer") ≡ true)
    × (contains p.remove_hosts (codes "10.0.0.2 printer") ≡ false)
    × (is_sendable doubled p.remove_hosts p.add_hosts ≡ false)
unfolding run doubled is_sendable
doubled-plan = (_, refl, refl, refl, refl)

-- So the round is refused, after the removal of the line of two names.
doubled_refused :
    sync_one memory zones wanted true true (record { host_lines = doubled; cname_lines = [] }) ≡ (
      refused,
      record {
        host_lines = codes "10.0.0.2 printer" ∷ codes "10.0.0.2 nas.lan" ∷ [];
        cname_lines = [];
      },
    )
unfolding run doubled sync_one sync_body carry_out change_all outstanding
doubled_refused = refl

requests_sendable :
    (is_sendable before.host_lines expected.remove_hosts expected.add_hosts ≡ true)
    × (is_sendable before.cname_lines expected.remove_cnames expected.add_cnames ≡ true)
unfolding run is_sendable
requests_sendable = (refl, refl)

sync_one_settles_example :
    (u : Lines) × (sync_one memory zones wanted true true before ≡ (ok true, u))
    × IsApplied before.host_lines expected.remove_hosts expected.add_hosts u.host_lines
    × IsApplied before.cname_lines expected.remove_cnames expected.add_cnames u.cname_lines
unfolding memory-IsLawful
sync_one_settles_example =
    sync_one_settles memory memory-IsLawful zones wanted true lan_IsClean before before expected
      refl planned requests_sendable.0 requests_sendable.1

abbrev zone_row : ZoneRow
zone_row = record { id = 7; name = codes "LAN."; status = unset; default_view = true }

abbrev nas_row : RecordRow
nas_row = record {
  zone = some 7;
  status = labelled (some "active");
  kind = some "A";
  name = codes "NAS";
  value = codes " 10.0.0.2";
}

abbrev zone_call : Text → Option (Answer ZoneRow)
zone_call url = some (record { status = 200; body = some (zone_row ∷ [], none) })

-- Two pages: the first names the second.
abbrev record_call : Text → Option (Answer RecordRow)
record_call url =
    if url == codes "records"
    then some (record { status = 200; body = some (nas_row ∷ [], some (codes "page2")) })
    else some (record { status = 200; body = some ([], none) })

netbox_answers :
    netbox_wanted zone_call record_call (codes "zones") (codes "records") 2 ≡ some (zones, nas ∷ [])
unfolding run Wanted.netbox_wanted Wanted.every Wanted.zone_names Wanted.zone_counts
    Wanted.status_of Wanted.wanted_in Wanted.wanted_from Wanted.record_entry Wanted.record_name
    Wanted.record_value Dict.insert Dict.lookup Dict.values
netbox_answers = refl

nas_wanted : contains (nas ∷ []) nas ≡ true
nas_wanted = ground (arith, ==_refl nas)

netbox_wanted-IsNamed_example : IsLowered zones × IsNamed zones nas
netbox_wanted-IsNamed_example =
    netbox_wanted-IsNamed zone_call record_call (codes "zones") (codes "records") 2 zones (nas ∷ [])
      netbox_answers nas nas_wanted

record_pages : Pages record_call (some (codes "records")) (nas_row ∷ [])
unfolding run
record_pages = page refl refl refl (page refl refl refl last refl) refl

every-of-Pages_example : every record_call 2 (some (codes "records")) [] ≡ some (nas_row ∷ [])
unfolding page_count record_pages
every-of-Pages_example = every-of-Pages record_call 2 record_pages [] (omega arith)

-- Two Pi-holes, the first of which refuses the login.
abbrev logins : List Login
logins = (codes "a", codes "x") ∷ (codes "b", codes "y") ∷ []

abbrev server_of : Login → Bool → Server Lines
server_of l verify =
    if l.0 == codes "a" then record memory { login = λ s. (refused, s) } else memory

abbrev settled : Lines
settled = record {
  host_lines = codes "10.0.0.2 nas.lan" ∷ [];
  cname_lines = codes "www.lan,nas.lan" ∷ [];
}

one_refused :
    round_loop server_of zones wanted true true true logins true settled ≡ (ok false, settled)
unfolding run round_loop add_outcome sync_one sync_body Server.outstanding Server.read_back
one_refused = refl

round_loop-Tried_example :
    Shown server_of zones wanted true true true logins true settled settled false
round_loop-Tried_example =
    round_loop-Tried server_of zones wanted true true true logins true settled settled false
      one_refused

abbrev env : Env
env = record {
  url = λ n. if n == 1 then some (codes "a") else none;
  password = λ n. if n == 1 then some (codes "x") else none;
  tls_verify = none;
  sync_apply = none;
  sync_delete = none;
}

one-Numbered : Numbered env 1 ((codes "a", codes "x") ∷ [])
unfolding run
one-Numbered = login refl refl (stop refl)
