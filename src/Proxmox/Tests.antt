-- ===== src/Proxmox/Tests.antt =====
-- Runs of the passes, and witnesses.
-- A cluster that keeps the last write.
use native.Mathlib.Decide.{ℕ_discrete}
use k8s_homelab.Prelude.{
  false, refl, List, option_eq, ◌≢◌, set_of, nat_eq, list_eq, ◌==◌, true, if◌then◌else◌, filter, [],
  none, some, Option, ◌≡◌, ◌∷◌,
}
use k8s_homelab.Prelude.Decimal.{decimal}
use k8s_homelab.Prelude.Text.{split_on, codes, Text}
use k8s_homelab.Prelude.Sort.{sorted}
use k8s_homelab.Json.{get, Fields}
use k8s_homelab.Proxmox.{
  texts_of, listed, endpoint_values, netbox_hosts, written, endpoints_of, endpoint_slice,
  http_error, problem, is_up, start, refresh, page, update, addresses,
}
use k8s_homelab.Proxmox.{pass, Device, passes, Round, State, Kube}
use k8s_homelab.Proxmox.Laws.{pass_settles, Answers}

abbrev store : Kube (Option Fields)
store = record { patch = λ b w. (true, some b); read = λ w. w }

store-Answers : Answers store
store-Answers = record { taken = λ b w. refl; given = λ b w. (b, refl, refl) }

abbrev host : Text → Device
host a = record { primary_ip4 = some a }

abbrev two_hosts : Round
two_hosts = record {
  devices = some (
      host (codes "10.0.0.2/24") ∷ host (codes "10.0.0.1/24") ∷ record { primary_ip4 = none } ∷ []);
  probe = λ a. if a == codes "10.0.0.2" then http_error 503 else http_error 401;
}

abbrev no_netbox : Round
no_netbox = record { devices = none; probe = λ a. page }

ran : List Round → State × Option (Option (List Text))
unfolding passes pass update addresses refresh problem endpoint_slice endpoints_of written
    endpoint_values listed texts_of decimal sorted split_on set_of get list_eq nat_eq option_eq
    ℕ_discrete
ran rs =
    let (s, w) = passes store (codes "prod") (codes "proxmox") 8006 rs start none in
    (s, elim w [ none ↦ none | some b ↦ some (written b) ])

ran_runs :
    (ran (two_hosts ∷ []) ≡ (
      record {
        known = codes "10.0.0.1" ∷ codes "10.0.0.2" ∷ [];
        current = some (codes "10.0.0.1" ∷ []);
      },
      some (some (codes "10.0.0.1" ∷ [])),
    ))
    × ((ran (two_hosts ∷ no_netbox ∷ [])).1
        ≡ some (some (codes "10.0.0.1" ∷ codes "10.0.0.2" ∷ [])))
    × (ran (no_netbox ∷ []) ≡ (start, none))
unfolding ran
ran_runs = (refl, refl, refl)

-- A cluster that refuses the writes and cannot be read.
abbrev broken : Kube (Option Fields)
broken = record { patch = λ b w. (false, w); read = λ w. none }

refreshed_full :
    refresh
      (passes broken (codes "prod") (codes "proxmox") 8006 (two_hosts ∷ []) start none).0.known
      (netbox_hosts two_hosts)
    ≢ []
unfolding passes pass update problem endpoint_slice decimal addresses refresh sorted split_on set_of
    list_eq nat_eq ℕ_discrete
refreshed_full = λ e. cc

abbrev final : State × Option Fields
final = passes broken (codes "prod") (codes "proxmox") 8006 (two_hosts ∷ []) start none

abbrev settled : State × Option Fields
settled = pass store (codes "prod") (codes "proxmox") 8006 two_hosts final.0 final.1

pass_settles_example :
    (settled.0.current ≡ some (filter (is_up two_hosts) settled.0.known))
    × (pass store (codes "prod") (codes "proxmox") 8006 two_hosts settled.0 settled.1 ≡ settled)
pass_settles_example =
    pass_settles store (codes "prod") (codes "proxmox") 8006 broken (two_hosts ∷ []) two_hosts none
      store-Answers refreshed_full
