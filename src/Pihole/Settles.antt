-- ===== src/Pihole/Settles.antt =====
-- One round of changes settles a Pi-hole.
use k8s_homelab.Prelude.{
  ◌≡◌, refl, ap, List, [], Bool, true, contains, map, some, Option-cases, inl, inr, arith, list_eq,
  nat_eq, pair_eq, string_eq,
}
use k8s_homelab.Prelude.Text.{Text}
use k8s_homelab.Prelude.Sort.{sorted}
use k8s_homelab.Pihole.Plan.{
  Entry, HostScan, Plan, scan_hosts, scan_cnames, host_text, cname_text, no_hosts, plan_from, plan,
}
use k8s_homelab.Pihole.Clean.{IsClean}
use k8s_homelab.Pihole.Converge.{IsApplied, scan_hosts-after}
use k8s_homelab.Pihole.Cnames.{scan_cnames-after}

-- The four lists that `sync_one` checks when it reads back.
pub record IsSettled (p : Plan) : Type 0 where
  pub no_host_removed : p.remove_hosts ≡ []
  pub no_host_added : p.add_hosts ≡ []
  pub no_cname_removed : p.remove_cnames ≡ []
  pub no_cname_added : p.add_cnames ≡ []

module _ (zones : List Text) (wanted : List Entry) (delete : Bool) where
  pub plan-parts :
      (hosts cnames : List Text) (p : Plan)
      → plan zones wanted delete hosts cnames ≡ some p
      → (r : HostScan) × (scan_hosts zones wanted delete hosts (no_hosts zones wanted delete)
          ≡ some r)
        × (p
            ≡ plan_from zones wanted delete r (
                scan_cnames zones wanted delete cnames
                  (record { have = []; remove_cnames = []; left = r.left })))
  unfolding plan
  plan-parts hosts cnames p h =
      elim (Option-cases (scan_hosts zones wanted delete hosts (no_hosts zones wanted delete))) [
        | inl e ↦ absurd (ground arith)
        | inr (r, e) ↦ (r, e, ground arith)
      ]

module _ (zones : List Text) (wanted : List Entry) (delete : Bool)
    (clean : (w : Entry) → contains wanted w ≡ true → IsClean zones w) where
  pub plan-settles :
      (hosts cnames : List Text) (p : Plan)
      → plan zones wanted delete hosts cnames ≡ some p
      → (hosts' cnames' : List Text) → IsApplied hosts p.remove_hosts p.add_hosts hosts'
      → IsApplied cnames p.remove_cnames p.add_cnames cnames'
      → (p' : Plan) × (plan zones wanted delete hosts' cnames' ≡ some p') × IsSettled p'
  unfolding plan sorted
  plan-settles hosts cnames p h hosts' cnames' ah ac =
      let (r, scanned, e) = plan-parts zones wanted delete hosts cnames p h in
      let (r', again, rm, ad) =
        scan_hosts-after zones wanted delete clean hosts r scanned hosts' (rw e at ah) in
      let (rmc, adc) =
        scan_cnames-after zones wanted delete clean cnames
          (record { have = []; remove_cnames = []; left = r.left }) refl refl cnames' (rw e at ac)
          (record { have = []; remove_cnames = []; left = r'.left }) refl refl in
      (
        plan_from zones wanted delete r' (
            scan_cnames zones wanted delete cnames'
              (record { have = []; remove_cnames = []; left = r'.left })),
        rw again,
        record {
          no_host_removed = rm;
          no_host_added = ap (λ xs. sorted (map host_text xs)) ad;
          no_cname_removed = rmc;
          no_cname_added = ap (λ xs. sorted (map cname_text xs)) adc;
        },
      )
