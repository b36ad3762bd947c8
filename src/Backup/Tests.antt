-- ===== src/Backup/Tests.antt =====
-- Runs of the backup tool's model, and witnesses.
use native.Mathlib.Decide.{ℕ_discrete}
use k8s_homelab.Prelude.{
  ℕ, ◌+◌, ◌≡◌, refl, List, [], ◌∷◌, Option, none, some, Bool, true, false, not, ◌&&◌, if◌then◌else◌,
  contains, any, all, list_eq, nat_eq, option_eq, pair_eq,
}
use k8s_homelab.Prelude.Text.{Text, codes, starts_with, ends_with}
use k8s_homelab.Prelude.Sort.{sorted}
use k8s_homelab.Prelude.Dict.{keys, lookup, insert, erase}
use k8s_homelab.Backup.Tracker.{
  scan_top_files, Disk, RunReport, Step, write, keep, files_under, scan_file, scan_files, scan_dirs,
  scan_existing, start, record_written, keep_one,
}
use k8s_homelab.Backup.Tracker.{
  keep_existing, unlink_one, unlink_all, orphaned, sweep_orphans, write_text, run_step, run_steps,
  run_phase,
}
use k8s_homelab.Backup.Tracker.Scan.{in_scope}
use k8s_homelab.Backup.Tracker.Steps.{is_written, content_after}
use k8s_homelab.Backup.Tracker.Sweep.{is_scanned, is_orphan, disk-run_phase}
use k8s_homelab.Backup.Tracker.Reports.{changes, report-run_phase}
use k8s_homelab.Backup.Tracker.Rerun.{stays, once, run_phase_again}
use k8s_homelab.Backup.Flux.{
  Object, Key, Parents, ks_name_label, ks_namespace_label, labels_of, applied_by, flux_ownership,
  parent_of, is_seen, walk, below_root, entrypoint,
}
use k8s_homelab.Backup.Flux.Chain.{Climb, IsTop}
use k8s_homelab.Backup.Flux.Entry.{entrypoint-Climb}

abbrev checksum : Text → ℕ
checksum [] = 7
checksum (c ∷ s) = c + checksum s

abbrev no_markdown : Text → Bool
no_markdown rel = not (ends_with rel (codes ".md"))

abbrev old_page : Text
old_page = codes "docs/old.yaml"

abbrev new_page : Text
new_page = codes "docs/new.yaml"

abbrev kept_page : Text
kept_page = codes "docs/kept.yaml"

abbrev before_disk : Disk
before_disk =
    (old_page, codes "a")
    ∷ (kept_page, codes "b")
    ∷ (codes "docs/x.md", codes "c")
    ∷ (codes "src/x.yaml", codes "d")
    ∷ (codes ".gitignore", codes "e")
    ∷ []

abbrev some_steps : List Step
some_steps =
    write new_page (codes "n")
    ∷ keep (kept_page ∷ new_page ∷ [])
    ∷ write (codes ".gitignore") (codes "f")
    ∷ []

ran : Bool → List Step → Disk → Disk × RunReport
unfolding run_phase sweep_orphans unlink_all unlink_one orphaned run_steps run_step write_text
    record_written keep_existing keep_one start scan_existing scan_dirs scan_files scan_file
    files_under scan_top_files starts_with ends_with lookup insert erase keys sorted list_eq nat_eq
    ℕ_discrete
ran dry_run steps disk =
    let r = run_phase checksum dry_run no_markdown steps disk in (r.disk, r.tracker.report)

run_runs :
    (ran false some_steps before_disk ≡ (
      (kept_page, codes "b")
          ∷ (codes "docs/x.md", codes "c")
          ∷ (codes "src/x.yaml", codes "d")
          ∷ (codes ".gitignore", codes "f")
          ∷ (new_page, codes "n")
          ∷ [],
      record {
        added = new_page ∷ [];
        modified = codes ".gitignore" ∷ [];
        unchanged = kept_page ∷ [];
        removed = old_page ∷ [];
        warnings = [];
      },
    ))
    × ((ran true some_steps before_disk).0 ≡ before_disk)
unfolding ran
run_runs = (refl, refl)

disk-run_phase_example :
    lookup old_page (run_phase checksum false no_markdown some_steps before_disk).disk ≡ (
      if is_orphan checksum no_markdown old_page some_steps before_disk
      then none
      else content_after old_page some_steps (lookup old_page before_disk))
disk-run_phase_example = disk-run_phase checksum no_markdown some_steps before_disk old_page

report-run_phase_example :
    let report = (run_phase checksum true no_markdown some_steps before_disk).tracker.report in
    (contains report.added new_page ≡ (
      is_written new_page some_steps && not (is_scanned checksum no_markdown new_page before_disk)))
    × (contains report.modified new_page
        ≡ any
            (changes checksum true new_page (start checksum no_markdown before_disk).tracker.before)
            some_steps)
    × (contains report.removed new_page
        ≡ is_orphan checksum no_markdown new_page some_steps before_disk)
report-run_phase_example =
    report-run_phase checksum no_markdown true some_steps before_disk new_page

some_steps-stays : all (stays no_markdown some_steps) some_steps ≡ true
unfolding in_scope scan_top_files starts_with ends_with option_eq list_eq nat_eq ℕ_discrete
some_steps-stays = refl

abbrev disk_once : Disk
disk_once = once checksum no_markdown some_steps before_disk some_steps-stays

run_phase_again_example :
    ((run_phase checksum false no_markdown some_steps disk_once).tracker.report.added ≡ [])
    × ((run_phase checksum false no_markdown some_steps disk_once).tracker.report.modified ≡ [])
    × ((run_phase checksum false no_markdown some_steps disk_once).tracker.report.removed ≡ [])
    × (lookup new_page (run_phase checksum false no_markdown some_steps disk_once).disk
        ≡ lookup new_page disk_once)
run_phase_again_example =
    run_phase_again checksum no_markdown some_steps before_disk some_steps-stays false new_page

-- Flux.
abbrev system : Option Text
system = some (codes "flux-system")

abbrev applied : Text → Text → Object
applied name parent = record {
  namespace = system;
  name = some name;
  labels = some (
      (codes "kustomize.toolkit.fluxcd.io/namespace", codes "flux-system")
      ∷ (codes "kustomize.toolkit.fluxcd.io/name", parent)
      ∷ []);
}

abbrev kustomizations : List Object
kustomizations =
    applied (codes "flux-system") (codes "flux-system")
    ∷ applied (codes "cluster") (codes "flux-system")
    ∷ applied (codes "app") (codes "cluster")
    ∷ applied (codes "shared") (codes "flux-system")
    ∷ []

climbed : Object → Option Text
unfolding flux_ownership entrypoint walk is_seen parent_of below_root applied_by labels_of
    ks_name_label ks_namespace_label insert lookup keys pair_eq option_eq list_eq nat_eq ℕ_discrete
climbed obj = entrypoint (flux_ownership kustomizations []) obj

climbed_runs :
    (climbed (applied (codes "x") (codes "app")) ≡ some (codes "cluster"))
    × (climbed (applied (codes "x") (codes "shared")) ≡ some (codes "shared"))
    × (climbed (applied (codes "x") (codes "flux-system")) ≡ some (codes "flux-system"))
    × (climbed (applied (codes "x") (codes "gone")) ≡ none)
unfolding climbed
climbed_runs = (refl, refl, refl, refl)

abbrev parents : Parents
parents = flux_ownership kustomizations []

abbrev shared_key : Key
shared_key = (system, codes "shared")

abbrev app_key : Key
app_key = (system, codes "app")

abbrev root_key : Key
root_key = (system, codes "flux-system")

applied_eq :
    (applied_by (applied (codes "x") (codes "app")) ≡ some app_key)
    × (applied_by (applied (codes "x") (codes "shared")) ≡ some shared_key)
unfolding applied_by labels_of ks_name_label ks_namespace_label lookup option_eq list_eq nat_eq
    ℕ_discrete
applied_eq = (refl, refl)

parents_eq :
    (is_seen parents app_key ≡ true)
    × (is_seen parents shared_key ≡ true)
    × (parent_of parents shared_key ≡ some root_key)
    × (parent_of parents root_key ≡ some root_key)
unfolding flux_ownership is_seen parent_of applied_by labels_of ks_name_label ks_namespace_label
    insert lookup keys pair_eq option_eq list_eq nat_eq ℕ_discrete
parents_eq = (refl, refl, refl, refl)

entrypoint-Climb_example :
    (last : Key) × (below : List Key) × Climb parents app_key last below
    × IsTop parents last below
    × (entrypoint parents (applied (codes "x") (codes "app")) ≡ some (below_root last below))
entrypoint-Climb_example =
    entrypoint-Climb parents (applied (codes "x") (codes "app")) app_key applied_eq.0 parents_eq.0
