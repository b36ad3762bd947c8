-- ===== src/Backup/Tracker/Sweep.antt =====
-- What a phase leaves on the disk.
use k8s_homelab.Prelude.{
  ◌≡◌, refl, ap, ◌∙◌, List, [], ◌∷◌, none, Bool, true, false, not, ◌&&◌, ◌||◌, arith, if◌then◌else◌,
  Eq, contains, minus, contains-filter, list_eq, nat_eq,
}
use k8s_homelab.Prelude.Text.{Text}
use k8s_homelab.Prelude.Sort.{contains-sorted}
use k8s_homelab.Prelude.Dict.{keys, lookup, lookup-erase}
use k8s_homelab.Backup.Tracker.{
  Disk, FileTracker, Phase, Step, is_held, start, unlink_one, unlink_all, orphaned, sweep_orphans,
  run_steps, run_phase,
}
use k8s_homelab.Backup.Tracker.Scan.{in_scope, contains-keys, lookup-scan_existing}
use k8s_homelab.Backup.Tracker.Steps.{
  is_written, is_kept, content_after, seen-run_steps, before-run_steps, disk-run_steps,
  disk_dry-run_steps,
}

module _ {H : Type 0} where
  pub contains-orphaned :
      (t : FileTracker H) (p : Text)
      → contains (orphaned t) p ≡ (is_held p t.before && not (contains t.seen p))
  unfolding orphaned
  contains-orphaned t p =
      contains-sorted (minus (keys t.before) t.seen) p
      ∙ ground (
        arith,
        contains-filter (λ a. not (contains t.seen a)) (keys t.before) p,
        contains-keys p t.before,
      )

  disk-unlink_all :
      (rels : List Text) (r : Phase H) (p : Text)
      → lookup p (unlink_all false rels r).disk
        ≡ (if contains rels p then none else lookup p r.disk)
  unfolding unlink_all unlink_one
  disk-unlink_all [] r p = refl
  disk-unlink_all (rel ∷ rels) r p =
      ground (arith, disk-unlink_all rels (unlink_one false rel r) p, lookup-erase rel p r.disk)

  disk_dry-unlink_all : (rels : List Text) (r : Phase H) → (unlink_all true rels r).disk ≡ r.disk
  unfolding unlink_all unlink_one
  disk_dry-unlink_all [] r = refl
  disk_dry-unlink_all (rel ∷ rels) r = disk_dry-unlink_all rels (unlink_one true rel r)

module _ {H : Type 0} ⦃e : Eq H⦄ (hash : Text → H) (owns : Text → Bool) where
  -- A file that the phase may delete.
  abbrev pub is_scanned : Text → Disk → Bool
  is_scanned p disk = (in_scope p && owns p) && is_held p disk

  pub is_held-start :
      (disk : Disk) (p : Text) → is_held p (start hash owns disk).tracker.before ≡ is_scanned p disk
  unfolding start
  is_held-start disk p = ground (arith, lookup-scan_existing hash owns disk p)

  pub is_held-run_steps :
      (dry_run : Bool) (steps : List Step) (disk : Disk) (p : Text)
      → is_held p (run_steps hash dry_run steps (start hash owns disk)).tracker.before
        ≡ is_scanned p disk
  is_held-run_steps dry_run steps disk p =
      ap (is_held p) (before-run_steps hash dry_run steps (start hash owns disk))
      ∙ is_held-start disk p

  seen_start : (disk : Disk) → (start hash owns disk).tracker.seen ≡ []
  unfolding start
  seen_start disk = refl

  disk_start : (disk : Disk) → (start hash owns disk).disk ≡ disk
  unfolding start
  disk_start disk = refl

  -- What the steps saw: a file written, and a file kept that the scan held.
  pub seen-phase :
      (dry_run : Bool) (steps : List Step) (disk : Disk) (p : Text)
      → contains (run_steps hash dry_run steps (start hash owns disk)).tracker.seen p
        ≡ (is_written p steps || (is_kept p steps && is_scanned p disk))
  seen-phase dry_run steps disk p = ground (
    arith,
    seen-run_steps hash dry_run steps (start hash owns disk) p,
    is_held-start disk p,
    seen_start disk,
  )

  -- The file is removed at the end of the phase.
  abbrev pub is_orphan : Text → List Step → Disk → Bool
  is_orphan p steps disk = is_scanned p disk && not (is_written p steps || is_kept p steps)

  pub contains_orphan :
      (dry_run : Bool) (steps : List Step) (disk : Disk) (p : Text)
      → contains (orphaned (run_steps hash dry_run steps (start hash owns disk)).tracker) p
        ≡ is_orphan p steps disk
  contains_orphan dry_run steps disk p = ground (
    arith,
    contains-orphaned (run_steps hash dry_run steps (start hash owns disk)).tracker p,
    is_held-run_steps dry_run steps disk p,
    seen-phase dry_run steps disk p,
  )

  -- A phase that is not dry leaves in each path what its steps wrote last or what was there, but
  -- for the owned files in the scan's scope that no step wrote or kept, which are gone.
  pub disk-run_phase :
      (steps : List Step) (disk : Disk) (p : Text)
      → lookup p (run_phase hash false owns steps disk).disk
        ≡ (if is_orphan p steps disk then none else content_after p steps (lookup p disk))
  unfolding run_phase sweep_orphans
  disk-run_phase steps disk p =
      let r = run_steps hash false steps (start hash owns disk) in
      ground (
        arith,
        disk-unlink_all (orphaned r.tracker) r p,
        contains_orphan false steps disk p,
        disk-run_steps hash steps (start hash owns disk) p,
        disk_start disk,
      )

  -- A dry run changes no file.
  pub disk_dry-run_phase :
      (steps : List Step) (disk : Disk) → (run_phase hash true owns steps disk).disk ≡ disk
  unfolding run_phase sweep_orphans
  disk_dry-run_phase steps disk =
      let r = run_steps hash true steps (start hash owns disk) in
      disk_dry-unlink_all (orphaned r.tracker) r
      ∙ disk_dry-run_steps hash steps (start hash owns disk)
      ∙ disk_start disk
