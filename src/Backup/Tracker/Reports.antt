-- ===== src/Backup/Tracker/Reports.antt =====
-- What the report of a phase says.
use k8s_homelab.Prelude.{
  ◌≡◌, refl, ap, ◌∙◌, List, [], ◌∷◌, none, some, Bool, false, not, ◌&&◌, ◌||◌, arith, Eq, ◌==◌,
  contains, any, contains-append, list_eq, nat_eq,
}
use k8s_homelab.Prelude.Text.{Text}
use k8s_homelab.Prelude.Dict.{Dict, lookup}
use k8s_homelab.Backup.Tracker.{
  Disk, FileTracker, Phase, Step, write, keep, is_held, start, record_written, write_text, keep_one,
  keep_existing, unlink_one, unlink_all, orphaned,
}
use k8s_homelab.Backup.Tracker.{sweep_orphans, run_step, run_steps, run_phase, no_report}
use k8s_homelab.Backup.Tracker.Steps.{writes, is_written, before-run_step}
use k8s_homelab.Backup.Tracker.Sweep.{is_scanned, is_held-start, is_orphan, contains_orphan}

module _ {H : Type 0} where
  -- The lists but `unchanged` as a step that keeps leaves them.
  added-keep_existing :
      (rels : List Text) (t : FileTracker H)
      → ((keep_existing rels t).report.added ≡ t.report.added)
        × ((keep_existing rels t).report.modified ≡ t.report.modified)
        × ((keep_existing rels t).report.removed ≡ t.report.removed)
  unfolding keep_existing keep_one
  added-keep_existing [] t = (refl, refl, refl)
  added-keep_existing (rel ∷ rels) t =
      let (a, m, r) = added-keep_existing rels (keep_one rel t) in
      (ground arith, ground arith, ground arith)

  unlinked-unlink_all :
      (dry_run : Bool) (rels : List Text) (r : Phase H)
      → ((unlink_all dry_run rels r).tracker.report.added ≡ r.tracker.report.added)
        × ((unlink_all dry_run rels r).tracker.report.modified ≡ r.tracker.report.modified)
  unfolding unlink_all unlink_one
  unlinked-unlink_all dry_run [] r = (refl, refl)
  unlinked-unlink_all dry_run (rel ∷ rels) r =
      unlinked-unlink_all dry_run rels (unlink_one dry_run rel r)

  removed-unlink_all :
      (dry_run : Bool) (rels : List Text) (r : Phase H) (p : Text)
      → contains (unlink_all dry_run rels r).tracker.report.removed p
        ≡ (contains r.tracker.report.removed p || contains rels p)
  unfolding unlink_all unlink_one
  removed-unlink_all dry_run [] r p = ground arith
  removed-unlink_all dry_run (rel ∷ rels) r p = ground (
    arith,
    removed-unlink_all dry_run rels (unlink_one dry_run rel r) p,
    contains-append r.tracker.report.removed (rel ∷ []) p,
  )

module _ {H : Type 0} ⦃e : Eq H⦄ (hash : Text → H) (dry_run : Bool) where
  -- A write of the path with another content than its file's at the scan.
  abbrev pub changes : Text → Dict Text H → Step → Bool
  changes p before (write rel content) =
      rel == p && elim (lookup rel before) [ none ↦ false | some h ↦ not (h == hash content) ]
  changes p before (keep rels) = false

  added-run_step :
      (s : Step) (r : Phase H) (p : Text)
      → contains (run_step hash dry_run s r).tracker.report.added p
        ≡ (contains r.tracker.report.added p || (writes p s && not (is_held p r.tracker.before)))
  unfolding run_step write_text record_written
  added-run_step (write rel content) r p =
      ground (arith, contains-append r.tracker.report.added (rel ∷ []) p)
  added-run_step (keep rels) r p = ground (arith, added-keep_existing rels r.tracker)

  modified-run_step :
      (s : Step) (r : Phase H) (p : Text)
      → contains (run_step hash dry_run s r).tracker.report.modified p
        ≡ (contains r.tracker.report.modified p || changes p r.tracker.before s)
  unfolding run_step write_text record_written
  modified-run_step (write rel content) r p =
      ground (arith, contains-append r.tracker.report.modified (rel ∷ []) p)
  modified-run_step (keep rels) r p = ground (arith, added-keep_existing rels r.tracker)

  removed-run_step :
      (s : Step) (r : Phase H)
      → (run_step hash dry_run s r).tracker.report.removed ≡ r.tracker.report.removed
  unfolding run_step write_text record_written
  removed-run_step (write rel content) r = ground arith
  removed-run_step (keep rels) r = ground (arith, added-keep_existing rels r.tracker)

  added-run_steps :
      (ss : List Step) (r : Phase H) (p : Text)
      → contains (run_steps hash dry_run ss r).tracker.report.added p ≡ (
          contains r.tracker.report.added p
          || (is_written p ss && not (is_held p r.tracker.before)))
  unfolding run_steps
  added-run_steps [] r p = ground arith
  added-run_steps (s ∷ ss) r p = ground (
    arith,
    added-run_steps ss (run_step hash dry_run s r) p,
    added-run_step s r p,
    before-run_step hash dry_run s r,
  )

  modified-run_steps :
      (ss : List Step) (r : Phase H) (p : Text)
      → contains (run_steps hash dry_run ss r).tracker.report.modified p
        ≡ (contains r.tracker.report.modified p || any (changes p r.tracker.before) ss)
  unfolding run_steps
  modified-run_steps [] r p = ground arith
  modified-run_steps (s ∷ ss) r p =
      modified-run_steps ss (run_step hash dry_run s r) p
      ∙ ap
          (λ b.
            contains (run_step hash dry_run s r).tracker.report.modified p || any (changes p b) ss)
          (before-run_step hash dry_run s r)
      ∙ ground (arith, modified-run_step s r p)

  removed-run_steps :
      (ss : List Step) (r : Phase H)
      → (run_steps hash dry_run ss r).tracker.report.removed ≡ r.tracker.report.removed
  unfolding run_steps
  removed-run_steps [] r = refl
  removed-run_steps (s ∷ ss) r =
      removed-run_steps ss (run_step hash dry_run s r) ∙ removed-run_step s r

module _ {H : Type 0} ⦃e : Eq H⦄ (hash : Text → H) (owns : Text → Bool) (dry_run : Bool) where
  report_start : (disk : Disk) → (start hash owns disk).tracker.report ≡ no_report
  unfolding start
  report_start disk = refl

  unlinked-run_phase :
      (steps : List Step) (disk : Disk)
      → let r = run_steps hash dry_run steps (start hash owns disk) in
        ((run_phase hash dry_run owns steps disk).tracker.report.added ≡ r.tracker.report.added)
        × ((run_phase hash dry_run owns steps disk).tracker.report.modified
            ≡ r.tracker.report.modified)
  unfolding run_phase sweep_orphans
  unlinked-run_phase steps disk =
      let r = run_steps hash dry_run steps (start hash owns disk) in
      unlinked-unlink_all dry_run (orphaned r.tracker) r

  -- The files added are those written that the scan did not hold.
  pub added-run_phase :
      (steps : List Step) (disk : Disk) (p : Text)
      → contains (run_phase hash dry_run owns steps disk).tracker.report.added p
        ≡ (is_written p steps && not (is_scanned hash owns p disk))
  added-run_phase steps disk p =
      let r = start hash owns disk in
      ap (λ ps. contains ps p) (unlinked-run_phase steps disk).0
      ∙ ground (
        arith,
        added-run_steps hash dry_run steps r p,
        is_held-start hash owns disk p,
        report_start disk,
      )

  -- The files removed are those held that no step wrote or kept.
  pub removed-run_phase :
      (steps : List Step) (disk : Disk) (p : Text)
      → contains (run_phase hash dry_run owns steps disk).tracker.report.removed p
        ≡ is_orphan hash owns p steps disk
  unfolding run_phase sweep_orphans
  removed-run_phase steps disk p =
      let r = run_steps hash dry_run steps (start hash owns disk) in
      ground (
        arith,
        removed-unlink_all dry_run (orphaned r.tracker) r p,
        contains_orphan hash owns dry_run steps disk p,
        removed-run_steps hash dry_run steps (start hash owns disk),
        report_start disk,
      )

  -- The files modified are those whose content changed.
  pub modified-run_phase :
      (steps : List Step) (disk : Disk) (p : Text)
      → contains (run_phase hash dry_run owns steps disk).tracker.report.modified p
        ≡ any (changes hash dry_run p (start hash owns disk).tracker.before) steps
  modified-run_phase steps disk p =
      let r = start hash owns disk in
      ap (λ ps. contains ps p) (unlinked-run_phase steps disk).1
      ∙ ground (arith, modified-run_steps hash dry_run steps r p, report_start disk)

  -- The report of a phase names as added the paths written that the scan did not hold, as
  -- modified those written with a content whose hash is not the one held, and as removed those
  -- held that no step wrote or kept, in a dry run too.
  pub report-run_phase :
      (steps : List Step) (disk : Disk) (p : Text)
      → let report = (run_phase hash dry_run owns steps disk).tracker.report in
        (contains report.added p ≡ (is_written p steps && not (is_scanned hash owns p disk)))
        × (contains report.modified p
            ≡ any (changes hash dry_run p (start hash owns disk).tracker.before) steps)
        × (contains report.removed p ≡ is_orphan hash owns p steps disk)
  report-run_phase steps disk p = (
    added-run_phase steps disk p,
    modified-run_phase steps disk p,
    removed-run_phase steps disk p,
  )
