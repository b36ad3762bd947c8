-- ===== src/Backup/Tracker.antt =====
-- FileTracker of scripts/k8s_backup/filetracker.py, and the writes of Sink in
-- scripts/k8s_backup/sink.py that feed it. A path is relative to the root, in posix form, and the
-- disk maps the path of each file to its content; the hash and the test of ownership are
-- parameters. The directories are left out, and so is the removal of the empty ones.
pub mod Scan
pub mod Steps
pub mod Sweep
pub mod Reports
pub mod Rerun
use k8s_homelab.Prelude.{
  List, [], ◌∷◌, ◌++◌, Option, none, some, Bool, true, false, not, ◌||◌, ◌&&◌, if◌then◌else◌, Eq,
  ◌==◌, contains, filter, add, minus, list_eq, nat_eq,
}
use k8s_homelab.Prelude.Text.{Text, codes, starts_with}
use k8s_homelab.Prelude.Sort.{sorted}
use k8s_homelab.Prelude.Dict.{Dict, keys, lookup, insert, erase}

abbrev pub scan_roots : List Text
scan_roots = codes "kubernetes" ∷ codes "docs" ∷ []

unfoldable pub scan_top_files : List Text
scan_top_files =
    codes "README.md" ∷ codes ".sops.yaml" ∷ codes ".gitignore" ∷ codes ".gitattributes" ∷ []

abbrev pub Disk : Type 0
Disk = Dict Text Text

pub record RunReport : Type 0 where
  pub added : List Text
  pub modified : List Text
  pub unchanged : List Text
  pub removed : List Text
  pub warnings : List Text

pub record FileTracker (H : Type 0) : Type 0 where
  pub report : RunReport
  pub before : Dict Text H
  pub seen : List Text

-- A phase at work: the disk and its tracker.
pub record Phase (H : Type 0) : Type 0 where
  pub disk : Disk
  pub tracker : FileTracker H

-- What a phase does with the tracker.
pub data Step : Type 0 where
  write : Text → Text → Step
  keep : List Text → Step

abbrev pub no_report : RunReport
no_report = record { added = []; modified = []; unchanged = []; removed = []; warnings = [] }

-- The files below a directory.
unfoldable pub files_under : Text → Disk → List Text
unfolding keys
files_under base disk = filter (λ rel. starts_with rel (base ++ codes "/")) (keys disk)

module _ {H : Type 0} ⦃e : Eq H⦄ (hash : Text → H) (owns : Text → Bool) where
  unfoldable pub scan_file : Disk → Text → Dict Text H → Dict Text H
  scan_file disk rel before = elim (lookup rel disk) [
    | none ↦ before
    | some content ↦ if owns rel then insert rel (hash content) before else before
  ]

  unfoldable pub scan_files : Disk → List Text → Dict Text H → Dict Text H
  scan_files disk [] before = before
  scan_files disk (rel ∷ rels) before = scan_files disk rels (scan_file disk rel before)

  unfoldable pub scan_dirs : Disk → List Text → Dict Text H → Dict Text H
  scan_dirs disk [] before = before
  scan_dirs disk (base ∷ bases) before =
      scan_dirs disk bases (scan_files disk (files_under base disk) before)

  unfoldable pub scan_existing : Disk → Dict Text H
  scan_existing disk = scan_files disk scan_top_files (scan_dirs disk scan_roots [])

  unfoldable pub start : Disk → Phase H
  start disk = record {
    disk = disk;
    tracker = record { report = no_report; before = scan_existing disk; seen = [] };
  }

module _ {H : Type 0} ⦃e : Eq H⦄ (hash : Text → H) where
  unfoldable pub record_written : Text → Text → FileTracker H → FileTracker H
  record_written rel content t =
      let r = t.report in
      record t {
        seen = add rel t.seen;
        report = elim (lookup rel t.before) [
          | none ↦ record r { added = r.added ++ rel ∷ [] }
          | some old_hash ↦
              if old_hash == hash content
              then record r { unchanged = r.unchanged ++ rel ∷ [] }
              else record r { modified = r.modified ++ rel ∷ [] }
        ];
      }

abbrev pub is_held : {H : Type 0} → Text → Dict Text H → Bool
is_held rel before = elim (lookup rel before) [ none ↦ false | some h ↦ true ]

module _ {H : Type 0} where
  unfoldable pub keep_one : Text → FileTracker H → FileTracker H
  keep_one rel t =
      let r = t.report in
      if is_held rel t.before && not (contains t.seen rel)
      then record t {
        seen = add rel t.seen;
        report = record r { unchanged = r.unchanged ++ rel ∷ [] };
      }
      else t

  unfoldable pub keep_existing : List Text → FileTracker H → FileTracker H
  keep_existing [] t = t
  keep_existing (rel ∷ rels) t = keep_existing rels (keep_one rel t)

  unfoldable pub was_written : Text → FileTracker H → Bool
  was_written rel t = contains t.seen rel

  unfoldable pub unlink_one : Bool → Text → Phase H → Phase H
  unlink_one dry_run rel p =
      let t = p.tracker in
      let r = t.report in
      record {
        disk = if dry_run then p.disk else erase rel p.disk;
        tracker = record t { report = record r { removed = r.removed ++ rel ∷ [] } };
      }

  unfoldable pub unlink_all : Bool → List Text → Phase H → Phase H
  unlink_all dry_run [] p = p
  unlink_all dry_run (rel ∷ rels) p = unlink_all dry_run rels (unlink_one dry_run rel p)

  unfoldable pub orphaned : FileTracker H → List Text
  orphaned t = sorted (minus (keys t.before) t.seen)

  unfoldable pub sweep_orphans : Bool → Phase H → Phase H
  sweep_orphans dry_run p = unlink_all dry_run (orphaned p.tracker) p

module _ {H : Type 0} ⦃e : Eq H⦄ (hash : Text → H) (dry_run : Bool) where
  -- `Sink.write_text`: the file, unless the run is dry, and the record of it.
  unfoldable pub write_text : Text → Text → Phase H → Phase H
  write_text rel content p = record {
    disk = if dry_run then p.disk else insert rel content p.disk;
    tracker = record_written hash rel content p.tracker;
  }

  unfoldable pub run_step : Step → Phase H → Phase H
  run_step (write rel content) p = write_text rel content p
  run_step (keep rels) p = record p { tracker = keep_existing rels p.tracker }

  unfoldable pub run_steps : List Step → Phase H → Phase H
  run_steps [] p = p
  run_steps (s ∷ ss) p = run_steps ss (run_step s p)

  -- A whole phase: the scan, its steps, the sweep.
  unfoldable pub run_phase : (Text → Bool) → List Step → Disk → Phase H
  run_phase owns steps disk = sweep_orphans dry_run (run_steps steps (start hash owns disk))
