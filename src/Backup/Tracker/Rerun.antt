-- ===== src/Backup/Tracker/Rerun.antt =====
-- A second run of the same phase.
use k8s_homelab.Prelude.{
  ◌≡◌, refl, ap, sym, ◌∙◌, List, [], ◌∷◌, Option, none, some, Bool, true, false, ◌&&◌, arith, Eq,
  ◌==◌, ==_eq, any, all, eq_nil_of_contains, list_eq, nat_eq,
}
use k8s_homelab.Prelude.{option_eq, Bool-cases, inl, inr}
use k8s_homelab.Prelude.Text.{Text}
use k8s_homelab.Prelude.Dict.{lookup}
use k8s_homelab.Backup.Tracker.{Disk, Step, write, keep, start, run_phase}
use k8s_homelab.Backup.Tracker.Scan.{in_scope, lookup-scan_existing}
use k8s_homelab.Backup.Tracker.Steps.{is_written, content_after}
use k8s_homelab.Backup.Tracker.Sweep.{is_scanned, is_orphan, disk-run_phase}
use k8s_homelab.Backup.Tracker.Reports.{
  changes, added-run_phase, removed-run_phase, modified-run_phase,
}

pub content_after_unwritten :
    (p : Text) (ss : List Step) (old : Option Text)
    → is_written p ss ≡ false
    → content_after p ss old ≡ old
content_after_unwritten p [] old h = refl
content_after_unwritten p (write rel content ∷ ss) old h =
    ground (arith, content_after_unwritten p ss old)
content_after_unwritten p (keep rels ∷ ss) old h = content_after_unwritten p ss old h

content_after_written :
    (p : Text) (ss : List Step) (old new : Option Text)
    → is_written p ss ≡ true
    → content_after p ss old ≡ content_after p ss new
content_after_written p [] old new h = absurd (cc)
content_after_written p (write rel content ∷ ss) old new h =
    ground (arith, content_after_written p ss old new)
content_after_written p (keep rels ∷ ss) old new h = content_after_written p ss old new h

module _ (owns : Text → Bool) (steps : List Step) where
  -- A step that writes an owned path in the scan's scope, with the content written there last.
  abbrev pub stays : Step → Bool
  stays (write rel content) =
      (in_scope rel && owns rel) && content_after rel steps none == some content
  stays (keep rels) = true

  -- Some step writes the path last.
  written_last :
      (p : Text) (ss : List Step)
      → all stays ss ≡ true
      → is_written p ss ≡ true
      → (in_scope p ≡ true) × (owns p ≡ true) × ((c : Text) × (content_after p steps none ≡ some c))
  written_last p [] h w = absurd (cc)
  written_last p (write rel content ∷ ss) h w = elim (Bool-cases (rel == p)) [
    | inl e ↦
        let q = sym (==_eq rel p e) in
        (
          ap in_scope q ∙ ground arith,
          ap owns q ∙ ground arith,
          (
            content,
            ap (λ r. content_after r steps none) q
                ∙ ==_eq (content_after rel steps none) (some content) (ground arith),
          ),
        )
    | inr e ↦ written_last p ss (ground arith) (ground arith)
  ]
  written_last p (keep rels ∷ ss) h w = written_last p ss (ground arith) w

  -- A path that some step writes is held by its last content.
  written_of_content :
      (p : Text) (c : Text) → content_after p steps none ≡ some c → is_written p steps ≡ true
  written_of_content p c e = ground (arith, content_after_unwritten p steps none)

module _ {H : Type 0} ⦃e : Eq H⦄ (hash : Text → H) (owns : Text → Bool) (steps : List Step)
    (disk : Disk) (settled : all (stays owns steps) steps ≡ true) where
  -- The disk after the first run.
  abbrev pub once : Disk
  once = (run_phase hash false owns steps disk).disk

  lookup-once : (p : Text) (c : Text) → content_after p steps none ≡ some c → lookup p once ≡ some c
  lookup-once p c m = ground (
    arith,
    disk-run_phase hash owns steps disk p,
    written_of_content owns steps p c,
    content_after_written p steps (lookup p disk) none,
  )

  written-once : (p : Text) → is_written p steps ≡ true → is_scanned hash owns p once ≡ true
  written-once p w =
      let (s, o, (c, m)) = written_last owns steps p steps settled w in
      ground (arith, lookup-once p c m)

  orphan-once : (p : Text) → is_orphan hash owns p steps once ≡ false
  orphan-once p = ground (
    arith,
    disk-run_phase hash owns steps disk p,
    content_after_unwritten p steps (lookup p disk),
  )

  before-once :
      (p : Text) (c : Text)
      → (in_scope p && owns p) ≡ true
      → content_after p steps none ≡ some c
      → lookup p (start hash owns once).tracker.before ≡ some (hash c)
  unfolding start
  before-once p c s m = ground (arith, lookup-scan_existing hash owns once p, lookup-once p c m)

  unchanged-once :
      (dry_run : Bool) (p : Text) (ss : List Step)
      → all (stays owns steps) ss ≡ true
      → any (changes hash dry_run p (start hash owns once).tracker.before) ss ≡ false
  unchanged-once dry_run p [] h = refl
  unchanged-once dry_run p (write rel content ∷ ss) h =
      let m = ==_eq (content_after rel steps none) (some content) (ground arith) in
      ground (
        arith,
        before-once rel content (ground arith) m,
        unchanged-once dry_run p ss (ground arith),
      )
  unchanged-once dry_run p (keep rels ∷ ss) h = unchanged-once dry_run p ss h

  disk_again : (p : Text) → lookup p (run_phase hash false owns steps once).disk ≡ lookup p once
  disk_again p = elim (Bool-cases (is_written p steps)) [
    | inl w ↦
        let (s, o, (c, m)) = written_last owns steps p steps settled w in
        ground (
          arith,
          disk-run_phase hash owns steps once p,
          orphan-once p,
          lookup-once p c m,
          content_after_written p steps (lookup p once) none,
        )
    | inr w ↦ ground (
      arith,
      disk-run_phase hash owns steps once p,
      orphan-once p,
      content_after_unwritten p steps (lookup p once),
    )
  ]

  -- A second run of a phase whose steps stay in its scope reports nothing added, modified or
  -- removed, and leaves every file as the first run left it.
  pub run_phase_again :
      (dry_run : Bool) (p : Text)
      → ((run_phase hash dry_run owns steps once).tracker.report.added ≡ [])
        × ((run_phase hash dry_run owns steps once).tracker.report.modified ≡ [])
        × ((run_phase hash dry_run owns steps once).tracker.report.removed ≡ [])
        × (lookup p (run_phase hash false owns steps once).disk ≡ lookup p once)
  run_phase_again dry_run p =
      let again = run_phase hash dry_run owns steps once in
      (
        eq_nil_of_contains again.tracker.report.added
            (λ q. added-run_phase hash owns dry_run steps once q ∙ ground (arith, written-once q)),
        eq_nil_of_contains again.tracker.report.modified (λ q.
            modified-run_phase hash owns dry_run steps once q
            ∙ unchanged-once dry_run q steps settled),
        eq_nil_of_contains again.tracker.report.removed
            (λ q. removed-run_phase hash owns dry_run steps once q ∙ orphan-once q),
        disk_again p,
      )
