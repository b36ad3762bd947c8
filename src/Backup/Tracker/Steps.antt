-- ===== src/Backup/Tracker/Steps.antt =====
-- What the steps of a phase do to the disk and to the tracker.
use k8s_homelab.Prelude.{
  ◌≡◌, refl, List, [], ◌∷◌, Option, some, Bool, true, false, ◌&&◌, ◌||◌, arith, if◌then◌else◌, Eq,
  ◌==◌, contains, any, list_eq, nat_eq,
}
use k8s_homelab.Prelude.Text.{Text}
use k8s_homelab.Prelude.Dict.{lookup, lookup-insert}
use k8s_homelab.Backup.Tracker.{
  FileTracker, Phase, Step, write, keep, is_held, record_written, keep_one, keep_existing,
  write_text, run_step, run_steps,
}

abbrev pub writes : Text → Step → Bool
writes p (write rel content) = rel == p
writes p (keep rels) = false

abbrev pub keeps : Text → Step → Bool
keeps p (write rel content) = false
keeps p (keep rels) = contains rels p

abbrev pub is_written : Text → List Step → Bool
is_written p steps = any (writes p) steps

abbrev pub is_kept : Text → List Step → Bool
is_kept p steps = any (keeps p) steps

-- What the steps leave in a file that `old` stands in.
abbrev pub content_after : Text → List Step → Option Text → Option Text
content_after p [] old = old
content_after p (write rel content ∷ ss) old =
    content_after p ss (if rel == p then some content else old)
content_after p (keep rels ∷ ss) old = content_after p ss old

module _ {H : Type 0} where
  pub before-keep_existing :
      (rels : List Text) (t : FileTracker H) → (keep_existing rels t).before ≡ t.before
  unfolding keep_existing keep_one
  before-keep_existing [] t = refl
  before-keep_existing (rel ∷ rels) t = ground (arith, before-keep_existing rels (keep_one rel t))

  seen-keep_existing :
      (rels : List Text) (t : FileTracker H) (p : Text)
      → contains (keep_existing rels t).seen p
        ≡ (contains t.seen p || (contains rels p && is_held p t.before))
  unfolding keep_existing keep_one
  seen-keep_existing [] t p = ground arith
  seen-keep_existing (rel ∷ rels) t p = ground (arith, seen-keep_existing rels (keep_one rel t) p)

module _ {H : Type 0} ⦃e : Eq H⦄ (hash : Text → H) (dry_run : Bool) where
  pub before-run_step :
      (s : Step) (r : Phase H) → (run_step hash dry_run s r).tracker.before ≡ r.tracker.before
  unfolding run_step write_text record_written
  before-run_step (write rel content) r = refl
  before-run_step (keep rels) r = before-keep_existing rels r.tracker

  pub before-run_steps :
      (ss : List Step) (r : Phase H)
      → (run_steps hash dry_run ss r).tracker.before ≡ r.tracker.before
  unfolding run_steps
  before-run_steps [] r = refl
  before-run_steps (s ∷ ss) r =
      ground (arith, before-run_steps ss (run_step hash dry_run s r), before-run_step s r)

  seen-run_step :
      (s : Step) (r : Phase H) (p : Text)
      → contains (run_step hash dry_run s r).tracker.seen p
        ≡ (contains r.tracker.seen p || writes p s || (keeps p s && is_held p r.tracker.before))
  unfolding run_step write_text record_written
  seen-run_step (write rel content) r p = ground arith
  seen-run_step (keep rels) r p = ground (arith, seen-keep_existing rels r.tracker p)

  pub seen-run_steps :
      (ss : List Step) (r : Phase H) (p : Text)
      → contains (run_steps hash dry_run ss r).tracker.seen p ≡ (
          contains r.tracker.seen p
          || is_written p ss
          || (is_kept p ss && is_held p r.tracker.before))
  unfolding run_steps
  seen-run_steps [] r p = ground arith
  seen-run_steps (s ∷ ss) r p = ground (
    arith,
    seen-run_steps ss (run_step hash dry_run s r) p,
    seen-run_step s r p,
    before-run_step s r,
  )

module _ {H : Type 0} ⦃e : Eq H⦄ (hash : Text → H) where
  pub disk-run_steps :
      (ss : List Step) (r : Phase H) (p : Text)
      → lookup p (run_steps hash false ss r).disk ≡ content_after p ss (lookup p r.disk)
  unfolding run_steps run_step write_text
  disk-run_steps [] r p = refl
  disk-run_steps (write rel content ∷ ss) r p =
      rw
        (
          disk-run_steps ss (run_step hash false (write rel content) r) p,
          lookup-insert rel p content r.disk,
        )
        refl
  disk-run_steps (keep rels ∷ ss) r p = disk-run_steps ss (run_step hash false (keep rels) r) p

  pub disk_dry-run_steps : (ss : List Step) (r : Phase H) → (run_steps hash true ss r).disk ≡ r.disk
  unfolding run_steps run_step write_text
  disk_dry-run_steps [] r = refl
  disk_dry-run_steps (write rel content ∷ ss) r =
      disk_dry-run_steps ss (run_step hash true (write rel content) r)
  disk_dry-run_steps (keep rels ∷ ss) r = disk_dry-run_steps ss (run_step hash true (keep rels) r)
