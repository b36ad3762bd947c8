-- ===== src/Backup/Ownership/Runs.antt =====
-- A run of one phase leaves the files of the other.
use k8s_homelab.Prelude.{
  contains, ◌&&◌, inr, not, list_eq, nat_eq, inl, Bool-cases, arith, true, false, ◌≡◌, List, Bool,
  Eq,
}
use k8s_homelab.Prelude.Dict.{lookup}
use k8s_homelab.Prelude.Text.{Text}
use k8s_homelab.Backup.Ownership.Names.{file_name, generate_names, generate_owns_named}
use k8s_homelab.Backup.Ownership.{
  generate_owner, capture_owner, promoted_owns, capture_owns, generate_owns,
}
use k8s_homelab.Backup.Ownership.Apart.{generate_owns_apart}
use k8s_homelab.Backup.Tracker.Rerun.{content_after_unwritten}
use k8s_homelab.Backup.Tracker.Sweep.{disk-run_phase}
use k8s_homelab.Backup.Tracker.{run_phase, Disk, Step}
use k8s_homelab.Backup.Tracker.Steps.{is_written}

-- The paths of a phase, capture or generate, with the folders of promoted releases and the paths that
-- hand-written ones protect.
abbrev pub owner_of : List Text → List Text → Bool → Text → Bool
owner_of folders protected true = capture_owner folders protected
owner_of folders protected false = generate_owner protected

-- A manifest of a promoted release that has the name of a file that generate owns.
abbrev pub has_shared_name : List Text → Text → Bool
has_shared_name folders p = promoted_owns folders p && contains generate_names (file_name p)

module _ (folders protected : List Text) where
  owners_apart :
      (capturing : Bool) (p : Text)
      → has_shared_name folders p ≡ false
      → owner_of folders protected (not capturing) p ≡ true
      → owner_of folders protected capturing p ≡ false
  unfolding capture_owner generate_owner
  owners_apart true p h o = elim (Bool-cases (capture_owns p)) [
    | inl c ↦ absurd (ground (arith, generate_owns_apart p c))
    | inr c ↦ ground (arith, generate_owns_named p)
  ]
  owners_apart false p h o = elim (Bool-cases (generate_owns p)) [
    | inl g ↦ elim (Bool-cases (capture_owns p)) [
      | inl c ↦ absurd (ground (arith, generate_owns_apart p c))
      | inr c ↦ absurd (ground (arith, generate_owns_named p g))
    ]
    | inr g ↦ ground arith
  ]

module _ {H : Type 0} ⦃e : Eq H⦄ (hash : Text → H) where
  -- A file that a phase does not own, and does not write, is left as it is.
  leaves_unowned :
      (owns : Text → Bool) (steps : List Step) (disk : Disk) (p : Text)
      → owns p ≡ false
      → is_written p steps ≡ false
      → lookup p (run_phase hash false owns steps disk).disk ≡ lookup p disk
  leaves_unowned owns steps disk p h w = ground (
    arith,
    disk-run_phase hash owns steps disk p,
    content_after_unwritten p steps (lookup p disk),
  )

  -- A run of capture or of generate, with the paths that it owns, leaves each file as it is that the
  -- other phase owns and that the run does not write; a file in the app folder of a promoted release
  -- that has the name of one of generate's, such as helmrelease.yaml, is not claimed.
  pub run_phase-leaves :
      (folders protected : List Text) (capturing : Bool) (steps : List Step) (disk : Disk)
      (p : Text)
      → has_shared_name folders p ≡ false
      → owner_of folders protected (not capturing) p ≡ true
      → is_written p steps ≡ false
      → lookup p (run_phase hash false (owner_of folders protected capturing) steps disk).disk
        ≡ lookup p disk
  run_phase-leaves folders protected capturing steps disk p s h w =
      leaves_unowned (owner_of folders protected capturing) steps disk p
        (owners_apart folders protected capturing p s h) w
