-- ===== src/Backup/Ownership/Tests.antt =====
-- Files of the two phases, and a witness.
use native.Mathlib.Decide.{ℕ_discrete}
use k8s_homelab.Prelude.{refl, nat_eq, list_eq, true, [], false, ◌∷◌, ◌≡◌, List}
use k8s_homelab.Prelude.Text.{ends_with, starts_with, codes, Text}
use k8s_homelab.Prelude.Dict.{lookup}
use k8s_homelab.Backup.Ownership.Runs.{has_shared_name, owner_of, run_phase-leaves}
use k8s_homelab.Backup.Ownership.Names.{generate_names, file_name}
use k8s_homelab.Backup.Ownership.{
  generate_owner, capture_owner, after_prefix, promoted_owns, generate_owns, capture_owns, matches,
  star, char_then, fnmatch, capture_exclude,
}
use k8s_homelab.Backup.Ownership.{generate_patterns, capture_patterns}
use k8s_homelab.Backup.Tracker.Steps.{is_written}
use k8s_homelab.Backup.Tracker.{write, run_phase, Step, Disk}

abbrev kustomization_file : Text
kustomization_file = codes "kubernetes/cluster/kustomization.yaml"

abbrev files : Disk
files =
    (kustomization_file, codes "a")
    ∷ (codes "docs/old.md", codes "b")
    ∷ (codes "docs/variable-substitutions.md", codes "c")
    ∷ []

abbrev written : List Step
written = write (codes "docs/new.md") (codes "d") ∷ []

-- A promoted release, and a path that a hand-written one protects.
abbrev folders : List Text
folders = codes "kubernetes/prod/apps/a/b" ∷ []

abbrev protected : List Text
protected = codes "kubernetes/prod/apps/c/d/ks.yaml" ∷ []

abbrev promoted_manifest : Text
promoted_manifest = codes "kubernetes/prod/apps/a/b/app/x.yaml"

abbrev promoted_release : Text
promoted_release = codes "kubernetes/prod/apps/a/b/app/helmrelease.yaml"

abbrev left : Disk
left = (run_phase (λ s. s) false (owner_of folders protected true) written files).disk

owned_runs :
    (owner_of folders protected false kustomization_file ≡ true)
    × (owner_of folders protected true kustomization_file ≡ false)
    × (has_shared_name folders kustomization_file ≡ false)
    × (owner_of folders protected true (codes "docs/old.md") ≡ true)
    × (owner_of folders protected true (codes "docs/variable-substitutions.md") ≡ false)
    × (owner_of folders protected false (codes "kubernetes/prod/apps/c/d/ks.yaml") ≡ false)
    × (owner_of folders protected true promoted_manifest ≡ true)
    × (has_shared_name folders promoted_manifest ≡ false)
unfolding capture_patterns generate_patterns capture_exclude fnmatch char_then star matches
    capture_owns generate_owns promoted_owns after_prefix starts_with ends_with list_eq nat_eq
    capture_owner generate_owner file_name generate_names ℕ_discrete
owned_runs = (refl, refl, refl, refl, refl, refl, refl, refl)

-- The HelmRelease of a promoted release is in both phases' paths.
shared_release :
    (has_shared_name folders promoted_release ≡ true)
    × (owner_of folders protected true promoted_release ≡ true)
    × (owner_of folders protected false promoted_release ≡ true)
unfolding capture_patterns generate_patterns capture_exclude fnmatch char_then star matches
    capture_owns generate_owns promoted_owns after_prefix starts_with ends_with list_eq nat_eq
    capture_owner generate_owner file_name generate_names ℕ_discrete
shared_release = (refl, refl, refl)

not_written : is_written kustomization_file written ≡ false
unfolding list_eq nat_eq ℕ_discrete
not_written = refl

run_phase-leaves_example : lookup kustomization_file left ≡ lookup kustomization_file files
run_phase-leaves_example =
    run_phase-leaves (λ s. s) folders protected true written files kustomization_file owned_runs.2
      owned_runs.0 not_written
