-- ===== src/Backup/Ownership.antt =====
-- scripts/k8s_backup/ownership.py: the paths that each phase owns. The patterns use no wildcard but
-- `*`, which `fnmatch` lets stand for any text. The folders of promoted releases and the paths that
-- hand-written ones protect are given: they are read from the disk.
pub mod Glob
pub mod Apart
pub mod Names
pub mod Runs
pub mod Tests
use k8s_homelab.Prelude.{
  length, list_eq, nat_eq, drop, contains, ◌==◌, ◌++◌, if◌then◌else◌, ℕ, [], some, not, ◌∷◌, ◌||◌,
  ◌&&◌, map, any, none, false, Option, Bool, List,
}
use k8s_homelab.Prelude.Text.{ends_with, starts_with, is_empty, codes, Text}

unfoldable pub capture_patterns : List Text
capture_patterns =
    codes "docs/*"
    ∷ codes "kubernetes/raw/README.md"
    ∷ codes "kubernetes/raw/*/*/*.yaml"
    ∷ codes "kubernetes/cluster/*/*.yaml"
    ∷ codes "kubernetes/.local/cluster/*/*.yaml"
    ∷ codes "kubernetes/.local/substitutions-cache.yaml"
    ∷ codes "kubernetes/.local/keyvault-pending.yaml"
    ∷ codes "kubernetes/.local/cluster-substitutions-configmap.yaml"
    ∷ codes "kubernetes/.local/cluster-substitutions-secret.yaml"
    ∷ codes "kubernetes/.local/vaultwarden-pending.yaml"
    ∷ codes "kubernetes/prod/*/*/namespace.yaml"
    ∷ codes "kubernetes/prod/*/*/*/release.yaml"
    ∷ codes "kubernetes/prod/*/*/*/app/values.yaml"
    ∷ codes "kubernetes/prod/*/*/*/app/values-all.yaml"
    ∷ codes "kubernetes/flux/meta/repositories/*.yaml"
    ∷ []

unfoldable pub capture_exclude : List Text
capture_exclude =
    codes "kubernetes/flux/meta/repositories/kustomization.yaml"
    ∷ codes "docs/variable-substitutions.md"
    ∷ []

unfoldable pub generate_patterns : List Text
generate_patterns =
    codes "kubernetes/prod/*/*/*/app/helmrelease.yaml"
    ∷ codes "kubernetes/prod/*/*/*/app/kustomization.yaml"
    ∷ codes "kubernetes/prod/*/*/*/ks.yaml"
    ∷ codes "kubernetes/prod/*/*/kustomization.yaml"
    ∷ codes "kubernetes/prod/*/kustomization.yaml"
    ∷ codes "kubernetes/prod/kustomization.yaml"
    ∷ codes "kubernetes/flux/meta/repositories/kustomization.yaml"
    ∷ codes "kubernetes/flux/config/cluster.yaml"
    ∷ codes "kubernetes/flux/config/cluster-resources.yaml"
    ∷ codes "kubernetes/cluster/kustomization.yaml"
    ∷ codes "docs/variable-substitutions.md"
    ∷ codes ".sops.yaml"
    ∷ codes ".gitignore"
    ∷ codes ".gitattributes"
    ∷ []

-- `fnmatch.fnmatch(rel, pattern)`; `star` tries the rest of a pattern at each place.
unfoldable pub star : (Text → Bool) → Text → Bool
star rest [] = rest []
star rest (d ∷ s) = rest (d ∷ s) || star rest s

unfoldable pub char_then : (Text → Bool) → ℕ → Text → Bool
char_then rest c [] = false
char_then rest c (d ∷ s) = c == d && rest s

unfoldable pub fnmatch : Text → Text → Bool
fnmatch [] rel = is_empty rel
fnmatch (c ∷ p) rel = if c == b'*' then star (fnmatch p) rel else char_then (fnmatch p) c rel

unfoldable pub matches : Text → List Text → Bool
matches rel patterns = any (λ p. fnmatch p rel) patterns

unfoldable pub capture_owns : Text → Bool
capture_owns rel = matches rel capture_patterns && not (matches rel capture_exclude)

unfoldable pub generate_owns : Text → Bool
generate_owns rel = matches rel generate_patterns

-- What follows the first of the prefixes that the path begins with.
unfoldable pub after_prefix : List Text → Text → Option Text
after_prefix [] rel = none
after_prefix (p ∷ prefixes) rel =
    let rest = after_prefix prefixes rel in
    if starts_with rel p then some (drop (length p) rel) else rest

abbrev promoted_file : Text → Option Text → Bool
promoted_file rel none = false
promoted_file rel (some rest) =
    ends_with rel (codes ".yaml")
    && not (contains rest b'/')
    && not (rest == codes "kustomization.yaml")

-- The folders are relative to the root.
unfoldable pub promoted_owns : List Text → Text → Bool
promoted_owns folders rel =
    promoted_file rel (after_prefix (map (λ d. d ++ codes "/app/") folders) rel)

unfoldable pub capture_owner : List Text → List Text → Text → Bool
capture_owner folders protected rel =
    (capture_owns rel || promoted_owns folders rel) && not (contains protected rel)

unfoldable pub generate_owner : List Text → Text → Bool
generate_owner protected rel = generate_owns rel && not (contains protected rel)
