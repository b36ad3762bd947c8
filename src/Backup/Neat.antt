-- ===== src/Backup/Neat.antt =====
-- `neat` of scripts/k8s_backup/neat.py. What the source changes in place is put back here.
pub mod Metadata
pub mod Idem
use k8s_homelab.Prelude.{
  List, [], ◌∷◌, ◌++◌, Option, none, some, Bool, true, false, if◌then◌else◌, ◌>>=◌,
}
use k8s_homelab.Prelude.Text.{Text, codes}
use k8s_homelab.Json.{Value, dict, Fields, is_empty_dict, get, put, pop, pop_all, as_dict, is_text}

abbrev pub metadata_key : Text
metadata_key = codes "metadata"

abbrev pub labels_key : Text
labels_key = codes "labels"

abbrev pub annotations_key : Text
annotations_key = codes "annotations"

abbrev pub status_key : Text
status_key = codes "status"

abbrev pub kind_key : Text
kind_key = codes "kind"

abbrev pub spec_key : Text
spec_key = codes "spec"

unfoldable pub runtime_metadata_fields : List Text
runtime_metadata_fields =
    codes "resourceVersion"
    ∷ codes "uid"
    ∷ codes "generation"
    ∷ codes "creationTimestamp"
    ∷ codes "managedFields"
    ∷ codes "selfLink"
    ∷ []

unfoldable pub runtime_annotations : List Text
runtime_annotations = codes "kubectl.kubernetes.io/last-applied-configuration" ∷ []

unfoldable pub runtime_labels : List Text
runtime_labels =
    codes "kustomize.toolkit.fluxcd.io/name" ∷ codes "kustomize.toolkit.fluxcd.io/namespace" ∷ []

unfoldable pub env_label : Text
env_label = codes "homelab.local/env"

unfoldable pub common_metadata_labels : List Text
common_metadata_labels =
    env_label
    ∷ codes "homelab.local/category"
    ∷ codes "app.kubernetes.io/part-of"
    ∷ codes "homelab.local/managed-by"
    ∷ []

-- The labels that are dropped, of a Namespace and of another object.
unfoldable pub dropped_labels : Bool → List Text
dropped_labels is_namespace =
    runtime_labels
    ++ (if is_namespace
        then env_label ∷ codes "kubernetes.io/metadata.name" ∷ []
        else common_metadata_labels)

-- Drops keys of the dict at a key, and the dict if that leaves it empty.
unfoldable pub tidy : List Text → Text → Fields → Fields
tidy ks k m = elim (as_dict (get k m)) [
  | none ↦ m
  | some d ↦ let rest = pop_all ks d in if is_empty_dict rest then pop k m else put k (dict rest) m
]

unfoldable pub clean_metadata : Bool → Fields → Fields
clean_metadata is_namespace m =
    tidy (dropped_labels is_namespace) labels_key
      (tidy runtime_annotations annotations_key (pop_all runtime_metadata_fields m))

unfoldable pub neat_metadata : Fields → Fields
neat_metadata obj = elim (as_dict (get metadata_key obj)) [
  | none ↦ obj
  | some m ↦
      put metadata_key (dict (clean_metadata (is_text (codes "Namespace") (get kind_key obj)) m))
        obj
]

abbrev pub binding_fields : List Text
binding_fields = codes "resourceVersion" ∷ codes "uid" ∷ []

unfoldable pub claim_ref : Fields → Fields
claim_ref spec = elim (as_dict (get (codes "claimRef") spec)) [
  | none ↦ spec
  | some ref ↦ put (codes "claimRef") (dict (pop_all binding_fields ref)) spec
]

-- `spec` of an object: a missing one is empty, and one that is no dict is an error.
abbrev pub spec_of : Option Value → Option (Option Fields)
spec_of none = some none
spec_of (some (dict spec)) = some (some spec)
spec_of (some _) = none

unfoldable pub neat_claim_ref : Fields → Option Fields
neat_claim_ref obj =
    if is_text (codes "PersistentVolume") (get kind_key obj)
    then elim (spec_of (get spec_key obj)) [
      | none ↦ none
      | some found ↦ elim found [
        | none ↦ some obj
        | some spec ↦ some (put spec_key (dict (claim_ref spec)) obj)
      ]
    ]
    else some obj

unfoldable pub neat : Fields → Option Fields
neat obj = neat_claim_ref (neat_metadata (pop status_key obj))
