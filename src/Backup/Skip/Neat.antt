-- ===== src/Backup/Skip/Neat.antt =====
-- What `neat` keeps of what `should_skip` reads.
use native.Mathlib.Decide.{ℕ_discrete}
use k8s_homelab.Prelude.{
  ◌≡◌, refl, ap, ◌∙◌, List, [], ◌∷◌, Option, none, some, Bool, true, false, not, ◌&&◌, arith, ◌==◌,
  contains, list_eq, nat_eq, Bool-cases, Option-cases, inl, inr,
}
use k8s_homelab.Prelude.{◌>>=◌}
use k8s_homelab.Prelude.Text.{Text, codes}
use k8s_homelab.Json.{
  Value, null, bool, number, text, list, dict, Fields, no_fields, field, is_empty_dict, get, pop,
  pop_all, as_dict, is_text, get-put, get-pop, get-pop_all, is_truthy,
}
use k8s_homelab.Json.{or_empty, dict_or_empty}
use k8s_homelab.Backup.Neat.{
  labels_key, annotations_key, runtime_metadata_fields, runtime_annotations, dropped_labels,
  runtime_labels, common_metadata_labels, env_label, tidy,
}
use k8s_homelab.Backup.Neat.{
  clean_metadata, neat_metadata, metadata_key, status_key, spec_key, kind_key, neat,
}
use k8s_homelab.Backup.Neat.Metadata.{as_dict-eq-some, get-tidy, get-neat_metadata}
use k8s_homelab.Backup.Neat.Idem.{neat_claim_ref_lem}
use k8s_homelab.Backup.Skip.{
  managed_by_key, release_name_key, operator_version_key, labelled_reason, made_reason,
  annotated_reason, skip_read, skip_metadata, should_skip,
}

managed_by_kept :
    (is_namespace : Bool) → contains (dropped_labels is_namespace) managed_by_key ≡ false
unfolding dropped_labels runtime_labels common_metadata_labels env_label list_eq nat_eq ℕ_discrete
managed_by_kept true = refl
managed_by_kept false = refl

annotations_kept :
    (contains runtime_annotations release_name_key ≡ false)
    × (contains runtime_annotations operator_version_key ≡ false)
unfolding runtime_annotations list_eq nat_eq ℕ_discrete
annotations_kept = (refl, refl)

keys_apart :
    ((labels_key == annotations_key) ≡ false)
    × ((annotations_key == labels_key) ≡ false)
    × (contains runtime_metadata_fields labels_key ≡ false)
    × (contains runtime_metadata_fields annotations_key ≡ false)
unfolding runtime_metadata_fields list_eq nat_eq ℕ_discrete
keys_apart = (refl, refl, refl, refl)

pop_all_empty : (d : Fields) → is_empty_dict d ≡ true → d ≡ no_fields
pop_all_empty no_fields h = refl
pop_all_empty (field k v d) h = absurd (cc)

popped : List Text → Option Fields → Option Fields
popped ks none = none
popped ks (some d) = some (pop_all ks d)

pop_all_none : (ks : List Text) → pop_all ks no_fields ≡ no_fields
unfolding pop_all pop
pop_all_none [] = refl
pop_all_none (k ∷ ks) = pop_all_none ks

popped_other :
    (ks : List Text) (v : Option Value) → as_dict v ≡ none → popped ks (or_empty v) ≡ or_empty v
unfolding or_empty popped is_truthy
popped_other ks none h = ap some (pop_all_none ks)
popped_other ks (some (dict d)) h = absurd (cc)
popped_other ks (some null) h = ap some (pop_all_none ks)
popped_other ks (some (bool b)) h = ground (arith, pop_all_none ks)
popped_other ks (some (number n)) h = ground (arith, pop_all_none ks)
popped_other ks (some (text t)) h = ground (arith, pop_all_none ks)
popped_other ks (some (list l)) h = ground (arith, pop_all_none ks)

-- Read with `or {}`, a tidied dict is the old one without the keys dropped.
or_empty-tidy :
    (ks : List Text) (k : Text) (m : Fields)
    → or_empty (get k (tidy ks k m)) ≡ popped ks (or_empty (get k m))
unfolding tidy or_empty popped is_truthy
or_empty-tidy ks k m = elim (Option-cases (as_dict (get k m))) [
  | inl e ↦ ground (arith, popped_other ks (get k m))
  | inr (d, e) ↦ elim (Bool-cases (is_empty_dict (pop_all ks d))) [
    | inl h ↦
        let gone = pop_all_empty (pop_all ks d) h in
        ground (arith, as_dict-eq-some (get k m) d e, get-pop k k m)
    | inr h ↦ ground (arith, as_dict-eq-some (get k m) d e, get-put k k (dict (pop_all ks d)) m)
  ]
]

labelled_reason-pop_all :
    (is_namespace : Bool) (labels : Fields)
    → labelled_reason (pop_all (dropped_labels is_namespace) labels) ≡ labelled_reason labels
unfolding labelled_reason
labelled_reason-pop_all is_namespace labels = ground (
  arith,
  get-pop_all (dropped_labels is_namespace) managed_by_key labels,
  managed_by_kept is_namespace,
)

annotated_reason-pop_all :
    (kind : Text) (name namespace provisioner : Option Value) (annotations : Fields)
    → annotated_reason kind name namespace provisioner (pop_all runtime_annotations annotations)
      ≡ annotated_reason kind name namespace provisioner annotations
unfolding annotated_reason made_reason
annotated_reason-pop_all kind name namespace provisioner annotations = ground (
  arith,
  get-pop_all runtime_annotations release_name_key annotations,
  get-pop_all runtime_annotations operator_version_key annotations,
  annotations_kept,
)

-- A key of the metadata that `neat` leaves alone.
get-clean_metadata :
    (is_namespace : Bool) (m : Fields) (j : Text)
    → contains runtime_metadata_fields j ≡ false
    → (labels_key == j) ≡ false
    → (annotations_key == j) ≡ false
    → get j (clean_metadata is_namespace m) ≡ get j m
unfolding clean_metadata
get-clean_metadata is_namespace m j r l a =
    let m1 = pop_all runtime_metadata_fields m in
    let m2 = tidy runtime_annotations annotations_key m1 in
    get-tidy (dropped_labels is_namespace) labels_key j m2 l
    ∙ get-tidy runtime_annotations annotations_key j m1 a
    ∙ ground (arith, get-pop_all runtime_metadata_fields j m)

labels-clean_metadata :
    (is_namespace : Bool) (m : Fields)
    → or_empty (get labels_key (clean_metadata is_namespace m))
      ≡ popped (dropped_labels is_namespace) (or_empty (get labels_key m))
unfolding clean_metadata
labels-clean_metadata is_namespace m =
    let m1 = pop_all runtime_metadata_fields m in
    let m2 = tidy runtime_annotations annotations_key m1 in
    or_empty-tidy (dropped_labels is_namespace) labels_key m2
    ∙ ap (λ v. popped (dropped_labels is_namespace) (or_empty v))
        (get-tidy runtime_annotations annotations_key labels_key m1 keys_apart.1
          ∙ ground (arith, get-pop_all runtime_metadata_fields labels_key m, keys_apart))

annotations-clean_metadata :
    (is_namespace : Bool) (m : Fields)
    → or_empty (get annotations_key (clean_metadata is_namespace m))
      ≡ popped runtime_annotations (or_empty (get annotations_key m))
unfolding clean_metadata
annotations-clean_metadata is_namespace m =
    let m1 = pop_all runtime_metadata_fields m in
    let m2 = tidy runtime_annotations annotations_key m1 in
    ap or_empty (get-tidy (dropped_labels is_namespace) labels_key annotations_key m2 keys_apart.0)
    ∙ or_empty-tidy runtime_annotations annotations_key m1
    ∙ ap (λ v. popped runtime_annotations (or_empty v))
        (ground (arith, get-pop_all runtime_metadata_fields annotations_key m, keys_apart))

skip_read-popped :
    (kind : Text) (provisioner : Option Value) (is_namespace owned : Bool)
    (labels annotations : Option Fields) (name namespace : Option Value)
    → skip_read kind provisioner owned
        (popped (dropped_labels is_namespace) labels)
        (popped runtime_annotations annotations)
        name
        namespace
      ≡ skip_read kind provisioner owned labels annotations name namespace
unfolding skip_read popped
skip_read-popped kind p ns true labels annotations name namespace = refl
skip_read-popped kind p ns false none annotations name namespace = refl
skip_read-popped kind p ns false (some ls) none name namespace =
    ground (arith, labelled_reason-pop_all ns ls)
skip_read-popped kind p ns false (some ls) (some found) name namespace =
    ground
      (arith, labelled_reason-pop_all ns ls, annotated_reason-pop_all kind name namespace p found)

-- Keys that stand outside all that `neat` touches.
abbrev pub is_apart : Text → Bool
is_apart j =
    not (contains runtime_metadata_fields j) && not (labels_key == j) && not (annotations_key == j)

pub names-is_apart :
    (is_apart (codes "ownerReferences") ≡ true)
    × (is_apart (codes "name") ≡ true)
    × (is_apart (codes "namespace") ≡ true)
unfolding runtime_metadata_fields list_eq nat_eq ℕ_discrete
names-is_apart = (refl, refl, refl)

pub get_apart :
    (is_namespace : Bool) (m : Fields) (j : Text)
    → is_apart j ≡ true
    → get j (clean_metadata is_namespace m) ≡ get j m
get_apart is_namespace m j h =
    get-clean_metadata is_namespace m j (ground arith) (ground arith) (ground arith)

skip_metadata-clean_metadata :
    (kind : Text) (provisioner : Option Value) (is_namespace : Bool) (m : Fields)
    → skip_metadata kind provisioner (clean_metadata is_namespace m)
      ≡ skip_metadata kind provisioner m
unfolding skip_metadata
skip_metadata-clean_metadata kind provisioner is_namespace m =
    let (owned, named, spaced) = names-is_apart in
    cc (
      get_apart is_namespace m (codes "ownerReferences") owned,
      get_apart is_namespace m (codes "name") named,
      get_apart is_namespace m (codes "namespace") spaced,
      labels-clean_metadata is_namespace m,
      annotations-clean_metadata is_namespace m,
      skip_read-popped kind provisioner is_namespace (is_truthy (get (codes "ownerReferences") m))
          (or_empty (get labels_key m)) (or_empty (get annotations_key m)) (get (codes "name") m)
          (get (codes "namespace") m),
    )

pub provisioner_apart :
    ((spec_key == codes "provisioner") ≡ false)
    × ((metadata_key == codes "provisioner") ≡ false)
    × ((status_key == codes "provisioner") ≡ false)
    × ((status_key == metadata_key) ≡ false)
    × ((spec_key == metadata_key) ≡ false)
unfolding list_eq nat_eq ℕ_discrete
provisioner_apart = (refl, refl, refl, refl, refl)

-- What is done with the metadata of an object, and of one whose metadata are cleaned.
skip_metadata-neat_metadata :
    (kind : Text) (provisioner : Option Value) (o : Fields)
    → (dict_or_empty (get metadata_key (neat_metadata o)) >>= skip_metadata kind provisioner)
      ≡ (dict_or_empty (get metadata_key o) >>= skip_metadata kind provisioner)
unfolding neat_metadata dict_or_empty
skip_metadata-neat_metadata kind provisioner o =
    elim (Option-cases (as_dict (get metadata_key o))) [
      | inl e ↦ ground arith
      | inr (m, e) ↦
          let ns = is_text (codes "Namespace") (get kind_key o) in
          ground (
            arith,
            get-put metadata_key metadata_key (dict (clean_metadata ns m)) o,
            as_dict-eq-some (get metadata_key o) m e,
            skip_metadata-clean_metadata kind provisioner ns m,
          )
    ]

-- Whether an object is skipped, and why, is the same before `neat` and after.
pub should_skip-neat :
    (kind : Text) (obj clean : Fields)
    → neat obj ≡ some clean
    → should_skip kind clean ≡ should_skip kind obj
unfolding should_skip neat
should_skip-neat kind obj clean h =
    let o1 = pop status_key obj in
    let p = codes "provisioner" in
    let (kept, again) = neat_claim_ref_lem (neat_metadata o1) clean h in
    let (sp, mp, tp, tm, sm) = provisioner_apart in
    let same : get p clean ≡ get p obj =
      kept p sp ∙ get-neat_metadata o1 p mp ∙ ground (arith, get-pop status_key p obj) in
    ground (
      arith,
      same,
      kept metadata_key sm,
      skip_metadata-neat_metadata kind (get p obj) o1,
      get-pop status_key metadata_key obj,
    )
