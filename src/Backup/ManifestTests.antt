-- ===== src/Backup/ManifestTests.antt =====
-- Runs of `neat`, `should_skip` and the substitutions, and witnesses.
use native.Mathlib.Decide.{ℕ_discrete}
use k8s_homelab.Prelude.{
  ◌≡◌, refl, Option, none, some, list_eq, nat_eq, ℕ, List, [], ◌∷◌, true, false,
}
use k8s_homelab.Prelude.Text.{Text, codes, lower, lower_char, split_on, starts_with}
use k8s_homelab.Json.{
  text, null, dict, Fields, no_fields, field, get, put, pop, pop_all, is_zero, is_truthy,
  dict_or_empty, or_empty, Value, list, value, no_values,
}
use k8s_homelab.Backup.Neat.{
  spec_key, runtime_metadata_fields, runtime_annotations, runtime_labels, env_label,
  common_metadata_labels, dropped_labels, tidy, clean_metadata,
}
use k8s_homelab.Backup.Neat.{neat_metadata, claim_ref, spec_of, neat_claim_ref, neat}
use k8s_homelab.Backup.Neat.Idem.{neat_twice}
use k8s_homelab.Backup.Locality.{
  classify_cluster_locality, locality_reason, binding_reason, role_reason, subjects_of,
  subject_dicts, is_builtin_rbac_name, is_dynamic_pv_name,
}
use k8s_homelab.Backup.Locality.{
  hex_groups, is_hex, builtin_clusterrole_prefixes, builtin_clusterrole_exact,
  infra_subject_namespaces, builtin_or_infra_namespaces,
}
use k8s_homelab.Backup.Skip.{
  controller, kind_norm, made_reason, annotated_reason, labelled_reason, skip_read, skip_metadata,
  should_skip,
}
use k8s_homelab.Backup.Skip.Neat.{should_skip-neat}
use k8s_homelab.Backup.Substitute.{
  Substitution, occurs, replace_from, replace_empty, replaced, replaceable, ordered, new_text,
  walk_value, walk_member, walk_values, walk_fields,
}
use k8s_homelab.Backup.Substitute.{apply_substitutions}

abbrev volume : Fields
volume = field (codes "kind") (text (codes "PersistentVolume")) (
    field (codes "metadata")
      (dict (
        field (codes "name") (text (codes "media")) (
          field (codes "uid") (text (codes "1")) (
            field (codes "labels")
              (dict (field (codes "homelab.local/env") (text (codes "prod")) no_fields))
              no_fields))))
      (field (codes "spec")
        (dict (
          field (codes "claimRef")
            (dict (
              field (codes "name") (text (codes "media"))
                (field (codes "uid") (text (codes "2")) no_fields)))
            no_fields))
        (field (codes "status") null no_fields)))

abbrev clean_volume : Fields
clean_volume = field (codes "kind") (text (codes "PersistentVolume")) (
    field (codes "metadata") (dict (field (codes "name") (text (codes "media")) no_fields)) (
      field (codes "spec")
        (dict (
          field (codes "claimRef") (dict (field (codes "name") (text (codes "media")) no_fields))
            no_fields))
        no_fields))

cleaning : Fields → Option Fields
unfolding neat neat_claim_ref neat_metadata claim_ref clean_metadata tidy dropped_labels
    runtime_metadata_fields runtime_annotations runtime_labels env_label common_metadata_labels get
    put pop pop_all list_eq nat_eq ℕ_discrete
cleaning obj = neat obj

volume_cleaned : cleaning volume ≡ some clean_volume
unfolding cleaning
volume_cleaned = refl

neat-volume : neat volume ≡ some clean_volume
neat-volume = unfold cleaning in volume_cleaned

broken :
    cleaning
      (field (codes "kind") (text (codes "PersistentVolume")) (field (codes "spec") null no_fields))
    ≡ none
unfolding cleaning
broken = refl

volume_spec :
    spec_of (get spec_key volume)
    ≡ some (
        some (
          field
            (codes "claimRef")
            (dict (
              field
                (codes "name")
                (text (codes "media"))
                (field (codes "uid") (text (codes "2")) no_fields)))
            no_fields))
unfolding get list_eq nat_eq ℕ_discrete
volume_spec = refl

neat_twice_example : (clean : Fields) × (neat volume ≡ some clean) × (neat clean ≡ some clean)
neat_twice_example =
    neat_twice volume
      (some (
        field (codes "claimRef")
          (dict (
            field (codes "name") (text (codes "media"))
              (field (codes "uid") (text (codes "2")) no_fields)))
          no_fields))
      volume_spec

should_skip-neat_example :
    should_skip (codes "persistentvolume") clean_volume
    ≡ should_skip (codes "persistentvolume") volume
should_skip-neat_example =
    should_skip-neat (codes "persistentvolume") volume clean_volume neat-volume

skipping : Text → Fields → Option (Option Text)
unfolding should_skip skip_metadata skip_read labelled_reason annotated_reason made_reason kind_norm
    controller or_empty dict_or_empty is_truthy is_zero lower lower_char split_on get list_eq nat_eq
    ℕ_discrete
skipping kind obj = should_skip kind obj

abbrev named : Text → Fields → Fields
named name rest = field (codes "metadata") (dict (field (codes "name") (text name) rest)) no_fields

skipping_runs :
    (skipping (codes "ServiceAccount") (named (codes "default") no_fields)
      ≡ some (some (codes "auto-generated default ServiceAccount")))
    × (skipping (codes "Deployment.apps") (named (codes "app") no_fields) ≡ some none)
    × (skipping (codes "secret") (
          named (codes "token") (
            field
              (codes "labels")
              (dict (field (codes "app.kubernetes.io/managed-by") (text (codes "Helm")) no_fields))
              no_fields))
        ≡ some (some (codes "managed-by=Helm (captured via Helm release)")))
    × (skipping (codes "secret") (field (codes "metadata") null no_fields) ≡ none)
unfolding skipping
skipping_runs = (refl, refl, refl, refl)

abbrev private : List Substitution
private =
    record { literal = codes "lan.org"; placeholder = codes "${D}"; replace = true }
    ∷ record { literal = codes "me@lan.org"; placeholder = codes "${E}"; replace = true }
    ∷ record { literal = codes "1000"; placeholder = codes "${P}"; replace = false }
    ∷ []

abbrev mail : Fields
mail = field (codes "user") (text (codes "me@lan.org")) no_fields

substituted : Value → ℕ × Value
unfolding apply_substitutions walk_value walk_member walk_fields walk_values ordered replaceable
    new_text replaced replace_from replace_empty occurs starts_with list_eq nat_eq ℕ_discrete
substituted obj = apply_substitutions obj private

substituted_runs :
    (substituted (dict (field (codes "a") (text (codes "x.lan.org 1000")) mail)) ≡ (
      2,
      dict (
          field
            (codes "a")
            (text (codes "x.${D} 1000"))
            (field (codes "user") (text (codes "${E}")) no_fields)),
    ))
    × (substituted (list (value (text (codes "me")) no_values))
        ≡ (0, list (value (text (codes "me")) no_values)))
unfolding substituted
substituted_runs = (refl, refl)

located : Text → Text → Option (Option Text)
unfolding classify_cluster_locality locality_reason binding_reason role_reason subjects_of
    subject_dicts is_builtin_rbac_name is_dynamic_pv_name hex_groups is_hex
    builtin_clusterrole_prefixes builtin_clusterrole_exact infra_subject_namespaces
    builtin_or_infra_namespaces is_truthy is_zero dict_or_empty kind_norm lower lower_char split_on
    starts_with get list_eq nat_eq ℕ_discrete
located kind name = classify_cluster_locality kind (named name no_fields)

located_runs :
    (located (codes "PersistentVolume") (codes "PVC-0123abcd-0123-abcd-0123-0123456789aB")
      ≡ some (
          some (
            codes
              "dynamically provisioned by a StorageClass; recreated automatically alongside its PVC")))
    × (located (codes "persistentvolume") (codes "pvc-0123") ≡ some none)
    × (located (codes "namespace") (codes "media") ≡ some none)
    × (located (codes "priorityclass") (codes "system-node")
        ≡ some (some (codes "built-in Kubernetes PriorityClass")))
unfolding located
located_runs = (refl, refl, refl, refl)
