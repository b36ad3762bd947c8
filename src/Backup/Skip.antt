-- ===== src/Backup/Skip.antt =====
-- `should_skip` of scripts/k8s_backup/skipfilter.py. The outer `none` is an exception. The name of a
-- StorageClass is taken to be a text, as the API has it.
pub mod Neat
use k8s_homelab.Prelude.{
  List, [], ◌∷◌, ◌++◌, Option, none, some, Bool, true, false, not, ◌&&◌, ◌||◌, if◌then◌else◌, ◌==◌,
  contains, all, list_eq, nat_eq, ◌>>=◌,
}
use k8s_homelab.Prelude.Text.{Text, codes, lower, split_on, is_empty}
use k8s_homelab.Json.{
  is_truthy, or_empty, dict_or_empty, Value, null, bool, number, text, list, dict, no_values, value,
  Fields, no_fields, is_empty_dict, get, is_text,
}

abbrev pub is_there : Option Value → Bool
is_there none = false
is_there (some v) = true

abbrev pub managed_by_key : Text
managed_by_key = codes "app.kubernetes.io/managed-by"

abbrev pub release_name_key : Text
release_name_key = codes "meta.helm.sh/release-name"

abbrev pub operator_version_key : Text
operator_version_key = codes "cnpg.io/operatorVersion"

-- `managed_by in _CONTROLLER_MANAGED_BY`: the name, if it is there. A list or a dict has no hash.
unfoldable pub controller : Option Value → Option (Option Text)
controller (some (text t)) = some (if t == codes "goauthentik.io" then some t else none)
controller (some (list vs)) = none
controller (some (dict d)) = none
controller v = some none

unfoldable pub kind_norm : Text → Text
kind_norm kind = lower (split_on b'.' kind).0

-- The objects that something else makes, by kind and name.
unfoldable pub made_reason :
    Text → Option Value → Option Value → Option Value → Fields → Option Text
made_reason kind name namespace provisioner annotations =
    let k = kind_norm kind in
    if k == codes "service"
      && is_text (codes "default") namespace
      && is_text (codes "kubernetes") name
    then some (codes "built-in kubernetes Service in default namespace")
    else if k == codes "configmap" && is_text (codes "kube-root-ca.crt") name
    then some (codes "auto-generated kube-root-ca.crt ConfigMap")
    else if k == codes "serviceaccount" && is_text (codes "default") name
    then some (codes "auto-generated default ServiceAccount")
    else if k == codes "configmap"
        && is_text (codes "cnpg-default-monitoring") name
        && is_there (get operator_version_key annotations)
    then some (codes "created by the CloudNativePG operator")
    else if k == codes "storageclass"
        && is_text (codes "driver.longhorn.io") provisioner
        && (is_text (codes "longhorn") name || is_text (codes "longhorn-static") name)
    then some (codes "created by longhorn-manager from its Helm-managed ConfigMap")
    else none

unfoldable pub annotated_reason :
    Text → Option Value → Option Value → Option Value → Fields → Option Text
annotated_reason kind name namespace provisioner annotations =
    if is_there (get release_name_key annotations)
    then some (codes "has meta.helm.sh/release-name annotation (captured via Helm release)")
    else made_reason kind name namespace provisioner annotations

-- What the labels say: the reason, nothing, or an exception.
unfoldable pub labelled_reason : Fields → Option (Option Text)
labelled_reason labels =
    if is_text (codes "Helm") (get managed_by_key labels)
    then some (some (codes "managed-by=Helm (captured via Helm release)"))
    else controller (get managed_by_key labels) >>= λ found. some (elim found [
      | none ↦ none
      | some name ↦
          some (codes "managed-by=" ++ name ++ codes " (created and reconciled by that controller)")
    ])

-- The reason, once the metadata are read: owned, the labels, the annotations, the name, the
-- namespace. The annotations count only where the labels give no reason.
unfoldable pub skip_read :
    Text
    → Option Value
    → Bool
    → Option Fields
    → Option Fields
    → Option Value
    → Option Value
    → Option (Option Text)
skip_read kind provisioner true labels annotations name namespace =
    some (some (codes "has ownerReferences (recreated by its parent)"))
skip_read kind provisioner false labels annotations name namespace =
    labels >>= labelled_reason >>= λ reason. elim reason [
      | some why ↦ some (some why)
      | none ↦
          annotations >>= λ found. some (annotated_reason kind name namespace provisioner found)
    ]

unfoldable pub skip_metadata : Text → Option Value → Fields → Option (Option Text)
skip_metadata kind provisioner metadata =
    skip_read kind provisioner (is_truthy (get (codes "ownerReferences") metadata))
      (or_empty (get (codes "labels") metadata)) (or_empty (get (codes "annotations") metadata))
      (get (codes "name") metadata) (get (codes "namespace") metadata)

unfoldable pub should_skip : Text → Fields → Option (Option Text)
should_skip kind obj =
    dict_or_empty (get (codes "metadata") obj)
    >>= skip_metadata kind (get (codes "provisioner") obj)
