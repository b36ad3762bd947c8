-- ===== src/Backup/Locality.antt =====
-- `classify_cluster_locality` of scripts/k8s_backup/skipfilter.py. The outer `none` is an
-- exception. Names and namespaces are taken to be texts where they are there, as the API has them.
pub mod Laws
use Prim.Native.Nat.{ℕ, zero, suc}
use k8s_homelab.Prelude.{
  List, [], ◌∷◌, ◌++◌, Option, none, some, Bool, true, false, not, ◌&&◌, ◌||◌, if◌then◌else◌, ◌==◌,
  contains, all, any, filter, map, leb, list_eq, nat_eq, ◌>>=◌,
}
use k8s_homelab.Prelude.Text.{Text, codes, lower, starts_with}
use k8s_homelab.Json.{
  Value, text, list, dict, Values, no_values, value, Fields, get, is_text, is_truthy, dict_or_empty,
  text_or_blank,
}
use k8s_homelab.Backup.Skip.{kind_norm}

unfoldable pub builtin_clusterrole_prefixes : List Text
builtin_clusterrole_prefixes = codes "system:" ∷ codes "kubeadm:" ∷ codes "tigera-operator" ∷ []

unfoldable pub builtin_clusterrole_exact : List Text
builtin_clusterrole_exact = codes "admin" ∷ codes "edit" ∷ codes "view" ∷ codes "cluster-admin" ∷ []

unfoldable pub infra_subject_namespaces : List Text
infra_subject_namespaces =
    codes "default" ∷ codes "kube-system" ∷ codes "kube-public" ∷ codes "kube-node-lease" ∷ []

unfoldable pub builtin_or_infra_namespaces : List Text
builtin_or_infra_namespaces = codes "tigera-operator" ∷ infra_subject_namespaces

-- DYNAMIC_PV_NAME_RE: groups of hexadecimal digits, in either case, of the given lengths; `$`
-- also stands before a last line feed.
unfoldable pub is_hex : ℕ → Bool
is_hex c = (leb b'0' c && leb c b'9') || (leb b'a' c && leb c b'f') || (leb b'A' c && leb c b'F')

unfoldable pub hex_groups : ℕ → List ℕ → Text → Bool
hex_groups zero [] s = s == [] || s == 10 ∷ []
hex_groups zero (n ∷ ns) [] = false
hex_groups zero (n ∷ ns) (c ∷ s) = c == b'-' && hex_groups n ns s
hex_groups (suc k) ns [] = false
hex_groups (suc k) ns (c ∷ s) = is_hex c && hex_groups k ns s

unfoldable pub is_dynamic_pv_name : Text → Bool
is_dynamic_pv_name (p ∷ v ∷ c ∷ s) =
    lower (p ∷ v ∷ c ∷ []) == codes "pvc" && hex_groups 0 (8 ∷ 4 ∷ 4 ∷ 4 ∷ 12 ∷ []) s
is_dynamic_pv_name _ = false

unfoldable pub is_builtin_rbac_name : Text → Bool
is_builtin_rbac_name name =
    contains builtin_clusterrole_exact name
    || any (λ p. starts_with name p) builtin_clusterrole_prefixes

-- `obj.get("subjects") or []`, whose members must be dicts.
unfoldable pub subject_dicts : Values → Option (List Fields)
subject_dicts no_values = some []
subject_dicts (value (dict d) vs) = let rest = subject_dicts vs in rest >>= λ ds. some (d ∷ ds)
subject_dicts (value _ vs) = none

unfoldable pub subjects_of : Option Value → Option (List Fields)
subjects_of (some (list vs)) = subject_dicts vs
subjects_of v = if is_truthy v then none else some []

-- The service accounts among the subjects all live in the namespaces of the infrastructure.
abbrev pub is_service_account : Fields → Bool
is_service_account s = is_text (codes "ServiceAccount") (get (codes "kind") s)

abbrev pub is_infra_subject : Fields → Bool
is_infra_subject s = any (λ n. is_text n (get (codes "namespace") s)) infra_subject_namespaces

abbrev pub binds_infra : List Fields → Bool
binds_infra subjects =
    let accounts = filter is_service_account subjects in
    any (λ s. true) accounts && all is_infra_subject accounts

abbrev pub rbac_reason : Text
rbac_reason =
    codes
      "built-in RBAC object (kube-apiserver/kubeadm bootstrap or the Tigera operator), not yours"

unfoldable pub role_reason : Text → Text
role_reason role =
    codes "grants access via the built-in ClusterRole '"
    ++ role
    ++ codes "', not a role this repo defines"

-- A ClusterRoleBinding.
unfoldable pub binding_reason : Text → Option Value → Option Value → Option (Option Text)
binding_reason name role_ref subjects =
    if is_builtin_rbac_name name
    then some (some rbac_reason)
    else dict_or_empty role_ref >>= λ ref.
        (let role = text_or_blank (get (codes "name") ref) in
          if is_builtin_rbac_name role
          then some (some (role_reason role))
          else subjects_of subjects >>= λ ss. some (
              if binds_infra ss
              then some (
                  codes
                    "binds a ServiceAccount that lives in a built-in namespace, not one this repo deploys into")
              else none))

unfoldable pub locality_reason : Text → Text → Option Value → Option Value → Option (Option Text)
locality_reason kind name role_ref subjects =
    let k = kind_norm kind in
    if k == codes "namespace" && contains builtin_or_infra_namespaces name
    then some (
        some (codes "built-in namespace or CNI-operator namespace this repo doesn't itself deploy"))
    else if k == codes "clusterrole" && is_builtin_rbac_name name
    then some (some rbac_reason)
    else if k == codes "clusterrolebinding"
    then binding_reason name role_ref subjects
    else if k == codes "persistentvolume" && is_dynamic_pv_name name
    then some (
        some (
          codes
            "dynamically provisioned by a StorageClass; recreated automatically alongside its PVC"))
    else if k == codes "priorityclass" && starts_with name (codes "system-")
    then some (some (codes "built-in Kubernetes PriorityClass"))
    else some none

unfoldable pub classify_cluster_locality : Text → Fields → Option (Option Text)
classify_cluster_locality kind obj = dict_or_empty (get (codes "metadata") obj) >>= λ metadata.
    locality_reason kind (text_or_blank (get (codes "name") metadata)) (get (codes "roleRef") obj)
      (get (codes "subjects") obj)
