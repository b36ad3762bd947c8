-- ===== src/Backup/Secrets/EnvFound.antt =====
-- What the walk over environment variables still finds in a redacted manifest.
use k8s_homelab.Prelude.{
  suc, ◌&&◌, not, inr, &&_both, inl, Bool-cases, list_eq, arith, nat_eq, ◌++◌, false, ℕ, true, Bool,
  ◌≡◌,
}
use k8s_homelab.Prelude.Text.{Text}
use k8s_homelab.Backup.Secrets.Found.{all_replaced-++, none_replaced, all_replaced}
use k8s_homelab.Json.{
  no_fields, no_values, field, null, number, bool, dict, list, text, value, Values, Fields, Value,
}
use k8s_homelab.Backup.Secrets.{key_path, index_path}
use k8s_homelab.Backup.Secrets.Find.{
  env_finding, env_findings_at, is_env_list, env_in_fields, env_in_values, env_findings, env_in,
}
use k8s_homelab.Backup.Secrets.Clean.{env_clean_fields, env_clean_values, env_clean}
use k8s_homelab.Backup.Secrets.Redact.{is_exposed}

env_finding_replaced :
    (path : Text) (o : Fields) → is_exposed o ≡ false → all_replaced (env_finding path o) ≡ true
unfolding all_replaced
env_finding_replaced path o h = ground arith

env_findings_replaced :
    (path : Text) (i : ℕ) (vs : Values)
    → env_clean_values true vs ≡ true
    → all_replaced (env_findings path i vs) ≡ true
unfolding env_findings env_clean env_clean_values
env_findings_replaced path i no_values h = none_replaced
env_findings_replaced path i (value (dict o) vs) h =
    let (a, b) = &&_both (env_clean true (dict o)) (env_clean_values true vs) h in
    all_replaced-++ (env_finding (index_path path i) o) (env_findings path (suc i) vs)
      (env_finding_replaced (index_path path i) o (ground arith))
      (env_findings_replaced path (suc i) vs b)
env_findings_replaced path i (value (list ws) vs) h =
    env_findings_replaced path (suc i) vs
      (&&_both (env_clean true (list ws)) (env_clean_values true vs) h).1
env_findings_replaced path i (value null vs) h = env_findings_replaced path (suc i) vs h
env_findings_replaced path i (value (bool b) vs) h = env_findings_replaced path (suc i) vs h
env_findings_replaced path i (value (number n) vs) h = env_findings_replaced path (suc i) vs h
env_findings_replaced path i (value (text t) vs) h = env_findings_replaced path (suc i) vs h

env_findings_at_replaced :
    (path k : Text) (v : Value)
    → env_clean (is_env_list k v) v ≡ true
    → all_replaced (env_findings_at path k v) ≡ true
unfolding env_clean
env_findings_at_replaced path k (list vs) h = elim (Bool-cases (is_env_list k (list vs))) [
  | inl e ↦ ground (arith, env_findings_replaced path 0 vs)
  | inr e ↦ ground (arith, none_replaced)
]
env_findings_at_replaced path k (dict o) h = none_replaced
env_findings_at_replaced path k null h = none_replaced
env_findings_at_replaced path k (bool b) h = none_replaced
env_findings_at_replaced path k (number n) h = none_replaced
env_findings_at_replaced path k (text t) h = none_replaced

mutual
  unfolding env_in env_in_values env_in_fields env_clean env_clean_values env_clean_fields

  pub env_in_replaced :
      (path : Text) (entry : Bool) (v : Value)
      → env_clean entry v ≡ true
      → all_replaced (env_in path v) ≡ true
  env_in_replaced path entry (text t) h = none_replaced
  env_in_replaced path entry (dict o) h =
      env_in_fields_replaced path o (&&_both (not (entry && is_exposed o)) (env_clean_fields o) h).1
  env_in_replaced path entry (list vs) h = env_in_values_replaced path 0 entry vs h
  env_in_replaced path entry null h = none_replaced
  env_in_replaced path entry (bool b) h = none_replaced
  env_in_replaced path entry (number n) h = none_replaced

  env_in_values_replaced :
      (path : Text) (i : ℕ) (entries : Bool) (vs : Values)
      → env_clean_values entries vs ≡ true
      → all_replaced (env_in_values path i vs) ≡ true
  env_in_values_replaced path i entries no_values h = none_replaced
  env_in_values_replaced path i entries (value v vs) h =
      let (a, b) = &&_both (env_clean entries v) (env_clean_values entries vs) h in
      all_replaced-++ (env_in (index_path path i) v) (env_in_values path (suc i) vs)
        (env_in_replaced (index_path path i) entries v a)
        (env_in_values_replaced path (suc i) entries vs b)

  env_in_fields_replaced :
      (path : Text) (o : Fields)
      → env_clean_fields o ≡ true
      → all_replaced (env_in_fields path o) ≡ true
  env_in_fields_replaced path no_fields h = none_replaced
  env_in_fields_replaced path (field k v o) h =
      let (a, b) = &&_both (env_clean (is_env_list k v) v) (env_clean_fields o) h in
      all_replaced-++ (env_findings_at (key_path path k) k v)
        (env_in (key_path path k) v ++ env_in_fields path o)
        (env_findings_at_replaced (key_path path k) k v a)
        (all_replaced-++ (env_in (key_path path k) v) (env_in_fields path o)
          (env_in_replaced (key_path path k) (is_env_list k v) v a)
          (env_in_fields_replaced path o b))
