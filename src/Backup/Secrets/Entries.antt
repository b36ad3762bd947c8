-- ===== src/Backup/Secrets/Entries.antt =====
-- The last redaction keeps the entries of environment variables clean.
use mathlib.Core.Path.{subst, ap₂}
use k8s_homelab.Prelude.{
  sym, inr, ==_eq, &&_both, list_eq, suc, refl, inl, nat_eq, contains, ◌==◌, true, ◌&&◌, Bool-cases,
  Bool, arith, ap, false, ◌≡◌, some, ℕ,
}
use k8s_homelab.Prelude.Text.{Text}
use k8s_homelab.Backup.Secrets.Clean.{
  env_clean_choice, env_clean_fields, same_texts_exposed, env_clean_values, env_clean,
}
use k8s_homelab.Json.{
  no_values, null, no_fields, number, text, bool, list, field, dict, value, Values, Value, Fields,
  get,
}
use k8s_homelab.Backup.Secrets.{
  key_path, index_path, suspicious_words, safe_key_suffixes, safe_key_names, is_safe_key,
  is_suspicious_key, is_flagged_key,
}
use k8s_homelab.Backup.Secrets.Find.{
  env_keys, is_env_list, text_at, is_named, are_named, value_key, name_key,
}
use k8s_homelab.Backup.Secrets.Redact.{
  is_open, is_exposed, redact_plain_fields, redact_plain_value, redact_plain_values,
}
use k8s_homelab.Backup.Skip.{is_there}

-- What is read of an entry is kept: its keys are not flagged.
plain_value-text_at :
    (path : Text) (v : Value) → text_at (some (redact_plain_value path v).0) ≡ text_at (some v)
unfolding redact_plain_value
plain_value-text_at path (dict o) = refl
plain_value-text_at path (list vs) = refl
plain_value-text_at path null = refl
plain_value-text_at path (bool b) = refl
plain_value-text_at path (number n) = refl
plain_value-text_at path (text t) = refl

plain_fields-is_there :
    (j path : Text) (o : Fields)
    → is_there (get j (redact_plain_fields path o).0) ≡ is_there (get j o)
unfolding get redact_plain_fields
plain_fields-is_there j path no_fields = refl
plain_fields-is_there j path (field k v o) = ground (arith, plain_fields-is_there j path o)

closed_if_unflagged : (k : Text) (v : Value) → is_flagged_key k ≡ false → is_open k v ≡ false
closed_if_unflagged k (text t) h = ground arith
closed_if_unflagged k (dict o) h = refl
closed_if_unflagged k (list vs) h = refl
closed_if_unflagged k null h = refl
closed_if_unflagged k (bool b) h = refl
closed_if_unflagged k (number n) h = refl

plain_fields-text_at :
    (j path : Text) (o : Fields)
    → is_flagged_key j ≡ false
    → text_at (get j (redact_plain_fields path o).0) ≡ text_at (get j o)
unfolding get redact_plain_fields
plain_fields-text_at j path no_fields h = refl
plain_fields-text_at j path (field k v o) h = elim (Bool-cases (k == j)) [
  | inl e ↦
      ground (arith, plain_value-text_at (key_path path k) v, closed_if_unflagged k v, ==_eq k j e)
  | inr e ↦ ground (arith, plain_fields-text_at j path o h)
]

plain_value-is_named :
    (path : Text) (v : Value) → is_named (redact_plain_value path v).0 ≡ is_named v
unfolding redact_plain_value
plain_value-is_named path (dict o) = plain_fields-is_there name_key path o
plain_value-is_named path (list vs) = refl
plain_value-is_named path null = refl
plain_value-is_named path (bool b) = refl
plain_value-is_named path (number n) = refl
plain_value-is_named path (text t) = refl

plain_values-are_named :
    (path : Text) (i : ℕ) (vs : Values) → are_named (redact_plain_values path i vs).0 ≡ are_named vs
unfolding redact_plain_values are_named
plain_values-are_named path i no_values = refl
plain_values-are_named path i (value v vs) =
    ap₂ (λ a b. a && b) (plain_value-is_named (index_path path i) v)
      (plain_values-are_named path (suc i) vs)

plain_value-is_env_list :
    (k path : Text) (v : Value) → is_env_list k (redact_plain_value path v).0 ≡ is_env_list k v
unfolding redact_plain_value redact_plain_values
plain_value-is_env_list k path (list no_values) = refl
plain_value-is_env_list k path (list (value v vs)) =
    ap (λ b. contains env_keys k && b) (plain_values-are_named path 0 (value v vs))
plain_value-is_env_list k path (dict o) = refl
plain_value-is_env_list k path null = refl
plain_value-is_env_list k path (bool b) = refl
plain_value-is_env_list k path (number n) = refl
plain_value-is_env_list k path (text t) = refl

entry_keys_unflagged : (is_flagged_key name_key ≡ false) × (is_flagged_key value_key ≡ false)
unfolding name_key value_key is_suspicious_key is_safe_key safe_key_names safe_key_suffixes
    suspicious_words k8s_homelab.Backup.Substitute.occurs k8s_homelab.Prelude.Text.lower
    k8s_homelab.Prelude.Text.starts_with nat_eq native.Mathlib.Decide.ℕ_discrete
entry_keys_unflagged = (refl, refl)

plain_fields-is_exposed :
    (path : Text) (o : Fields) → is_exposed (redact_plain_fields path o).0 ≡ is_exposed o
plain_fields-is_exposed path o =
    same_texts_exposed o (redact_plain_fields path o).0
      (plain_fields-text_at name_key path o entry_keys_unflagged.0)
      (plain_fields-text_at value_key path o entry_keys_unflagged.1)

mutual
  unfolding redact_plain_value redact_plain_values redact_plain_fields env_clean env_clean_values
      env_clean_fields

  pub plain_value_env_clean :
      (path : Text) (entry : Bool) (v : Value)
      → env_clean entry v ≡ true
      → env_clean entry (redact_plain_value path v).0 ≡ true
  plain_value_env_clean path entry (text t) h = refl
  plain_value_env_clean path entry (dict o) h =
      ground (arith, plain_fields-is_exposed path o, plain_fields_env_clean path o)
  plain_value_env_clean path entry (list vs) h = plain_values_env_clean path 0 entry vs h
  plain_value_env_clean path entry null h = refl
  plain_value_env_clean path entry (bool b) h = refl
  plain_value_env_clean path entry (number n) h = refl

  plain_values_env_clean :
      (path : Text) (i : ℕ) (entries : Bool) (vs : Values)
      → env_clean_values entries vs ≡ true
      → env_clean_values entries (redact_plain_values path i vs).0 ≡ true
  plain_values_env_clean path i entries no_values h = refl
  plain_values_env_clean path i entries (value v vs) h = ground (
    arith,
    plain_value_env_clean (index_path path i) entries v,
    plain_values_env_clean path (suc i) entries vs,
  )

  plain_fields_env_clean :
      (path : Text) (o : Fields)
      → env_clean_fields o ≡ true
      → env_clean_fields (redact_plain_fields path o).0 ≡ true
  plain_fields_env_clean path no_fields h = refl
  plain_fields_env_clean path (field k v o) h =
      let (a, b) = &&_both (env_clean (is_env_list k v) v) (env_clean_fields o) h in
      ap₂ (λ c d. c && d)
        (env_clean_choice (is_open k v) k (redact_plain_value (key_path path k) v).0 (
          subst (λ e. env_clean e (redact_plain_value (key_path path k) v).0 ≡ true)
            (sym (plain_value-is_env_list k (key_path path k) v))
            (plain_value_env_clean (key_path path k) (is_env_list k v) v a)))
        (plain_fields_env_clean path o b)
