-- ===== src/Backup/Secrets/Open.antt =====
-- No literal of a redacted manifest stands under a key that is flagged.
-- No literal is open.
use mathlib.Core.Path.{ap₂}
use k8s_homelab.Prelude.{
  nat_eq, list_eq, suc, inr, ◌&&◌, inl, refl, ℕ, if◌then◌else◌, Bool-cases, arith, not, true, ◌≡◌,
  Bool,
}
use k8s_homelab.Prelude.Text.{Text}
use k8s_homelab.Backup.Secrets.{index_path, key_path, redaction_placeholder}
use k8s_homelab.Json.{
  no_values, value, Values, no_fields, null, number, text, field, bool, list, dict, Fields, Value,
}
use k8s_homelab.Backup.Secrets.Redact.{
  is_open, redact_plain_fields, redact_plain_values, redact_plain_value,
}

unfoldable mutual
  pub plain_clean : Value → Bool
  plain_clean (dict o) = plain_clean_fields o
  plain_clean (list vs) = plain_clean_values vs
  plain_clean null = true
  plain_clean (bool b) = true
  plain_clean (number n) = true
  plain_clean (text t) = true

  pub plain_clean_values : Values → Bool
  plain_clean_values no_values = true
  plain_clean_values (value v vs) = plain_clean v && plain_clean_values vs

  pub plain_clean_fields : Fields → Bool
  plain_clean_fields no_fields = true
  plain_clean_fields (field k v o) = not (is_open k v) && (plain_clean v && plain_clean_fields o)

plain_choice :
    (k : Text) (v w : Value)
    → is_open k w ≡ is_open k v
    → plain_clean w ≡ true
    → (not (is_open k (if is_open k v then text redaction_placeholder else w))
        && plain_clean (if is_open k v then text redaction_placeholder else w))
      ≡ true
unfolding plain_clean
plain_choice k v w e h = elim (Bool-cases (is_open k v)) [
  | inl t ↦ ground arith
  | inr t ↦ ground arith
]

plain_value-is_open :
    (k path : Text) (v : Value) → is_open k (redact_plain_value path v).0 ≡ is_open k v
unfolding redact_plain_value
plain_value-is_open k path (dict o) = refl
plain_value-is_open k path (list vs) = refl
plain_value-is_open k path null = refl
plain_value-is_open k path (bool b) = refl
plain_value-is_open k path (number n) = refl
plain_value-is_open k path (text t) = refl

mutual
  unfolding redact_plain_value redact_plain_values redact_plain_fields plain_clean
      plain_clean_values plain_clean_fields

  pub plain_value_clean :
      (path : Text) (v : Value) → plain_clean (redact_plain_value path v).0 ≡ true
  plain_value_clean path (text t) = refl
  plain_value_clean path (dict o) = plain_fields_clean path o
  plain_value_clean path (list vs) = plain_values_clean path 0 vs
  plain_value_clean path null = refl
  plain_value_clean path (bool b) = refl
  plain_value_clean path (number n) = refl

  plain_values_clean :
      (path : Text) (i : ℕ) (vs : Values)
      → plain_clean_values (redact_plain_values path i vs).0 ≡ true
  plain_values_clean path i no_values = refl
  plain_values_clean path i (value v vs) =
      ap₂ (λ a b. a && b) (plain_value_clean (index_path path i) v)
        (plain_values_clean path (suc i) vs)

  plain_fields_clean :
      (path : Text) (o : Fields) → plain_clean_fields (redact_plain_fields path o).0 ≡ true
  plain_fields_clean path no_fields = refl
  plain_fields_clean path (field k v o) = ground (
    arith,
    plain_choice k v (redact_plain_value (key_path path k) v).0
        (plain_value-is_open k (key_path path k) v) (plain_value_clean (key_path path k) v),
    plain_fields_clean path o,
  )
