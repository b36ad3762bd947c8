-- ===== src/Backup/Secrets/Clean.antt =====
-- No entry of a redacted manifest's environment variables holds a credential.
-- No entry of a list of environment variables is exposed.
use mathlib.Core.Path.{ap₂, subst}
use k8s_homelab.Prelude.{
  ◌∙◌, suc, sym, ℕ, contains, inr, ap, inl, list_eq, Bool-cases, nat_eq, refl, arith, false, ◌⊎◌,
  if◌then◌else◌, not, some, true, none, ◌==◌, ◌≡◌, ◌&&◌, Option,
}
use k8s_homelab.Prelude.{Bool}
use k8s_homelab.Prelude.Text.{Text}
use k8s_homelab.Backup.Secrets.Find.{
  are_named, env_keys, is_named, is_env_list, value_key, is_credential, text_at, name_key,
}
use k8s_homelab.Json.{
  no_values, Values, null, no_fields, number, bool, value, list, text, field, dict, Value, get,
  Fields,
}
use k8s_homelab.Backup.Secrets.{index_path, key_path, redaction_placeholder}
use k8s_homelab.Backup.Skip.{is_there}
use k8s_homelab.Backup.Secrets.Redact.{
  is_exposed, redact_env_values, redact_env_fields, redact_env_value,
}

unfoldable mutual
  pub env_clean : Bool → Value → Bool
  env_clean entry (dict o) = not (entry && is_exposed o) && env_clean_fields o
  env_clean entry (list vs) = env_clean_values entry vs
  env_clean entry null = true
  env_clean entry (bool b) = true
  env_clean entry (number n) = true
  env_clean entry (text t) = true

  pub env_clean_values : Bool → Values → Bool
  env_clean_values entries no_values = true
  env_clean_values entries (value v vs) = env_clean entries v && env_clean_values entries vs

  pub env_clean_fields : Fields → Bool
  env_clean_fields no_fields = true
  env_clean_fields (field k v o) = env_clean (is_env_list k v) v && env_clean_fields o

-- What is read of a value: whether it is a text, a list of entries.
env_value-text_at :
    (path : Text) (entry : Bool) (v : Value)
    → text_at (some (redact_env_value path entry v).0) ≡ text_at (some v)
unfolding redact_env_value
env_value-text_at path entry (dict o) = refl
env_value-text_at path entry (list vs) = refl
env_value-text_at path entry null = refl
env_value-text_at path entry (bool b) = refl
env_value-text_at path entry (number n) = refl
env_value-text_at path entry (text t) = refl

env_fields-is_there :
    (j path : Text) (exposed : Bool) (o : Fields)
    → is_there (get j (redact_env_fields path exposed o).0) ≡ is_there (get j o)
unfolding get redact_env_fields
env_fields-is_there j path exposed no_fields = refl
env_fields-is_there j path exposed (field k v o) =
    ground (arith, env_fields-is_there j path exposed o)

env_fields-text_at :
    (j path : Text) (exposed : Bool) (o : Fields)
    → (exposed && j == value_key) ≡ false
    → text_at (get j (redact_env_fields path exposed o).0) ≡ text_at (get j o)
unfolding get redact_env_fields
env_fields-text_at j path exposed no_fields h = refl
env_fields-text_at j path exposed (field k v o) h = ground (
  arith,
  env_fields-text_at j path exposed o,
  env_value-text_at (key_path path k) (is_env_list k v) v,
)

env_fields_hidden :
    (path : Text) (o : Fields)
    → (get value_key (redact_env_fields path true o).0 ≡ none)
      ⊎ (get value_key (redact_env_fields path true o).0 ≡ some (text redaction_placeholder))
unfolding get redact_env_fields
env_fields_hidden path no_fields = inl refl
env_fields_hidden path (field k v o) = ground (arith, env_fields_hidden path o)

is_credential-none : (name : Option Text) → is_credential name none ≡ false
is_credential-none none = refl
is_credential-none (some t) = refl

hidden_not_exposed :
    (o : Fields)
    → (get value_key o ≡ none) ⊎ (get value_key o ≡ some (text redaction_placeholder))
    → is_exposed o ≡ false
hidden_not_exposed o (inl e) = ground (arith, e, is_credential-none (text_at (get name_key o)))
hidden_not_exposed o (inr e) = ground (arith, e)

pub same_texts_exposed :
    (o q : Fields)
    → text_at (get name_key q) ≡ text_at (get name_key o)
    → text_at (get value_key q) ≡ text_at (get value_key o)
    → is_exposed q ≡ is_exposed o
same_texts_exposed o q e f = cc

name_not_value : (name_key == value_key) ≡ false
unfolding name_key value_key list_eq nat_eq native.Mathlib.Decide.ℕ_discrete
name_not_value = refl

env_fields_not_exposed :
    (path : Text) (entry : Bool) (o : Fields)
    → (entry && is_exposed (redact_env_fields path (entry && is_exposed o) o).0) ≡ false
env_fields_not_exposed path false o = refl
env_fields_not_exposed path true o = elim (Bool-cases (is_exposed o)) [
  | inl e ↦
      subst (λ b. is_exposed (redact_env_fields path b o).0 ≡ false) (sym e)
        (hidden_not_exposed (redact_env_fields path true o).0 (env_fields_hidden path o))
  | inr e ↦
      subst (λ b. is_exposed (redact_env_fields path b o).0 ≡ false) (sym e)
        (same_texts_exposed o (redact_env_fields path false o).0
            (env_fields-text_at name_key path false o refl)
            (env_fields-text_at value_key path false o refl)
          ∙ e)
]

env_value-is_named :
    (path : Text) (entry : Bool) (v : Value)
    → is_named (redact_env_value path entry v).0 ≡ is_named v
unfolding redact_env_value
env_value-is_named path entry (dict o) = env_fields-is_there name_key path (entry && is_exposed o) o
env_value-is_named path entry (list vs) = refl
env_value-is_named path entry null = refl
env_value-is_named path entry (bool b) = refl
env_value-is_named path entry (number n) = refl
env_value-is_named path entry (text t) = refl

env_values-are_named :
    (path : Text) (i : ℕ) (entries : Bool) (vs : Values)
    → are_named (redact_env_values path i entries vs).0 ≡ are_named vs
unfolding redact_env_values are_named
env_values-are_named path i entries no_values = refl
env_values-are_named path i entries (value v vs) =
    ap₂ (λ a b. a && b) (env_value-is_named (index_path path i) entries v)
      (env_values-are_named path (suc i) entries vs)

env_value-is_env_list :
    (k path : Text) (entry : Bool) (v : Value)
    → is_env_list k (redact_env_value path entry v).0 ≡ is_env_list k v
unfolding redact_env_value redact_env_values
env_value-is_env_list k path entry (list no_values) = refl
env_value-is_env_list k path entry (list (value v vs)) =
    ap (λ b. contains env_keys k && b) (env_values-are_named path 0 entry (value v vs))
env_value-is_env_list k path entry (dict o) = refl
env_value-is_env_list k path entry null = refl
env_value-is_env_list k path entry (bool b) = refl
env_value-is_env_list k path entry (number n) = refl
env_value-is_env_list k path entry (text t) = refl

-- A member is clean, replaced or not.
pub env_clean_choice :
    (b : Bool) (k : Text) (v : Value)
    → env_clean (is_env_list k v) v ≡ true
    → env_clean
        (is_env_list k (if b then text redaction_placeholder else v))
        (if b then text redaction_placeholder else v)
      ≡ true
unfolding env_clean
env_clean_choice true k v h = refl
env_clean_choice false k v h = h

mutual
  unfolding redact_env_value redact_env_values redact_env_fields env_clean env_clean_values
      env_clean_fields

  pub env_value_clean :
      (path : Text) (entry : Bool) (v : Value)
      → env_clean entry (redact_env_value path entry v).0 ≡ true
  env_value_clean path entry (text t) = refl
  env_value_clean path entry (dict o) =
      ground (
        arith,
        env_fields_not_exposed path entry o,
        env_fields_clean path (entry && is_exposed o) o,
      )
  env_value_clean path entry (list vs) = env_values_clean path 0 entry vs
  env_value_clean path entry null = refl
  env_value_clean path entry (bool b) = refl
  env_value_clean path entry (number n) = refl

  env_values_clean :
      (path : Text) (i : ℕ) (entries : Bool) (vs : Values)
      → env_clean_values entries (redact_env_values path i entries vs).0 ≡ true
  env_values_clean path i entries no_values = refl
  env_values_clean path i entries (value v vs) = ground (
    arith,
    env_value_clean (index_path path i) entries v,
    env_values_clean path (suc i) entries vs,
  )

  env_fields_clean :
      (path : Text) (exposed : Bool) (o : Fields)
      → env_clean_fields (redact_env_fields path exposed o).0 ≡ true
  env_fields_clean path exposed no_fields = refl
  env_fields_clean path exposed (field k v o) =
      ap₂ (λ a b. a && b)
        (env_clean_choice (exposed && k == value_key) k
          (redact_env_value (key_path path k) (is_env_list k v) v).0
          (subst
            (λ e. env_clean e (redact_env_value (key_path path k) (is_env_list k v) v).0 ≡ true)
            (sym (env_value-is_env_list k (key_path path k) (is_env_list k v) v))
            (env_value_clean (key_path path k) (is_env_list k v) v)))
        (env_fields_clean path exposed o)
