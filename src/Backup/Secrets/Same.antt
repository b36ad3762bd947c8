-- ===== src/Backup/Secrets/Same.antt =====
-- Each redaction leaves a manifest that has nothing for it as it is, and reports nothing.
use mathlib.Core.Path.{ap₂}
use k8s_homelab.Prelude.{
  ◌∙◌, false, not, ◌++◌, &&_both, inr, inl, suc, ◌&&◌, refl, Bool-cases, arith, ◌∷◌, ap, [], Bool,
  true, ◌≡◌, is_nil, ℕ, List,
}
use k8s_homelab.Prelude.Text.{Text}
use k8s_homelab.Backup.Secrets.Redact.{
  Redaction, is_open, is_exposed, reasons, redact_for, env_redactions_at, redact_env_fields,
  redact_fields, redact_plain_fields, redact_env_values,
}
use k8s_homelab.Backup.Secrets.Redact.{
  redact_values, redact_plain_values, redact_text, redact_env_value, redact_plain_value,
  redact_member, env_redactions,
}
use k8s_homelab.Json.{
  no_fields, field, Fields, no_values, null, number, bool, list, dict, value, text, Values, Value,
}
use k8s_homelab.Backup.Secrets.{key_path, index_path}
use k8s_homelab.Backup.Secrets.Open.{plain_clean_fields, plain_clean_values, plain_clean}
use k8s_homelab.Backup.Secrets.Kept.{each_text_of_fields, each_text_of_values, each_text, is_plain}
use k8s_homelab.Backup.Secrets.Find.{is_env_list}
use k8s_homelab.Backup.Secrets.Clean.{env_clean_fields, env_clean_values, env_clean}

is_nil_eq : (ls : List Text) → is_nil ls ≡ true → ls ≡ []
is_nil_eq [] h = refl
is_nil_eq (l ∷ ls) h = absurd (cc)

redact_text_same : (path t : Text) → is_plain t ≡ true → redact_text path t ≡ (text t, [])
unfolding redact_text
redact_text_same path t h = ap (redact_for path t) (is_nil_eq (reasons t) h)

mutual
  unfolding redact_member redact_values redact_fields each_text each_text_of_values
      each_text_of_fields

  pub redact_member_same :
      (path : Text) (v : Value) → each_text is_plain v ≡ true → redact_member path v ≡ (v, [])
  redact_member_same path (text t) h = redact_text_same path t h
  redact_member_same path (dict o) h = ap (λ p. (dict p.0, p.1)) (redact_fields_same path o h)
  redact_member_same path (list vs) h = ap (λ p. (list p.0, p.1)) (redact_values_same path 0 vs h)
  redact_member_same path null h = refl
  redact_member_same path (bool b) h = refl
  redact_member_same path (number n) h = refl

  redact_values_same :
      (path : Text) (i : ℕ) (vs : Values)
      → each_text_of_values is_plain vs ≡ true
      → redact_values path i vs ≡ (vs, [])
  redact_values_same path i no_values h = refl
  redact_values_same path i (value v vs) h =
      let (a, b) = &&_both (each_text is_plain v) (each_text_of_values is_plain vs) h in
      ap₂ (λ p q. (value p.0 q.0, p.1 ++ q.1)) (redact_member_same (index_path path i) v a)
        (redact_values_same path (suc i) vs b)

  redact_fields_same :
      (path : Text) (o : Fields)
      → each_text_of_fields is_plain o ≡ true
      → redact_fields path o ≡ (o, [])
  redact_fields_same path no_fields h = refl
  redact_fields_same path (field k v o) h =
      let (a, b) = &&_both (each_text is_plain v) (each_text_of_fields is_plain o) h in
      ap₂ (λ p q. (field k p.0 q.0, p.1 ++ q.1)) (redact_member_same (key_path path k) v a)
        (redact_fields_same path o b)

env_redactions_none :
    (path : Text) (i : ℕ) (vs : Values)
    → env_clean_values true vs ≡ true
    → env_redactions path i vs ≡ []
unfolding env_redactions env_clean env_clean_values
env_redactions_none path i no_values h = refl
env_redactions_none path i (value (dict o) vs) h =
    ground (arith, env_redactions_none path (suc i) vs)
env_redactions_none path i (value (list ws) vs) h =
    env_redactions_none path (suc i) vs
      (&&_both (env_clean true (list ws)) (env_clean_values true vs) h).1
env_redactions_none path i (value null vs) h = env_redactions_none path (suc i) vs h
env_redactions_none path i (value (bool b) vs) h = env_redactions_none path (suc i) vs h
env_redactions_none path i (value (number n) vs) h = env_redactions_none path (suc i) vs h
env_redactions_none path i (value (text t) vs) h = env_redactions_none path (suc i) vs h

env_redactions_at_none :
    (path k : Text) (v : Value)
    → env_clean (is_env_list k v) v ≡ true
    → env_redactions_at path k v ≡ []
unfolding env_clean
env_redactions_at_none path k (list vs) h = elim (Bool-cases (is_env_list k (list vs))) [
  | inl e ↦ ground (arith, env_redactions_none path 0 vs)
  | inr e ↦ ground arith
]
env_redactions_at_none path k (dict o) h = refl
env_redactions_at_none path k null h = refl
env_redactions_at_none path k (bool b) h = refl
env_redactions_at_none path k (number n) h = refl
env_redactions_at_none path k (text t) h = refl

mutual
  unfolding redact_env_value redact_env_values redact_env_fields env_clean env_clean_values
      env_clean_fields

  pub redact_env_value_same :
      (path : Text) (entry : Bool) (v : Value)
      → env_clean entry v ≡ true
      → redact_env_value path entry v ≡ (v, [])
  redact_env_value_same path entry (dict o) h = elim (Bool-cases (entry && is_exposed o)) [
    | inl e ↦ ground (arith)
    | inr e ↦
        ap (λ b. (dict (redact_env_fields path b o).0, (redact_env_fields path b o).1)) e
        ∙ ap (λ p. (dict p.0, p.1))
            (redact_env_fields_same path o
              (&&_both (not (entry && is_exposed o)) (env_clean_fields o) h).1)
  ]
  redact_env_value_same path entry (list vs) h =
      ap (λ p. (list p.0, p.1)) (redact_env_values_same path 0 entry vs h)
  redact_env_value_same path entry null h = refl
  redact_env_value_same path entry (bool b) h = refl
  redact_env_value_same path entry (number n) h = refl
  redact_env_value_same path entry (text t) h = refl

  redact_env_values_same :
      (path : Text) (i : ℕ) (entries : Bool) (vs : Values)
      → env_clean_values entries vs ≡ true
      → redact_env_values path i entries vs ≡ (vs, [])
  redact_env_values_same path i entries no_values h = refl
  redact_env_values_same path i entries (value v vs) h =
      let (a, b) = &&_both (env_clean entries v) (env_clean_values entries vs) h in
      ap₂ (λ p q. (value p.0 q.0, p.1 ++ q.1))
        (redact_env_value_same (index_path path i) entries v a)
        (redact_env_values_same path (suc i) entries vs b)

  redact_env_fields_same :
      (path : Text) (o : Fields)
      → env_clean_fields o ≡ true
      → redact_env_fields path false o ≡ (o, [])
  redact_env_fields_same path no_fields h = refl
  redact_env_fields_same path (field k v o) h =
      let (a, b) = &&_both (env_clean (is_env_list k v) v) (env_clean_fields o) h in
      ap₂
        (λ (p : (Value × List Redaction) × List Redaction) (q : Fields × List Redaction).
          (field k p.0.0 q.0, p.1 ++ (p.0.1 ++ q.1)))
        (ap₂ (λ (p : Value × List Redaction) (r : List Redaction). (p, r))
          (redact_env_value_same (key_path path k) (is_env_list k v) v a)
          (env_redactions_at_none (key_path path k) k v a))
        (redact_env_fields_same path o b)

mutual
  unfolding redact_plain_value redact_plain_values redact_plain_fields plain_clean
      plain_clean_values plain_clean_fields

  pub redact_plain_value_same :
      (path : Text) (v : Value) → plain_clean v ≡ true → redact_plain_value path v ≡ (v, [])
  redact_plain_value_same path (text t) h = refl
  redact_plain_value_same path (dict o) h =
      ap (λ p. (dict p.0, p.1)) (redact_plain_fields_same path o h)
  redact_plain_value_same path (list vs) h =
      ap (λ p. (list p.0, p.1)) (redact_plain_values_same path 0 vs h)
  redact_plain_value_same path null h = refl
  redact_plain_value_same path (bool b) h = refl
  redact_plain_value_same path (number n) h = refl

  redact_plain_values_same :
      (path : Text) (i : ℕ) (vs : Values)
      → plain_clean_values vs ≡ true
      → redact_plain_values path i vs ≡ (vs, [])
  redact_plain_values_same path i no_values h = refl
  redact_plain_values_same path i (value v vs) h =
      let (a, b) = &&_both (plain_clean v) (plain_clean_values vs) h in
      ap₂ (λ p q. (value p.0 q.0, p.1 ++ q.1)) (redact_plain_value_same (index_path path i) v a)
        (redact_plain_values_same path (suc i) vs b)

  redact_plain_fields_same :
      (path : Text) (o : Fields)
      → plain_clean_fields o ≡ true
      → redact_plain_fields path o ≡ (o, [])
  redact_plain_fields_same path no_fields h = refl
  redact_plain_fields_same path (field k v o) h =
      let (a, b) = &&_both (not (is_open k v)) (plain_clean v && plain_clean_fields o) h in
      let (c, d) = &&_both (plain_clean v) (plain_clean_fields o) b in
      ground
        (arith, redact_plain_value_same (key_path path k) v c, redact_plain_fields_same path o d)
