-- ===== src/Backup/Secrets/Kept.antt =====
-- The texts of a redacted manifest match no pattern, and later redactions keep it so.
use native.Mathlib.Decide.{ℕ_discrete}
use k8s_homelab.Prelude.{
  nat_eq, [], ◌∷◌, ap, suc, arith, ℕ, ◌&&◌, refl, List, true, is_nil, ◌≡◌, Bool,
}
use k8s_homelab.Prelude.Text.{Text}
use k8s_homelab.Backup.Secrets.Pattern.{
  match_exact, is_word_char, match_literal, match_piece, match_here, search_from, found_by,
}
use k8s_homelab.Backup.Secrets.{
  looks_like_high_entropy_secret, high_confidence_patterns, labels_of,
  scan_text_for_high_confidence_patterns, key_path, index_path, redaction_placeholder,
}
use k8s_homelab.Backup.Secrets.Redact.{
  redact_for, is_exposed, redact_plain_fields, redact_fields, redact_env_fields,
  redact_plain_values, redact_values, redact_env_values,
}
use k8s_homelab.Backup.Secrets.Redact.{
  redact_plain_value, redact_member, reasons, redact_env_value, redact_text,
}
use k8s_homelab.Json.{
  no_fields, no_values, null, field, Fields, value, Values, number, bool, list, dict, text, Value,
}
use k8s_homelab.Backup.Secrets.Find.{is_env_list}

-- Each text satisfies a test.
unfoldable mutual
  pub each_text : (Text → Bool) → Value → Bool
  each_text q (text t) = q t
  each_text q (dict o) = each_text_of_fields q o
  each_text q (list vs) = each_text_of_values q vs
  each_text q null = true
  each_text q (bool b) = true
  each_text q (number n) = true

  pub each_text_of_values : (Text → Bool) → Values → Bool
  each_text_of_values q no_values = true
  each_text_of_values q (value v vs) = each_text q v && each_text_of_values q vs

  pub each_text_of_fields : (Text → Bool) → Fields → Bool
  each_text_of_fields q no_fields = true
  each_text_of_fields q (field k v o) = each_text q v && each_text_of_fields q o

abbrev pub is_plain : Text → Bool
is_plain t = is_nil (reasons t)

placeholder_plain : is_plain redaction_placeholder ≡ true
unfolding reasons redaction_placeholder scan_text_for_high_confidence_patterns labels_of
    high_confidence_patterns found_by search_from match_here match_piece match_literal nat_eq
    ℕ_discrete is_word_char looks_like_high_entropy_secret match_exact
placeholder_plain = refl

redact_text_plain : (path t : Text) → each_text is_plain (redact_text path t).0 ≡ true
unfolding redact_text each_text
redact_text_plain path t = go (reasons t) refl
  where
    go : (rs : List Text) → reasons t ≡ rs → each_text is_plain (redact_for path t rs).0 ≡ true
    go [] e = ap is_nil e
    go (r ∷ rs) e = placeholder_plain

mutual
  unfolding redact_member redact_values redact_fields each_text each_text_of_values
      each_text_of_fields

  pub redact_member_plain :
      (path : Text) (v : Value) → each_text is_plain (redact_member path v).0 ≡ true
  redact_member_plain path (text t) = redact_text_plain path t
  redact_member_plain path (dict o) = redact_fields_plain path o
  redact_member_plain path (list vs) = redact_values_plain path 0 vs
  redact_member_plain path null = refl
  redact_member_plain path (bool b) = refl
  redact_member_plain path (number n) = refl

  redact_values_plain :
      (path : Text) (i : ℕ) (vs : Values)
      → each_text_of_values is_plain (redact_values path i vs).0 ≡ true
  redact_values_plain path i no_values = refl
  redact_values_plain path i (value v vs) =
      ground (arith, redact_member_plain (index_path path i) v, redact_values_plain path (suc i) vs)

  redact_fields_plain :
      (path : Text) (o : Fields) → each_text_of_fields is_plain (redact_fields path o).0 ≡ true
  redact_fields_plain path no_fields = refl
  redact_fields_plain path (field k v o) =
      ground (arith, redact_member_plain (key_path path k) v, redact_fields_plain path o)

mutual
  unfolding redact_env_value redact_env_values redact_env_fields each_text each_text_of_values
      each_text_of_fields

  pub env_value_plain :
      (path : Text) (entry : Bool) (v : Value)
      → each_text is_plain v ≡ true
      → each_text is_plain (redact_env_value path entry v).0 ≡ true
  env_value_plain path entry (text t) h = h
  env_value_plain path entry (dict o) h = env_fields_plain path (entry && is_exposed o) o h
  env_value_plain path entry (list vs) h = env_values_plain path 0 entry vs h
  env_value_plain path entry null h = refl
  env_value_plain path entry (bool b) h = refl
  env_value_plain path entry (number n) h = refl

  env_values_plain :
      (path : Text) (i : ℕ) (entries : Bool) (vs : Values)
      → each_text_of_values is_plain vs ≡ true
      → each_text_of_values is_plain (redact_env_values path i entries vs).0 ≡ true
  env_values_plain path i entries no_values h = refl
  env_values_plain path i entries (value v vs) h = ground (
    arith,
    env_value_plain (index_path path i) entries v,
    env_values_plain path (suc i) entries vs,
  )

  env_fields_plain :
      (path : Text) (exposed : Bool) (o : Fields)
      → each_text_of_fields is_plain o ≡ true
      → each_text_of_fields is_plain (redact_env_fields path exposed o).0 ≡ true
  env_fields_plain path exposed no_fields h = refl
  env_fields_plain path exposed (field k v o) h = ground (
    arith,
    env_value_plain (key_path path k) (is_env_list k v) v,
    env_fields_plain path exposed o,
    placeholder_plain,
  )

mutual
  unfolding redact_plain_value redact_plain_values redact_plain_fields each_text each_text_of_values
      each_text_of_fields

  pub plain_value_plain :
      (path : Text) (v : Value)
      → each_text is_plain v ≡ true
      → each_text is_plain (redact_plain_value path v).0 ≡ true
  plain_value_plain path (text t) h = h
  plain_value_plain path (dict o) h = plain_fields_plain path o h
  plain_value_plain path (list vs) h = plain_values_plain path 0 vs h
  plain_value_plain path null h = refl
  plain_value_plain path (bool b) h = refl
  plain_value_plain path (number n) h = refl

  plain_values_plain :
      (path : Text) (i : ℕ) (vs : Values)
      → each_text_of_values is_plain vs ≡ true
      → each_text_of_values is_plain (redact_plain_values path i vs).0 ≡ true
  plain_values_plain path i no_values h = refl
  plain_values_plain path i (value v vs) h =
      ground (arith, plain_value_plain (index_path path i) v, plain_values_plain path (suc i) vs)

  plain_fields_plain :
      (path : Text) (o : Fields)
      → each_text_of_fields is_plain o ≡ true
      → each_text_of_fields is_plain (redact_plain_fields path o).0 ≡ true
  plain_fields_plain path no_fields h = refl
  plain_fields_plain path (field k v o) h =
      ground
        (arith, plain_value_plain (key_path path k) v, plain_fields_plain path o, placeholder_plain)
