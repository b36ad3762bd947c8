-- ===== src/Backup/Secrets/Redact.antt =====
-- secretscan.py: redact_credentials. What the source changes in place is returned, beside the
-- redactions in their order.
use k8s_homelab.Prelude.{
  list_eq, nat_eq, suc, ◌==◌, not, ◌∷◌, ◌&&◌, false, [], ◌++◌, if◌then◌else◌, ℕ, List, Bool,
}
use k8s_homelab.Prelude.Text.{join, codes, Text}
use k8s_homelab.Backup.Secrets.Find.{
  text_at, or_blank, value_key, name_key, is_plaintext, is_env_list, is_credential,
}
use k8s_homelab.Json.{
  no_fields, null, field, no_values, number, bool, get, value, list, dict, text, Values, Value,
  Fields,
}
use k8s_homelab.Backup.Secrets.{
  key_path, index_path, redaction_placeholder, looks_like_high_entropy_secret,
  scan_text_for_high_confidence_patterns,
}

pub record Redaction : Type 0 where
  pub path : Text
  pub reason : Text

-- Why a text is replaced by what it looks like; none for one that is kept.
abbrev pub or_entropy : Text → List Text → List Text
or_entropy t [] = if looks_like_high_entropy_secret t then codes "high-entropy string" ∷ [] else []
or_entropy t (label ∷ labels) = label ∷ labels

unfoldable pub reasons : Text → List Text
reasons t = or_entropy t (scan_text_for_high_confidence_patterns t)

abbrev pub redact_for : Text → Text → List Text → Value × List Redaction
redact_for path t [] = (text t, [])
redact_for path t (r ∷ rs) =
    (text redaction_placeholder, record { path = path; reason = join (codes ", ") (r ∷ rs) } ∷ [])

unfoldable pub redact_text : Text → Text → Value × List Redaction
redact_text path t = redact_for path t (reasons t)

-- `_redact_pattern_matches`, of a member; at the top a text stays.
unfoldable mutual
  pub redact_member : Text → Value → Value × List Redaction
  redact_member path (text t) = redact_text path t
  redact_member path (dict o) = let (o', r) = redact_fields path o in (dict o', r)
  redact_member path (list vs) = let (vs', r) = redact_values path 0 vs in (list vs', r)
  redact_member path null = (null, [])
  redact_member path (bool b) = (bool b, [])
  redact_member path (number n) = (number n, [])

  pub redact_values : Text → ℕ → Values → Values × List Redaction
  redact_values path i no_values = (no_values, [])
  redact_values path i (value v vs) =
      let (v', r) = redact_member (index_path path i) v in
      let (vs', rs) = redact_values path (suc i) vs in (value v' vs', r ++ rs)

  pub redact_fields : Text → Fields → Fields × List Redaction
  redact_fields path no_fields = (no_fields, [])
  redact_fields path (field k v o) =
      let (v', r) = redact_member (key_path path k) v in
      let (o', rs) = redact_fields path o in (field k v' o', r ++ rs)

unfoldable pub redact_pattern_matches : Value → Value × List Redaction
redact_pattern_matches (text t) = (text t, [])
redact_pattern_matches v = redact_member [] v

-- An entry whose value is replaced.
abbrev pub is_exposed : Fields → Bool
is_exposed o =
    is_credential (text_at (get name_key o)) (text_at (get value_key o))
    && not (or_blank (text_at (get value_key o)) == redaction_placeholder)

abbrev pub env_redaction : Text → Fields → List Redaction
env_redaction path o =
    if is_exposed o
    then record {
      path = path ++ codes ".value";
      reason =
          codes "env var name '"
          ++ or_blank (text_at (get name_key o))
          ++ codes "' looks like a credential";
    }
      ∷ []
    else []

unfoldable pub env_redactions : Text → ℕ → Values → List Redaction
env_redactions path i no_values = []
env_redactions path i (value (dict o) vs) =
    env_redaction (index_path path i) o ++ env_redactions path (suc i) vs
env_redactions path i (value v vs) = env_redactions path (suc i) vs

abbrev pub env_redactions_at : Text → Text → Value → List Redaction
env_redactions_at path key (list vs) =
    if is_env_list key (list vs) then env_redactions path 0 vs else []
env_redactions_at path key v = []

-- `_redact_env_var_credentials`. The walk is told whether the list it enters is one of entries, and
-- whether the dict it enters is an exposed entry, whose value it then replaces; the redactions of a
-- list of entries stand before those of what its entries hold. The keys of a dict differ.
unfoldable mutual
  pub redact_env_value : Text → Bool → Value → Value × List Redaction
  redact_env_value path entry (dict o) =
      let (o', r) = redact_env_fields path (entry && is_exposed o) o in (dict o', r)
  redact_env_value path entry (list vs) =
      let (vs', r) = redact_env_values path 0 entry vs in (list vs', r)
  redact_env_value path entry null = (null, [])
  redact_env_value path entry (bool b) = (bool b, [])
  redact_env_value path entry (number n) = (number n, [])
  redact_env_value path entry (text t) = (text t, [])

  pub redact_env_values : Text → ℕ → Bool → Values → Values × List Redaction
  redact_env_values path i entries no_values = (no_values, [])
  redact_env_values path i entries (value v vs) =
      let (v', r) = redact_env_value (index_path path i) entries v in
      let (vs', rs) = redact_env_values path (suc i) entries vs in (value v' vs', r ++ rs)

  pub redact_env_fields : Text → Bool → Fields → Fields × List Redaction
  redact_env_fields path exposed no_fields = (no_fields, [])
  redact_env_fields path exposed (field k v o) =
      let (v', r) = redact_env_value (key_path path k) (is_env_list k v) v in
      let (o', rs) = redact_env_fields path exposed o in
      (
        field k (if exposed && k == value_key then text redaction_placeholder else v') o',
        env_redactions_at (key_path path k) k v ++ (r ++ rs),
      )

unfoldable pub redact_env_var_credentials : Value → Value × List Redaction
redact_env_var_credentials obj = redact_env_value [] false obj

-- A literal under a flagged key that is not replaced yet.
abbrev pub is_open : Text → Value → Bool
is_open key (text t) = is_plaintext key (text t) && not (t == redaction_placeholder)
is_open key v = false

abbrev pub key_redaction : Text → Text → List Redaction
key_redaction path key =
    record { path = path; reason = codes "key name '" ++ key ++ codes "' looks like a credential" }
    ∷ []

-- `_redact_suspicious_plaintext`
unfoldable mutual
  pub redact_plain_value : Text → Value → Value × List Redaction
  redact_plain_value path (dict o) = let (o', r) = redact_plain_fields path o in (dict o', r)
  redact_plain_value path (list vs) = let (vs', r) = redact_plain_values path 0 vs in (list vs', r)
  redact_plain_value path null = (null, [])
  redact_plain_value path (bool b) = (bool b, [])
  redact_plain_value path (number n) = (number n, [])
  redact_plain_value path (text t) = (text t, [])

  pub redact_plain_values : Text → ℕ → Values → Values × List Redaction
  redact_plain_values path i no_values = (no_values, [])
  redact_plain_values path i (value v vs) =
      let (v', r) = redact_plain_value (index_path path i) v in
      let (vs', rs) = redact_plain_values path (suc i) vs in (value v' vs', r ++ rs)

  pub redact_plain_fields : Text → Fields → Fields × List Redaction
  redact_plain_fields path no_fields = (no_fields, [])
  redact_plain_fields path (field k v o) =
      let (v', r) = redact_plain_value (key_path path k) v in
      let (o', rs) = redact_plain_fields path o in
      (
        field k (if is_open k v then text redaction_placeholder else v') o',
        (if is_open k v then key_redaction (key_path path k) k else r) ++ rs,
      )

unfoldable pub redact_suspicious_plaintext : Value → Value × List Redaction
redact_suspicious_plaintext obj = redact_plain_value [] obj

unfoldable pub redact_credentials : Value → Value × List Redaction
redact_credentials obj =
    let (a, r) = redact_pattern_matches obj in
    let (b, s) = redact_env_var_credentials a in
    let (c, t) = redact_suspicious_plaintext b in (c, r ++ (s ++ t))
