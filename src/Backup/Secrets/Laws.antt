-- ===== src/Backup/Secrets/Laws.antt =====
-- What redact_credentials promises of a manifest.
-- What a redacted manifest is like: its texts kept, its entries and its literals clean.
use mathlib.Core.Path.{subst}
use k8s_homelab.Prelude.{refl, false, true, sym, is_nil, [], ◌≡◌}
use k8s_homelab.Prelude.Text.{Text}
use k8s_homelab.Backup.Secrets.EnvFound.{env_in_replaced}
use k8s_homelab.Backup.Secrets.Found.{
  plaintext_in_replaced, entropy_in_none, plain_no_pattern, each_text_imp, all_replaced,
}
use k8s_homelab.Backup.Secrets.Find.{env_in, plaintext_in, entropy_in}
use k8s_homelab.Backup.Secrets.Same.{
  redact_plain_value_same, redact_env_value_same, redact_member_same,
}
use k8s_homelab.Backup.Secrets.Kept.{
  redact_member_plain, env_value_plain, plain_value_plain, is_plain, each_text,
}
use k8s_homelab.Backup.Secrets.Clean.{env_value_clean, env_clean}
use k8s_homelab.Backup.Secrets.Redact.{
  redact_plain_value, redact_env_value, redact_member, redact_suspicious_plaintext,
  redact_env_var_credentials, redact_pattern_matches,
}
use k8s_homelab.Backup.Secrets.Redact.{redact_credentials}
use k8s_homelab.Backup.Secrets.Open.{plain_value_clean, plain_clean}
use k8s_homelab.Backup.Secrets.Entries.{plain_value_env_clean}
use k8s_homelab.Backup.Secrets.{scan_text_for_high_confidence_patterns}
use k8s_homelab.Json.{dict, Fields}

redacted_texts : (o : Fields) → each_text is_plain (redact_credentials (dict o)).0 ≡ true
unfolding redact_credentials redact_pattern_matches redact_env_var_credentials
    redact_suspicious_plaintext
redacted_texts o =
    let a = (redact_member [] (dict o)).0 in
    let b = (redact_env_value [] false a).0 in
    plain_value_plain [] b (env_value_plain [] false a (redact_member_plain [] (dict o)))

redacted_entries : (o : Fields) → env_clean false (redact_credentials (dict o)).0 ≡ true
unfolding redact_credentials redact_pattern_matches redact_env_var_credentials
    redact_suspicious_plaintext
redacted_entries o =
    let a = (redact_member [] (dict o)).0 in
    plain_value_env_clean [] false (redact_env_value [] false a).0 (env_value_clean [] false a)

redacted_literals : (o : Fields) → plain_clean (redact_credentials (dict o)).0 ≡ true
unfolding redact_credentials redact_pattern_matches redact_env_var_credentials
    redact_suspicious_plaintext
redacted_literals o =
    let a = (redact_member [] (dict o)).0 in plain_value_clean [] (redact_env_value [] false a).0

-- After redact_credentials of a dict, no text of it matches a high-confidence pattern, no text of it is
-- found as random, and all that the walks for literals under suspicious keys and for environment
-- variables still find, at whatever path they start, is the placeholder.
pub redact_credentials-all_replaced :
    (o : Fields) (path : Text)
    → (each_text
          (λ t. is_nil (scan_text_for_high_confidence_patterns t))
          (redact_credentials (dict o)).0
        ≡ true)
      × (entropy_in path (redact_credentials (dict o)).0 ≡ [])
      × (all_replaced (plaintext_in path (redact_credentials (dict o)).0) ≡ true)
      × (all_replaced (env_in path (redact_credentials (dict o)).0) ≡ true)
redact_credentials-all_replaced o path =
    let v = (redact_credentials (dict o)).0 in
    (
      each_text_imp is_plain (λ t. is_nil (scan_text_for_high_confidence_patterns t))
          plain_no_pattern v (redacted_texts o),
      entropy_in_none path v (redacted_texts o),
      plaintext_in_replaced path v (redacted_literals o),
      env_in_replaced path false v (redacted_entries o),
    )

redact_clean :
    (o : Fields)
    → each_text is_plain (dict o) ≡ true
    → env_clean false (dict o) ≡ true
    → plain_clean (dict o) ≡ true
    → redact_credentials (dict o) ≡ (dict o, [])
unfolding redact_credentials redact_pattern_matches redact_env_var_credentials
    redact_suspicious_plaintext
redact_clean o a b c = rw (
  redact_member_same [] (dict o) a,
  redact_env_value_same [] false (dict o) b,
  redact_plain_value_same [] (dict o) c,
)

-- The fields of a dict that is redacted.
redacted_dict : (o : Fields) → (q : Fields) × ((redact_credentials (dict o)).0 ≡ dict q)
unfolding redact_credentials redact_pattern_matches redact_env_var_credentials
    redact_suspicious_plaintext redact_member redact_env_value redact_plain_value
redacted_dict o = (_, refl)

-- Redacting the dict that redact_credentials leaves changes nothing more and reports nothing.
redact_credentials_idem :
    (o : Fields)
    → redact_credentials (redact_credentials (dict o)).0 ≡ ((redact_credentials (dict o)).0, [])
redact_credentials_idem o =
    let (q, e) = redacted_dict o in
    subst (λ v. redact_credentials v ≡ (v, [])) (sym e)
      (redact_clean q (subst (λ v. each_text is_plain v ≡ true) e (redacted_texts o))
        (subst (λ v. env_clean false v ≡ true) e (redacted_entries o))
        (subst (λ v. plain_clean v ≡ true) e (redacted_literals o)))
