-- ===== src/Backup/Secrets/Found.antt =====
-- What the walks still find in a redacted manifest.
use mathlib.Core.Path.{ap₂}
use k8s_homelab.Prelude.{
  ◌∷◌, is_nil, suc, ◌&&◌, not, &&_both, refl, all-append, list_eq, arith, nat_eq, ◌++◌, false, ◌==◌,
  ℕ, true, all, Bool, ◌≡◌, List, [],
}
use k8s_homelab.Prelude.Text.{Text}
use k8s_homelab.Backup.Secrets.Kept.{each_text_of_fields, each_text_of_values, is_plain, each_text}
use k8s_homelab.Backup.Secrets.Find.{
  entropy_in_fields, entropy_in_values, entropy_in, plaintext_finding, plaintext_in_fields,
  plaintext_in_values, Finding, plaintext_in,
}
use k8s_homelab.Backup.Secrets.{
  looks_like_high_entropy_secret, scan_text_for_high_confidence_patterns, key_path, index_path,
  redaction_placeholder,
}
use k8s_homelab.Backup.Secrets.Redact.{or_entropy, reasons, is_open}
use k8s_homelab.Json.{
  no_fields, no_values, field, null, number, bool, dict, list, text, value, Values, Fields, Value,
}
use k8s_homelab.Backup.Secrets.Open.{plain_clean_fields, plain_clean_values, plain_clean}

abbrev is_replaced : Finding → Bool
is_replaced f = f.1 == redaction_placeholder

-- Each finding is the text that stands for a replaced one.
unfoldable pub all_replaced : List Finding → Bool
all_replaced fs = all is_replaced fs

pub all_replaced-++ :
    (fs gs : List Finding)
    → all_replaced fs ≡ true
    → all_replaced gs ≡ true
    → all_replaced (fs ++ gs) ≡ true
unfolding all_replaced
all_replaced-++ fs gs a b = ground (arith, all-append is_replaced fs gs)

pub none_replaced : all_replaced [] ≡ true
unfolding all_replaced
none_replaced = refl

plaintext_finding_replaced :
    (path k : Text) (v : Value)
    → is_open k v ≡ false
    → all_replaced (plaintext_finding path k v) ≡ true
unfolding all_replaced
plaintext_finding_replaced path k (text t) h = ground arith
plaintext_finding_replaced path k (dict o) h = refl
plaintext_finding_replaced path k (list vs) h = refl
plaintext_finding_replaced path k null h = refl
plaintext_finding_replaced path k (bool b) h = refl
plaintext_finding_replaced path k (number n) h = refl

mutual
  unfolding plaintext_in plaintext_in_values plaintext_in_fields plain_clean plain_clean_values
      plain_clean_fields

  pub plaintext_in_replaced :
      (path : Text) (v : Value) → plain_clean v ≡ true → all_replaced (plaintext_in path v) ≡ true
  plaintext_in_replaced path (text t) h = none_replaced
  plaintext_in_replaced path (dict o) h = plaintext_in_fields_replaced path o h
  plaintext_in_replaced path (list vs) h = plaintext_in_values_replaced path 0 vs h
  plaintext_in_replaced path null h = none_replaced
  plaintext_in_replaced path (bool b) h = none_replaced
  plaintext_in_replaced path (number n) h = none_replaced

  plaintext_in_values_replaced :
      (path : Text) (i : ℕ) (vs : Values)
      → plain_clean_values vs ≡ true
      → all_replaced (plaintext_in_values path i vs) ≡ true
  plaintext_in_values_replaced path i no_values h = none_replaced
  plaintext_in_values_replaced path i (value v vs) h =
      let (a, b) = &&_both (plain_clean v) (plain_clean_values vs) h in
      all_replaced-++ (plaintext_in (index_path path i) v) (plaintext_in_values path (suc i) vs)
        (plaintext_in_replaced (index_path path i) v a)
        (plaintext_in_values_replaced path (suc i) vs b)

  plaintext_in_fields_replaced :
      (path : Text) (o : Fields)
      → plain_clean_fields o ≡ true
      → all_replaced (plaintext_in_fields path o) ≡ true
  plaintext_in_fields_replaced path no_fields h = none_replaced
  plaintext_in_fields_replaced path (field k v o) h =
      let (a, b) = &&_both (not (is_open k v)) (plain_clean v && plain_clean_fields o) h in
      let (c, d) = &&_both (plain_clean v) (plain_clean_fields o) b in
      all_replaced-++ (plaintext_finding (key_path path k) k v)
        (plaintext_in (key_path path k) v ++ plaintext_in_fields path o)
        (plaintext_finding_replaced (key_path path k) k v (ground arith))
        (all_replaced-++ (plaintext_in (key_path path k) v) (plaintext_in_fields path o)
          (plaintext_in_replaced (key_path path k) v c) (plaintext_in_fields_replaced path o d))

not_random :
    (ls : List Text) (t : Text)
    → is_nil (or_entropy t ls) ≡ true
    → looks_like_high_entropy_secret t ≡ false
not_random [] t h = ground arith
not_random (l ∷ ls) t h = absurd (cc)

no_pattern : (ls : List Text) (t : Text) → is_nil (or_entropy t ls) ≡ true → is_nil ls ≡ true
no_pattern [] t h = refl
no_pattern (l ∷ ls) t h = h

-- A text that is kept is not random and matches no pattern.
plain_not_random : (t : Text) → is_plain t ≡ true → looks_like_high_entropy_secret t ≡ false
unfolding reasons
plain_not_random t h = not_random (scan_text_for_high_confidence_patterns t) t h

pub plain_no_pattern :
    (t : Text) → is_plain t ≡ true → is_nil (scan_text_for_high_confidence_patterns t) ≡ true
unfolding reasons
plain_no_pattern t h = no_pattern (scan_text_for_high_confidence_patterns t) t h

mutual
  unfolding entropy_in entropy_in_values entropy_in_fields each_text each_text_of_values
      each_text_of_fields

  pub entropy_in_none :
      (path : Text) (v : Value) → each_text is_plain v ≡ true → entropy_in path v ≡ []
  entropy_in_none path (text t) h = ground (arith, plain_not_random t)
  entropy_in_none path (dict o) h = entropy_in_fields_none path o h
  entropy_in_none path (list vs) h = entropy_in_values_none path 0 vs h
  entropy_in_none path null h = refl
  entropy_in_none path (bool b) h = refl
  entropy_in_none path (number n) h = refl

  entropy_in_values_none :
      (path : Text) (i : ℕ) (vs : Values)
      → each_text_of_values is_plain vs ≡ true
      → entropy_in_values path i vs ≡ []
  entropy_in_values_none path i no_values h = refl
  entropy_in_values_none path i (value v vs) h =
      let (a, b) = &&_both (each_text is_plain v) (each_text_of_values is_plain vs) h in
      ap₂ (λ p q. p ++ q) (entropy_in_none (index_path path i) v a)
        (entropy_in_values_none path (suc i) vs b)

  entropy_in_fields_none :
      (path : Text) (o : Fields)
      → each_text_of_fields is_plain o ≡ true
      → entropy_in_fields path o ≡ []
  entropy_in_fields_none path no_fields h = refl
  entropy_in_fields_none path (field k v o) h =
      let (a, b) = &&_both (each_text is_plain v) (each_text_of_fields is_plain o) h in
      ap₂ (λ p q. p ++ q) (entropy_in_none (key_path path k) v a) (entropy_in_fields_none path o b)

module _ (p q : Text → Bool) (imp : (t : Text) → p t ≡ true → q t ≡ true) where
  mutual
    unfolding each_text each_text_of_values each_text_of_fields

    pub each_text_imp : (v : Value) → each_text p v ≡ true → each_text q v ≡ true
    each_text_imp (text t) h = imp t h
    each_text_imp (dict o) h = each_text_of_fields_imp o h
    each_text_imp (list vs) h = each_text_of_values_imp vs h
    each_text_imp null h = refl
    each_text_imp (bool b) h = refl
    each_text_imp (number n) h = refl

    each_text_of_values_imp :
        (vs : Values) → each_text_of_values p vs ≡ true → each_text_of_values q vs ≡ true
    each_text_of_values_imp no_values h = refl
    each_text_of_values_imp (value v vs) h =
        ground (arith, each_text_imp v, each_text_of_values_imp vs)

    each_text_of_fields_imp :
        (o : Fields) → each_text_of_fields p o ≡ true → each_text_of_fields q o ≡ true
    each_text_of_fields_imp no_fields h = refl
    each_text_of_fields_imp (field k v o) h =
        ground (arith, each_text_imp v, each_text_of_fields_imp o)
