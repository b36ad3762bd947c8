-- ===== src/Backup/Secrets/Find.antt =====
-- secretscan.py: the walks that find credentials in a manifest.
use k8s_homelab.Prelude.{
  suc, nat_eq, not, list_eq, none, ◌&&◌, ◌++◌, contains, true, ◌∷◌, if◌then◌else◌, false, [], ℕ,
  some, Bool, List, Option,
}
use k8s_homelab.Prelude.Text.{strip, lower, is_empty, codes, Text}
use k8s_homelab.Json.{
  no_fields, null, field, no_values, number, bool, get, value, list, dict, text, Fields, Values,
  Value,
}
use k8s_homelab.Backup.Secrets.{
  key_path, looks_like_high_entropy_secret, index_path, is_flagged_key,
}

abbrev pub Finding : Type 0
Finding = Text × Text

-- A literal under a key that is flagged.
abbrev pub is_plaintext : Text → Value → Bool
is_plaintext key (text t) = is_flagged_key key && not (is_empty (strip t))
is_plaintext key v = false

abbrev pub plaintext_finding : Text → Text → Value → List Finding
plaintext_finding path key (text t) = if is_plaintext key (text t) then (path, t) ∷ [] else []
plaintext_finding path key v = []

-- `find_suspicious_plaintext_values`
unfoldable mutual
  pub plaintext_in : Text → Value → List Finding
  plaintext_in path (dict o) = plaintext_in_fields path o
  plaintext_in path (list vs) = plaintext_in_values path 0 vs
  plaintext_in path null = []
  plaintext_in path (bool b) = []
  plaintext_in path (number n) = []
  plaintext_in path (text t) = []

  pub plaintext_in_values : Text → ℕ → Values → List Finding
  plaintext_in_values path i no_values = []
  plaintext_in_values path i (value v vs) =
      plaintext_in (index_path path i) v ++ plaintext_in_values path (suc i) vs

  pub plaintext_in_fields : Text → Fields → List Finding
  plaintext_in_fields path no_fields = []
  plaintext_in_fields path (field k v o) =
      plaintext_finding (key_path path k) k v
      ++ (plaintext_in (key_path path k) v ++ plaintext_in_fields path o)

-- `find_high_entropy_strings`
unfoldable mutual
  pub entropy_in : Text → Value → List Finding
  entropy_in path (dict o) = entropy_in_fields path o
  entropy_in path (list vs) = entropy_in_values path 0 vs
  entropy_in path null = []
  entropy_in path (bool b) = []
  entropy_in path (number n) = []
  entropy_in path (text t) = if looks_like_high_entropy_secret t then (path, t) ∷ [] else []

  pub entropy_in_values : Text → ℕ → Values → List Finding
  entropy_in_values path i no_values = []
  entropy_in_values path i (value v vs) =
      entropy_in (index_path path i) v ++ entropy_in_values path (suc i) vs

  pub entropy_in_fields : Text → Fields → List Finding
  entropy_in_fields path no_fields = []
  entropy_in_fields path (field k v o) = entropy_in (key_path path k) v ++ entropy_in_fields path o

unfoldable pub name_key : Text
name_key = codes "name"

unfoldable pub value_key : Text
value_key = codes "value"

abbrev pub is_there : Option Value → Bool
is_there none = false
is_there (some v) = true

abbrev pub is_named : Value → Bool
is_named (dict o) = is_there (get name_key o)
is_named v = false

unfoldable pub are_named : Values → Bool
are_named no_values = true
are_named (value v vs) = is_named v && are_named vs

-- `_looks_like_env_var_list`, under a key that may hold one.
abbrev pub looks_like_env_var_list : Value → Bool
looks_like_env_var_list (list (value v vs)) = are_named (value v vs)
looks_like_env_var_list v = false

unfoldable pub env_keys : List Text
env_keys = codes "env" ∷ codes "args" ∷ codes "command" ∷ []

abbrev pub is_env_list : Text → Value → Bool
is_env_list key v = contains env_keys key && looks_like_env_var_list v

unfoldable pub not_a_credential : List Text
not_a_credential = [] ∷ codes "true" ∷ codes "false" ∷ []

abbrev pub text_at : Option Value → Option Text
text_at (some (text t)) = some t
text_at v = none

-- Whether a name and a value of an entry, where they are texts, are a credential's.
abbrev pub is_credential : Option Text → Option Text → Bool
is_credential (some name) (some t) =
    is_flagged_key name && not (contains not_a_credential (lower (strip t)))
is_credential name t = false

abbrev pub or_blank : Option Text → Text
or_blank none = []
or_blank (some t) = t

abbrev pub env_finding : Text → Fields → List Finding
env_finding path o =
    if is_credential (text_at (get name_key o)) (text_at (get value_key o))
    then (path ++ codes ".value", or_blank (text_at (get value_key o))) ∷ []
    else []

unfoldable pub env_findings : Text → ℕ → Values → List Finding
env_findings path i no_values = []
env_findings path i (value (dict o) vs) =
    env_finding (index_path path i) o ++ env_findings path (suc i) vs
env_findings path i (value v vs) = env_findings path (suc i) vs

abbrev pub env_findings_at : Text → Text → Value → List Finding
env_findings_at path key (list vs) =
    if is_env_list key (list vs) then env_findings path 0 vs else []
env_findings_at path key v = []

-- `find_env_var_credentials`
unfoldable mutual
  pub env_in : Text → Value → List Finding
  env_in path (dict o) = env_in_fields path o
  env_in path (list vs) = env_in_values path 0 vs
  env_in path null = []
  env_in path (bool b) = []
  env_in path (number n) = []
  env_in path (text t) = []

  pub env_in_values : Text → ℕ → Values → List Finding
  env_in_values path i no_values = []
  env_in_values path i (value v vs) = env_in (index_path path i) v ++ env_in_values path (suc i) vs

  pub env_in_fields : Text → Fields → List Finding
  env_in_fields path no_fields = []
  env_in_fields path (field k v o) =
      env_findings_at (key_path path k) k v ++ (env_in (key_path path k) v ++ env_in_fields path o)
