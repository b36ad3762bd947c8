-- ===== src/Backup/Substitute/Cache.antt =====
-- What the check before a commit reads back of the substitutions that a capture used.
-- Whether a row of an entry is one that is loaded as it is.
use native.Mathlib.Decide.{ℕ_discrete}
use k8s_homelab.Prelude.{
  [], refl, &&_both, ◌||◌, arith, false, ◌∷◌, some, ◌&&◌, nat_eq, true, all-append, map, ◌≡◌,
  list_eq, Option, not, all, Bool, List,
}
use k8s_homelab.Prelude.Sort.{sorted_by}
use k8s_homelab.Prelude.Text.{codes, is_empty, Text}
use k8s_homelab.Prelude.Dict.{Dict}
use k8s_homelab.Backup.Substitute.Entries.{
  data_in, by_name, cache_row, entry_of, is_left_out, is_bare, secret_entry, wrapped, setting_entry,
  cache_rows, is_false, normalize_placeholder,
}
use k8s_homelab.Backup.Substitute.Entries.{load_substitutions, is_name_start, Entry, from_live}
use k8s_homelab.Json.{text, bool, str_value, get, is_truthy, Value}
use k8s_homelab.Backup.Substitute.{Substitution}

abbrev pub is_loadable : Entry → Bool
is_loadable e =
    (not (is_empty e.substitution.placeholder) && not (is_bare e.substitution.placeholder))
    && (not e.substitution.replace || not (is_empty e.substitution.literal))

abbrev pub substitutions_of : List Entry → List Substitution
substitutions_of es = map (λ e. e.substitution) es

module _ (repr : Value → Text) where
  row_reads :
      (e : Entry)
      → (get (codes "literal") (cache_row e) ≡ some (text e.substitution.literal))
        × (get (codes "placeholder") (cache_row e) ≡ some (text e.substitution.placeholder))
        × (get (codes "replace") (cache_row e) ≡ some (bool e.substitution.replace))
  unfolding get list_eq nat_eq ℕ_discrete
  row_reads e = (refl, refl, refl)

  is_false_bool : (b : Bool) → not (is_false (some (bool b))) ≡ b
  is_false_bool true = refl
  is_false_bool false = refl

  row_kept : (e : Entry) → is_loadable e ≡ true → is_left_out repr (cache_row e) ≡ false
  unfolding is_truthy
  row_kept e h =
      let (a, b, c) = row_reads e in ground (arith, a, b, c, is_false_bool e.substitution.replace)

  row_entry :
      (e : Entry)
      → is_loadable e ≡ true
      → (entry_of repr (cache_row e)).substitution ≡ e.substitution
  unfolding normalize_placeholder str_value
  row_entry e h =
      let (a, b, c) = row_reads e in ground (arith, a, b, c, is_false_bool e.substitution.replace)

  load_substitutions-cache_rows :
      (es : List Entry)
      → all is_loadable es ≡ true
      → substitutions_of (load_substitutions repr (cache_rows es)) ≡ substitutions_of es
  unfolding load_substitutions cache_rows
  load_substitutions-cache_rows [] h = refl
  load_substitutions-cache_rows (e ∷ es) h =
      let (a, b) = &&_both (is_loadable e) (all is_loadable es) h in
      ground (arith, row_kept e a, row_entry e a, load_substitutions-cache_rows es b)

wrapped_loadable :
    (name : Text) → (not (is_empty (wrapped name)) && not (is_bare (wrapped name))) ≡ true
unfolding is_name_start nat_eq ℕ_discrete
wrapped_loadable name = refl

settings_loadable : (d : Dict Text Text) → all is_loadable (map setting_entry d) ≡ true
settings_loadable [] = refl
settings_loadable ((name, v) ∷ d) = ground (arith, wrapped_loadable name, settings_loadable d)

secrets_loadable :
    (decode : Text → Text) (d : Dict Text Text)
    → all is_loadable (map (secret_entry decode) d) ≡ true
secrets_loadable decode [] = refl
secrets_loadable decode ((name, v) ∷ d) =
    ground (arith, wrapped_loadable name, secrets_loadable decode d)

-- What is loaded from the rows that cache_rows makes of the entries of from_live, whatever the Secret
-- and the ConfigMap hold, are the same substitutions in the same order: those that replace nothing and
-- the empty values too.
pub load_substitutions-from_live :
    (repr : Value → Text) (decode : Text → Text) (secret settings : Option (Dict Text Text))
    → substitutions_of (load_substitutions repr (cache_rows (from_live decode secret settings)))
      ≡ substitutions_of (from_live decode secret settings)
unfolding from_live
load_substitutions-from_live repr decode secret settings =
    load_substitutions-cache_rows repr (from_live decode secret settings) (
      all-append is_loadable (map setting_entry (sorted_by by_name (data_in settings)))
        (map (secret_entry decode) (sorted_by by_name (data_in secret)))
        (settings_loadable (sorted_by by_name (data_in settings)))
        (secrets_loadable decode (sorted_by by_name (data_in secret))))
