-- ===== src/Dockhand.antt =====
-- scripts/dockhand_keyvault_copy.py: what Dockhand's exported variables become in Key Vault. The names
-- map is given as it is read.
pub mod Plan
pub mod States
pub mod Listed
pub mod Laws
pub mod Grows
pub mod Placed
pub mod Tests
use k8s_homelab.Prelude.{
  suc, ◌>>=◌, nat_eq, false, ◌||◌, none, ◌&&◌, any, ◌==◌, [], true, if◌then◌else◌, Bool, ◌∷◌, ◌++◌,
  some, List, Option, ℕ,
}
use k8s_homelab.Prelude.Text.{strip, starts_with, codes, Text}
use k8s_homelab.Json.{no_values, value, null, get, text, Values, dict, Value}
use k8s_homelab.Keyvault.Main.{◌then_on◌}
use k8s_homelab.Keyvault.{not_an_entry, stopped, done, Result}

-- An entry of the export; its environment is not used.
pub record Variable : Type 0 where
  pub stack : Text
  pub key : Text
  pub value : Text

-- What the map says of a variable: its name, how it is built, or why it is no secret.
pub data Rule : Type 0 where
  name : Text → Rule
  built : Text → List Text → Rule
  unread : Text → Rule

unfoldable pub selectors : List Text
selectors = codes "DOCKHAND_SECRET_SELECTOR" ∷ codes "OP_ENVIRONMENT_ID" ∷ []

unfoldable pub reference_schemes : List Text
reference_schemes =
    codes "azurekv://"
    ∷ codes "op://"
    ∷ codes "keepass://"
    ∷ codes "pass://"
    ∷ codes "psono://"
    ∷ []

-- A text less its last character, and that character.
unfoldable pub unlast : ℕ → Text → Text × ℕ
unlast c [] = ([], c)
unlast c (d ∷ s) = let (t, l) = unlast d s in (c ∷ t, l)

abbrev is_quote : ℕ → Bool
is_quote c = c == 34 || c == 39

abbrev unquoted : Text → Text
unquoted [] = []
unquoted (c ∷ []) = c ∷ []
unquoted (c ∷ d ∷ s) = let (t, l) = unlast d s in if c == l && is_quote c then t else c ∷ d ∷ s

unfoldable pub is_reference : Text → Bool
is_reference t = any (λ scheme. starts_with (unquoted (strip t)) scheme) reference_schemes

abbrev pub reader_of : Variable → Text
reader_of e = e.stack ++ codes " " ++ e.key

-- A text that is there and not empty; one that is there.
abbrev full_text : Option Value → Option Text
full_text (some (text (c ∷ t))) = some (c ∷ t)
full_text v = none

abbrev any_text : Option Value → Option Text
any_text (some (text t)) = some t
any_text v = none

abbrev is_environment : Option Value → Bool
is_environment none = true
is_environment (some null) = true
is_environment (some (text t)) = true
is_environment (some v) = false

abbrev variable_of : Value → Option Variable
variable_of (dict o) =
    if is_environment (get (codes "environment") o)
    then (full_text (get (codes "stack") o) >>= λ stack. full_text (get (codes "key") o) >>= λ key.
        any_text (get (codes "value") o) >>= λ t.
        some record { stack = stack; key = key; value = t })
    else none
variable_of v = none

-- The checks of `read_export`, from an entry's number on.
unfoldable pub read_entries : ℕ → Values → Result (List Variable)
read_entries number no_values = done []
read_entries number (value v vs) =
    let rest = read_entries (suc number) vs in
    elim (variable_of v) [
      | none ↦ stopped (not_an_entry number)
      | some e ↦ rest then_on λ es. done (e ∷ es)
    ]
