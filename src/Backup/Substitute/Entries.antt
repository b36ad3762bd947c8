-- ===== src/Backup/Substitute/Entries.antt =====
-- varsub.py: where the substitutions come from, and the rows that are written of them. What the source
-- reads from and writes to YAML files are the rows, as JSON values; `str` of a list or a dict is a
-- parameter, and so is the decoding of base64.
use k8s_homelab.Prelude.{
  is_nil, nat_eq, some, ◌&&◌, true, ◌||◌, leb, ◌==◌, [], none, false, not, Bool, if◌then◌else◌, ◌∷◌,
  map, ◌++◌, List, Option, ℕ, String,
}
use k8s_homelab.Prelude.Text.{is_empty, codes, Text}
use k8s_homelab.Prelude.Sort.{text_leb, sorted_by}
use k8s_homelab.Prelude.Dict.{Dict}
use k8s_homelab.Json.{
  str_of, dict, null, no_fields, value, get, is_truthy, bool, no_values, text, field, Values, Value,
  Fields,
}
use k8s_homelab.Backup.Substitute.{Substitution}

pub record Entry : Type 0 where
  pub substitution : Substitution
  pub sensitivity : Value
  pub note : Value

-- [_A-Za-z] and [_A-Za-z0-9]
unfoldable pub is_name_start : ℕ → Bool
is_name_start c = (leb b'A' c && leb c b'Z') || (leb b'a' c && leb c b'z') || c == b'_'

unfoldable pub is_name_char : ℕ → Bool
is_name_char c = is_name_start c || (leb 48 c && leb c 57)

-- The rest of a name, which a newline may end.
unfoldable pub is_name_rest : Text → Bool
is_name_rest [] = true
is_name_rest (c ∷ s) =
    let rest = is_name_rest s in (c == 10 && is_nil s) || (is_name_char c && rest)

-- `_BARE_VAR_NAME.match`
abbrev pub is_bare : Text → Bool
is_bare [] = false
is_bare (c ∷ s) = is_name_start c && is_name_rest s

-- `${NAME}`
abbrev pub wrapped : Text → Text
wrapped name = codes "${" ++ (name ++ codes "}")

unfoldable pub normalize_placeholder : Text → Text
normalize_placeholder placeholder = if is_bare placeholder then wrapped placeholder else placeholder

abbrev pub is_false : Option Value → Bool
is_false (some (bool false)) = true
is_false v = false

abbrev pub is_missing : Option Value → Bool
is_missing none = true
is_missing (some null) = true
is_missing v = false

abbrev pub or_text : String → Option Value → Value
or_text t none = text (codes t)
or_text t (some v) = v

module _ (repr : Value → Text) where
  abbrev pub is_left_out : Fields → Bool
  is_left_out o =
      not (is_truthy (get (codes "placeholder") o))
      || (is_missing (get (codes "literal") o)
          || (not (is_false (get (codes "replace") o))
              && not (is_truthy (get (codes "literal") o))))

  abbrev pub entry_of : Fields → Entry
  entry_of o = record {
    substitution = record {
      literal = str_of repr (get (codes "literal") o);
      placeholder = normalize_placeholder (str_of repr (get (codes "placeholder") o));
      replace = not (is_false (get (codes "replace") o));
    };
    sensitivity = or_text "configmap" (get (codes "sensitivity") o);
    note = or_text "" (get (codes "note") o);
  }

  -- `load_substitutions`, of the rows that the file holds.
  unfoldable pub load_substitutions : Values → List Entry
  load_substitutions no_values = []
  load_substitutions (value (dict o) vs) =
      let rest = load_substitutions vs in if is_left_out o then rest else entry_of o ∷ rest
  load_substitutions (value v vs) = load_substitutions vs

  -- `bare_placeholders`, of the rows.
  unfoldable pub bare_placeholders : Values → List Text
  bare_placeholders no_values = []
  bare_placeholders (value (dict o) vs) =
      let rest = bare_placeholders vs in
      let placeholder = str_of repr (get (codes "placeholder") o) in
      if is_truthy (get (codes "placeholder") o) && is_bare placeholder
      then placeholder ∷ rest
      else rest
  bare_placeholders (value v vs) = bare_placeholders vs

abbrev pub cache_row : Entry → Fields
cache_row e = field (codes "literal") (text e.substitution.literal) (
    field (codes "placeholder") (text e.substitution.placeholder)
      (field (codes "replace") (bool e.substitution.replace) no_fields))

unfoldable pub cache_rows : List Entry → Values
cache_rows [] = no_values
cache_rows (e ∷ es) = value (dict (cache_row e)) (cache_rows es)

-- The data of an object by the name of each, which may lack or be empty.
abbrev pub data_in : Option (Dict Text Text) → Dict Text Text
data_in none = []
data_in (some d) = d

abbrev pub by_name : Text × Text → Text × Text → Bool
by_name a b = text_leb a.0 b.0

abbrev pub setting_entry : Text × Text → Entry
setting_entry (name, v) = record {
  substitution = record { literal = v; placeholder = wrapped name; replace = false };
  sensitivity = text (codes "configmap");
  note = text [];
}

abbrev pub secret_entry : (Text → Text) → Text × Text → Entry
secret_entry decode (name, v) = record {
  substitution = record {
    literal = decode v;
    placeholder = wrapped name;
    replace = not (is_empty (decode v));
  };
  sensitivity = text (codes "secret");
  note = text [];
}

unfoldable pub from_live :
    (Text → Text) → Option (Dict Text Text) → Option (Dict Text Text) → List Entry
unfolding sorted_by
from_live decode secret settings =
    map setting_entry (sorted_by by_name (data_in settings))
    ++ map (secret_entry decode) (sorted_by by_name (data_in secret))

-- A row to add to Key Vault by hand.
pub record PendingRow : Type 0 where
  pub name : Text
  pub value : Text
  pub template : Option Text
  pub note : Text

-- A new value: an entry, its note, and whether it is from a Secret's data.
pub record NewValue : Type 0 where
  pub literal : Text
  pub placeholder : Text
  pub note : Text
  pub secret_data : Bool

-- `s.strip("${}")`
abbrev pub is_brace : ℕ → Bool
is_brace c = c == b'$' || (c == b'{' || c == b'}')

unfoldable pub lstrip_braces : Text → Text
lstrip_braces [] = []
lstrip_braces (c ∷ s) = let rest = lstrip_braces s in if is_brace c then rest else c ∷ s

abbrev pub cons_unless_blank : ℕ → Text → Text
cons_unless_blank c [] = if is_brace c then [] else c ∷ []
cons_unless_blank c (d ∷ s) = c ∷ d ∷ s

unfoldable pub rstrip_braces : Text → Text
rstrip_braces [] = []
rstrip_braces (c ∷ s) = cons_unless_blank c (rstrip_braces s)

unfoldable pub var_name : Text → Text
var_name placeholder = rstrip_braces (lstrip_braces placeholder)

abbrev pub no_form : Text
no_form =
    codes
      "; not text, so Key Vault can't hold it plain, and the structure test refuses it without a template entry: it has no supported form yet (scripts/README.md)"

abbrev pub b64enc_template : Text → Text
b64enc_template name = codes "{{ ." ++ (name ++ codes " | b64enc }}")

abbrev pub row_for : NewValue → Text → Option Text → PendingRow
row_for e name none = record {
  name = name;
  value = e.literal;
  template = none;
  note = e.note ++ no_form;
}
row_for e name (some plain) = record {
  name = name;
  value = plain;
  template = some (b64enc_template name);
  note = e.note;
}

unfoldable pub pending_row : (Text → Option Text) → NewValue → PendingRow
pending_row decoded_text e =
    if e.secret_data
    then row_for e (var_name e.placeholder) (decoded_text e.literal)
    else record { name = var_name e.placeholder; value = e.literal; template = none; note = e.note }

unfoldable pub pending_rows : (Text → Option Text) → List NewValue → List PendingRow
pending_rows decoded_text es = map (pending_row decoded_text) es
