-- ===== src/Keyvault/Source.antt =====
-- keyvault_copy.py: the variables of the ExternalSecret and their values. The ExternalSecret is read
-- as a record of the fields that the source uses, whose types its schema gives. Base64, UTF-8 and
-- SHA-256 are parameters.
use k8s_homelab.Prelude.{
  option_eq, true, false, contains, list_eq, nat_eq, is_nil, [], filter, ◌==◌, not, ◌∷◌, map, ◌++◌,
  if◌then◌else◌, Bool, none, some, List, Option,
}
use k8s_homelab.Prelude.Dict.{insert, lookup, Dict}
use k8s_homelab.Prelude.Text.{codes, Text}
use k8s_homelab.Keyvault.{
  no_variables, not_ready, built_otherwise, not_held, not_text, not_encoded, stopped, done, Result,
}

pub record Condition : Type 0 where
  pub type : Text
  pub status : Text

-- The conditions of its status; the `secretKey` of each of its data; the template's data; the target.
pub record ExternalSecret : Type 0 where
  pub conditions : List Condition
  pub data_keys : List Text
  pub template : Dict Text Text
  pub target : Option Text

-- `decode` is `base64.b64decode(...).decode("utf-8")`, which is none where the bytes are not text: what
-- a Secret holds is always base64. `decode_strict` is with validate=True, and none for either error.
pub record Codec : Type 0 where
  pub digest : Text → Text
  pub decode : Text → Option Text
  pub decode_strict : Text → Option Text

abbrev pub map_option : {A B : Type 0} → (A → B) → Option A → Option B
map_option f none = none
map_option f (some a) = some (f a)

abbrev pub decoded_digest : Codec → Text → Option Text
decoded_digest codec value = map_option codec.digest (codec.decode_strict value)

-- {{ .NAME | b64enc }}
abbrev encoder : Text → Text
encoder name = codes "{{ ." ++ name ++ codes " | b64enc }}"

unfoldable pub template_encodes : ExternalSecret → Dict Text Bool
template_encodes es =
    map (λ e. (e.0, e.1 == encoder e.0)) (filter (λ e. contains es.data_keys e.0) es.template)

unfoldable pub ready_status : List Condition → Option Text
ready_status [] = none
ready_status (c ∷ cs) =
    let rest = ready_status cs in if c.type == codes "Ready" then some c.status else rest

abbrev or_not_text : Text → Option Text → Result Text
or_not_text v none = stopped (not_text v)
or_not_text v (some t) = done t

abbrev or_not_encoded : Text → Option Text → Result Text
or_not_encoded v none = stopped (not_encoded v)
or_not_encoded v (some t) = done t

-- The value of a variable, of what the Secret holds and of what the template does with it.
unfoldable pub value_of : Codec → Text → Option Text → Option Bool → Result Text
value_of codec v none encoded = stopped (not_held v)
value_of codec v (some raw) (some false) = stopped (built_otherwise v)
value_of codec v (some raw) none = or_not_text v (codec.decode raw)
value_of codec v (some raw) (some true) = elim (codec.decode raw) [
  | none ↦ stopped (not_text v)
  | some t ↦ or_not_encoded v (codec.decode_strict t)
]

unfoldable pub values_from :
    Codec → Dict Text Bool → Dict Text Text → List Text → Dict Text Text → Result (Dict Text Text)
values_from codec encodes data_of [] values = done values
values_from codec encodes data_of (v ∷ vs) values =
    elim (value_of codec v (lookup v data_of) (lookup v encodes)) [
      | stopped s ↦ stopped s
      | done t ↦ values_from codec encodes data_of vs (insert v t values)
    ]

unfoldable pub source_values : Codec → ExternalSecret → Dict Text Text → Result (Dict Text Text)
source_values codec es data_of =
    if not (ready_status es.conditions == some (codes "True"))
    then stopped not_ready
    else if is_nil es.data_keys
    then stopped no_variables
    else values_from codec (template_encodes es) data_of es.data_keys []
