-- ===== src/Keyvault/Vault.antt =====
-- keyvault_copy.py: the calls of Key Vault. What Key Vault answers is a parameter, which may depend on
-- all the requests before; a session is the requests sent, the last one first.
use k8s_homelab.Prelude.{
  list_eq, nat_eq, ◌++◌, ◌&&◌, not, [], ◌==◌, none, ◌∷◌, if◌then◌else◌, some, ℕ, List, Option,
}
use k8s_homelab.Prelude.Decimal.{decimal}
use k8s_homelab.Prelude.Text.{codes, Text}
use k8s_homelab.Keyvault.Source.{decoded_digest, Codec}
use k8s_homelab.Keyvault.{refused, no_answer, done, stopped, Result}
use k8s_homelab.Json.{no_fields, text, dict, field, get, Value, Fields}

pub data Request : Type 0 where
  read : Text → Request
  put : Text → Text → Fields → Request

-- A status and the body, which is a dict.
pub record Response : Type 0 where
  pub status : ℕ
  pub body : Fields

abbrev pub Session : Type 0
Session = List Request

-- No answer is `none`: a dropped connection, a time-out, a name that does not resolve.
abbrev pub Answers : Type 0
Answers = Session → Request → Option Response

-- A read without an answer is tried once more, a write never.
unfoldable pub request : Answers → Request → Session → Option Response × Session
request answer (put name value tags) sent =
    (answer sent (put name value tags), put name value tags ∷ sent)
request answer (read name) sent = elim (answer sent (read name)) [
  | some r ↦ (some r, read name ∷ sent)
  | none ↦ (answer (read name ∷ sent) (read name), read name ∷ read name ∷ sent)
]

abbrev body_text : Option Value → Text
body_text (some (text t)) = t
body_text v = []

abbrev fields_or_empty : Option Value → Fields
fields_or_empty (some (dict o)) = o
fields_or_empty v = no_fields

unfoldable pub error_code : Fields → Text
error_code body = body_text (get (codes "code") (fields_or_empty (get (codes "error") body)))

pub record Held : Type 0 where
  pub digest : Text
  pub tags : Fields
  pub decoded : Option Text

module _ (codec : Codec) where
  abbrev pub held_of : Text → Response → Result (Option Held)
  held_of name r =
      if r.status == 404
      then done none
      else if not (r.status == 200)
      then stopped (refused name r.status (error_code r.body))
      else done (
          some record {
            digest = codec.digest (body_text (get (codes "value") r.body));
            tags = fields_or_empty (get (codes "tags") r.body);
            decoded = decoded_digest codec (body_text (get (codes "value") r.body));
          })

  abbrev pub held_answer : Text → Option Response → Result (Option Held)
  held_answer name none = stopped (no_answer name)
  held_answer name (some r) = held_of name r

  unfoldable pub remote_secret : Answers → Text → Session → Result (Option Held) × Session
  remote_secret answer name sent =
      let (r, sent') = request answer (read name) sent in (held_answer name r, sent')

  abbrev pub digest_of : Result (Option Held) → Result (Option Text)
  digest_of (stopped s) = stopped s
  digest_of (done none) = done none
  digest_of (done (some h)) = done (some h.digest)

  unfoldable pub remote_digest : Answers → Text → Session → Result (Option Text) × Session
  remote_digest answer name sent =
      let (h, sent') = remote_secret answer name sent in (digest_of h, sent')

abbrev default_tags : Fields
default_tags = field (codes "source") (text (codes "cluster-secrets")) no_fields

abbrev pub tags_or_default : Option Fields → Fields
tags_or_default none = default_tags
tags_or_default (some no_fields) = default_tags
tags_or_default (some (field k v o)) = field k v o

-- Why a value was not written; nothing when it was.
abbrev pub refusal : Response → Text
refusal r =
    if r.status == 200
    then []
    else if r.status == 409 && error_code r.body == codes "Conflict"
    then codes "deleted but recoverable: recover or purge it in Key Vault first"
    else codes "HTTP " ++ decimal r.status ++ codes " " ++ error_code r.body

abbrev pub write_answer : Text → Option Response → Result Text
write_answer name none = stopped (no_answer name)
write_answer name (some r) = done (refusal r)

unfoldable pub write : Answers → Text → Text → Option Fields → Session → Result Text × Session
write answer name value tags sent =
    let (r, sent') = request answer (put name value (tags_or_default tags)) sent in
    (write_answer name r, sent')
