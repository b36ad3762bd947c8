-- ===== src/Keyvault/Holds.antt =====
-- A Key Vault that keeps what is written, as its API is documented to: names ignore case, a read of a
-- name that it lacks answers 404, and what is written is held.
-- What is held under a name, of what was held at the start.
use k8s_homelab.Prelude.{
  ==_refl, arith, ◌∙◌, refl, nat_eq, list_eq, ◌==◌, ap, [], if◌then◌else◌, none, ◌∷◌, some, ◌≡◌,
  Option,
}
use k8s_homelab.Prelude.Text.{codes, lower, Text}
use k8s_homelab.Keyvault.{Result, done}
use k8s_homelab.Keyvault.Vault.{
  held_answer, tags_or_default, put, remote_secret, request, held_of, remote_digest, write, read,
  Session, digest_of, Answers, Response,
}
use k8s_homelab.Json.{text, field, Fields, no_fields}
use k8s_homelab.Keyvault.Source.{map_option, Codec}

unfoldable pub holds : (Text → Option Text) → Session → Text → Option Text
holds start [] name = start (lower name)
holds start (read other ∷ sent) name = holds start sent name
holds start (put other value tags ∷ sent) name =
    let before = holds start sent name in if lower other == lower name then some value else before

unfoldable pub reply : Option Text → Response
reply none = record { status = 404; body = no_fields }
reply (some value) = record { status = 200; body = field (codes "value") (text value) no_fields }

abbrev pub Keeps : (Text → Option Text) → Answers → Type 0
Keeps start answer =
    ((sent : Session) (name : Text)
      → answer sent (read name) ≡ some (reply (holds start sent name)))
    × ((sent : Session) (name value : Text) (tags : Fields)
        → answer sent (put name value tags) ≡ some (reply (some value)))

pub holds-put :
    (start : Text → Option Text) (name value : Text) (tags : Fields) (sent : Session)
    → holds start (put name value tags ∷ sent) name ≡ some value
unfolding holds
holds-put start name value tags sent = ground (arith, ==_refl (lower name))

module _ (codec : Codec) where
  digests_reply :
      (name : Text) (held : Option Text)
      → digest_of codec (held_of codec name (reply held)) ≡ done (map_option codec.digest held)
  unfolding reply nat_eq native.Mathlib.Decide.ℕ_discrete k8s_homelab.Json.get list_eq
  digests_reply name none = refl
  digests_reply name (some v) = refl

  module _ (start : Text → Option Text) (answer : Answers) (keeps : Keeps start answer) where
    request_kept :
        (name : Text) (sent : Session)
        → request answer (read name) sent ≡ (some (reply (holds start sent name)), read name ∷ sent)
    unfolding request
    request_kept name sent = rw (keeps.0 sent name, request) refl

    pub remote_digest_kept :
        (name : Text) (sent : Session)
        → remote_digest codec answer name sent
          ≡ (done (map_option codec.digest (holds start sent name)), read name ∷ sent)
    unfolding remote_digest remote_secret
    remote_digest_kept name sent =
        ap (λ (p : Option Response × Session). (digest_of codec (held_answer codec name p.0), p.1))
          (request_kept name sent)
        ∙ ap (λ (d : Result (Option Text)). (d, read name ∷ sent))
            (digests_reply name (holds start sent name))

    pub write_kept :
        (name value : Text) (sent : Session)
        → write answer name value none sent
          ≡ (done [], put name value (tags_or_default none) ∷ sent)
    unfolding write request reply nat_eq native.Mathlib.Decide.ℕ_discrete
    write_kept name value sent = rw (keeps.1 sent name value (tags_or_default none)) refl
