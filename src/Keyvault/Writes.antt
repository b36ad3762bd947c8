-- ===== src/Keyvault/Writes.antt =====
-- What a run writes: only what it has found to be missing or different.
-- The names and values that were written, the first one first.
use mathlib.Core.List.{append_assoc}
use k8s_homelab.Prelude.{
  inl, refl, inr, [], none, arith, Bool-cases, ◌∙◌, if◌then◌else◌, ◌++◌, Bool, ◌≡◌, ◌∷◌, List,
}
use k8s_homelab.Prelude.Text.{Text}
use k8s_homelab.Prelude.Dict.{Dict}
use k8s_homelab.Keyvault.{Result-cases}
use k8s_homelab.Keyvault.Vault.{
  put, read, remote_secret, request, remote_digest, write, Answers, Session,
}
use k8s_homelab.Keyvault.Main.{is_written, read_back, write_all, survey, Entry}
use k8s_homelab.Keyvault.Source.{Codec}

unfoldable pub puts : Session → Dict Text Text
puts [] = []
puts (read name ∷ sent) = puts sent
puts (put name value tags ∷ sent) = puts sent ++ (name, value) ∷ []

-- The names and values that the entries ask to write.
unfoldable pub asked : List Entry → Dict Text Text
asked [] = []
asked (e ∷ es) =
    let rest = asked es in if is_written e.action then (e.name, e.value) ∷ rest else rest

module _ (codec : Codec) (answer : Answers) where
  pub remote_digest-puts :
      (name : Text) (sent : Session) → puts (remote_digest codec answer name sent).1 ≡ puts sent
  unfolding remote_digest remote_secret request puts
  remote_digest-puts name sent = ground arith

  pub survey-puts :
      (values : Dict Text Text) (encodes : Dict Text Bool) (names : Dict Text Text) (sent : Session)
      → puts (survey codec answer values encodes names sent).1 ≡ puts sent
  unfolding survey
  survey-puts values encodes [] sent = refl
  survey-puts values encodes ((v, name) ∷ names) sent = ground (
    arith,
    remote_digest-puts name sent,
    survey-puts values encodes names (remote_digest codec answer name sent).1,
  )

  pub read_back-puts :
      (es : List Entry) (sent : Session) → puts (read_back codec answer es sent).1 ≡ puts sent
  unfolding read_back
  read_back-puts [] sent = refl
  read_back-puts (e ∷ es) sent =
      read_back-puts es (remote_digest codec answer e.name sent).1 ∙ remote_digest-puts e.name sent

  write-puts :
      (name value : Text) (sent : Session)
      → puts (write answer name value none sent).1 ≡ puts sent ++ (name, value) ∷ []
  unfolding write request puts
  write-puts name value sent = refl

  -- The entries' writes are carried out in their order, up to one without an answer.
  pub write_all-puts :
      (es : List Entry) (sent : Session)
      → (rest : Dict Text Text) × (puts (write_all answer es sent).1 ++ rest
          ≡ puts sent ++ asked es)
  unfolding write_all asked
  write_all-puts [] sent = ([], refl)
  write_all-puts (e ∷ es) sent = elim (Bool-cases (is_written e.action)) [
    | inr a ↦ let (rest, q) = write_all-puts es sent in (rest, ground (arith, a, q))
    | inl a ↦ elim (Result-cases (write answer e.name e.value none sent).0) [
      | inl (s, b) ↦ (
        asked es,
        ground (
          arith,
          a,
          b,
          write-puts e.name e.value sent,
          append_assoc (puts sent) ((e.name, e.value) ∷ []) (asked es),
        ),
      )
      | inr (why, b) ↦
          let (rest, q) = write_all-puts es (write answer e.name e.value none sent).1 in
          (
            rest,
            ground (
              arith,
              a,
              b,
              q,
              write-puts e.name e.value sent,
              append_assoc (puts sent) ((e.name, e.value) ∷ []) (asked es),
            ),
          )
    ]
  ]
