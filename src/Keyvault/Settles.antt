-- ===== src/Keyvault/Settles.antt =====
-- With a Key Vault that keeps what is written, the writes of a run settle what they are asked for.
use k8s_homelab.Prelude.{
  are_distinct, none, ==_of_eq, inl, refl, inr, Bool-cases, nat_eq, arith, option_eq, [], list_eq,
  false, some, true, ◌∷◌, all, contains, if◌then◌else◌, ◌==◌, ◌≡◌,
}
use k8s_homelab.Prelude.{map, Bool, List, Option}
use k8s_homelab.Prelude.Text.{lower, Text}
use k8s_homelab.Keyvault.Holds.{holds-put, write_kept, remote_digest_kept, holds, Keeps}
use k8s_homelab.Keyvault.Vault.{tags_or_default, read, put, Session, Answers}
use k8s_homelab.Keyvault.Main.{is_written, write_all, read_back, Entry}
use k8s_homelab.Json.{Fields}
use k8s_homelab.Keyvault.Source.{map_option, Codec}

module _ (codec : Codec) (start : Text → Option Text) where
  -- The digest of what is held under a name.
  abbrev pub held_digest : Session → Text → Option Text
  held_digest sent name = map_option codec.digest (holds start sent name)

  unfoldable pub is_settled : Session → Entry → Bool
  is_settled sent e = held_digest sent e.name == some e.expected

  -- An entry to be written expects its value's digest; any other is settled.
  unfoldable pub is_ready : Session → Entry → Bool
  is_ready sent e =
      if is_written e.action then e.expected == codec.digest e.value else is_settled sent e

  abbrev pub names_of : List Entry → List Text
  names_of es = map (λ e. lower e.name) es

  module _ (answer : Answers) (keeps : Keeps start answer) where
    write_all_frame :
        (n : Text) (es : List Entry) (sent : Session)
        → contains (names_of es) (lower n) ≡ false
        → holds start (write_all answer es sent).1 n ≡ holds start sent n
    unfolding write_all holds
    write_all_frame n [] sent h = refl
    write_all_frame n (e ∷ es) sent h = elim (Bool-cases (is_written e.action)) [
      | inr a ↦ ground (arith, a, write_all_frame n es sent)
      | inl a ↦ ground (
        arith,
        a,
        write_kept codec start answer keeps e.name e.value sent,
        ==_of_eq (lower n) (lower e.name),
        write_all_frame n es (put e.name e.value (tags_or_default none) ∷ sent),
      )
    ]

    ready_put :
        (name value : Text) (tags : Fields) (es : List Entry) (sent : Session)
        → contains (names_of es) (lower name) ≡ false
        → all (is_ready sent) es ≡ true
        → all (is_ready (put name value tags ∷ sent)) es ≡ true
    unfolding is_ready is_settled holds
    ready_put name value tags [] sent h r = refl
    ready_put name value tags (e ∷ es) sent h r = ground (arith, ready_put name value tags es sent)

    pub write_all_settles :
        (es : List Entry) (sent : Session)
        → are_distinct (names_of es) ≡ true
        → all (is_ready sent) es ≡ true
        → ((write_all answer es sent).0 ≡ 0)
          × (all (is_settled (write_all answer es sent).1) es ≡ true)
    unfolding write_all is_ready is_settled
    write_all_settles [] sent d r = (refl, refl)
    write_all_settles (e ∷ es) sent d r = elim (Bool-cases (is_written e.action)) [
      | inr a ↦ ground (arith, a, write_all_settles es sent, write_all_frame e.name es sent)
      | inl a ↦ ground (
        arith,
        a,
        write_kept codec start answer keeps e.name e.value sent,
        write_all_frame e.name es (put e.name e.value (tags_or_default none) ∷ sent),
        ready_put e.name e.value (tags_or_default none) es sent,
        holds-put start e.name e.value (tags_or_default none) sent,
        write_all_settles es (put e.name e.value (tags_or_default none) ∷ sent),
      )
    ]

    -- Reading back finds each settled entry, and changes nothing.
    pub read_back_settled :
        (es : List Entry) (sent : Session)
        → all (is_settled sent) es ≡ true
        → (read_back codec answer es sent).0 ≡ []
    unfolding read_back is_settled holds
    read_back_settled [] sent h = refl
    read_back_settled (e ∷ es) sent h = ground (
      arith,
      remote_digest_kept codec start answer keeps e.name sent,
      read_back_settled es (read e.name ∷ sent),
    )

    pub holds-read_back :
        (n : Text) (es : List Entry) (sent : Session)
        → holds start (read_back codec answer es sent).1 n ≡ holds start sent n
    unfolding read_back holds
    holds-read_back n [] sent = refl
    holds-read_back n (e ∷ es) sent = ground (
      arith,
      remote_digest_kept codec start answer keeps e.name sent,
      holds-read_back n es (read e.name ∷ sent),
    )
