-- ===== src/Keyvault/Copied.antt =====
-- A run of main over a Key Vault that keeps what is written.
use mathlib.Core.Path.{ap₂}
use k8s_homelab.Prelude.{
  are_distinct, list_eq, option_eq, not, refl, if◌then◌else◌, ◌||◌, ◌&&◌, [], ◌∙◌, &&_both, arith,
  ap, List, true, some, ◌∷◌, map, ◌==◌, nat_eq, ◌≡◌, all, Bool,
}
use k8s_homelab.Prelude.{Option}
use k8s_homelab.Prelude.Dict.{lookup, Dict}
use k8s_homelab.Prelude.Text.{lower, Text}
use k8s_homelab.Keyvault.Settles.{
  holds-read_back, read_back_settled, write_all_settles, names_of, held_digest, is_settled,
  is_ready,
}
use k8s_homelab.Keyvault.Main.{
  read_back, write_all, is_written, exit_code, is_encoded, or_blank, carry_out, with_entry,
  entry_for, survey, Entry,
}
use k8s_homelab.Keyvault.Source.{decoded_digest, map_option, Codec}
use k8s_homelab.Keyvault.Judge.{judge_copied, judge_ready}
use k8s_homelab.Keyvault.Holds.{remote_digest_kept, Keeps, holds}
use k8s_homelab.Keyvault.{Result, done}
use k8s_homelab.Keyvault.Vault.{read, Session, Answers}
use k8s_homelab.Keyvault.Differ.{Differ}

module _ (codec : Codec) (start : Text → Option Text) where
  module _ (values : Dict Text Text) (encodes : Dict Text Bool) where
    abbrev pub entry_at : Session → Text × Text → Entry
    entry_at sent n = entry_for codec values encodes n.0 n.1 (held_digest codec start sent n.1)

    -- The digest held under a name is its value's, or, where the template does not encode the
    -- variable, that of what its value decodes to.
    abbrev pub is_copied : Session → Text × Text → Bool
    is_copied sent n =
        held_digest codec start sent n.1 == some (codec.digest (or_blank (lookup n.0 values)))
        || (not (is_encoded encodes n.0)
            && held_digest codec start sent n.1
              == decoded_digest codec (or_blank (lookup n.0 values)))

    pub entries_ready :
        (names : Dict Text Text) (sent : Session)
        → all (is_ready codec start sent) (map (entry_at sent) names) ≡ true
    unfolding is_ready is_settled
    entries_ready [] sent = refl
    entries_ready ((v, name) ∷ names) sent = ground (
      arith,
      entries_ready names sent,
      judge_ready (is_encoded encodes v) (codec.digest (or_blank (lookup v values)))
          (decoded_digest codec (or_blank (lookup v values))) (held_digest codec start sent name),
    )

    pub entries_copied :
        (names : Dict Text Text) (sent last : Session)
        → all (is_settled codec start last) (map (entry_at sent) names) ≡ true
        → all (is_copied last) names ≡ true
    unfolding is_settled
    entries_copied [] sent last h = refl
    entries_copied ((v, name) ∷ names) sent last h =
        let (a, b) =
          &&_both (is_settled codec start last (entry_at sent (v, name)))
            (all (is_settled codec start last) (map (entry_at sent) names)) h in
        ap₂ (λ c d. c && d)
          (judge_copied (is_encoded encodes v) (codec.digest (or_blank (lookup v values)))
            (decoded_digest codec (or_blank (lookup v values))) (held_digest codec start sent name)
            (held_digest codec start last name) a)
          (entries_copied names sent last b)

    names_of_entries :
        (names : Dict Text Text) (sent : Session)
        → names_of codec start (map (entry_at sent) names) ≡ map (λ n. lower n.1) names
    names_of_entries [] sent = refl
    names_of_entries (n ∷ names) sent = ap (λ rest. lower n.1 ∷ rest) (names_of_entries names sent)

    same_settled :
        (sent last : Session)
        → ((n : Text) → holds start last n ≡ holds start sent n)
        → (es : List Entry)
        → all (is_settled codec start last) es ≡ all (is_settled codec start sent) es
    unfolding is_settled
    same_settled sent last h [] = refl
    same_settled sent last h (e ∷ es) =
        ap₂ (λ a b. a && b) (ap (λ o. map_option codec.digest o == some e.expected) (h e.name))
          (same_settled sent last h es)

    pub same_ready :
        (sent last : Session)
        → ((n : Text) → holds start last n ≡ holds start sent n)
        → (es : List Entry)
        → all (is_ready codec start last) es ≡ all (is_ready codec start sent) es
    unfolding is_ready is_settled
    same_ready sent last h [] = refl
    same_ready sent last h (e ∷ es) =
        ap₂ (λ a b. a && b)
          (ap
            (λ o.
              if is_written e.action
              then e.expected == codec.digest e.value
              else map_option codec.digest o == some e.expected)
            (h e.name))
          (same_ready sent last h es)

    module _ (answer : Answers) (keeps : Keeps start answer) where
      survey_step :
          (v name : Text) (names : Dict Text Text) (sent : Session)
          → survey codec answer values encodes ((v, name) ∷ names) sent ≡ (
            with_entry codec
                (entry_at sent (v, name))
                (survey codec answer values encodes names (read name ∷ sent)).0,
            (survey codec answer values encodes names (read name ∷ sent)).1,
          )
      unfolding survey
      survey_step v name names sent =
          rw (remote_digest_kept codec start answer keeps name sent, survey)
            (ap
              (λ (p : Result (Option Text) × Session). (
                with_entry codec (entry_at sent (v, name))
                    (survey codec answer values encodes names p.1).0,
                (survey codec answer values encodes names p.1).1,
              ))
              (remote_digest_kept codec start answer keeps name sent))

      pub survey_kept :
          (names : Dict Text Text) (sent : Session)
          → (last : Session) × (survey codec answer values encodes names sent
              ≡ (done (map (entry_at sent) names), last))
      unfolding survey holds
      survey_kept [] sent = (sent, refl)
      survey_kept ((v, name) ∷ names) sent =
          let (last, q) = survey_kept names (read name ∷ sent) in
          (
            last,
            survey_step v name names sent
                ∙ (ap
                    (λ (p : Result (List Entry) × Session).
                      (with_entry codec (entry_at sent (v, name)) p.0, p.1))
                    q),
          )

      pub holds-survey :
          (n : Text) (names : Dict Text Text) (sent : Session)
          → holds start (survey codec answer values encodes names sent).1 n ≡ holds start sent n
      unfolding survey holds
      holds-survey n [] sent = refl
      holds-survey n ((v, name) ∷ names) sent =
          ap (λ (p : Result (List Entry) × Session). holds start p.1 n)
            (survey_step v name names sent)
          ∙ holds-survey n names (read name ∷ sent)

      -- Carried out, the entries leave each name copied, and the run ends with 0.
      pub carry_out_copies :
          (names : Dict Text Text) (sent from : Session)
          → Differ names
          → all (is_ready codec start from) (map (entry_at sent) names) ≡ true
          → ((carry_out codec answer (map (entry_at sent) names) from).0 ≡ 0)
            × (all
                  (is_settled codec start
                    (carry_out codec answer (map (entry_at sent) names) from).1)
                  (map (entry_at sent) names)
                ≡ true)
      unfolding nat_eq native.Mathlib.Decide.ℕ_discrete
      carry_out_copies names sent from d ready =
          let es = map (entry_at sent) names in
          let (written, settled) =
            write_all_settles codec start answer keeps es from
              (ap are_distinct (names_of_entries names sent) ∙ d) ready in
          (
            ap₂ (λ f m. exit_code f m) written
                (read_back_settled codec start answer keeps es (write_all answer es from).1
                  settled),
            same_settled (write_all answer es from).1
                  (read_back codec answer es (write_all answer es from).1).1
                  (λ n. holds-read_back codec start answer keeps n es (write_all answer es from).1)
                  es
                ∙ settled,
          )
