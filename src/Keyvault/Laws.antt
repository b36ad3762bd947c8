-- ===== src/Keyvault/Laws.antt =====
-- What a run of main writes, and when.
use k8s_homelab.Prelude.{
  ◌∙◌, Bool-cases, ap, inr, arith, inl, if◌then◌else◌, ◌≡◌, ◌++◌, [], List, Bool,
}
use k8s_homelab.Prelude.Text.{Text}
use k8s_homelab.Prelude.Dict.{Dict}
use k8s_homelab.Keyvault.Main.{write_all, survey, work, carry_out, Work, Entry, copy, Given, main}
use k8s_homelab.Keyvault.Writes.{read_back-puts, write_all-puts, survey-puts, asked, puts}
use k8s_homelab.Keyvault.{Result-cases, done, stopped, Result}
use k8s_homelab.Keyvault.Vault.{Session, Answers}
use k8s_homelab.Keyvault.Source.{Codec}

module _ (codec : Codec) (answer : Answers) where
  carry_out-puts :
      (es : List Entry) (sent : Session)
      → (rest : Dict Text Text) × (puts (carry_out codec answer es sent).1 ++ rest
          ≡ puts sent ++ asked es)
  carry_out-puts es sent =
      let (rest, q) = write_all-puts codec answer es sent in
      (rest, ap (λ p. p ++ rest) (read_back-puts codec answer es (write_all answer es sent).1) ∙ q)

  -- What is asked to be written by what was found.
  abbrev pub asked_of : Bool → Result (List Entry) → Dict Text Text
  asked_of apply (stopped s) = []
  asked_of apply (done es) = if apply then asked es else []

  copy-puts :
      (apply : Bool) (values : Dict Text Text) (encodes : Dict Text Bool) (names : Dict Text Text)
      (sent : Session)
      → (rest : Dict Text Text) × (puts (copy codec answer apply values encodes names sent).1
            ++ rest
          ≡ puts sent ++ asked_of apply (survey codec answer values encodes names sent).0)
  unfolding copy
  copy-puts apply values encodes names sent =
      elim (Result-cases (survey codec answer values encodes names sent).0) [
        | inl (s, e) ↦ ([], ground (arith, e, survey-puts codec answer values encodes names sent))
        | inr (es, e) ↦ elim (Bool-cases apply) [
          | inr a ↦ ([], ground (arith, e, a, survey-puts codec answer values encodes names sent))
          | inl a ↦
              let (rest, q) = carry_out-puts es (survey codec answer values encodes names sent).1 in
              (rest, ground (arith, e, a, q, survey-puts codec answer values encodes names sent))
        ]
      ]

  abbrev pub asked_by : Bool → Result Work → Dict Text Text
  asked_by apply (stopped s) = []
  asked_by apply (done w) = asked_of apply (survey codec answer w.values w.encodes w.names []).0

-- What main writes to Key Vault, whatever it answers, are the first of the writes asked for, in their
-- order: those of the variables found missing or different when all were read. Nothing is asked for
-- without --apply, nor when the run stops before.
pub main-puts :
    (codec : Codec) (answer : Answers) (g : Given)
    → (rest : Dict Text Text) × (puts (main codec answer g).1 ++ rest
        ≡ asked_by codec answer g.apply (work codec g))
unfolding main puts
main-puts codec answer g = elim (Result-cases (work codec g)) [
  | inl (s, e) ↦ ([], ground (arith, e))
  | inr (w, e) ↦
      let (rest, q) = copy-puts codec answer g.apply w.values w.encodes w.names [] in
      (rest, ground (arith, e, q))
]
