-- ===== src/Keyvault/Main.antt =====
-- keyvault_copy.py: main, from its arguments to its exit code. What kubectl and the sign-in give are
-- parameters; what is printed is left out but for the names that do not match.
use k8s_homelab.Prelude.{
  is_nil, ◌&&◌, option_eq, is_none, list_eq, nat_eq, false, suc, ◌==◌, none, not, [], ◌∷◌, List,
  if◌then◌else◌, some, true, ℕ, Bool, Option,
}
use k8s_homelab.Prelude.Dict.{keys, lookup, Dict}
use k8s_homelab.Prelude.Text.{is_empty, codes, Text}
use k8s_homelab.Keyvault.SignIn.{sign_in, SignIn}
use k8s_homelab.Keyvault.{
  not_signed_in, check_names, not_read, not_a_vault, is_vault_name, stopped, done, Result, Stop,
}
use k8s_homelab.Keyvault.Source.{
  template_encodes, source_values, decoded_digest, Codec, ExternalSecret,
}
use k8s_homelab.Keyvault.Vault.{write, remote_digest, Session, Answers}

pub data Action : Type 0 where
  add : Action
  same : Action
  update : Action
  plain : Action

-- What main keeps of a variable in `names`, `values`, `state` and `expected`.
pub record Entry : Type 0 where
  pub variable : Text
  pub name : Text
  pub value : Text
  pub action : Action
  pub expected : Text

abbrev pub or_blank : Option Text → Text
or_blank none = []
or_blank (some t) = t

-- What is to be done about a value, and the digest that it will have, of its digest, the digest of what
-- it decodes to and the one that is held.
unfoldable pub judge : Bool → Text → Option Text → Option Text → Action × Text
judge encoded wanted decoded none = (add, wanted)
judge encoded wanted decoded (some have) =
    if have == wanted
    then (same, wanted)
    else if not encoded && some have == decoded
    then (plain, have)
    else (update, wanted)

-- `variable in encodes`
abbrev pub is_encoded : Dict Text Bool → Text → Bool
is_encoded encodes v = not (is_none (lookup v encodes))

module _ (codec : Codec) where
  abbrev pub judge_value : Bool → Text → Option Text → Action × Text
  judge_value encoded value have =
      judge encoded (codec.digest value) (decoded_digest codec value) have

  abbrev pub entry_for : Dict Text Text → Dict Text Bool → Text → Text → Option Text → Entry
  entry_for values encodes v name have = record {
    variable = v;
    name = name;
    value = or_blank (lookup v values);
    action = (judge_value (is_encoded encodes v) (or_blank (lookup v values)) have).0;
    expected = (judge_value (is_encoded encodes v) (or_blank (lookup v values)) have).1;
  }

  abbrev pub with_entry : Entry → Result (List Entry) → Result (List Entry)
  with_entry e (stopped s) = stopped s
  with_entry e (done es) = done (e ∷ es)

  module _ (answer : Answers) where
    -- The loop that reads every name.
    unfoldable pub survey :
        Dict Text Text → Dict Text Bool → Dict Text Text → Session → Result (List Entry) × Session
    survey values encodes [] sent = (done [], sent)
    survey values encodes ((v, name) ∷ names) sent =
        let (found, sent') = remote_digest codec answer name sent in
        elim found [
          | stopped s ↦ (stopped s, sent')
          | done have ↦
              let (es, last) = survey values encodes names sent' in
              (with_entry (entry_for values encodes v name have) es, last)
        ]

abbrev pub is_written : Action → Bool
is_written add = true
is_written update = true
is_written same = false
is_written plain = false

abbrev count_refusal : Text → ℕ → ℕ
count_refusal [] n = n
count_refusal (c ∷ why) n = suc n

-- The loop that writes: how many were not written. A write without an answer ends it.
unfoldable pub write_all : Answers → List Entry → Session → ℕ × Session
write_all answer [] sent = (0, sent)
write_all answer (e ∷ es) sent = elim (is_written e.action) [
  | false ↦ write_all answer es sent
  | true ↦
      let (outcome, sent') = write answer e.name e.value none sent in
      elim outcome [
        | stopped s ↦ (1, sent')
        | done why ↦
            let (failed, last) = write_all answer es sent' in (count_refusal why failed, last)
      ]
]

abbrev pub matches : Result (Option Text) → Text → Bool
matches (stopped s) expected = false
matches (done have) expected = have == some expected

-- The loop that reads back: the names that do not match.
unfoldable pub read_back : Codec → Answers → List Entry → Session → List Text × Session
read_back codec answer [] sent = ([], sent)
read_back codec answer (e ∷ es) sent =
    let (have, sent') = remote_digest codec answer e.name sent in
    let (mismatched, last) = read_back codec answer es sent' in
    (if matches have e.expected then mismatched else e.name ∷ mismatched, last)

abbrev pub exit_code : ℕ → List Text → ℕ
exit_code failed mismatched = if failed == 0 && is_nil mismatched then 0 else 1

abbrev pub carry_out : Codec → Answers → List Entry → Session → ℕ × Session
carry_out codec answer es sent =
    let (failed, written) = write_all answer es sent in
    let (mismatched, last) = read_back codec answer es written in
    (exit_code failed mismatched, last)

-- After the sign-in: from the names on.
unfoldable pub copy :
    Codec
    → Answers
    → Bool
    → Dict Text Text
    → Dict Text Bool
    → Dict Text Text
    → Session
    → ℕ × Session
copy codec answer apply values encodes names sent =
    let (found, sent') = survey codec answer values encodes names sent in
    elim found [
      | stopped s ↦ (2, sent')
      | done es ↦ if apply then carry_out codec answer es sent' else (0, sent')
    ]

-- What main is given: the vault's name, `--apply`, the answers of kubectl (a Secret by its name), the
-- environment, and whether a sign-in gives a token.
pub record Given : Type 0 where
  pub vault : Text
  pub apply : Bool
  pub external_secret : Option ExternalSecret
  pub secret : Text → Option (Dict Text Text)
  pub environ : Text → Text
  pub signs_in : SignIn → Bool

abbrev pub target_of : ExternalSecret → Text
target_of es = elim es.target [
  | none ↦ codes "cluster-secrets"
  | some t ↦ if is_empty t then codes "cluster-secrets" else t
]

abbrev pub or_stopped : {A : Type 0} → Stop → Option A → Result A
or_stopped s none = stopped s
or_stopped s (some a) = done a

infixl 5 ◌then_on◌
abbrev pub ◌then_on◌ : {A B : Type 0} → Result A → (A → Result B) → Result B
done a then_on f = f a
stopped s then_on f = stopped s

pub record Work : Type 0 where
  pub values : Dict Text Text
  pub encodes : Dict Text Bool
  pub names : Dict Text Text

-- What main works out before it reads Key Vault.
unfoldable pub work : Codec → Given → Result Work
work codec g =
    if not (is_vault_name g.vault)
    then stopped not_a_vault
    else or_stopped not_read g.external_secret then_on λ es.
        or_stopped not_read (g.secret (target_of es)) then_on λ data_of.
        source_values codec es data_of then_on λ values. check_names (keys values) then_on λ names.
        sign_in g.environ then_on λ how.
        if g.signs_in how
        then done record { values = values; encodes = template_encodes es; names = names }
        else stopped not_signed_in

unfoldable pub main : Codec → Answers → Given → ℕ × Session
main codec answer g = elim (work codec g) [
  | stopped s ↦ (2, [])
  | done w ↦ copy codec answer g.apply w.values w.encodes w.names []
]
