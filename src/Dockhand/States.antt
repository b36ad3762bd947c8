-- ===== src/Dockhand/States.antt =====
-- dockhand_keyvault_copy.py: states, and main from there to its exit code. What the vault lists is
-- given: the secrets that can be read and the names of the disabled ones; so are the conflicts that
-- check_built finds.
use k8s_homelab.Prelude.{
  ◌++◌, is_nil, ◌>>=◌, option_eq, list_eq, ◌&&◌, nat_eq, [], not, some, suc, none, ◌==◌,
  if◌then◌else◌, ◌∷◌, false, map, Option, contains, ℕ, true, Bool, List,
}
use k8s_homelab.Prelude.Text.{lower, codes, Text}
use k8s_homelab.Prelude.Dict.{insert, lookup, Dict}
use k8s_homelab.Keyvault.Vault.{Session, write, remote_secret, Held, Answers}
use k8s_homelab.Keyvault.{keyvault_name, done, stopped, Result}
use k8s_homelab.Json.{no_fields, text, field, get, Fields}
use k8s_homelab.Dockhand.Plan.{Target}
use k8s_homelab.Keyvault.Source.{Codec}

pub data State : Type 0 where
  add : State
  same : State
  base64 : State

-- Key Vault's names by their lower case, the last of those that differ by case alone.
unfoldable pub lower_names : Dict Text Held → Dict Text Text → Dict Text Text
lower_names [] names = names
lower_names ((n, h) ∷ held) names = lower_names held (insert (lower n) n names)

abbrev pub is_disabled : List Text → Text → Bool
is_disabled disabled n = contains (map lower disabled) (lower (keyvault_name n))

abbrev pub held_as : Dict Text Held → Text → Option Held
held_as held n =
    lookup (lower (keyvault_name n)) (lower_names held []) >>= λ other. lookup other held

-- The state of a name; none is a conflict.
unfoldable pub state_of : Codec → Target → Bool → Option Held → Option State
state_of codec t true h = none
state_of codec t false none = some add
state_of codec t false (some h) =
    if h.digest == codec.digest t.value
    then some same
    else if h.decoded == some (codec.digest t.value)
    then some base64
    else none

unfoldable pub states :
    Codec → Dict Text Held → List Text → Dict Text Target → Dict Text State × List Text
states codec held disabled [] = ([], [])
states codec held disabled ((n, t) ∷ targets) =
    let (state, conflicts) = states codec held disabled targets in
    elim (state_of codec t (is_disabled disabled n) (held_as held n)) [
      | none ↦ (state, n ∷ conflicts)
      | some s ↦ ((n, s) ∷ state, conflicts)
    ]

abbrev pub is_add : State → Bool
is_add add = true
is_add s = false

-- `[name for name, s in state.items() if s == "add"]`
unfoldable pub to_write : Dict Text State → List Text
to_write [] = []
to_write ((n, s) ∷ state) = let rest = to_write state in if is_add s then n ∷ rest else rest

abbrev pub source_tag : Fields
source_tag = field (codes "source") (text (codes "dockhand")) no_fields

abbrev pub value_for : Dict Text Target → Text → Text
value_for targets n = elim (lookup n targets) [ none ↦ [] | some t ↦ t.value ]

abbrev count_refusal : Text → ℕ → ℕ
count_refusal [] failed = failed
count_refusal (c ∷ why) failed = suc failed

-- The loop that writes: how many were not written. A write without an answer ends it.
unfoldable pub write_names : Answers → Dict Text Target → List Text → Session → ℕ × Session
write_names answer targets [] sent = (0, sent)
write_names answer targets (n ∷ ns) sent =
    let (outcome, sent') =
      write answer (keyvault_name n) (value_for targets n) (some source_tag) sent in
    elim outcome [
      | stopped s ↦ (1, sent')
      | done why ↦
          let (failed, last) = write_names answer targets ns sent' in
          (count_refusal why failed, last)
    ]

abbrev is_tagged : Fields → Bool
is_tagged tags = elim (get (codes "source") tags) [
  | some (text t) ↦ t == codes "dockhand"
  | _ ↦ false
]

abbrev is_copied : Codec → Text → Result (Option Held) → Bool
is_copied codec value (stopped s) = false
is_copied codec value (done none) = false
is_copied codec value (done (some h)) = h.digest == codec.digest value && is_tagged h.tags

-- The loop that reads back: the names that do not match.
unfoldable pub read_names :
    Codec → Answers → Dict Text Target → List Text → Session → List Text × Session
read_names codec answer targets [] sent = ([], sent)
read_names codec answer targets (n ∷ ns) sent =
    let (h, sent') = remote_secret codec answer (keyvault_name n) sent in
    let (mismatched, last) = read_names codec answer targets ns sent' in
    (if is_copied codec (value_for targets n) h then mismatched else n ∷ mismatched, last)

-- main from the states on: the exit code, and the requests that follow.
unfoldable pub settle :
    Codec
    → Answers
    → Bool
    → Dict Text Target
    → Dict Text State × List Text
    → List Text
    → Session
    → ℕ × Session
settle codec answer apply targets (state, conflicts) built_conflicts sent =
    if not (is_nil (conflicts ++ built_conflicts))
    then (if apply then 2 else 1, sent)
    else if not apply
    then (0, sent)
    else let (failed, written) = write_names answer targets (to_write state) sent in
      let (mismatched, last) = read_names codec answer targets (to_write state) written in
      (if failed == 0 && is_nil mismatched then 0 else 1, last)
