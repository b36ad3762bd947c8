-- ===== src/Organizr/Setup.antt =====
-- organizr-sync.py: what comes before the lists: the environment, the wait for Organizr, its first run and the
-- settings. Whether what `call` raises is an OSError is a parameter.
use k8s_homelab.Prelude.{
  zero, drop, nat_eq, ◌>>=◌, list_eq, [], true, none, ◌∷◌, if◌then◌else◌, ◌==◌, suc, some, any,
  false, ℕ, Bool, List, Option,
}
use k8s_homelab.Prelude.Text.{lower, starts_with, codes, Text}
use k8s_homelab.Json.{no_fields, field, text, Fields, Value}
use k8s_homelab.Organizr.{
  data_of, call, has_status, call_open, Answers, Session, Step, get_method, post_method, put_method,
}
use k8s_homelab.Backup.Substitute.{occurs}

abbrev pub Env : Type 0
Env = Text → Option Text

-- `resolve`; none where the environment lacks the name.
unfoldable pub resolve : Env → Value → Option Value
resolve env (text t) =
    if starts_with t (codes "env:") then (env (drop 4 t) >>= λ v. some (text v)) else some (text t)
resolve env v = some v

unfoldable pub resolve_all : Env → Fields → Option Fields
resolve_all env no_fields = some no_fields
resolve_all env (field k v o) =
    resolve env v >>= λ w. resolve_all env o >>= λ rest. some (field k w rest)

abbrev secret_words : List Text
secret_words = codes "password" ∷ codes "token" ∷ codes "secret" ∷ codes "key" ∷ codes "apikey" ∷ []

unfoldable pub is_secret : Text → Bool
is_secret key = any (λ w. occurs w (lower key)) secret_words

-- What becomes of a ping.
pub data Ping : Type 0 where
  ready : Ping
  again : Ping
  raised : Ping

abbrev is_pong : Option Value → Bool
is_pong (some (text t)) = t == codes "pong"
is_pong v = false

abbrev ping_data : Option (Option Value) → Ping
ping_data none = raised
ping_data (some found) = if is_pong found then ready else again

abbrev ping_of : Bool → Option (ℕ × Value) → Ping
ping_of os_error none = if os_error then again else raised
ping_of os_error (some (status, resp)) = if status == 200 then ping_data (data_of resp) else again

module _ (os_error : Session → Bool) (answer : Answers) where
  -- `wait_ready` with so many tries left.
  unfoldable pub wait_ready : ℕ → Session → Bool × Session
  wait_ready zero sent = (false, sent)
  wait_ready (suc tries) sent =
      let (r, sent') = call_open answer get_method (codes "/ping") none sent in
      elim (ping_of (os_error sent') r) [
        | ready ↦ (true, sent')
        | raised ↦ (false, sent')
        | again ↦ wait_ready tries sent'
      ]

  -- Whether the API key is accepted.
  unfoldable pub read_config : Step (ℕ × Value)
  read_config sent = call answer get_method (codes "/config") none sent

  abbrev set_up : Fields → Session → Bool × Session
  set_up body sent =
      let (r, sent') = call_open answer post_method (codes "/wizard") (some body) sent in
      elim (has_status (200 ∷ []) r) [
        | false ↦ (false, sent')
        | true ↦
            let (accepted, sent'') = read_config sent' in (has_status (200 ∷ []) accepted, sent'')
      ]

  abbrev run_wizard : Option Fields → Session → Bool × Session
  run_wizard none sent = (false, sent)
  run_wizard (some body) sent = set_up body sent

  abbrev after_first : Env → Fields → Option (ℕ × Value) → Session → Bool × Session
  after_first env wizard none sent = (false, sent)
  after_first env wizard (some (status, resp)) sent =
      if status == 200 then (true, sent) else run_wizard (resolve_all env wizard) sent

  unfoldable pub first_run : Env → Fields → Session → Bool × Session
  first_run env wizard sent = let (r, sent') = read_config sent in after_first env wizard r sent'

  abbrev put_settings : Option Fields → Session → Bool × Session
  put_settings none sent = (false, sent)
  put_settings (some wanted) sent =
      let (r, sent') = call answer put_method (codes "/config") (some wanted) sent in
      (has_status (200 ∷ []) r, sent')

  unfoldable pub apply_settings : Env → Fields → Session → Bool × Session
  apply_settings env settings sent = put_settings (resolve_all env settings) sent
