-- ===== src/Termix/Run.antt =====
-- termix-netbox-sync.py: main, from what NetBox wants to the exit code. Termix's API is a parameter, a
-- world that is written to and listed; `none` stands for an uncaught exception.
use k8s_homelab.Prelude.{
  none, some, ◌++◌, ◌==◌, length, list_eq, ◌&&◌, nat_eq, not, contains, suc, [], ◌||◌, false,
  filter, ◌∷◌, ◌>>=◌, if◌then◌else◌, ℕ, true, List, Option, Bool,
}
use k8s_homelab.Prelude.Dict.{keys, lookup, Dict}
use k8s_homelab.Prelude.Text.{codes, Text}
use k8s_homelab.Prelude.Sort.{sorted_by}
use k8s_homelab.Termix.Plan.{
  differences, kept_hosts, plan_hosts, hosts_from, chosen, named_credentials, by_name, Credential,
  Chosen, settings, Action,
}
use k8s_homelab.Termix.Host.{rdp_settings_differ, rdp_settings}
use k8s_homelab.Json.{get, Fields, Value}
use k8s_homelab.Termix.{Want}

-- A write of the plan, and a PUT of a remote desktop's settings.
pub data Request : Type 0 where
  write : Action → Request
  put_settings : Value → Fields → Request

-- Whether the request was taken, and the list of hosts; `none` where it is refused.
pub record Api (W : Type 0) : Type 0 where
  pub send : Request → W → Bool × W
  pub hosts : W → Option (List Fields)
  pub credentials : W → Option (List Credential)

abbrev is_settings : Action → Bool
is_settings (settings name) = true
is_settings a = false

-- How main ends: 0, 1 and 2 are its exit codes.
pub data Exit : Type 0 where
  done : Exit
  failed : Exit
  no_answer : Exit

module _ (repr : Value → Text) {W : Type 0} (api : Api W) where
  abbrev counted : Bool → ℕ → ℕ
  counted taken n = if taken then n else suc n

  abbrev send_write : Action → ℕ × W → ℕ × W
  send_write a (n, w) = let (taken, w') = api.send (write a) w in (counted taken n, w')

  -- The writes in order, with the count of those that failed.
  unfoldable pub send_writes : List Action → ℕ × W → ℕ × W
  send_writes [] s = s
  send_writes (a ∷ later) s = send_writes later (if is_settings a then s else send_write a s)

  -- The hosts that the sync owns; `some none` where Termix does not answer.
  abbrev read_owned : W → Option (Option (Dict Text Fields))
  read_owned w = elim (api.hosts w) [
    | none ↦ some none
    | some found ↦ hosts_from repr found [] [] >>= λ (owned, by_hand). some (some owned)
  ]

  abbrev send_one : Want → Fields → Bool → ℕ × W → Option (ℕ × W)
  send_one want have false s = some s
  send_one want have true (n, w) = get (codes "id") have >>= λ id.
      let (taken, w') = api.send (put_settings id (rdp_settings repr want)) w in
      some (counted taken n, w')

  -- The settings of the remote desktops, by the hosts that are there now.
  unfoldable pub send_settings : Dict Text Fields → List (Text × Want) → ℕ × W → Option (ℕ × W)
  send_settings now [] s = some s
  send_settings now ((name, want) ∷ later) s = elim (lookup name now) [
    | none ↦ send_settings now later s
    | some have ↦ rdp_settings_differ repr have want >>= λ differ.
        send_one want have differ s >>= λ s'. send_settings now later s'
  ]

  -- Whether a host is as it is wanted.
  abbrev is_right : Dict Text Fields → Dict Text Value → Text → Want → Option Bool
  is_right now cred_ids name want = elim (lookup name now) [
    | none ↦ some false
    | some have ↦ lookup name cred_ids >>= λ credential_id.
        differences repr have want credential_id >>= λ (diff, rdp). some (diff == [] && not rdp)
  ]

  unfoldable pub wrong_wanted :
      Dict Text Fields → Dict Text Value → List Text → Dict Text Want → Option (List Text)
  wrong_wanted now cred_ids by_hand [] = some []
  wrong_wanted now cred_ids by_hand ((name, want) ∷ later) =
      let rest = wrong_wanted now cred_ids by_hand later in
      if contains by_hand name
      then rest
      else (is_right now cred_ids name want >>= λ right.
          rest >>= λ more. some (if right then more else name ∷ more))

  abbrev unwanted : Dict Text Fields → List Text → List Text → List Text
  unwanted now names held = filter (λ n. not (contains names n) && not (contains held n)) (keys now)

  unfoldable pub verify : Chosen → List Text → Dict Text Want → ℕ × W → Option (Exit × W)
  verify s by_hand kept (n, w) = read_owned w >>= λ found. elim found [
    | none ↦ some (no_answer, w)
    | some now ↦ wrong_wanted now s.cred_ids by_hand kept >>= λ wrong.
        some (if n == 0 && wrong ++ unwanted now (keys kept) s.held == [] then done else failed, w)
  ]

  abbrev rdp_hosts : List Text → Dict Text Want → List (Text × Want)
  rdp_hosts by_hand kept =
      sorted_by by_name (filter (λ e. e.1.is_rdp && not (contains by_hand e.0)) kept)

  unfoldable pub set_desktops :
      Chosen → List Text → Dict Text Want → List (Text × Want) → ℕ × W → Option (Exit × W)
  set_desktops s by_hand kept [] sent = verify s by_hand kept sent
  set_desktops s by_hand kept (e ∷ rdp) (n, w) = read_owned w >>= λ found. elim found [
    | none ↦ some (no_answer, w)
    | some now ↦ send_settings now (e ∷ rdp) (n, w) >>= λ sent. verify s by_hand kept sent
  ]

  unfoldable pub apply_plan :
      Bool → Chosen → List Text → Dict Text Want → List Action → W → Option (Exit × W)
  apply_plan dry_run s by_hand kept actions w =
      if dry_run || is_empty_plan actions
      then some (done, w)
      else set_desktops s by_hand kept (rdp_hosts by_hand kept) (send_writes actions (0, w))
    where
      is_empty_plan : List Action → Bool
      is_empty_plan [] = true
      is_empty_plan (a ∷ later) = false

  -- The plan of the hosts and credentials that Termix lists, and what comes of it.
  unfoldable pub sync_hosts :
      Bool → Text → Dict Text Want → List Fields → List Credential → W → Option (Exit × W)
  sync_hosts dry_run default_credential wanted hosts creds w =
      if not (length (named_credentials creds default_credential) == 1) && not dry_run
      then some (no_answer, w)
      else (let s = chosen creds default_credential wanted in
          hosts_from repr hosts [] [] >>= λ (owned, by_hand).
          plan_hosts repr creds default_credential hosts wanted >>= λ actions.
          apply_plan dry_run s by_hand (kept_hosts s.held wanted) actions w)

  unfoldable pub sync : Bool → Text → Dict Text Want → W → Option (Exit × W)
  sync dry_run default_credential [] w = some (no_answer, w)
  sync dry_run default_credential (e ∷ wanted) w = elim (api.hosts w) [
    | none ↦ some (no_answer, w)
    | some hosts ↦ elim (api.credentials w) [
      | none ↦ some (no_answer, w)
      | some creds ↦ sync_hosts dry_run default_credential (e ∷ wanted) hosts creds w
    ]
  ]
