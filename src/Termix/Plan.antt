-- ===== src/Termix/Plan.antt =====
-- termix-netbox-sync.py: main's credentials and plan. Hosts of Termix have texts for names; `none`
-- stands for an exception.
use k8s_homelab.Prelude.{
  true, add, length, ◌++◌, false, inr, minus, none, if◌then◌else◌, inl, list_eq, ◌∷◌, contains,
  nat_eq, [], ◌>>=◌, not, ◌==◌, some, ℕ, filter, ◌⊎◌, Option, Bool,
}
use k8s_homelab.Prelude.{List}
use k8s_homelab.Prelude.Dict.{keys, lookup, insert, Dict}
use k8s_homelab.Prelude.Sort.{sorted, sorted_by, text_leb}
use k8s_homelab.Prelude.Text.{codes, Text}
use k8s_homelab.Termix.Netbox.{credential_count, Skip}
use k8s_homelab.Termix.Host.{rdp_settings_differ, is_owned, differs, host_body}
use k8s_homelab.Json.{null, no_fields, get, text_or_blank, Value, Fields}
use k8s_homelab.Termix.{Want}

pub record Credential : Type 0 where
  pub name : Text
  pub id : Value

-- What is sent: a new host, a host's record, a remote desktop's settings, a deletion.
pub data Action : Type 0 where
  post : Text → Fields → Action
  put_host : Value → Text → Fields → Action
  settings : Text → Action
  delete : Value → Text → Action

abbrev pub by_name : Text × Want → Text × Want → Bool
by_name a b = text_leb a.0 b.0

abbrev pub name_at : Fields → Text
name_at h = text_or_blank (get (codes "name") h)

abbrev pub named_credentials : List Credential → Text → List Credential
named_credentials creds name = filter (λ c. c.name == name) creds

-- The credential of a host: its id, null where the default is lacking, else how many have the name.
abbrev credential_among : List Credential → Bool → Value ⊎ ℕ
credential_among (c ∷ []) is_default = inl c.id
credential_among found true = inl null
credential_among found false = inr (length found)

-- The ids by host, the hosts held back, and why.
pub record Chosen : Type 0 where
  pub cred_ids : Dict Text Value
  pub held : List Text
  pub skipped : List Skip

abbrev choose_for : Text → Text → Value ⊎ ℕ → Chosen → Chosen
choose_for name cname (inl id) s = record s { cred_ids = insert name id s.cred_ids }
choose_for name cname (inr n) s = record s {
  held = add name s.held;
  skipped = s.skipped ++ credential_count name n cname ∷ [];
}

unfoldable pub choose : List Credential → Text → List (Text × Want) → Chosen → Chosen
choose creds default_credential [] s = s
choose creds default_credential ((name, want) ∷ later) s = choose creds default_credential later (
    choose_for name want.credential
      (credential_among (named_credentials creds want.credential)
        (want.credential == default_credential))
      s)

abbrev pub chosen : List Credential → Text → Dict Text Want → Chosen
chosen creds default_credential wanted =
    choose creds default_credential (sorted_by by_name wanted)
      (record { cred_ids = []; held = []; skipped = [] })

-- The wanted hosts whose credential Termix has.
abbrev pub kept_hosts : List Text → Dict Text Want → Dict Text Want
kept_hosts held wanted = filter (λ e. not (contains held e.0)) wanted

module _ (repr : Value → Text) where
  -- The hosts that the sync owns, by name, and the names of those made by hand.
  unfoldable pub hosts_from :
      List Fields → Dict Text Fields → List Text → Option (Dict Text Fields × List Text)
  hosts_from [] owned by_hand = some (owned, by_hand)
  hosts_from (h ∷ hosts) owned by_hand = is_owned repr h >>= λ mine.
      hosts_from hosts (if mine then insert (name_at h) h owned else owned)
        (if mine then by_hand else by_hand ++ name_at h ∷ [])

  -- What of a host and of its remote desktop differs.
  unfoldable pub differences : Fields → Want → Value → Option (List Text × Bool)
  differences have want credential_id = differs repr have want credential_id >>= λ diff.
      (if want.is_rdp then rdp_settings_differ repr have want else some false) >>= λ rdp.
      some (diff, rdp)

  unfoldable pub plan_update : Text → Fields → Want → Value → Option (List Action)
  plan_update name have want credential_id = differences have want credential_id >>= λ (diff, rdp).
      if not (diff == [])
      then (host_body repr want credential_id have >>= λ body.
          get (codes "id") have >>= λ id. some (put_host id name body ∷ []))
      else some (if rdp then settings name ∷ [] else [])

  abbrev pub plan_held : Text → Option Fields → Want → Value → Option (List Action)
  plan_held name none want credential_id =
      host_body repr want credential_id no_fields >>= λ body. some (post name body ∷ [])
  plan_held name (some have) want credential_id = plan_update name have want credential_id

  module _ (owned : Dict Text Fields) (by_hand : List Text) (cred_ids : Dict Text Value) where
    unfoldable pub plan_wanted : List (Text × Want) → Option (List Action)
    plan_wanted [] = some []
    plan_wanted ((name, want) ∷ later) =
        let rest = plan_wanted later in
        lookup name cred_ids >>= λ credential_id.
        (if contains by_hand name
          then some []
          else plan_held name (lookup name owned) want credential_id)
        >>= λ actions. rest >>= λ more. some (actions ++ more)

  unfoldable pub plan_deletes : Dict Text Fields → List Text → Option (List Action)
  plan_deletes owned [] = some []
  plan_deletes owned (name ∷ names) =
      let rest = plan_deletes owned names in
      lookup name owned >>= λ have.
      get (codes "id") have >>= λ id. rest >>= λ more. some (delete id name ∷ more)

  unfoldable pub plan_hosts :
      List Credential → Text → List Fields → Dict Text Want → Option (List Action)
  plan_hosts creds default_credential hosts wanted =
      let s = chosen creds default_credential wanted in
      let kept = kept_hosts s.held wanted in
      hosts_from hosts [] [] >>= λ (owned, by_hand).
      plan_wanted owned by_hand s.cred_ids (sorted_by by_name kept) >>= λ writes.
      plan_deletes owned (sorted (minus (minus (keys owned) (keys kept)) s.held)) >>= λ deletes.
      some (writes ++ deletes)
