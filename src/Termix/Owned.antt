-- ===== src/Termix/Owned.antt =====
-- The plan changes only hosts that carry the tag of the sync.
use k8s_homelab.Prelude.{
  is_none, if_keeps, Returns-any, refl, all-append, Returns-eq-some, if◌then◌else◌, all, none, some,
  Option, contains-append, [], ◌++◌, inr, Returns-imp, inl,
}
use k8s_homelab.Prelude.{
  Bool-cases, list_eq, Returns-self, >>=-Returns, ◌∷◌, arith, false, contains, option_eq, nat_eq,
  ◌&&◌, ◌||◌, Returns, not, ◌==◌, any, true, ◌≡◌, Bool, List,
}
use k8s_homelab.Prelude.Dict.{
  lookup-AllEntries, lookup-insert, insert-AllEntries, insert, lookup, AllEntries, Dict,
}
use k8s_homelab.Prelude.Text.{codes, Text}
use k8s_homelab.Json.{str_value, str_of, no_fields, get, Fields, Value}
use k8s_homelab.Termix.Host.{host_body, is_owned}
use k8s_homelab.Termix.Plan.{
  differences, plan_held, plan_deletes, plan_wanted, plan_update, plan_hosts, Credential, delete,
  settings, put_host, name_at, post, Action, hosts_from,
}
use k8s_homelab.Termix.{Want}

abbrev is_yes : Option Bool → Bool
is_yes (some b) = b
is_yes none = false

module _ (repr : Value → Text) where
  -- A host of that name which carries the tag.
  abbrev pub is_mine : Text → Fields → Bool
  is_mine name h = is_yes (is_owned repr h) && name_at h == name

  -- A new host takes no name that is held; every other action is on a host of that name and id which
  -- carries the tag.
  abbrev pub is_allowed : List Fields → Action → Bool
  is_allowed hosts (post name body) = not (any (λ h. name_at h == name) hosts)
  is_allowed hosts (put_host id name body) =
      any (λ h. is_mine name h && str_of repr (get (codes "id") h) == str_value repr id) hosts
  is_allowed hosts (settings name) = any (is_mine name) hosts
  is_allowed hosts (delete id name) =
      any (λ h. is_mine name h && str_of repr (get (codes "id") h) == str_value repr id) hosts

  -- A member of the list.
  IsMember : List Fields → Fields → Type 0
  IsMember hosts h = (q : Fields → Bool) → q h ≡ true → any q hosts ≡ true

  IsMine : List Fields → Text → Fields → Type 0
  IsMine hosts name h = IsMember hosts h × (is_mine name h ≡ true)

  -- The walk over the later hosts, in a whole list.
  hosts_from-Returns :
      (whole hosts : List Fields) (owned : Dict Text Fields) (by_hand : List Text)
      → ((h : Fields) → IsMember hosts h → IsMember whole h)
      → AllEntries (IsMine whole) owned
      → Returns
          (λ s.
            AllEntries (IsMine whole) s.0
            × ((name : Text)
                → (any (λ h. name_at h == name) hosts
                    || not (is_none (lookup name owned) && not (contains by_hand name)))
                  ≡ true
                → (is_none (lookup name s.0) && not (contains s.1 name)) ≡ false))
          (hosts_from repr hosts owned by_hand)
  unfolding hosts_from IsMine IsMember
  hosts_from-Returns whole [] owned by_hand sub h = (h, λ name k. ground (arith, k))
  hosts_from-Returns whole (h ∷ hosts) owned by_hand sub mine =
      >>=-Returns (λ b. is_owned repr h ≡ some b) _ (is_owned repr h) _
        (Returns-self (is_owned repr h))
        (λ b e. elim (Bool-cases b) [
          | inl t ↦ rw t (
              Returns-imp _ _ (hosts_from repr hosts (insert (name_at h) h owned) by_hand)
                (hosts_from-Returns whole hosts (insert (name_at h) h owned) by_hand
                  (λ g m. sub g (λ q k. ground (arith, m q k)))
                  (insert-AllEntries (IsMine whole) (name_at h) h owned
                    (sub h (λ q k. ground arith), ground (arith, e, t)) mine))
                (λ s (kept, covers). (
                  kept,
                  λ name k. covers name (ground (arith, lookup-insert (name_at h) name h owned)),
                )))
          | inr f ↦ rw f (
              Returns-imp _ _ (hosts_from repr hosts owned (by_hand ++ name_at h ∷ []))
                (hosts_from-Returns whole hosts owned (by_hand ++ name_at h ∷ [])
                  (λ g m. sub g (λ q k. ground (arith, m q k))) mine)
                (λ s (kept, covers). (
                  kept,
                  λ name k.
                      covers name (ground (arith, contains-append by_hand (name_at h ∷ []) name)),
                )))
        ])

  -- An owned host, as it is found by name.
  own_host :
      (hosts : List Fields) (owned : Dict Text Fields) (name : Text)
      → AllEntries (IsMine hosts) owned
      → Returns (IsMine hosts name) (lookup name owned)
  own_host hosts owned name mine = lookup-AllEntries (IsMine hosts) name owned mine

  -- The action on an owned host, by its id.
  allowed_own :
      (hosts : List Fields) (name : Text) (have : Fields) (id : Value)
      → IsMine hosts name have
      → get (codes "id") have ≡ some id
      → any (λ h. is_mine name h && str_of repr (get (codes "id") h) == str_value repr id) hosts
        ≡ true
  unfolding IsMine IsMember
  allowed_own hosts name have id (member, mine) e =
      member (λ h. is_mine name h && str_of repr (get (codes "id") h) == str_value repr id)
        (rw e (ground (arith, mine)))

  AreAllowed : List Fields → List Action → Type 0
  AreAllowed hosts actions = all (is_allowed hosts) actions ≡ true

  plan_update-AreAllowed :
      (hosts : List Fields) (name : Text) (have : Fields) (want : Want) (credential_id : Value)
      → IsMine hosts name have
      → Returns (AreAllowed hosts) (plan_update repr name have want credential_id)
  unfolding plan_update AreAllowed IsMine IsMember
  plan_update-AreAllowed hosts name have want credential_id mine =
      >>=-Returns (λ d. Unit) _ (differences repr have want credential_id) _
        (Returns-any (differences repr have want credential_id))
        (λ (diff, rdp) t.
          if_keeps (Returns (AreAllowed hosts)) (not (diff == [])) _ _
            (>>=-Returns (λ b. Unit) _ (host_body repr want credential_id have) _
              (Returns-any (host_body repr want credential_id have))
              (λ body t.
                >>=-Returns (λ id. get (codes "id") have ≡ some id) _ (get (codes "id") have) _
                  (Returns-self (get (codes "id") have))
                  (λ id e. rw (allowed_own hosts name have id mine e) refl)))
            (if_keeps (AreAllowed hosts) rdp _ _ (rw (mine.0 (is_mine name) mine.1) refl) refl))

  plan_held-AreAllowed :
      (hosts : List Fields) (name : Text) (found : Option Fields) (want : Want)
      (credential_id : Value)
      → Returns (IsMine hosts name) found
      → (is_none found ≡ true → any (λ h. name_at h == name) hosts ≡ false)
      → Returns (AreAllowed hosts) (plan_held repr name found want credential_id)
  unfolding AreAllowed
  plan_held-AreAllowed hosts name none want credential_id mine free =
      >>=-Returns (λ b. Unit) _ (host_body repr want credential_id no_fields) _
        (Returns-any (host_body repr want credential_id no_fields)) (λ body t. rw (free refl) refl)
  plan_held-AreAllowed hosts name (some have) want credential_id mine free =
      plan_update-AreAllowed hosts name have want credential_id mine

  abbrev Covers : List Fields → Dict Text Fields → List Text → Type 0
  Covers hosts owned by_hand =
      (name : Text)
      → any (λ h. name_at h == name) hosts ≡ true
      → (is_none (lookup name owned) && not (contains by_hand name)) ≡ false

  plan_wanted-AreAllowed :
      (hosts : List Fields) (owned : Dict Text Fields) (by_hand : List Text)
      (cred_ids : Dict Text Value) (wanted : List (Text × Want))
      → AllEntries (IsMine hosts) owned
      → Covers hosts owned by_hand
      → Returns (AreAllowed hosts) (plan_wanted repr owned by_hand cred_ids wanted)
  unfolding plan_wanted AreAllowed
  plan_wanted-AreAllowed hosts owned by_hand cred_ids [] mine covers = refl
  plan_wanted-AreAllowed hosts owned by_hand cred_ids ((name, want) ∷ later) mine covers =
      >>=-Returns (λ c. Unit) _ (lookup name cred_ids) _ (Returns-any (lookup name cred_ids))
        (λ credential_id t. >>=-Returns (AreAllowed hosts) _ _ _ (one credential_id) (λ actions h.
          >>=-Returns (AreAllowed hosts) _ (plan_wanted repr owned by_hand cred_ids later) _
            (plan_wanted-AreAllowed hosts owned by_hand cred_ids later mine covers)
            (λ more k. all-append (is_allowed hosts) actions more h k)))
    where
      one :
          (credential_id : Value)
          → Returns (AreAllowed hosts) (
              if contains by_hand name
              then some []
              else plan_held repr name (lookup name owned) want credential_id)
      one credential_id = elim (Bool-cases (contains by_hand name)) [
        | inl e ↦ rw e refl
        | inr e ↦ rw e (
            plan_held-AreAllowed hosts name (lookup name owned) want credential_id
              (own_host hosts owned name mine) (λ absent. ground (arith, covers name, absent, e)))
      ]

  plan_deletes-AreAllowed :
      (hosts : List Fields) (owned : Dict Text Fields) (names : List Text)
      → AllEntries (IsMine hosts) owned
      → Returns (AreAllowed hosts) (plan_deletes repr owned names)
  unfolding plan_deletes AreAllowed
  plan_deletes-AreAllowed hosts owned [] mine = refl
  plan_deletes-AreAllowed hosts owned (name ∷ names) mine =
      >>=-Returns (IsMine hosts name) _ (lookup name owned) _ (own_host hosts owned name mine)
        (λ have m.
          >>=-Returns (λ id. get (codes "id") have ≡ some id) _ (get (codes "id") have) _
            (Returns-self (get (codes "id") have))
            (λ id e.
              >>=-Returns (AreAllowed hosts) _ (plan_deletes repr owned names) _
                (plan_deletes-AreAllowed hosts owned names mine)
                (λ more k. rw (allowed_own hosts name have id m e) k)))

  plan_hosts-Returns :
      (creds : List Credential) (default_credential : Text) (hosts : List Fields)
      (wanted : Dict Text Want)
      → Returns (AreAllowed hosts) (plan_hosts repr creds default_credential hosts wanted)
  unfolding plan_hosts AreAllowed
  plan_hosts-Returns creds default_credential hosts wanted =
      >>=-Returns (λ s. AllEntries (IsMine hosts) s.0 × Covers hosts s.0 s.1) _
        (hosts_from repr hosts [] []) _
        (Returns-imp _ _ (hosts_from repr hosts [] [])
          (hosts_from-Returns hosts hosts [] [] (λ h m. m) tt)
          (λ s (mine, covers). (mine, λ name k. covers name (ground (arith, k)))))
        (λ (owned, by_hand) (mine, covers).
          >>=-Returns (AreAllowed hosts) _ (plan_wanted repr owned by_hand _ _) _
            (plan_wanted-AreAllowed hosts owned by_hand _ _ mine covers)
            (λ writes h.
              >>=-Returns (AreAllowed hosts) _ (plan_deletes repr owned _) _
                (plan_deletes-AreAllowed hosts owned _ mine)
                (λ deletes k. all-append (is_allowed hosts) writes deletes h k)))

  -- A plan gives a new host only a name that no host of Termix has; each of its other actions is on a
  -- host of Termix of that name which carries the tag of the sync, and a record's or a deletion's id
  -- is that host's.
  pub plan_hosts-allowed :
      (creds : List Credential) (default_credential : Text) (hosts : List Fields)
      (wanted : Dict Text Want) (actions : List Action)
      → plan_hosts repr creds default_credential hosts wanted ≡ some actions
      → all (is_allowed hosts) actions ≡ true
  unfolding AreAllowed
  plan_hosts-allowed creds default_credential hosts wanted actions h =
      Returns-eq-some (AreAllowed hosts) (plan_hosts repr creds default_credential hosts wanted)
        (plan_hosts-Returns creds default_credential hosts wanted) h
