-- ===== src/Termix/Body.antt =====
-- What is written of a host is what is asked for.
use mathlib.Core.Option.{some-injective}
use mathlib.Core.Path.{subst}
use native.Mathlib.Decide.{ℕ_discrete}
use k8s_homelab.Prelude.{
  inr, if◌then◌else◌, contains-union, Returns-any, sym, contains-set_of, >>=-Returns, union, inl,
  Returns-eq-some, Bool-cases, if_keeps, >>=-eq-some, Returns,
}
use k8s_homelab.Prelude.{
  Bool, contains, ==_refl, true, nat_eq, arith, ◌∙◌, refl, list_eq, ap, ◌∷◌, [], false, some, All,
  ◌≡◌, List,
}
use k8s_homelab.Prelude.Sort.{contains-sorted, sorted}
use k8s_homelab.Prelude.Text.{codes, Text}
use k8s_homelab.Json.{
  str_value, no_fields, bool, put, get-put, field, list, or_empty, number, text, is_truthy, is_zero,
  get, Fields, Value,
}
use k8s_homelab.Termix.Host.{
  with_status, is_owned, host_body, body_start, host_update, synced, synced_rdp, rdp_update,
  ssh_update, differs_rdp, differs, differing,
}
use k8s_homelab.Termix.{
  tags_at, text_values, owned_tag, tags_of, texts_in, get-put_all, put_all, str_or_blank, Want,
}

module _ (repr : Value → Text) where
  str_or_blank-text : (t : Text) → str_or_blank repr (some (text t)) ≡ t
  unfolding str_or_blank str_value is_truthy
  str_or_blank-text [] = refl
  str_or_blank-text (c ∷ t) = refl

  str_or_blank-number : (n : Text) → is_zero n ≡ false → str_or_blank repr (some (number n)) ≡ n
  unfolding str_or_blank str_value is_truthy
  str_or_blank-number n h = rw h refl

  -- A member reads as it is wanted.
  Reads : Fields → Text × Value → Type 0
  Reads have e = str_or_blank repr (get e.0 have) ≡ str_value repr e.1

  differing_none :
      (kvs : List (Text × Value)) (have : Fields)
      → All (Reads have) kvs
      → differing repr kvs have ≡ []
  unfolding differing Reads
  differing_none [] have h = refl
  differing_none ((k, v) ∷ kvs) have (e, h) = ground (arith, differing_none kvs have h)

  Reads-text : (have : Fields) (k t : Text) → get k have ≡ some (text t) → Reads have (k, text t)
  unfolding Reads str_value
  Reads-text have k t h = ap (str_or_blank repr) h ∙ str_or_blank-text t

  Reads-number :
      (have : Fields) (k n : Text)
      → is_zero n ≡ false
      → get k have ≡ some (number n)
      → Reads have (k, number n)
  unfolding Reads str_value
  Reads-number have k n z h = ap (str_or_blank repr) h ∙ str_or_blank-number n z

  module _ (want : Want) (credential_id : Value) (start : Fields)
      (port : is_zero want.port ≡ false) where
    differs-ssh :
        want.is_rdp ≡ false
        → differs repr (put_all (ssh_update want credential_id) start) want credential_id ≡ some []
    unfolding differs is_truthy list_eq nat_eq ℕ_discrete
    differs-ssh h =
        let body = put_all (ssh_update want credential_id) start in
        let at = λ (k : Text). get-put_all k (ssh_update want credential_id) start in
        let fields = differing_none (synced want) body (
          Reads-text body _ _ (at (codes "ip")),
          (
            Reads-number body _ _ port (at (codes "port")),
            (
              Reads-text body _ _ (at (codes "username")),
              (Reads-text body _ _ (at (codes "folder")), tt),
            ),
          ),
        ) in
        rw h (
          rw fields (
            rw (at (codes "authType")) (
              rw (at (codes "credentialId")) (
                rw (at (codes "overrideCredentialUsername"))
                  (rw (==_refl (str_value repr credential_id)) refl)))))

    differs-rdp :
        want.is_rdp ≡ true
        → differs repr (put_all (rdp_update want credential_id) start) want credential_id ≡ some []
    unfolding differs differs_rdp or_empty get list_eq nat_eq ℕ_discrete
    differs-rdp h =
        let body = put_all (rdp_update want credential_id) start in
        let at = λ (k : Text). get-put_all k (rdp_update want credential_id) start in
        let fields = differing_none (synced_rdp want) body (
          Reads-text body _ _ (at (codes "ip")),
          (
            Reads-number body _ _ port (at (codes "port")),
            (Reads-text body _ _ (at (codes "folder")), tt),
          ),
        ) in
        rw h (
          rw (at (codes "protocolAuth")) (
            rw fields (
              rw (at (codes "connectionType")) (rw (==_refl (str_value repr credential_id)) refl))))

  -- The tags that a body starts with hold the tag of the sync.
  IsTagged : Fields → Type 0
  IsTagged o =
      (tags : List Text) × (get (codes "tags") o ≡ some (list (text_values tags)))
      × (contains tags owned_tag ≡ true)

  with_status-IsTagged :
      (enabled : Bool) (tags : List Text) (have : Fields)
      → contains tags owned_tag ≡ true
      → IsTagged (with_status enabled tags have)
  unfolding IsTagged list_eq nat_eq ℕ_discrete
  with_status-IsTagged enabled tags have h = (
    tags,
    get-put (codes "tags") (codes "tags") (list (text_values tags))
        (put (codes "statusCheckEnabled") (bool enabled) have),
    h,
  )

  contains-owned_tag :
      (tags : List Text) → contains (sorted (union tags (owned_tag ∷ []))) owned_tag ≡ true
  contains-owned_tag tags = ground (
    arith,
    contains-sorted (union tags (owned_tag ∷ [])) owned_tag,
    contains-union tags (owned_tag ∷ []) owned_tag,
  )

  body_start-Returns : (have : Fields) → Returns IsTagged (body_start repr have)
  unfolding body_start
  body_start-Returns no_fields = with_status-IsTagged true (owned_tag ∷ []) no_fields (ground arith)
  body_start-Returns (field k v o) =
      >>=-Returns (λ tags. Unit) IsTagged (tags_of repr (field k v o)) _
        (Returns-any (tags_of repr (field k v o)))
        (λ tags t. with_status-IsTagged _ _ (field k v o) (contains-owned_tag tags))

  texts_in-text_values : (tags : List Text) → texts_in (text_values tags) ≡ some tags
  unfolding texts_in text_values
  texts_in-text_values [] = refl
  texts_in-text_values (t ∷ tags) = rw (texts_in-text_values tags) refl

  is_owned_tagged :
      (o : Fields) (tags : List Text)
      → get (codes "tags") o ≡ some (list (text_values tags))
      → contains tags owned_tag ≡ true
      → is_owned repr o ≡ some true
  unfolding is_owned tags_of tags_at
  is_owned_tagged o tags e h =
      rw e (rw (texts_in-text_values tags) (ap some (contains-set_of tags owned_tag ∙ h)))

  keeps_tags :
      (want : Want) (credential_id : Value) (start : Fields)
      → get (codes "tags") (put_all (host_update want credential_id) start)
        ≡ get (codes "tags") start
  unfolding list_eq nat_eq ℕ_discrete
  keeps_tags want credential_id start =
      if_keeps (λ kvs. get (codes "tags") (put_all kvs start) ≡ get (codes "tags") start)
        want.is_rdp _ _ (get-put_all (codes "tags") (rdp_update want credential_id) start)
        (get-put_all (codes "tags") (ssh_update want credential_id) start)

  differs-host_update :
      (want : Want) (credential_id : Value) (start : Fields)
      → is_zero want.port ≡ false
      → differs repr (put_all (host_update want credential_id) start) want credential_id ≡ some []
  differs-host_update want credential_id start port = elim (Bool-cases want.is_rdp) [
    | inl e ↦
        subst (λ kvs. differs repr (put_all kvs start) want credential_id ≡ some [])
          (sym (
            ap (λ b. if b then rdp_update want credential_id else ssh_update want credential_id) e))
          (differs-rdp want credential_id start port e)
    | inr e ↦
        subst (λ kvs. differs repr (put_all kvs start) want credential_id ≡ some [])
          (sym (
            ap (λ b. if b then rdp_update want credential_id else ssh_update want credential_id) e))
          (differs-ssh want credential_id start port e)
  ]

  -- The body that is written for a wanted host, new or in place of one that Termix has, differs in
  -- nothing from what is wanted, if its port is not 0, and carries the tag of the sync.
  pub differs-host_body :
      (want : Want) (credential_id : Value) (have body : Fields)
      → is_zero want.port ≡ false
      → host_body repr want credential_id have ≡ some body
      → (differs repr body want credential_id ≡ some []) × (is_owned repr body ≡ some true)
  unfolding host_body IsTagged
  differs-host_body want credential_id have body port h =
      let (start, e, f) = >>=-eq-some (body_start repr have) _ h in
      let (tags, g, held) =
        Returns-eq-some IsTagged (body_start repr have) (body_start-Returns have) e in
      subst (λ o. (differs repr o want credential_id ≡ some []) × (is_owned repr o ≡ some true))
        (some-injective _ _ f)
        (
          differs-host_update want credential_id start port,
          is_owned_tagged _ tags (keeps_tags want credential_id start ∙ g) held,
        )
