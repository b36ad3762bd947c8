-- ===== src/Webhook/Plan/Created.antt =====
-- What the plan creates, and where.
use k8s_homelab.Prelude.{
  sym, ◌≡◌, refl, ◌∙◌, List, [], ◌∷◌, ◌++◌, true, false, not, ◌&&◌, map, some, Option-cases,
  Bool-cases, inl, inr, any, ◌==◌, list_eq, string_eq, nat_eq, pair_eq,
}
use k8s_homelab.Prelude.{option_eq, All, All-append, any-filter}
use k8s_homelab.Prelude.Text.{Text}
use k8s_homelab.Webhook.Zones.{Zone, Record, is_owned, zone_for, relative, by_id}
use k8s_homelab.Webhook.Plan.{
  Endpoint, Changes, Create, Key, Current, Work, listed, lower_keys, key_of, current_loop, have_of,
  endpoint_key, is_handled, create_for, missing,
}
use k8s_homelab.Webhook.Plan.{
  change_records, want_endpoint, want_all, unwant_endpoint, unwant_all, plan,
}
use k8s_homelab.Webhook.Plan.Current.{have_of-current}

-- The record to create is for a name and a handled type: it goes under its relative name into the
-- zone that `zone_for` finds, and no hand-made record has that name and type.
pub record IsAllowed (records : List Record) (zones : List Zone) (c : Create) : Type 0 where
  pub key : Key
  pub zone : Zone
  pub found : zone_for key.0 zones ≡ some zone
  pub in_zone : c.zone ≡ zone.id
  pub named : c.name ≡ relative key.0 zone.name
  pub kind : c.kind ≡ key.1
  pub handled : is_handled key.1 ≡ true
  pub free : any (λ r. key_of (by_id zones []) r == key && not (is_owned r)) records ≡ false

module _ (zones : List Zone) (records : List Record) where
  abbrev index : Current
  index = current_loop (by_id zones []) records []

  create_for-IsAllowed :
      (z : Zone) (k : Key) (ep : Endpoint) (v : Text)
      → zone_for k.0 zones ≡ some z
      → is_handled k.1 ≡ true
      → any (λ r. not (is_owned r)) (have_of k index) ≡ false
      → IsAllowed records zones (create_for z k ep v)
  unfolding create_for
  create_for-IsAllowed z k ep v found handled free = record {
    key = k;
    zone = z;
    found = found;
    in_zone = refl;
    named = refl;
    kind = refl;
    handled = handled;
    free =
        sym (any-filter (λ r. not (is_owned r)) (λ r. key_of (by_id zones []) r == k) records)
        ∙ rw (have_of-current (by_id zones []) records k) at free;
  }

  All-create_for :
      (z : Zone) (k : Key) (ep : Endpoint) (vs : List Text)
      → zone_for k.0 zones ≡ some z
      → is_handled k.1 ≡ true
      → any (λ r. not (is_owned r)) (have_of k index) ≡ false
      → All (IsAllowed records zones) (map (create_for z k ep) vs)
  All-create_for z k ep [] found handled free = tt
  All-create_for z k ep (v ∷ vs) found handled free = (
    create_for-IsAllowed z k ep v found handled free,
    All-create_for z k ep vs found handled free,
  )

  creates-want_endpoint :
      (ep : Endpoint) (w : Work)
      → All (IsAllowed records zones) w.creates
      → All (IsAllowed records zones) (want_endpoint zones index ep w).creates
  unfolding want_endpoint change_records
  creates-want_endpoint ep w h =
      let k = endpoint_key ep in
      elim (Bool-cases (is_handled k.1)) [
        | inr e ↦ rw e h
        | inl e ↦ elim (Option-cases (zone_for k.0 zones)) [
          | inl f ↦ rw e (rw (f, want_endpoint) h)
          | inr (z, f) ↦ elim (Bool-cases (any (λ r. not (is_owned r)) (have_of k index))) [
            | inl taken ↦ rw e (rw (f, want_endpoint) (rw taken h))
            | inr free ↦ rw e (
                rw (f, want_endpoint)
                  (rw free (
                    All-append (IsAllowed records zones) w.creates
                      (map (create_for z k ep) (missing ep (have_of k index))) h
                      (All-create_for z k ep (missing ep (have_of k index)) f e free))))
          ]
        ]
      ]

  creates-want_all :
      (eps : List Endpoint) (w : Work)
      → All (IsAllowed records zones) w.creates
      → All (IsAllowed records zones) (want_all zones index eps w).creates
  unfolding want_all
  creates-want_all [] w h = h
  creates-want_all (ep ∷ eps) w h =
      creates-want_all eps (want_endpoint zones index ep w) (creates-want_endpoint ep w h)

  creates-unwant_all :
      (eps : List Endpoint) (w : Work) → (unwant_all zones index eps w).creates ≡ w.creates
  unfolding unwant_all unwant_endpoint
  creates-unwant_all [] w = refl
  creates-unwant_all (ep ∷ eps) w = creates-unwant_all eps (unwant_endpoint zones index ep w)

-- Every record that the plan creates is of a handled type, goes into its name's zone, and takes
-- no name and type that a hand-made record has.
pub plan-IsAllowed :
    (changes : Changes) (records : List Record) (zones : List Zone)
    → All (IsAllowed records zones) (plan changes records zones).creates
unfolding plan
plan-IsAllowed changes records zones =
    let asked = lower_keys changes [] in
    let wanted = listed "create" asked ++ listed "updatenew" asked in
    let start : Work = record { creates = []; deletes = []; skipped = [] } in
    rw creates-unwant_all (creates-want_all zones records wanted start tt)
