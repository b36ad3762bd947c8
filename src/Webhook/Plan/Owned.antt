-- ===== src/Webhook/Plan/Owned.antt =====
-- The plan touches only records that carry the owner's mark.
use k8s_homelab.Prelude.{
  sym, ℕ, ◌≡◌, refl, ◌∙◌, List, [], ◌∷◌, ◌++◌, Bool, true, false, not, ◌&&◌, map, filter, arith,
  any, contains, ◌==◌, list_eq, string_eq, nat_eq, pair_eq,
}
use k8s_homelab.Prelude.{option_eq, contains-append, contains-add}
use k8s_homelab.Prelude.Sort.{contains-sorted_ids}
use k8s_homelab.Prelude.Dict.{Dict}
use k8s_homelab.Webhook.Zones.{Zone, Record, is_owned, by_id}
use k8s_homelab.Webhook.Plan.{
  Endpoint, Changes, Key, Current, Work, listed, lower_keys, key_of, current_loop, have_of,
  endpoint_key, stale, change_records, want_endpoint, want_all,
}
use k8s_homelab.Webhook.Plan.{unwant_endpoint, unwant_all, id_set, plan}
use k8s_homelab.Webhook.Plan.Current.{have_of-current}

-- A record of the list has this id and the owner's mark.
abbrev pub owned_in : ℕ → List Record → Bool
owned_in i = any (λ r. r.id == i && is_owned r)

stale-owned :
    (ep : Endpoint) (have : List Record) (i : ℕ)
    → any (λ r. not (is_owned r)) have ≡ false
    → contains (stale ep have) i ≡ true
    → owned_in i have ≡ true
unfolding stale
stale-owned ep [] i h m = cc
stale-owned ep (r ∷ rs) i h m = ground (arith, stale-owned ep rs i)

ids-owned :
    (have : List Record) (i : ℕ)
    → contains (map (λ r. r.id) (filter is_owned have)) i ≡ true
    → owned_in i have ≡ true
ids-owned [] i m = cc
ids-owned (r ∷ rs) i m = ground (arith, ids-owned rs i)

owned_in-filter :
    (p : Record → Bool) (rs : List Record) (i : ℕ)
    → owned_in i (filter p rs) ≡ true
    → owned_in i rs ≡ true
owned_in-filter p [] i h = cc
owned_in-filter p (r ∷ rs) i h = ground (arith, owned_in-filter p rs i)

contains-id_set : (is : List ℕ) (i : ℕ) → contains (id_set is) i ≡ contains is i
unfolding id_set
contains-id_set [] i = refl
contains-id_set (j ∷ is) i = ground (arith, contains-id_set is i, contains-add j (id_set is) i)

module _ (zones : List Zone) (zones_by_id : Dict ℕ Zone) (records : List Record) where
  abbrev index : Current
  index = current_loop zones_by_id records []

  have_of-owned :
      (k : Key) (i : ℕ) → owned_in i (have_of k index) ≡ true → owned_in i records ≡ true
  have_of-owned k i h =
      owned_in-filter (λ r. key_of zones_by_id r == k) records i (rw have_of-current at h)

  deletes-want_endpoint :
      (ep : Endpoint) (w : Work) (i : ℕ)
      → (contains w.deletes i ≡ true → owned_in i records ≡ true)
      → contains (want_endpoint zones index ep w).deletes i ≡ true
      → owned_in i records ≡ true
  unfolding want_endpoint change_records
  deletes-want_endpoint ep w i h m =
      let have = have_of (endpoint_key ep) index in
      ground (
        arith,
        contains-append w.deletes (stale ep have) i,
        stale-owned ep have i,
        have_of-owned (endpoint_key ep) i,
      )

  deletes-want_all :
      (eps : List Endpoint) (w : Work) (i : ℕ)
      → (contains w.deletes i ≡ true → owned_in i records ≡ true)
      → contains (want_all zones index eps w).deletes i ≡ true
      → owned_in i records ≡ true
  unfolding want_all
  deletes-want_all [] w i h m = h m
  deletes-want_all (ep ∷ eps) w i h m =
      deletes-want_all eps (want_endpoint zones index ep w) i (deletes-want_endpoint ep w i h) m

  deletes-unwant_all :
      (eps : List Endpoint) (w : Work) (i : ℕ)
      → (contains w.deletes i ≡ true → owned_in i records ≡ true)
      → contains (unwant_all zones index eps w).deletes i ≡ true
      → owned_in i records ≡ true
  unfolding unwant_all unwant_endpoint
  deletes-unwant_all [] w i h m = h m
  deletes-unwant_all (ep ∷ eps) w i h m =
      deletes-unwant_all eps (unwant_endpoint zones index ep w) i
        (λ k.
          let have = have_of (endpoint_key ep) index in
          ground (
            arith,
            contains-append w.deletes (map (λ r. r.id) (filter is_owned have)) i,
            ids-owned have i,
            have_of-owned (endpoint_key ep) i,
          ))
        m

-- Every id that the plan deletes is that of a record with the owner's mark.
pub plan-owned :
    (changes : Changes) (records : List Record) (zones : List Zone) (i : ℕ)
    → contains (plan changes records zones).deletes i ≡ true
    → owned_in i records ≡ true
unfolding plan
plan-owned changes records zones i m =
    let asked = lower_keys changes [] in
    let current = current_loop (by_id zones []) records [] in
    let wanted = listed "create" asked ++ listed "updatenew" asked in
    let start : Work = record { creates = []; deletes = []; skipped = [] } in
    let w = want_all zones current wanted start in
    let u = unwant_all zones current (listed "delete" asked) w in
    deletes-unwant_all zones (by_id zones []) records (listed "delete" asked) w i
      (deletes-want_all zones (by_id zones []) records wanted start i (λ h. absurd (cc)))
      (sym (contains-id_set u.deletes i) ∙ (sym (contains-sorted_ids (id_set u.deletes) i) ∙ m))
