-- ===== src/Webhook/Plan/Settles.antt =====
-- After an endpoint's deletes and creates, NetBox holds exactly the values that it asks for.
use k8s_homelab.Prelude.{
  ℕ, ◌≡◌, refl, ◌∙◌, List, [], ◌∷◌, ◌++◌, Bool, true, false, not, ◌&&◌, ◌||◌, map, filter, arith,
  contains, minus, list_eq, string_eq, nat_eq, contains-filter,
}
use k8s_homelab.Prelude.{All, contains-add}
use k8s_homelab.Prelude.Text.{Text}
use k8s_homelab.Prelude.Sort.{contains-sorted}
use k8s_homelab.Webhook.Zones.{Record}
use k8s_homelab.Webhook.Plan.{Endpoint, stale, missing, values_of, set_of}

abbrev pub ids_of : List Record → List ℕ
ids_of = map (λ r. r.id)

abbrev pub distinct : List ℕ → Bool
distinct [] = true
distinct (i ∷ is) = not (contains is i) && distinct is

contains-set_of : (ts : List Text) (t : Text) → contains (set_of ts) t ≡ contains ts t
unfolding set_of
contains-set_of [] t = refl
contains-set_of (u ∷ ts) t = ground (arith, contains-set_of ts t, contains-add u (set_of ts) t)

filter-congr :
    (p q : Record → Bool) (rs : List Record) → All (λ r. p r ≡ q r) rs → filter p rs ≡ filter q rs
filter-congr p q [] h = refl
filter-congr p q (r ∷ rs) (e, h) = ground (arith, filter-congr p q rs h)

module _ (ep : Endpoint) where
  contains-stale_ids :
      (rs : List Record) (i : ℕ) → contains (ids_of rs) i ≡ false → contains (stale ep rs) i ≡ false
  unfolding stale
  contains-stale_ids [] i h = refl
  contains-stale_ids (r ∷ rs) i h = ground (arith, contains-stale_ids rs i)

  -- Another record's id makes no difference to the test.
  stale-cons :
      (x : Record) (rs ts : List Record)
      → contains (ids_of ts) x.id ≡ false
      → All (λ r. not (contains (stale ep (x ∷ rs)) r.id) ≡ not (contains (stale ep rs) r.id)) ts
  unfolding stale
  stale-cons x rs [] h = tt
  stale-cons x rs (t ∷ ts) h = (ground arith, stale-cons x rs ts (ground arith))

  stale_head :
      (x : Record) (rs : List Record)
      → contains (ids_of rs) x.id ≡ false
      → contains (stale ep (x ∷ rs)) x.id ≡ not (contains ep.targets x.value)
  unfolding stale
  stale_head x rs h = ground (arith, contains-stale_ids rs x.id)

  -- With distinct ids, the records that are not deleted are those with a wanted value.
  filter-stale :
      (rs : List Record)
      → distinct (ids_of rs) ≡ true
      → filter (λ r. not (contains (stale ep rs) r.id)) rs
        ≡ filter (λ r. contains ep.targets r.value) rs
  filter-stale [] h = refl
  filter-stale (x ∷ rs) h =
      let same =
        filter-congr (λ r. not (contains (stale ep (x ∷ rs)) r.id))
          (λ r. not (contains (stale ep rs) r.id)) rs (stale-cons x rs rs (ground arith)) in
      rw same (ground (arith, filter-stale rs (ground arith), stale_head x rs (ground arith)))

  contains-values_of-filter :
      (rs : List Record) (v : Text)
      → contains (values_of (filter (λ r. contains ep.targets r.value) rs)) v
        ≡ (contains (values_of rs) v && contains ep.targets v)
  contains-values_of-filter [] v = refl
  contains-values_of-filter (r ∷ rs) v = ground (arith, contains-values_of-filter rs v)

  contains-missing :
      (rs : List Record) (v : Text)
      → contains (missing ep rs) v ≡ (contains ep.targets v && not (contains (values_of rs) v))
  unfolding missing
  contains-missing rs v =
      contains-sorted (minus (set_of ep.targets) (values_of rs)) v
      ∙ (contains-filter (λ t. not (contains (values_of rs) t)) (set_of ep.targets) v
          ∙ rw contains-set_of)

  contains-values_of_append :
      (rs ts : List Record) (v : Text)
      → contains (values_of (rs ++ ts)) v ≡ (contains (values_of rs) v || contains (values_of ts) v)
  contains-values_of_append [] ts v = refl
  contains-values_of_append (r ∷ rs) ts v = ground (arith, contains-values_of_append rs ts v)

  -- Where ids are distinct, the records of an endpoint's name and type that are left, with those
  -- made for the creates, have exactly the endpoint's targets for values.
  pub values-change :
      (have made : List Record) (v : Text)
      → distinct (ids_of have) ≡ true
      → values_of made ≡ missing ep have
      → contains (values_of (filter (λ r. not (contains (stale ep have) r.id)) have ++ made)) v
        ≡ contains ep.targets v
  values-change have made v d e =
      contains-values_of_append (filter (λ r. not (contains (stale ep have) r.id)) have) made v
      ∙ rw (filter-stale have d, e)
          (ground (arith, contains-values_of-filter have v, contains-missing have v))
