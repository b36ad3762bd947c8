-- ===== src/Webhook/Endpoints/Laws.antt =====
-- What `endpoints` lists.
use k8s_homelab.Prelude.{
  ℕ, ◌≡◌, refl, ◌∙◌, List, [], ◌∷◌, Bool, ◌&&◌, ◌||◌, arith, if◌then◌else◌, ◌==◌, contains, any,
  contains-append, list_eq, nat_eq, string_eq, pair_eq, Bool-cases,
}
use k8s_homelab.Prelude.{inl, inr}
use k8s_homelab.Prelude.Text.{Text}
use k8s_homelab.Prelude.Sort.{contains-sorted, count, count-sorted_by, any-sorted_by}
use k8s_homelab.Prelude.Dict.{Dict}
use k8s_homelab.Webhook.Zones.{Zone, Record}
use k8s_homelab.Webhook.Plan.{Key}
use k8s_homelab.Webhook.Endpoints.{
  Group, or_zero, group_at, is_listed, listed_key, group_loop, group_leb, sort_targets, endpoints,
}

-- Some endpoint of the key has this target.
abbrev pub has_target : Key → Text → List Group → Bool
has_target k v = any (λ g. g.key == k && contains g.targets v)

-- How many endpoints have the key.
abbrev pub key_count : Key → List Group → ℕ
key_count k = count (λ g. g.key == k)

has_target-group_at :
    (j : Key) (ttl : ℕ) (u : Text) (gs : List Group) (k : Key) (v : Text)
    → has_target k v (group_at j ttl u gs) ≡ (has_target k v gs || (j == k && v == u))
unfolding group_at
has_target-group_at j ttl u [] k v = ground arith
has_target-group_at j ttl u (g ∷ gs) k v =
    ground (arith, has_target-group_at j ttl u gs k v, contains-append g.targets (u ∷ []) v)

-- A key is counted once however many of its records there are.
key_count-group_at :
    (j : Key) (ttl : ℕ) (u : Text) (gs : List Group) (k : Key)
    → key_count k (group_at j ttl u gs)
      ≡ (if (j == k) && (key_count k gs == 0) then 1 else key_count k gs)
unfolding group_at
key_count-group_at j ttl u [] k = ground arith
key_count-group_at j ttl u (g ∷ gs) k = ground (arith, key_count-group_at j ttl u gs k)

has_target-sort_targets :
    (gs : List Group) (k : Key) (v : Text) → has_target k v (sort_targets gs) ≡ has_target k v gs
unfolding sort_targets
has_target-sort_targets [] k v = refl
has_target-sort_targets (g ∷ gs) k v =
    ground (arith, has_target-sort_targets gs k v, contains-sorted g.targets v)

key_count-sort_targets :
    (gs : List Group) (k : Key) → key_count k (sort_targets gs) ≡ key_count k gs
unfolding sort_targets
key_count-sort_targets [] k = refl
key_count-sort_targets (g ∷ gs) k = ground (arith, key_count-sort_targets gs k)

module _ (zones_by_id : Dict ℕ Zone) where
  -- A record that is listed under the key; with that value.
  abbrev pub is_under_key : Key → Record → Bool
  is_under_key k r = is_listed r && listed_key zones_by_id r == k

  has_target-group_loop :
      (rs : List Record) (gs : List Group) (k : Key) (v : Text)
      → has_target k v (group_loop zones_by_id rs gs)
        ≡ (has_target k v gs || any (λ r. is_under_key k r && v == r.value) rs)
  unfolding group_loop
  has_target-group_loop [] gs k v = ground arith
  has_target-group_loop (r ∷ rs) gs k v = elim (Bool-cases (is_listed r)) [
    | inl e ↦
        let gs' = group_at (listed_key zones_by_id r) (or_zero r.ttl) r.value gs in
        rw e (
          has_target-group_loop rs gs' k v
          ∙ ground (
            arith,
            has_target-group_at (listed_key zones_by_id r) (or_zero r.ttl) r.value gs k v,
          ))
    | inr e ↦ rw e (has_target-group_loop rs gs k v)
  ]

  key_count-group_loop :
      (rs : List Record) (gs : List Group) (k : Key)
      → key_count k (group_loop zones_by_id rs gs)
        ≡ (if (key_count k gs == 0) && any (is_under_key k) rs then 1 else key_count k gs)
  unfolding group_loop
  key_count-group_loop [] gs k = ground arith
  key_count-group_loop (r ∷ rs) gs k = elim (Bool-cases (is_listed r)) [
    | inl e ↦
        let gs' = group_at (listed_key zones_by_id r) (or_zero r.ttl) r.value gs in
        rw e (
          key_count-group_loop rs gs' k
          ∙ ground
              (arith, key_count-group_at (listed_key zones_by_id r) (or_zero r.ttl) r.value gs k))
    | inr e ↦ rw e (key_count-group_loop rs gs k)
  ]

-- A name and type is listed once if an owned record of a handled type has it, and else not at all;
-- its targets are the values of those records.
pub endpoints_lem :
    (records : List Record) (zones_by_id : Dict ℕ Zone) (k : Key) (v : Text)
    → (key_count k (endpoints records zones_by_id)
        ≡ (if any (is_under_key zones_by_id k) records then 1 else 0))
      × (has_target k v (endpoints records zones_by_id)
          ≡ any (λ r. is_under_key zones_by_id k r && v == r.value) records)
unfolding endpoints
endpoints_lem records zones_by_id k v =
    let gs = group_loop zones_by_id records [] in
    (
      count-sorted_by group_leb (λ g. g.key == k) (sort_targets gs)
          ∙ (key_count-sort_targets gs k
              ∙ (key_count-group_loop zones_by_id records [] k ∙ ground arith)),
      any-sorted_by group_leb (λ g. g.key == k && contains g.targets v) (sort_targets gs)
          ∙ (has_target-sort_targets gs k v ∙ has_target-group_loop zones_by_id records [] k v),
    )
