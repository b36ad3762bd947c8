-- ===== src/Webhook/Plan/Current.antt =====
-- The index of `plan`: the records of a key, in order.
use mathlib.Core.List.{append-nil, append_assoc}
use k8s_homelab.Prelude.{
  ℕ, ◌≡◌, ◌∙◌, List, [], ◌∷◌, ◌++◌, filter, ◌==◌, arith, list_eq, string_eq, nat_eq, pair_eq,
  if◌then◌else◌, Bool-cases, inl, inr,
}
use k8s_homelab.Prelude.Dict
use k8s_homelab.Prelude.Dict.{Dict}
use k8s_homelab.Webhook.Zones.{Zone, Record}
use k8s_homelab.Webhook.Plan.{Key, Current, append_at, key_of, current_loop, have_of}

have_of-append_at :
    (k j : Key) (r : Record) (d : Current)
    → have_of j (append_at k r d) ≡ (if k == j then have_of j d ++ r ∷ [] else have_of j d)
unfolding append_at Dict.lookup
have_of-append_at k j r [] = ground arith
have_of-append_at k j r ((i, rs) ∷ d) = ground (arith, have_of-append_at k j r d)

have_of-current_loop :
    (zones_by_id : Dict ℕ Zone) (rs : List Record) (d : Current) (k : Key)
    → have_of k (current_loop zones_by_id rs d)
      ≡ have_of k d ++ filter (λ r. key_of zones_by_id r == k) rs
unfolding current_loop
have_of-current_loop zones_by_id [] d k = rw append-nil
have_of-current_loop zones_by_id (r ∷ rs) d k =
    have_of-current_loop zones_by_id rs (append_at (key_of zones_by_id r) r d) k
    ∙ elim (Bool-cases (key_of zones_by_id r == k)) [
      | inl e ↦
          rw (have_of-append_at (key_of zones_by_id r) k r d, e)
            (append_assoc (have_of k d) (r ∷ []) (filter (λ x. key_of zones_by_id x == k) rs))
      | inr e ↦ rw (have_of-append_at (key_of zones_by_id r) k r d, e)
    ]

-- The records that the index holds under a key are those of the key, in their order.
pub have_of-current :
    (zones_by_id : Dict ℕ Zone) (rs : List Record) (k : Key)
    → have_of k (current_loop zones_by_id rs []) ≡ filter (λ r. key_of zones_by_id r == k) rs
unfolding Dict.lookup
have_of-current zones_by_id rs k = have_of-current_loop zones_by_id rs [] k
