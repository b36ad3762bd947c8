-- ===== src/Backup/Flux/Entry.antt =====
-- The entrypoint of an object, and the reasons that rest on it.
use k8s_homelab.Prelude.{
  suc, ◌≡◌, List, [], ◌∷◌, some, true, arith, length, list_eq, nat_eq, option_eq, pair_eq,
}
use k8s_homelab.Backup.Flux.{Object, Key, Parents, applied_by, is_seen, below_root, entrypoint}
use k8s_homelab.Backup.Flux.Chain.{Climb, here, IsTop, walk_ends, unmet_le}

-- An object that a Kustomization in sight applied has an entrypoint: the element below the top
-- of the chain that is climbed from that Kustomization, or the Kustomization, if it is the top.
pub entrypoint-Climb :
    (parents : Parents) (obj : Object) (k : Key)
    → applied_by obj ≡ some k
    → is_seen parents k ≡ true
    → (last : Key) × (below : List Key) × Climb parents k last below
      × IsTop parents last below
      × (entrypoint parents obj ≡ some (below_root last below))
unfolding entrypoint
entrypoint-Climb parents obj k a s =
    let le = unmet_le parents (k ∷ []) in
    let (chain, w, c, t) =
      walk_ends parents k (suc (suc (length parents))) k [] here (omega arith) in
    (chain.0, chain.1, c, t, ground arith)
