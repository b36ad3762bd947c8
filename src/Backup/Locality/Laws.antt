-- ===== src/Backup/Locality/Laws.antt =====
-- What `neat` keeps of what `classify_cluster_locality` reads.
use mathlib.Core.Path.{ap₂}
use native.Mathlib.Decide.{ℕ_discrete}
use k8s_homelab.Prelude.{
  ◌≡◌, refl, ap, sym, ◌∙◌, Option, some, false, arith, ◌==◌, list_eq, nat_eq, Option-cases, inl,
  inr, ◌>>=◌,
}
use k8s_homelab.Prelude.Text.{Text, codes}
use k8s_homelab.Json.{
  Value, dict, Fields, get, pop, as_dict, is_text, get-put, get-pop, dict_or_empty, text_or_blank,
}
use k8s_homelab.Backup.Neat.{
  metadata_key, status_key, spec_key, kind_key, clean_metadata, neat_metadata, neat,
}
use k8s_homelab.Backup.Neat.Metadata.{as_dict-eq-some, get-neat_metadata}
use k8s_homelab.Backup.Neat.Idem.{neat_claim_ref_lem}
use k8s_homelab.Backup.Skip.Neat.{get_apart, names-is_apart, provisioner_apart}
use k8s_homelab.Backup.Locality.{locality_reason, classify_cluster_locality}

-- The name in the metadata, if these are a dict or missing.
abbrev name_in : Option Value → Option Text
name_in metadata = dict_or_empty metadata >>= λ m. some (text_or_blank (get (codes "name") m))

name_in-neat_metadata :
    (o : Fields) → name_in (get metadata_key (neat_metadata o)) ≡ name_in (get metadata_key o)
unfolding neat_metadata dict_or_empty
name_in-neat_metadata o = elim (Option-cases (as_dict (get metadata_key o))) [
  | inl e ↦ ground arith
  | inr (m, e) ↦
      let ns = is_text (codes "Namespace") (get kind_key o) in
      let (owned, named, spaced) = names-is_apart in
      ground (
        arith,
        get-put metadata_key metadata_key (dict (clean_metadata ns m)) o,
        as_dict-eq-some (get metadata_key o) m e,
        get_apart ns m (codes "name") named,
      )
]

reads_apart :
    ((spec_key == codes "roleRef") ≡ false)
    × ((metadata_key == codes "roleRef") ≡ false)
    × ((status_key == codes "roleRef") ≡ false)
    × ((spec_key == codes "subjects") ≡ false)
    × ((metadata_key == codes "subjects") ≡ false)
    × ((status_key == codes "subjects") ≡ false)
unfolding list_eq nat_eq ℕ_discrete
reads_apart = (refl, refl, refl, refl, refl, refl)

-- A field of the object that `neat` leaves alone.
get-neat :
    (obj clean : Fields) (j : Text)
    → neat obj ≡ some clean
    → (spec_key == j) ≡ false
    → (metadata_key == j) ≡ false
    → (status_key == j) ≡ false
    → get j clean ≡ get j obj
unfolding neat
get-neat obj clean j h s m t =
    let o1 = pop status_key obj in
    let (kept, again) = neat_claim_ref_lem (neat_metadata o1) clean h in
    kept j s ∙ get-neat_metadata o1 j m ∙ ground (arith, get-pop status_key j obj)

name_in-neat :
    (obj clean : Fields)
    → neat obj ≡ some clean
    → name_in (get metadata_key clean) ≡ name_in (get metadata_key obj)
unfolding neat
name_in-neat obj clean h =
    let o1 = pop status_key obj in
    let (kept, again) = neat_claim_ref_lem (neat_metadata o1) clean h in
    let (sp, mp, tp, tm, sm) = provisioner_apart in
    ap name_in (kept metadata_key sm)
    ∙ name_in-neat_metadata o1
    ∙ ground (arith, get-pop status_key metadata_key obj)

abbrev read : Text → Option Text → Option Value → Option Value → Option (Option Text)
read kind name role_ref subjects = name >>= λ n. locality_reason kind n role_ref subjects

-- By the name, the role and the subjects.
by_name :
    (kind : Text) (obj : Fields)
    → classify_cluster_locality kind obj
      ≡ read kind
          (name_in (get metadata_key obj))
          (get (codes "roleRef") obj)
          (get (codes "subjects") obj)
unfolding classify_cluster_locality
by_name kind obj = elim (Option-cases (dict_or_empty (get metadata_key obj))) [
  | inl e ↦ ground arith
  | inr (m, e) ↦ ground arith
]

-- The tree that an object belongs to, and why, is the same before `neat` and after.
classify_cluster_locality-neat :
    (kind : Text) (obj clean : Fields)
    → neat obj ≡ some clean
    → classify_cluster_locality kind clean ≡ classify_cluster_locality kind obj
classify_cluster_locality-neat kind obj clean h =
    let (rs, rm, rt, ss, sm, st) = reads_apart in
    let role = get-neat obj clean (codes "roleRef") h rs rm rt in
    let subjects = get-neat obj clean (codes "subjects") h ss sm st in
    by_name kind clean
    ∙ ap (λ n. read kind n (get (codes "roleRef") clean) (get (codes "subjects") clean))
        (name_in-neat obj clean h)
    ∙ ap₂ (read kind (name_in (get metadata_key obj))) role subjects
    ∙ sym (by_name kind obj)
