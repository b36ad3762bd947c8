-- ===== src/Backup/Tracker/Scan.antt =====
-- What the scan of FileTracker holds.
use k8s_homelab.Prelude.{
  ◌≡◌, refl, List, [], ◌∷◌, ◌++◌, Option, none, some, Bool, ◌&&◌, ◌||◌, arith, if◌then◌else◌, Eq,
  ◌==◌, contains, any, contains-filter, list_eq, nat_eq,
}
use k8s_homelab.Prelude.{Option-cases, inl, inr}
use k8s_homelab.Prelude.Text.{Text, codes, starts_with}
use k8s_homelab.Prelude.Dict.{Dict, keys, lookup, lookup-insert}
use k8s_homelab.Backup.Tracker.{
  scan_roots, scan_top_files, Disk, files_under, scan_file, scan_files, scan_dirs, scan_existing,
  is_held,
}

-- A path that the scan looks at.
unfoldable pub in_scope : Text → Bool
in_scope rel =
    contains scan_top_files rel || any (λ base. starts_with rel (base ++ codes "/")) scan_roots

pub contains-keys :
    {V : Type 0} (rel : Text) (d : Dict Text V) → contains (keys d) rel ≡ is_held rel d
unfolding keys lookup
contains-keys rel [] = refl
contains-keys rel ((q, v) ∷ d) = ground (arith, contains-keys rel d)

lookup_empty : {V : Type 0} (p : Text) → lookup {V = V} p [] ≡ none
unfolding lookup
lookup_empty p = refl

module _ {H : Type 0} ⦃e : Eq H⦄ (hash : Text → H) (owns : Text → Bool) where
  -- The hash of a file, if there is one.
  abbrev pub hash_at : Text → Disk → Option H
  hash_at rel disk = elim (lookup rel disk) [ none ↦ none | some c ↦ some (hash c) ]

  lookup-scan_file :
      (disk : Disk) (rel : Text) (before : Dict Text H) (p : Text)
      → lookup p (scan_file hash owns disk rel before)
        ≡ (if (rel == p && owns p) && is_held p disk then hash_at p disk else lookup p before)
  unfolding scan_file
  lookup-scan_file disk rel before p = elim (Option-cases (lookup rel disk)) [
    | inl e ↦ ground arith
    | inr (c, e) ↦ ground (arith, lookup-insert rel p (hash c) before)
  ]

  lookup-scan_files :
      (disk : Disk) (rels : List Text) (before : Dict Text H) (p : Text)
      → lookup p (scan_files hash owns disk rels before) ≡ (
          if (contains rels p && owns p) && is_held p disk then hash_at p disk else lookup p before)
  unfolding scan_files
  lookup-scan_files disk [] before p = ground arith
  lookup-scan_files disk (rel ∷ rels) before p = ground (
    arith,
    lookup-scan_files disk rels (scan_file hash owns disk rel before) p,
    lookup-scan_file disk rel before p,
  )

  contains-files_under :
      (base : Text) (disk : Disk) (p : Text)
      → contains (files_under base disk) p ≡ (is_held p disk && starts_with p (base ++ codes "/"))
  unfolding files_under
  contains-files_under base disk p = ground (
    arith,
    contains-filter (λ rel. starts_with rel (base ++ codes "/")) (keys disk) p,
    contains-keys p disk,
  )

  lookup-scan_dirs :
      (disk : Disk) (bases : List Text) (before : Dict Text H) (p : Text)
      → lookup p (scan_dirs hash owns disk bases before) ≡ (
          if (any (λ base. starts_with p (base ++ codes "/")) bases && owns p) && is_held p disk
          then hash_at p disk
          else lookup p before)
  unfolding scan_dirs
  lookup-scan_dirs disk [] before p = ground arith
  lookup-scan_dirs disk (base ∷ bases) before p =
      let found = scan_files hash owns disk (files_under base disk) before in
      ground (
        arith,
        lookup-scan_dirs disk bases found p,
        lookup-scan_files disk (files_under base disk) before p,
        contains-files_under base disk p,
      )

  -- The scan holds the hash of each owned file in its scope, and nothing else.
  pub lookup-scan_existing :
      (disk : Disk) (p : Text)
      → lookup p (scan_existing hash owns disk)
        ≡ (if (in_scope p && owns p) && is_held p disk then hash_at p disk else none)
  unfolding scan_existing in_scope
  lookup-scan_existing disk p =
      let found = scan_dirs hash owns disk scan_roots [] in
      ground (
        arith,
        lookup-scan_files disk scan_top_files found p,
        lookup-scan_dirs disk scan_roots [] p,
        lookup_empty {V = H} p,
      )
