-- ===== src/Backup/Neat/Idem.antt =====
-- `neat` of a neat manifest.
use mathlib.Core.Path.{subst, subst₂}
use mathlib.Core.Option.{some-injective}
use native.Mathlib.Decide.{ℕ_discrete}
use k8s_homelab.Prelude.{
  ◌≡◌, refl, ap, sym, ◌∙◌, Option, none, some, true, false, arith, ◌==◌, list_eq, nat_eq,
  Bool-cases, Option-cases, inl, inr,
}
use k8s_homelab.Prelude.Text.{Text, codes}
use k8s_homelab.Json.{
  dict, Fields, get, put, pop, pop_all, as_dict, is_text, get-put, get-pop, pop_absent, put-put,
  pop_all_idem,
}
use k8s_homelab.Backup.Neat.{
  metadata_key, status_key, kind_key, spec_key, neat_metadata, binding_fields, claim_ref, spec_of,
  neat_claim_ref, neat,
}
use k8s_homelab.Backup.Neat.Metadata.{
  IsClean, cleaned-IsClean, neat_metadata_fixed, as_dict-neat_metadata, get-neat_metadata,
  kind_differs,
}

claim_ref_idem : (spec : Fields) → claim_ref (claim_ref spec) ≡ claim_ref spec
unfolding claim_ref
claim_ref_idem spec = elim (Option-cases (as_dict (get (codes "claimRef") spec))) [
  | inl e ↦ ground arith
  | inr (ref, e) ↦
      let rest = pop_all binding_fields ref in
      ground (
        arith,
        get-put (codes "claimRef") (codes "claimRef") (dict rest) spec,
        pop_all_idem binding_fields ref,
        put-put (codes "claimRef") (dict rest) (dict rest) spec,
      )
]

the_spec :
    (o spec : Fields)
    → is_text (codes "PersistentVolume") (get kind_key o) ≡ true
    → spec_of (get spec_key o) ≡ some (some spec)
    → neat_claim_ref o ≡ some (put spec_key (dict (claim_ref spec)) o)
unfolding neat_claim_ref
the_spec o spec k e = ground arith

spec_again :
    (o spec : Fields)
    → is_text (codes "PersistentVolume") (get kind_key o) ≡ true
    → neat_claim_ref (put spec_key (dict (claim_ref spec)) o)
      ≡ some (put spec_key (dict (claim_ref spec)) o)
spec_again o spec k =
    let left = put spec_key (dict (claim_ref spec)) o in
    the_spec left (claim_ref spec)
      (ground (arith, get-put spec_key kind_key (dict (claim_ref spec)) o, kind_differs))
      (ground (arith, get-put spec_key spec_key (dict (claim_ref spec)) o))
    ∙ ap some (
        ap (λ s. put spec_key (dict s) left) (claim_ref_idem spec)
        ∙ put-put spec_key (dict (claim_ref spec)) (dict (claim_ref spec)) o)

-- What `neat_claim_ref` leaves: the same but for the spec, and neat.
pub neat_claim_ref_lem :
    (o r : Fields)
    → neat_claim_ref o ≡ some r
    → ((j : Text) → (spec_key == j) ≡ false → get j r ≡ get j o) × (neat_claim_ref r ≡ some r)
unfolding neat_claim_ref
neat_claim_ref_lem o r h = elim (Bool-cases (is_text (codes "PersistentVolume") (get kind_key o))) [
  | inl k ↦ elim (Option-cases (spec_of (get spec_key o))) [
    | inl e ↦ absurd (ground arith)
    | inr (none, e) ↦ (λ j n. ground arith, ground arith)
    | inr (some spec, e) ↦
        let left = put spec_key (dict (claim_ref spec)) o in
        let q = the_spec o spec k e in
        let same = some-injective left r (sym q ∙ h) in
        (
          λ j n.
              ap (get j) (sym same) ∙ ground (arith, get-put spec_key j (dict (claim_ref spec)) o),
          subst (λ x. neat_claim_ref x ≡ some x) same (spec_again o spec k),
        )
  ]
  | inr k ↦ (λ j n. ground arith, ground arith)
]

-- A manifest that `neat` has cleaned is left as it is.
pub neat_idem : (obj clean : Fields) → neat obj ≡ some clean → neat clean ≡ some clean
unfolding neat
neat_idem obj clean h =
    let o1 = pop status_key obj in
    let o2 = neat_metadata o1 in
    let (kept, again) = neat_claim_ref_lem o2 clean h in
    let (mk, ms, sk, ss, sm) = kind_differs in
    let kind = kept kind_key sk ∙ get-neat_metadata o1 kind_key mk in
    let popped = pop_absent status_key clean (
      kept status_key ss
      ∙ get-neat_metadata o1 status_key ms
      ∙ ground (arith, get-pop status_key status_key obj)) in
    let metadata = ap as_dict (kept metadata_key sm) ∙ as_dict-neat_metadata o1 in
    let fixed = neat_metadata_fixed clean (
      subst₂ IsClean (sym kind) (sym metadata)
        (cleaned-IsClean (get kind_key o1) (as_dict (get metadata_key o1)))) in
    ap (λ o. neat_claim_ref (neat_metadata o)) popped ∙ ap neat_claim_ref fixed ∙ again

neat_claim_ref_total :
    (o : Fields) (found : Option Fields)
    → spec_of (get spec_key o) ≡ some found
    → (r : Fields) × (neat_claim_ref o ≡ some r)
neat_claim_ref_total o found h =
    elim (Bool-cases (is_text (codes "PersistentVolume") (get kind_key o))) [
      | inl k ↦ elim (Option-cases found) [
        | inl e ↦ (o, unfold neat_claim_ref in ground arith)
        | inr (spec, e) ↦
            (put spec_key (dict (claim_ref spec)) o, the_spec o spec k (h ∙ ap some e))
      ]
      | inr k ↦ (o, unfold neat_claim_ref in ground arith)
    ]

spec_differs : ((metadata_key == spec_key) ≡ false) × ((status_key == spec_key) ≡ false)
unfolding list_eq nat_eq ℕ_discrete
spec_differs = (refl, refl)

-- `neat` cleans every manifest whose spec is a dict or missing, and leaves what it cleaned as it
-- is.
pub neat_twice :
    (obj : Fields) (found : Option Fields)
    → spec_of (get spec_key obj) ≡ some found
    → (clean : Fields) × (neat obj ≡ some clean) × (neat clean ≡ some clean)
unfolding neat
neat_twice obj found h =
    let o1 = pop status_key obj in
    let spec : get spec_key (neat_metadata o1) ≡ get spec_key obj =
      get-neat_metadata o1 spec_key spec_differs.0
      ∙ ground (arith, get-pop status_key spec_key obj, spec_differs) in
    let (clean, done) = neat_claim_ref_total (neat_metadata o1) found (ap spec_of spec ∙ h) in
    (clean, done, neat_idem obj clean done)
