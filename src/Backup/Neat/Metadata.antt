-- ===== src/Backup/Neat/Metadata.antt =====
-- What the cleaning of the metadata leaves.
use mathlib.Core.Path.{subst}
use mathlib.Core.Option.{some-injective}
use native.Mathlib.Decide.{ℕ_discrete}
use k8s_homelab.Prelude.{
  ◌≡◌, refl, ap, sym, ◌∙◌, List, Option, none, some, Bool, true, false, arith, if◌then◌else◌, ◌==◌,
  ==_eq, contains, list_eq, nat_eq, Bool-cases, Option-cases,
}
use k8s_homelab.Prelude.{inl, inr}
use k8s_homelab.Prelude.Text.{Text, codes}
use k8s_homelab.Json.{
  Value, null, bool, number, text, list, dict, Fields, is_empty_dict, get, pop_all, as_dict,
  is_text, get-put, get-pop, put_same, get-pop_all, pop_all_absent,
}
use k8s_homelab.Json.{pop_all_idem}
use k8s_homelab.Backup.Neat.{
  metadata_key, labels_key, annotations_key, status_key, kind_key, spec_key,
  runtime_metadata_fields, runtime_annotations, dropped_labels, tidy,
}
use k8s_homelab.Backup.Neat.{clean_metadata, neat_metadata}

-- A value at which `tidy` has nothing to do.
abbrev IsTidy : List Text → Option Fields → Type 0
IsTidy ks none = Unit
IsTidy ks (some d) = (pop_all ks d ≡ d) × (is_empty_dict d ≡ false)

pub as_dict-eq-some : (v : Option Value) (d : Fields) → as_dict v ≡ some d → v ≡ some (dict d)
as_dict-eq-some none d h = absurd (cc)
as_dict-eq-some (some (dict e)) d h = ap (λ x. some (dict x)) (some-injective e d h)
as_dict-eq-some (some null) d h = absurd (cc)
as_dict-eq-some (some (bool b)) d h = absurd (cc)
as_dict-eq-some (some (number n)) d h = absurd (cc)
as_dict-eq-some (some (text t)) d h = absurd (cc)
as_dict-eq-some (some (list l)) d h = absurd (cc)

tidy_fixed :
    (ks : List Text) (k : Text) (m : Fields) → IsTidy ks (as_dict (get k m)) → tidy ks k m ≡ m
unfolding tidy
tidy_fixed ks k m h = elim (Option-cases (as_dict (get k m))) [
  | inl e ↦ ground arith
  | inr (d, e) ↦
      let (same, full) = subst (IsTidy ks) e h in
      ground (arith, put_same k (dict d) m (as_dict-eq-some (get k m) d e))
]

-- What `tidy` leaves at its key.
tidied : List Text → Option Fields → Option Fields
tidied ks none = none
tidied ks (some d) = let rest = pop_all ks d in if is_empty_dict rest then none else some rest

as_dict-tidy :
    (ks : List Text) (k : Text) (m : Fields)
    → as_dict (get k (tidy ks k m)) ≡ tidied ks (as_dict (get k m))
unfolding tidy tidied
as_dict-tidy ks k m = elim (Option-cases (as_dict (get k m))) [
  | inl e ↦ ground arith
  | inr (d, e) ↦ ground (arith, get-pop k k m, get-put k k (dict (pop_all ks d)) m)
]

tidied-IsTidy : (ks : List Text) (v : Option Fields) → IsTidy ks (tidied ks v)
unfolding tidied
tidied-IsTidy ks none = tt
tidied-IsTidy ks (some d) = elim (Bool-cases (is_empty_dict (pop_all ks d))) [
  | inl e ↦ rw e tt
  | inr e ↦ rw e (pop_all_idem ks d, e)
]

tidy-IsTidy : (ks : List Text) (k : Text) (m : Fields) → IsTidy ks (as_dict (get k (tidy ks k m)))
tidy-IsTidy ks k m =
    subst (IsTidy ks) (sym (as_dict-tidy ks k m)) (tidied-IsTidy ks (as_dict (get k m)))

pub get-tidy :
    (ks : List Text) (k j : Text) (m : Fields) → (k == j) ≡ false → get j (tidy ks k m) ≡ get j m
unfolding tidy
get-tidy ks k j m h = elim (Option-cases (as_dict (get k m))) [
  | inl e ↦ ground arith
  | inr (d, e) ↦ ground (arith, get-pop k j m, get-put k j (dict (pop_all ks d)) m)
]

-- A key outside a list differs from those in it.
pub outside :
    (ks : List Text) (k j : Text) → contains ks k ≡ false → contains ks j ≡ true → (k == j) ≡ false
outside ks k j out in_ks = elim (Bool-cases (k == j)) [
  | inl e ↦ absurd (cc (ap (contains ks) (==_eq k j e), out, in_ks))
  | inr e ↦ e
]

keys_differ :
    (contains runtime_metadata_fields labels_key ≡ false)
    × (contains runtime_metadata_fields annotations_key ≡ false)
    × ((labels_key == annotations_key) ≡ false)
unfolding runtime_metadata_fields list_eq nat_eq ℕ_discrete
keys_differ = (refl, refl, refl)

-- Cleaned metadata are clean.
pub clean_metadata_idem :
    (is_namespace : Bool) (m : Fields)
    → clean_metadata is_namespace (clean_metadata is_namespace m) ≡ clean_metadata is_namespace m
unfolding clean_metadata
clean_metadata_idem is_namespace m =
    let m1 = pop_all runtime_metadata_fields m in
    let m2 = tidy runtime_annotations annotations_key m1 in
    let ls = dropped_labels is_namespace in
    let m3 = tidy ls labels_key m2 in
    let popped = pop_all_absent runtime_metadata_fields m3 (λ j h.
      get-tidy ls labels_key j m2 (outside runtime_metadata_fields labels_key j keys_differ.0 h)
      ∙ get-tidy runtime_annotations annotations_key j m1
          (outside runtime_metadata_fields annotations_key j keys_differ.1 h)
      ∙ ground (arith, get-pop_all runtime_metadata_fields j m)) in
    let annotated = tidy_fixed runtime_annotations annotations_key m3 (
      subst (λ v. IsTidy runtime_annotations (as_dict v))
        (sym (get-tidy ls labels_key annotations_key m2 keys_differ.2))
        (tidy-IsTidy runtime_annotations annotations_key m1)) in
    ap (λ n. tidy ls labels_key (tidy runtime_annotations annotations_key n)) popped
    ∙ ap (tidy ls labels_key) annotated
    ∙ tidy_fixed ls labels_key m3 (tidy-IsTidy ls labels_key m2)

pub get-neat_metadata :
    (o : Fields) (j : Text) → (metadata_key == j) ≡ false → get j (neat_metadata o) ≡ get j o
unfolding neat_metadata
get-neat_metadata o j h = elim (Option-cases (as_dict (get metadata_key o))) [
  | inl e ↦ ground arith
  | inr (m, e) ↦
      let ns = is_text (codes "Namespace") (get kind_key o) in
      ground (arith, get-put metadata_key j (dict (clean_metadata ns m)) o)
]

pub kind_differs :
    ((metadata_key == kind_key) ≡ false)
    × ((metadata_key == status_key) ≡ false)
    × ((spec_key == kind_key) ≡ false)
    × ((spec_key == status_key) ≡ false)
    × ((spec_key == metadata_key) ≡ false)
unfolding list_eq nat_eq ℕ_discrete
kind_differs = (refl, refl, refl, refl, refl)

-- Metadata that are clean for the kind of their object.
abbrev pub IsClean : Option Value → Option Fields → Type 0
IsClean kind none = Unit
IsClean kind (some m) = clean_metadata (is_text (codes "Namespace") kind) m ≡ m

pub neat_metadata_fixed :
    (o : Fields) → IsClean (get kind_key o) (as_dict (get metadata_key o)) → neat_metadata o ≡ o
unfolding neat_metadata
neat_metadata_fixed o h = elim (Option-cases (as_dict (get metadata_key o))) [
  | inl e ↦ ground arith
  | inr (m, e) ↦
      let same = subst (IsClean (get kind_key o)) e h in
      ground (arith, put_same metadata_key (dict m) o (as_dict-eq-some (get metadata_key o) m e))
]

-- What `neat_metadata` leaves.
unfoldable pub cleaned : Option Value → Option Fields → Option Fields
cleaned kind none = none
cleaned kind (some m) = some (clean_metadata (is_text (codes "Namespace") kind) m)

pub cleaned-IsClean : (kind : Option Value) (v : Option Fields) → IsClean kind (cleaned kind v)
unfolding cleaned
cleaned-IsClean kind none = tt
cleaned-IsClean kind (some m) = clean_metadata_idem (is_text (codes "Namespace") kind) m

pub as_dict-neat_metadata :
    (o : Fields)
    → as_dict (get metadata_key (neat_metadata o))
      ≡ cleaned (get kind_key o) (as_dict (get metadata_key o))
unfolding neat_metadata cleaned
as_dict-neat_metadata o = elim (Option-cases (as_dict (get metadata_key o))) [
  | inl e ↦ ground arith
  | inr (m, e) ↦
      let ns = is_text (codes "Namespace") (get kind_key o) in
      ground (arith, get-put metadata_key metadata_key (dict (clean_metadata ns m)) o)
]
