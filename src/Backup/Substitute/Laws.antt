-- ===== src/Backup/Substitute/Laws.antt =====
-- What the substitutions do to texts and to manifests.
use k8s_homelab.Prelude.{
  zero, ◌≡◌, refl, ap, ◌↔◌, List, [], ◌∷◌, false, arith, list_eq, nat_eq, Bool-cases, inl, inr,
}
use k8s_homelab.Prelude.Text.{Text, starts_with}
use k8s_homelab.Json.{
  Value, null, bool, number, text, list, dict, Values, no_values, value, Fields, no_fields, field,
}
use k8s_homelab.Backup.Substitute.{
  Substitution, occurs, replace_from, replaced, replaceable, ordered, new_text, replace_each,
  apply_substitutions_text, walk_value, walk_member,
}
use k8s_homelab.Backup.Substitute.{walk_values, walk_fields, apply_substitutions}

replace_from_absent : (s p t : Text) → occurs s t ≡ false → replace_from zero s p t ≡ t
unfolding occurs replace_from
replace_from_absent s p [] h = refl
replace_from_absent s p (c ∷ t) h = ground (arith, replace_from_absent s p t)

replaced_absent : (s p t : Text) → occurs s t ≡ false → replaced s p t ≡ t
unfolding replaced occurs starts_with
replaced_absent [] p [] h = absurd (cc)
replaced_absent [] p (c ∷ t) h = absurd (ground arith)
replaced_absent (c ∷ s) p t h = replace_from_absent (c ∷ s) p t h

-- The test for an occurrence changes nothing.
new_text-replace_each :
    (subs : List Substitution) (t : Text) → new_text subs t ≡ replace_each subs t
unfolding new_text replace_each
new_text-replace_each [] t = refl
new_text-replace_each (s ∷ subs) t = elim (Bool-cases (occurs s.literal t)) [
  | inl e ↦ ground (arith, new_text-replace_each subs (replaced s.literal s.placeholder t))
  | inr e ↦ ground (arith, new_text-replace_each subs t, replaced_absent s.literal s.placeholder t)
]

mutual
  unfolding walk_value walk_member walk_values walk_fields

  member_same :
      (subs : List Substitution) (v : Value)
      → ((walk_member subs v).0 ≡ 0) ↔ ((walk_member subs v).1 ≡ v)
  member_same subs (text t) = ground arith
  member_same subs (dict d) = ground (arith, fields_same subs d)
  member_same subs (list l) = ground (arith, values_same subs l)
  member_same subs null = (λ h. refl, λ h. refl)
  member_same subs (bool b) = (λ h. refl, λ h. refl)
  member_same subs (number n) = (λ h. refl, λ h. refl)

  values_same :
      (subs : List Substitution) (v : Values)
      → ((walk_values subs v).0 ≡ 0) ↔ ((walk_values subs v).1 ≡ v)
  values_same subs no_values = (λ h. refl, λ h. refl)
  values_same subs (value v vs) = ground (arith, member_same subs v, values_same subs vs)

  fields_same :
      (subs : List Substitution) (d : Fields)
      → ((walk_fields subs d).0 ≡ 0) ↔ ((walk_fields subs d).1 ≡ d)
  fields_same subs no_fields = (λ h. refl, λ h. refl)
  fields_same subs (field k v d) = ground (arith, member_same subs v, fields_same subs d)

value_same :
    (subs : List Substitution) (v : Value)
    → ((walk_value subs v).0 ≡ 0) ↔ ((walk_value subs v).1 ≡ v)
unfolding walk_value
value_same subs (text t) = (λ h. refl, λ h. refl)
value_same subs (dict d) = ground (arith, fields_same subs d)
value_same subs (list l) = ground (arith, values_same subs l)
value_same subs null = (λ h. refl, λ h. refl)
value_same subs (bool b) = (λ h. refl, λ h. refl)
value_same subs (number n) = (λ h. refl, λ h. refl)

-- The count of the texts touched is zero just when the manifest is left as it was.
apply_substitutions_count :
    (obj : Value) (subs : List Substitution)
    → ((apply_substitutions obj subs).0 ≡ 0) ↔ ((apply_substitutions obj subs).1 ≡ obj)
unfolding apply_substitutions
apply_substitutions_count obj subs = value_same (ordered (replaceable subs)) obj

-- A text in a dict becomes what `apply_substitutions_text` makes of it.
apply_substitutions-apply_substitutions_text :
    (k t : Text) (d : Fields) (subs : List Substitution)
    → (e : Fields) × ((apply_substitutions (dict (field k (text t) d)) subs).1
        ≡ dict (field k (text (apply_substitutions_text t subs)) e))
      × ((apply_substitutions (dict d) subs).1 ≡ dict e)
unfolding apply_substitutions apply_substitutions_text walk_value walk_fields walk_member
apply_substitutions-apply_substitutions_text k t d subs =
    let os = ordered (replaceable subs) in
    (
      (walk_fields os d).1,
      ap (λ s. dict (field k (text s) (walk_fields os d).1)) (new_text-replace_each os t),
      refl,
    )
