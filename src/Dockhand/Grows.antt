-- ===== src/Dockhand/Grows.antt =====
-- How a step of `plan` adds to what is planned.
-- A target holds a value, which a variable gives.
use mathlib.Core.Path.{subst}
use k8s_homelab.Prelude.{
  refl, ==_eq, sym, inr, nat_eq, contains-append, list_eq, inl, if_keeps, ◌++◌, none, arith, is_nil,
  ==_refl, Bool-cases, map, ◌||◌, [], ◌&&◌, ◌∷◌, true, ◌==◌,
}
use k8s_homelab.Prelude.{◌≡◌, contains, false, Bool, some, Option}
use k8s_homelab.Prelude.Dict.{lookup-insert, insert, Dict, lookup}
use k8s_homelab.Prelude.Text.{lower, Text}
use k8s_homelab.Keyvault.{one_name, stopped, keyvault_name}
use k8s_homelab.Dockhand.Plan.{rule_for, Plan, add_target, Rules, add_named, Target}
use k8s_homelab.Dockhand.{is_reference, name, built, selectors, unread, reader_of, Rule, Variable}
use k8s_homelab.Keyvault.Differ.{Done}

abbrev pub is_read_by : Option Target → Text → Text → Bool
is_read_by none v reader = false
is_read_by (some t) v reader = t.value == v && contains t.readers reader

-- A variable that is no reference and no selector is planned by its rule: skipped where the map says so,
-- kept with the built forms, or a reader of its name's target, which holds its value.
abbrev pub is_planned : Plan → Variable → Option Rule → Bool
is_planned p e none = false
is_planned p e (some (unread why)) = true
is_planned p e (some (built template names)) = contains (map (λ b. b.reader) p.builts) (reader_of e)
is_planned p e (some (name n)) = is_read_by (lookup n p.targets) e.value (reader_of e)

abbrev pub is_placed : Rules → Plan → Variable → Bool
is_placed rules p e =
    contains selectors e.key || (is_reference e.value || is_planned p e (rule_for rules e))

-- What is planned stays planned.
abbrev pub Grows : Plan → Plan → Type 0
Grows p q =
    ((n v r : Text)
      → is_read_by (lookup n p.targets) v r ≡ true
      → is_read_by (lookup n q.targets) v r ≡ true)
    × ((r : Text)
        → contains (map (λ b. b.reader) p.builts) r ≡ true
        → contains (map (λ b. b.reader) q.builts) r ≡ true)
    × (is_nil q.unmapped ≡ true → is_nil p.unmapped ≡ true)

pub Grows-refl : (p : Plan) → Grows p p
Grows-refl p = (λ n v r h. h, λ r h. h, λ h. h)

pub Grows-trans : (p q r : Plan) → Grows p q → Grows q r → Grows p r
Grows-trans p q r (a, b, c) (d, e, f) =
    (λ n v s h. d n v s (a n v s h), λ s h. e s (b s h), λ h. c (f h))

read_by-insert :
    (n m v r : Text) (t : Target) (targets : Dict Text Target)
    → (is_read_by (lookup n targets) v r ≡ true → is_read_by (some t) v r ≡ true)
    → is_read_by (lookup m targets) v r ≡ true
    → is_read_by (lookup m (insert n t targets)) v r ≡ true
read_by-insert n m v r t targets k h = elim (Bool-cases (n == m)) [
  | inl e ↦
      rw (lookup-insert n m t targets, e)
        (k (subst (λ i. is_read_by (lookup i targets) v r ≡ true) (sym (==_eq n m e)) h))
  | inr e ↦ rw (lookup-insert n m t targets, e) h
]

read_by_put :
    (n v r : Text) (t : Target) (targets : Dict Text Target)
    → is_read_by (some t) v r ≡ true
    → is_read_by (lookup n (insert n t targets)) v r ≡ true
read_by_put n v r t targets h = rw (lookup-insert n n t targets, ==_refl n) h

read_by_more :
    (t : Target) (v r s : Text)
    → is_read_by (some t) v r ≡ true
    → (t.value == v && contains (t.readers ++ s ∷ []) r) ≡ true
read_by_more t v r s h = ground (arith, h, contains-append t.readers (s ∷ []) r)

-- A step keeps what is planned, and a name's target has the variable as its reader.
abbrev pub Adds : Variable → Text → Plan → Plan → Type 0
Adds e n p q = Grows p q × (is_read_by (lookup n q.targets) e.value (reader_of e) ≡ true)

add_target-Adds :
    (e : Variable) (n : Text) (o : Option Target) (p : Plan)
    → lookup n p.targets ≡ o
    → Done (Adds e n p) (add_target e n o p)
unfolding add_target
add_target-Adds e n none p h =
    let t : Target = record { value = e.value; readers = reader_of e ∷ [] } in
    (
      (
        λ m v r. read_by-insert n m v r t p.targets (λ k. absurd (ground (arith, k, h))),
        λ r k. k,
        λ k. k,
      ),
      read_by_put n e.value (reader_of e) t p.targets
          (ground (arith, ==_refl e.value, ==_refl (reader_of e))),
    )
add_target-Adds e n (some t) p h = elim (Bool-cases (t.value == e.value)) [
  | inr d ↦ rw d tt
  | inl s ↦ rw s (
    (
      λ m v r.
          read_by-insert n m v r
            (record { value = t.value; readers = t.readers ++ reader_of e ∷ [] }) p.targets
            (λ k. read_by_more t v r (reader_of e) (subst (λ x. is_read_by x v r ≡ true) h k)),
      λ r k. k,
      λ k. k,
    ),
    read_by_put n e.value (reader_of e)
        (record { value = t.value; readers = t.readers ++ reader_of e ∷ [] }) p.targets
        (ground (
          arith,
          s,
          contains-append t.readers (reader_of e ∷ []) (reader_of e),
          ==_refl (reader_of e),
        )),
  )
]

pub add_named-Adds :
    (e : Variable) (n : Text) (o : Option Text) (p : Plan) → Done (Adds e n p) (add_named e n o p)
unfolding add_named
add_named-Adds e n none p =
    add_target-Adds e n (lookup n p.targets)
      (record p { by_lower = insert (lower (keyvault_name n)) n p.by_lower }) refl
add_named-Adds e n (some first) p =
    if_keeps (λ r. Done (Adds e n p) r) (first == n) (add_target e n (lookup n p.targets) p)
      (stopped (one_name n first)) (add_target-Adds e n (lookup n p.targets) p refl) tt
