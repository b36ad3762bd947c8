-- ===== src/Dockhand/Placed.antt =====
-- What `plan` makes of each variable of the export.
use mathlib.Core.Path.{ap₂, subst}
use k8s_homelab.Prelude.{
  ap, all, ◌⊎◌, refl, List, sym, inr, nat_eq, list_eq, inl, ◌++◌, none, arith, is_nil, ==_refl,
  Bool-cases, map, ◌||◌, [], ◌&&◌, ◌∷◌, true, ◌≡◌, contains, false,
}
use k8s_homelab.Prelude.{Bool, some, Option}
use k8s_homelab.Prelude.Text.{lower, Text}
use k8s_homelab.Prelude.Dict.{lookup}
use k8s_homelab.Dockhand.Grows.{
  Grows-trans, is_planned, Grows-refl, add_named-Adds, is_placed, Grows, Adds,
}
use k8s_homelab.Keyvault.{Stop, Result-cases, done, Result, stopped, keyvault_name}
use k8s_homelab.Keyvault.Differ.{Done-eq-done, Done}
use k8s_homelab.Dockhand.Plan.{
  nothing_planned, refer, Built, add_mapped, plan_from, all_mapped, add_variable, plan, rule_for,
  Plan, Rules, add_named,
}
use k8s_homelab.Dockhand.{is_reference, name, built, selectors, unread, reader_of, Rule, Variable}

-- A step keeps what is planned, and plans the variable, unless the map lacks it.
abbrev Plans : Rules → Variable → Plan → Plan → Type 0
Plans rules e p q = Grows p q × (is_nil q.unmapped ≡ true → is_placed rules q e ≡ true)

abbrev PlansBy : Variable → Option Rule → Plan → Plan → Type 0
PlansBy e rule p q = Grows p q × (is_nil q.unmapped ≡ true → is_planned q e rule ≡ true)

not_nil-append : (l : List Text) (r : Text) → is_nil (l ++ r ∷ []) ≡ false
not_nil-append [] r = refl
not_nil-append (s ∷ l) r = refl

Done-imp :
    {A : Type 0} (P Q : A → Type 0) (r : Result A) → ((a : A) → P a → Q a) → Done P r → Done Q r
Done-imp P Q (stopped s) k h = tt
Done-imp P Q (done a) k h = k a h

built_more :
    (bs : List Built) (b : Built) (r : Text)
    → contains (map (λ c. c.reader) bs) r ≡ true
    → contains (map (λ c. c.reader) (bs ++ b ∷ [])) r ≡ true
built_more [] b r h = absurd (cc)
built_more (c ∷ bs) b r h = ground (arith, built_more bs b r)

built_last :
    (bs : List Built) (b : Built) → contains (map (λ c. c.reader) (bs ++ b ∷ [])) b.reader ≡ true
built_last [] b = ground (arith, ==_refl b.reader)
built_last (c ∷ bs) b = ground (arith, built_last bs b)

add_mapped-PlansBy :
    (e : Variable) (rule : Option Rule) (p : Plan) → Done (PlansBy e rule p) (add_mapped e rule p)
unfolding add_mapped
add_mapped-PlansBy e none p = (
  (
    λ n v r h. h,
    λ r h. h,
    λ h. absurd (ground (arith, h, not_nil-append p.unmapped (reader_of e))),
  ),
  λ h. absurd (ground (arith, h, not_nil-append p.unmapped (reader_of e))),
)
add_mapped-PlansBy e (some (unread why)) p = ((λ n v r h. h, λ r h. h, λ h. h), λ h. refl)
add_mapped-PlansBy e (some (built template names)) p =
    let b : Built = record {
      reader = reader_of e;
      template = template;
      names = names;
      value = e.value;
    } in
    ((λ n v r h. h, λ r h. built_more p.builts b r h, λ h. h), λ h. built_last p.builts b)
add_mapped-PlansBy e (some (name n)) p =
    Done-imp (Adds e n p) (PlansBy e (some (name n)) p)
      (add_named e n (lookup (lower (keyvault_name n)) p.by_lower) (refer e.stack (n ∷ []) p))
      (λ q a. (a.0, λ h. a.1))
      (add_named-Adds e n (lookup (lower (keyvault_name n)) p.by_lower) (refer e.stack (n ∷ []) p))

add_variable-Plans :
    (rules : Rules) (e : Variable) (p : Plan) → Done (Plans rules e p) (add_variable rules e p)
unfolding add_variable
add_variable-Plans rules e p = elim (Bool-cases (contains selectors e.key)) [
  | inl s ↦ rw s ((λ n v r h. h, λ r h. h, λ h. h), λ h. ground (arith, s))
  | inr s ↦ elim (Bool-cases (is_reference e.value)) [
    | inl t ↦ rw (s, t) ((λ n v r h. h, λ r h. h, λ h. h), λ h. ground (arith, s, t))
    | inr t ↦
        rw (s, t)
          (Done-imp (PlansBy e (rule_for rules e) p) (Plans rules e p)
            (add_mapped e (rule_for rules e) p) (λ q a. (a.0, λ h. ground (arith, s, t, a.1 h)))
            (add_mapped-PlansBy e (rule_for rules e) p))
  ]
]

is_planned-Grows :
    (e : Variable) (rule : Option Rule) (p q : Plan)
    → Grows p q
    → is_planned p e rule ≡ true
    → is_planned q e rule ≡ true
is_planned-Grows e none p q g h = absurd (cc)
is_planned-Grows e (some (unread why)) p q g h = refl
is_planned-Grows e (some (built template names)) p q g h = g.1 (reader_of e) h
is_planned-Grows e (some (name n)) p q g h = g.0 n e.value (reader_of e) h

or_keeps :
    (a b c d : Bool) → (c ≡ true → d ≡ true) → (a || (b || c)) ≡ true → (a || (b || d)) ≡ true
or_keeps true b c d k h = refl
or_keeps false true c d k h = refl
or_keeps false false c d k h = k h

is_placed-Grows :
    (rules : Rules) (e : Variable) (p q : Plan)
    → Grows p q
    → is_placed rules p e ≡ true
    → is_placed rules q e ≡ true
is_placed-Grows rules e p q g h =
    or_keeps (contains selectors e.key) (is_reference e.value) (is_planned p e (rule_for rules e))
      (is_planned q e (rule_for rules e)) (is_planned-Grows e (rule_for rules e) p q g) h

plan_from_stopped :
    (rules : Rules) (e : Variable) (es : List Variable) (p : Plan) (s : Stop)
    → add_variable rules e p ≡ stopped s
    → plan_from rules (e ∷ es) p ≡ stopped s
unfolding plan_from
plan_from_stopped rules e es p s f = ground (arith, f)

plan_from_done :
    (rules : Rules) (e : Variable) (es : List Variable) (p q : Plan)
    → add_variable rules e p ≡ done q
    → plan_from rules (e ∷ es) p ≡ plan_from rules es q
unfolding plan_from
plan_from_done rules e es p q f = rw (f, plan_from) refl

plan_from-Plans :
    (rules : Rules) (es : List Variable) (p : Plan)
    → Done
        (λ q. Grows p q × (is_nil q.unmapped ≡ true → all (is_placed rules q) es ≡ true))
        (plan_from rules es p)
unfolding plan_from
plan_from-Plans rules [] p = (Grows-refl p, λ h. refl)
plan_from-Plans rules (e ∷ es) p = elim (Result-cases (add_variable rules e p)) [
  | inl (s, f) ↦
      subst
        (λ x.
          Done
            (λ r. Grows p r × (is_nil r.unmapped ≡ true → all (is_placed rules r) (e ∷ es) ≡ true))
            x)
        (sym (plan_from_stopped rules e es p s f)) tt
  | inr (q, f) ↦
      let (g, k) =
        Done-eq-done (Plans rules e p) (add_variable rules e p) q (add_variable-Plans rules e p)
          f in
      subst
        (λ x.
          Done
            (λ r. Grows p r × (is_nil r.unmapped ≡ true → all (is_placed rules r) (e ∷ es) ≡ true))
            x)
        (sym (plan_from_done rules e es p q f))
        (Done-imp (λ r. Grows q r × (is_nil r.unmapped ≡ true → all (is_placed rules r) es ≡ true))
          (λ r. Grows p r × (is_nil r.unmapped ≡ true → all (is_placed rules r) (e ∷ es) ≡ true))
          (plan_from rules es q)
          (λ r a. (
            Grows-trans p q r g a.0,
            λ h. ap₂ (λ b c. b && c) (is_placed-Grows rules e q r a.0 (k (a.0.2 h))) (a.1 h),
          ))
          (plan_from-Plans rules es q))
]

List-cases : (l : List Text) → (l ≡ []) ⊎ ((r : Text) × (rs : List Text) × (l ≡ r ∷ rs))
List-cases [] = inl refl
List-cases (r ∷ rs) = inr (r, rs, refl)

all_mapped_inv : (p q : Plan) → all_mapped q ≡ done p → (is_nil q.unmapped ≡ true) × (q ≡ p)
all_mapped_inv p q h = elim (List-cases q.unmapped) [
  | inl e ↦ (ap is_nil e, ground (arith, h, e))
  | inr (r, rs, e) ↦ absurd (ground (arith, h, e))
]

-- Where `plan` gives a plan, each variable of the export has its place in it: it is one of Dockhand's
-- selectors, a reference, skipped by the map, kept with the built forms, or a reader of the target of
-- its name, and then the target's value is its own.
pub plan-is_placed :
    (entries : List Variable) (rules : Rules) (p : Plan)
    → plan entries rules ≡ done p
    → all (is_placed rules p) entries ≡ true
unfolding plan
plan-is_placed entries rules p h = elim (Result-cases (plan_from rules entries nothing_planned)) [
  | inl (s, e) ↦ absurd (ground (arith, h, e))
  | inr (q, e) ↦
      let (u, same) = all_mapped_inv p q (ground (arith, h, e)) in
      subst (λ r. all (is_placed rules r) entries ≡ true) same
        ((Done-eq-done
            (λ r.
              Grows nothing_planned r
              × (is_nil r.unmapped ≡ true → all (is_placed rules r) entries ≡ true))
            (plan_from rules entries nothing_planned) q
            (plan_from-Plans rules entries nothing_planned) e).1
          u)
]
