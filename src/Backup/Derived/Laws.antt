-- ===== src/Backup/Derived/Laws.antt =====
-- What the derived labels say.
use native.Mathlib.Decide.{ℕ_discrete}
use k8s_homelab.Prelude.{
  ◌≡◌, refl, ap, sym, ◌∙◌, List, [], ◌∷◌, Option, none, some, Bool, true, false, not, ◌&&◌, ◌||◌,
  arith, if◌then◌else◌, ◌==◌, contains, any, filter, list_eq,
}
use k8s_homelab.Prelude.{nat_eq, any-filter, contains-union, Option-cases, inl, inr}
use k8s_homelab.Prelude.Text.{Text, codes}
use k8s_homelab.Prelude.Dict.{lookup, insert, lookup-insert}
use k8s_homelab.Backup.Derived.{
  Ingress, data_label, exposure_label, ns, hosts_of, data_class, is_tunnel, is_traefik, union_hosts,
  meets, exposure, namespace_labels,
}

-- An Ingress that a tunnel of the list leads to: one on the tunnel, or a Traefik one with a host
-- that an Ingress on the tunnel has, in any namespace.
abbrev pub is_reached : List Ingress → Ingress → Bool
is_reached all i =
    is_tunnel i
    || (is_traefik i
        && any (λ h. any (λ t. is_tunnel t && contains (hosts_of t) h) all) (hosts_of i))

contains-union_hosts :
    (is : List Ingress) (h : Text)
    → contains (union_hosts (filter is_tunnel is)) h
      ≡ any (λ t. is_tunnel t && contains (hosts_of t) h) is
unfolding union_hosts
contains-union_hosts [] h = refl
contains-union_hosts (i ∷ is) h = ground (
  arith,
  contains-union_hosts is h,
  contains-union (hosts_of i) (union_hosts (filter is_tunnel is)) h,
)

any_same : {A : Type 0} (p q : A → Bool) (xs : List A) → ((x : A) → p x ≡ q x) → any p xs ≡ any q xs
any_same p q [] h = refl
any_same p q (x ∷ xs) h = ground (arith, h x, any_same p q xs h)

any_or :
    {A : Type 0} (p q : A → Bool) (xs : List A) → any (λ x. p x || q x) xs ≡ (any p xs || any q xs)
any_or p q [] = refl
any_or p q (x ∷ xs) = ground (arith, any_or p q xs)

-- The choice that `exposure` makes, and the same with the first two tests in one.
abbrev chosen : Bool → Bool → Bool → Option Text
chosen a b c =
    if a
    then some (codes "internet")
    else if b
    then some (codes "internet")
    else if not c
    then some (codes "cluster")
    else some (codes "lan")

chosen_lem :
    (a b c d e f : Bool)
    → a ≡ d
    → b ≡ e
    → c ≡ f
    → chosen a b c
      ≡ some (if d || e then codes "internet" else if f then codes "lan" else codes "cluster")
chosen_lem a b c d e f p q r = ground arith

module _ (namespace : Text) (all : List Ingress) where
  abbrev own : Ingress → Bool
  own i = ns i.namespace == namespace

  abbrev shares : Ingress → Bool
  shares i = any (λ h. any (λ t. is_tunnel t && contains (hosts_of t) h) all) (hosts_of i)

  meets-shares :
      (i : Ingress)
      → (own i && (is_traefik i && meets (hosts_of i) (union_hosts (filter is_tunnel all))))
        ≡ (own i && (is_traefik i && shares i))
  meets-shares i =
      ap (λ b. own i && (is_traefik i && b))
        (any_same (contains (union_hosts (filter is_tunnel all)))
          (λ h. any (λ t. is_tunnel t && contains (hosts_of t) h) all) (hosts_of i)
          (contains-union_hosts all))

  any-shares :
      any
        (λ i. meets (hosts_of i) (union_hosts (filter is_tunnel all)))
        (filter is_traefik (filter own all))
      ≡ any (λ i. own i && (is_traefik i && shares i)) all
  any-shares =
      let m = λ (i : Ingress). meets (hosts_of i) (union_hosts (filter is_tunnel all)) in
      any-filter m is_traefik (filter own all)
      ∙ any-filter (λ i. is_traefik i && m i) own all
      ∙ any_same (λ i. own i && (is_traefik i && m i)) (λ i. own i && (is_traefik i && shares i))
          all meets-shares

  any_traefik :
      any (λ i. true) (filter is_traefik (filter own all)) ≡ any (λ i. own i && is_traefik i) all
  any_traefik =
      any-filter (λ i. true) is_traefik (filter own all)
      ∙ any-filter (λ i. is_traefik i && true) own all
      ∙ any_same (λ i. own i && (is_traefik i && true)) (λ i. own i && is_traefik i) all
          (λ i. ground arith)

  any_reached :
      (any (λ i. own i && is_tunnel i) all || any (λ i. own i && (is_traefik i && shares i)) all)
      ≡ any (λ i. own i && is_reached all i) all
  any_reached =
      sym (any_or (λ i. own i && is_tunnel i) (λ i. own i && (is_traefik i && shares i)) all)
      ∙ any_same (λ i. (own i && is_tunnel i) || (own i && (is_traefik i && shares i)))
          (λ i. own i && is_reached all i) all (λ i. ground arith)

-- A namespace is on the internet if an Ingress of it is on the tunnel, or is a Traefik one that
-- shares a host with an Ingress on the tunnel; else in the LAN if it has a Traefik Ingress; else,
-- also where it has Ingresses of other classes, in the cluster only.
pub exposure_lem :
    (namespace : Text) (is : List Ingress)
    → let own = λ (i : Ingress). ns i.namespace == namespace in
      exposure namespace (some is)
      ≡ some (
          if any (λ i. own i && is_reached is i) is
          then codes "internet"
          else if any (λ i. own i && is_traefik i) is
          then codes "lan"
          else codes "cluster")
unfolding exposure
exposure_lem namespace is =
    chosen_lem (any is_tunnel (filter (own namespace is) is))
      (any (λ i. meets (hosts_of i) (union_hosts (filter is_tunnel is)))
        (filter is_traefik (filter (own namespace is) is)))
      (any (λ i. true) (filter is_traefik (filter (own namespace is) is)))
      (any (λ i. own namespace is i && is_tunnel i) is)
      (any (λ i. own namespace is i && (is_traefik i && shares namespace is i)) is)
      (any (λ i. own namespace is i && is_traefik i) is)
      (any-filter is_tunnel (own namespace is) is) (any-shares namespace is)
      (any_traefik namespace is)
    ∙ ap
        (λ b. some (
          if b
          then codes "internet"
          else if any (λ i. own namespace is i && is_traefik i) is
          then codes "lan"
          else codes "cluster"))
        (any_reached namespace is)

labels_differ : (exposure_label == data_label) ≡ false
unfolding exposure_label data_label list_eq nat_eq ℕ_discrete
labels_differ = refl

-- The derived labels are those that could be worked out, each with its value, and no other.
namespace_labels_lem :
    (namespace : Text) (pvcs clusters : Option (List (Option Text)))
    (ingresses : Option (List Ingress)) (label : Text)
    → lookup label (namespace_labels namespace pvcs clusters ingresses) ≡ (
        if label == data_label
        then data_class namespace pvcs clusters
        else if label == exposure_label
        then exposure namespace ingresses
        else none)
unfolding namespace_labels lookup
namespace_labels_lem namespace pvcs clusters ingresses label =
    elim (Option-cases (data_class namespace pvcs clusters)) [
      | inl d ↦ elim (Option-cases (exposure namespace ingresses)) [
        | inl e ↦ ground arith
        | inr (v, e) ↦ ground (arith, lookup-insert exposure_label label v [], labels_differ)
      ]
      | inr (w, d) ↦ elim (Option-cases (exposure namespace ingresses)) [
        | inl e ↦ ground (arith, lookup-insert data_label label w [])
        | inr (v, e) ↦ ground (
          arith,
          lookup-insert exposure_label label v (insert data_label w []),
          lookup-insert data_label label w [],
          labels_differ,
        )
      ]
    ]
