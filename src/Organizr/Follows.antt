-- ===== src/Organizr/Follows.antt =====
-- The requests of organizr-sync.py's lists come after those that were sent before.
use mathlib.Core.Path.{subst}
use k8s_homelab.Prelude.{
  ◌∷◌, ap, sym, ◌++◌, refl, none, List, inr, inl, Option-cases, Bool-cases, [], some, Option, ◌≡◌,
  Bool, filter, is_nil, ◌||◌, not, minus, list_eq, nat_eq,
}
use k8s_homelab.Prelude.Text.{codes, Text}
use k8s_homelab.Prelude.Dict.{keys, lookup}
use k8s_homelab.Prelude.Sort.{sorted}
use k8s_homelab.Json.{get, is_empty_dict, Fields, Value}
use k8s_homelab.Organizr.{
  has_status, item_path, differs, delete_method, is_builtin_at, path_at, list_of, call, apply_item,
  apply_each, apply_list, remove_each, remove_extra,
}
use k8s_homelab.Organizr.{remove_unlisted, Answers, Session, Items, Request}

-- What was sent after `s`, up to `t`.
abbrev pub Follows : Session → Session → Type 0
Follows s t = (later : List Request) × (t ≡ later ++ s)

pub nothing_later : (s : Session) → Follows s s
nothing_later s = ([], refl)

pub one_later : (r : Request) (s : Session) → Follows s (r ∷ s)
one_later r s = (r ∷ [], refl)

further_later : (r : Request) (s t : Session) → Follows s t → Follows s (r ∷ t)
further_later r s t (later, e) = (r ∷ later, ap (λ u. r ∷ u) e)

pub later_trans : (s t u : Session) → Follows s t → Follows t u → Follows s u
later_trans s t u f ([], e) = subst (Follows s) (sym e) f
later_trans s t u f (r ∷ later, e) =
    subst (Follows s) (sym e)
      (further_later r s (later ++ t) (later_trans s t (later ++ t) f (later, refl)))

module _ (repr : Value → Text) (answer : Answers) where
  pub list_of-Follows : (what key : Text) (s : Session) → Follows s (list_of answer what key s).1
  unfolding list_of call
  list_of-Follows what key s = one_later _ s

  apply_item-Follows :
      (what : Text) (item : Fields) (have : Option Fields) (s : Session)
      → Follows s (apply_item repr answer what item have s).1
  unfolding apply_item call
  apply_item-Follows what item none s = one_later _ s
  apply_item-Follows what item (some have) s =
      elim (Bool-cases (is_empty_dict (differs repr have item))) [
        | inl e ↦ rw e (nothing_later s)
        | inr e ↦ elim (Option-cases (item_path repr what (get (codes "id") have))) [
          | inl f ↦ rw e (rw f (nothing_later s))
          | inr (path, f) ↦ rw e (rw f (one_later _ s))
        ]
      ]

  apply_each-Follows :
      (what : Text) (have wanted : Items) (s : Session)
      → Follows s (apply_each repr answer what have wanted s).1
  unfolding apply_each
  apply_each-Follows what have [] s = nothing_later s
  apply_each-Follows what have ((name, item) ∷ wanted) s =
      let one = apply_item repr answer what item (lookup name have) s in
      let first = apply_item-Follows what item (lookup name have) s in
      elim (Bool-cases one.0) [
        | inl e ↦
            rw (apply_each, e)
              (later_trans s one.1 _ first (apply_each-Follows what have wanted one.1))
        | inr e ↦ rw (apply_each, e) first
      ]

  pub apply_list-Follows :
      (what key : Text) (wanted : Items) (s : Session)
      → Follows s (apply_list repr answer what key wanted s).1
  unfolding apply_list list_of call
  apply_list-Follows what key wanted s =
      let found = list_of answer what key s in
      elim (Option-cases found.0) [
        | inl e ↦ rw e (list_of-Follows what key s)
        | inr (have, e) ↦ rw e (
            later_trans s found.1 _ (list_of-Follows what key s)
              (apply_each-Follows what have wanted found.1))
      ]

  remove_each-Follows :
      (what : Text) (have : Items) (names : List Text) (s : Session)
      → Follows s (remove_each repr answer what have names s).1
  unfolding remove_each call
  remove_each-Follows what have [] s = nothing_later s
  remove_each-Follows what have (name ∷ names) s =
      elim (Option-cases (path_at repr answer what (lookup name have))) [
        | inl e ↦ rw (remove_each, e) (nothing_later s)
        | inr (path, e) ↦
            let one = call answer delete_method path none s in
            elim (Bool-cases (has_status (200 ∷ 204 ∷ []) one.0)) [
              | inl f ↦
                  rw (remove_each, e, f)
                    (later_trans s one.1 _ (one_later _ s)
                      (remove_each-Follows what have names one.1))
              | inr f ↦ rw (remove_each, e, f) (one_later _ s)
            ]
      ]

  remove_extra-Follows :
      (what : Text) (have : Items) (extra : List Text) (enabled : Bool) (s : Session)
      → Follows s (remove_extra repr answer what have extra enabled s).1
  remove_extra-Follows what have extra enabled s = elim (Bool-cases (is_nil extra || not enabled)) [
    | inl e ↦ rw e (nothing_later s)
    | inr e ↦
        elim (Bool-cases
          (not (is_nil (filter (λ n. is_builtin_at repr what (lookup n have)) extra)))) [
            | inl f ↦ rw e (rw f (nothing_later s))
            | inr f ↦ rw e (rw f (remove_each-Follows what have extra s))
          ]
  ]

  pub remove_unlisted-Follows :
      (what key : Text) (wanted : List Text) (enabled : Bool) (s : Session)
      → Follows s (remove_unlisted repr answer what key wanted enabled s).1
  unfolding remove_unlisted list_of call
  remove_unlisted-Follows what key wanted enabled s =
      let found = list_of answer what key s in
      elim (Option-cases found.0) [
        | inl e ↦ rw e (list_of-Follows what key s)
        | inr (have, e) ↦ rw e (
            later_trans s found.1 _ (list_of-Follows what key s)
              (remove_extra-Follows what have (sorted (minus (keys have) wanted)) enabled found.1))
      ]
