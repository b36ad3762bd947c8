-- ===== src/Organizr/Laws.antt =====
-- What remove_unlisted deletes.
-- The paths that were deleted, the last one first.
use mathlib.Core.Path.{subst, ap₂}
use k8s_homelab.Prelude.{
  all_imp, ap, false, ◌||◌, sym, contains-filter, all_of_contains, refl, filter, minus, is_nil,
  none, [], ==_eq, option_eq, ==_of_eq, inr, arith, nat_eq, &&_both,
}
use k8s_homelab.Prelude.{
  inl, list_eq, Option-cases, ◌==◌, Bool-cases, all, some, true, contains, ◌&&◌, any, not, ◌≡◌,
  Option, ◌∷◌, List, Bool,
}
use k8s_homelab.Prelude.Sort.{contains-sorted, sorted}
use k8s_homelab.Prelude.Dict.{keys, lookup}
use k8s_homelab.Prelude.Text.{codes, Text}
use k8s_homelab.Organizr.{
  remove_extra, list_of, remove_unlisted, has_status, delete_method, item_path, path_at,
  is_builtin_at, is_builtin, call, remove_each, Items, Answers, Session,
}
use k8s_homelab.Json.{get, Fields, Value}

unfoldable pub deleted : Session → List Text
deleted [] = []
deleted (r ∷ sent) =
    let rest = deleted sent in elim r.method [ delete_method ↦ r.path ∷ rest | _ ↦ rest ]

both_of :
    (a b : Bool) (o : Option Text) (path : Text)
    → (not a && not b) ≡ true
    → o ≡ some path
    → ((not a && not b) && o == some path) ≡ true
both_of a b o path h e = ap₂ (λ c d. c && d) h (==_of_eq o (some path) e)

module _ (repr : Value → Text) where
  -- The test of an entry that may_go looks for.
  abbrev pub is_gone : Text → List Text → Text → Text × Fields → Bool
  is_gone what wanted path e =
      (not (contains wanted e.0) && not (is_builtin repr what e.1))
      && item_path repr what (get (codes "id") e.1) == some path

  -- A path of an item that may go: one that is neither listed nor Organizr's own.
  abbrev pub may_go : Text → List Text → Items → Text → Bool
  may_go what wanted have path = any (is_gone what wanted path) have

  -- A name whose item may go.
  abbrev goes : Text → List Text → Items → Text → Bool
  goes what wanted have name =
      not (contains wanted name) && not (is_builtin_at repr what (lookup name have))

  any-lookup :
      (q : Text × Fields → Bool) (name : Text) (item : Fields) (have : Items)
      → lookup name have ≡ some item
      → q (name, item) ≡ true
      → any q have ≡ true
  unfolding lookup
  any-lookup q name item [] e h = absurd (cc)
  any-lookup q name item ((n, i) ∷ have) e h = elim (Bool-cases (n == name)) [
    | inl s ↦ ground (arith, e, h, s, ==_eq n name s)
    | inr d ↦ ground (arith, d, e, any-lookup q name item have)
  ]

  module _ (answer : Answers) (what : Text) (wanted : List Text) (have : Items) where
    path-may_go :
        (name path : Text)
        → goes what wanted have name ≡ true
        → path_at repr answer what (lookup name have) ≡ some path
        → may_go what wanted have path ≡ true
    path-may_go name path g e = elim (Option-cases (lookup name have)) [
      | inl f ↦ absurd (ground (arith, e, f))
      | inr (item, f) ↦ any-lookup (is_gone what wanted path) name item have f (
          both_of (contains wanted name) (is_builtin repr what item)
            (item_path repr what (get (codes "id") item)) path
            (subst (λ o. (not (contains wanted name) && not (is_builtin_at repr what o)) ≡ true) f
              g)
            (subst (λ o. path_at repr answer what o ≡ some path) f e))
    ]

    remove_each_deletes :
        (names : List Text) (sent : Session)
        → all (goes what wanted have) names ≡ true
        → all (may_go what wanted have) (deleted sent) ≡ true
        → all (may_go what wanted have) (deleted (remove_each repr answer what have names sent).1)
          ≡ true
    unfolding remove_each call deleted
    remove_each_deletes [] sent g h = h
    remove_each_deletes (name ∷ names) sent g h =
        let (a, b) = &&_both (goes what wanted have name) (all (goes what wanted have) names) g in
        elim (Option-cases (path_at repr answer what (lookup name have))) [
          | inl e ↦ rw (e, remove_each) h
          | inr (path, e) ↦
              let sent' = (call answer delete_method path none sent).1 in
              let now = ap₂ (λ c d. c && d) (path-may_go name path a e) h in
              elim (Bool-cases
                (has_status (200 ∷ 204 ∷ []) (call answer delete_method path none sent).0)) [
                  | inr f ↦ rw (e, f, remove_each) now
                  | inl f ↦ rw (e, f, remove_each) (remove_each_deletes names sent' b now)
                ]
        ]

-- The names of those that are Organizr's own.
abbrev pub own_names : (Value → Text) → Text → Items → List Text → List Text
own_names repr what have names = filter (λ n. is_builtin_at repr what (lookup n have)) names

-- A path may be deleted, with remove_unlisted set and none of Organizr's own among the names.
abbrev pub removable : (Value → Text) → Text → List Text → Items → List Text → Bool → Text → Bool
removable repr what wanted have names enabled path =
    enabled && may_go repr what wanted have path && is_nil (own_names repr what have names)

enabled_too : (a b c d : Bool) → (b || not a) ≡ false → d ≡ true → c ≡ true → (a && c && d) ≡ true
enabled_too a b c d e f g = ground (arith, e, f, g)

all-goes :
    (repr : Value → Text) (what : Text) (wanted : List Text) (have : Items) (names : List Text)
    → all (λ n. not (contains wanted n)) names ≡ true
    → is_nil (filter (λ n. is_builtin_at repr what (lookup n have)) names) ≡ true
    → all (goes repr what wanted have) names ≡ true
all-goes repr what wanted have [] a b = refl
all-goes repr what wanted have (n ∷ names) a b =
    elim (Bool-cases (is_builtin_at repr what (lookup n have))) [
      | inl e ↦ absurd (ground (arith, e, b))
      | inr e ↦ ground (arith, e, a, b, all-goes repr what wanted have names)
    ]

extra_unwanted :
    (wanted names : List Text)
    → all (λ n. not (contains wanted n)) (sorted (minus names wanted)) ≡ true
extra_unwanted wanted names =
    all_of_contains (λ n. not (contains wanted n)) (sorted (minus names wanted))
      (λ a m. ground (
        arith,
        m,
        contains-sorted (minus names wanted) a,
        contains-filter (λ b. not (contains wanted b)) names a,
      ))

remove_extra_deletes :
    (repr : Value → Text) (answer : Answers) (what : Text) (wanted : List Text) (have : Items)
    (names : List Text) (enabled : Bool) (sent : Session)
    → deleted sent ≡ []
    → all (λ n. not (contains wanted n)) names ≡ true
    → all
        (λ path. removable repr what wanted have names enabled path)
        (deleted (remove_extra repr answer what have names enabled sent).1)
      ≡ true
remove_extra_deletes repr answer what wanted have names enabled sent none_yet u =
    elim (Bool-cases (is_nil names || not enabled)) [
      | inl e ↦ rw e (ap (all (removable repr what wanted have names enabled)) none_yet)
      | inr e ↦ elim (Bool-cases (is_nil (own_names repr what have names))) [
        | inr f ↦
            rw (e, f)
              (ap (all (λ path. enabled && may_go repr what wanted have path && false)) none_yet)
        | inl f ↦
            rw (e, f)
              (all_imp (may_go repr what wanted have)
                (λ path. enabled && may_go repr what wanted have path && true)
                (deleted (remove_each repr answer what have names sent).1)
                (λ path h.
                  enabled_too enabled (is_nil names) (may_go repr what wanted have path) true e refl
                    h)
                (remove_each_deletes repr answer what wanted have names sent
                  (all-goes repr what wanted have names u f)
                  (ap (all (may_go repr what wanted have)) none_yet)))
      ]
    ]

listing_deletes : (answer : Answers) (what key : Text) → deleted (list_of answer what key []).1 ≡ []
unfolding deleted list_of call
listing_deletes answer what key = refl

unlisted_run :
    (repr : Value → Text) (answer : Answers) (what key : Text) (wanted : List Text) (enabled : Bool)
    (have : Items)
    → (list_of answer what key []).0 ≡ some have
    → (remove_unlisted repr answer what key wanted enabled []).1
      ≡ (remove_extra repr answer what have
          (sorted (minus (keys have) wanted))
          enabled
          (list_of answer what key []).1).1
unfolding remove_unlisted
unlisted_run repr answer what key wanted enabled have h = rw (h, remove_unlisted) refl

-- Whatever Organizr answers, each path that remove_unlisted deletes is that of an item of the list
-- that Organizr gave, which is not wanted and not one of Organizr's own. Nothing is deleted unless
-- remove_unlisted is set, nor where one of Organizr's own is among the items that are not wanted.
pub deleted-remove_unlisted :
    (repr : Value → Text) (answer : Answers) (what key : Text) (wanted : List Text) (enabled : Bool)
    (have : Items)
    → (list_of answer what key []).0 ≡ some have
    → all
        (removable repr what wanted have (sorted (minus (keys have) wanted)) enabled)
        (deleted (remove_unlisted repr answer what key wanted enabled []).1)
      ≡ true
deleted-remove_unlisted repr answer what key wanted enabled have h =
    subst
      (λ s.
        all (removable repr what wanted have (sorted (minus (keys have) wanted)) enabled)
          (deleted s)
        ≡ true)
      (sym (unlisted_run repr answer what key wanted enabled have h))
      (remove_extra_deletes repr answer what wanted have (sorted (minus (keys have) wanted)) enabled
        (list_of answer what key []).1 (listing_deletes answer what key)
        (extra_unwanted wanted (keys have)))
