-- ===== src/Keyvault/Names.antt =====
-- What check_names accepts: names that Key Vault takes, no two of which differ by case alone.
-- The names of the variables, ignoring case.
use mathlib.Core.List.{append-nil, append_assoc}
use k8s_homelab.Prelude.{
  are_distinct, if◌then◌else◌, none, sym, ◌||◌, ap, ==_eq, some, ◌==◌, Option, ◌++◌, false,
  Bool-cases, refl, inr, list_eq, nat_eq, inl, [], arith, Option-cases,
}
use k8s_homelab.Prelude.{contains, is_none, ◌&&◌, not, ◌∷◌, ◌≡◌, true, all, Bool, map, List}
use k8s_homelab.Prelude.Dict.{keys, lookup-insert, lookup, insert, Dict}
use k8s_homelab.Prelude.Text.{lower, Text}
use k8s_homelab.Keyvault.{
  check_names, stopped, done, Result, keyvault_name, is_secret_name, is_done, check_from,
}

abbrev pub folded : List Text → List Text
folded vs = map (λ v. lower (keyvault_name v)) vs

-- No text of a list is a key.
unfoldable pub none_taken : List Text → Dict Text Text → Bool
none_taken [] taken = true
none_taken (x ∷ xs) taken = is_none (lookup x taken) && none_taken xs taken

none_taken-insert :
    (xs : List Text) (k v : Text) (taken : Dict Text Text)
    → none_taken xs (insert k v taken) ≡ (not (contains xs k) && none_taken xs taken)
unfolding none_taken
none_taken-insert [] k v taken = refl
none_taken-insert (x ∷ xs) k v taken =
    ground (arith, lookup-insert k x v taken, none_taken-insert xs k v taken)

-- The names are found good one by one.
unfoldable pub are_names : List Text → Bool
are_names vs = all (λ v. is_secret_name (keyvault_name v)) vs

check_from-is_done :
    (vs : List Text) (names taken : Dict Text Text)
    → is_done (check_from vs names taken)
      ≡ (are_names vs && (are_distinct (folded vs) && none_taken (folded vs) taken))
unfolding check_from are_names none_taken
check_from-is_done [] names taken = refl
check_from-is_done (v ∷ vs) names taken =
    elim (Option-cases (lookup (lower (keyvault_name v)) taken)) [
      | inl e ↦ ground (
        arith,
        e,
        check_from-is_done vs (insert v (keyvault_name v) names)
            (insert (lower (keyvault_name v)) v taken),
        none_taken-insert (folded vs) (lower (keyvault_name v)) v taken,
      )
      | inr (w, e) ↦ ground (arith, e)
    ]

-- What check_names gives of variables that it accepts.
abbrev pub named : List Text → Dict Text Text
named vs = map (λ v. (v, keyvault_name v)) vs

insert_new :
    (k n : Text) (d : Dict Text Text)
    → contains (keys d) k ≡ false
    → insert k n d ≡ d ++ (k, n) ∷ []
unfolding insert keys
insert_new k n [] h = refl
insert_new k n ((j, m) ∷ d) h = ground (arith, insert_new k n d)

contains-keys-insert :
    (k n u : Text) (d : Dict Text Text)
    → contains (keys (insert k n d)) u ≡ (u == k || contains (keys d) u)
unfolding insert keys
contains-keys-insert k n u [] = ground arith
contains-keys-insert k n u ((j, m) ∷ d) = ground (arith, contains-keys-insert k n u d)

-- The folded name of each variable that has a name is taken.
abbrev Taken : Dict Text Text → Dict Text Text → Type 0
Taken names taken =
    (u : Text)
    → contains (keys names) u ≡ true
    → is_none (lookup (lower (keyvault_name u)) taken) ≡ false

insert-Taken :
    (v : Text) (names taken : Dict Text Text)
    → Taken names taken
    → Taken (insert v (keyvault_name v) names) (insert (lower (keyvault_name v)) v taken)
insert-Taken v names taken h u c = elim (Bool-cases (u == v)) [
  | inl e ↦ ground (
    arith,
    ==_eq u v e,
    lookup-insert (lower (keyvault_name v)) (lower (keyvault_name u)) v taken,
  )
  | inr e ↦ ground (
    arith,
    h u,
    contains-keys-insert v (keyvault_name v) u names,
    lookup-insert (lower (keyvault_name v)) (lower (keyvault_name u)) v taken,
  )
]

check_from_names :
    (vs : List Text) (names taken : Dict Text Text)
    → Taken names taken
    → is_done (check_from vs names taken) ≡ true
    → check_from vs names taken ≡ done (names ++ named vs)
unfolding check_from
check_from_names [] names taken h d = ap done (sym (append-nil names))
check_from_names (v ∷ vs) names taken h d =
    elim (Option-cases (lookup (lower (keyvault_name v)) taken)) [
      | inl e ↦ elim (Bool-cases (contains (keys names) v)) [
        | inl c ↦ ground (arith, h v, e)
        | inr c ↦ ground (
          arith,
          e,
          insert_new v (keyvault_name v) names c,
          append_assoc names ((v, keyvault_name v) ∷ []) (named vs),
          check_from_names vs (insert v (keyvault_name v) names)
              (insert (lower (keyvault_name v)) v taken) (insert-Taken v names taken h),
        )
      ]
      | inr (w, e) ↦ ground (arith, e)
    ]

abbrev pub accepted : {A : Type 0} → Result A → Option A
accepted (done a) = some a
accepted (stopped s) = none

none_taken_nil : (xs : List Text) → none_taken xs [] ≡ true
unfolding none_taken lookup
none_taken_nil [] = refl
none_taken_nil (x ∷ xs) = none_taken_nil xs

not_accepted : {A : Type 0} (r : Result A) → is_done r ≡ false → accepted r ≡ none
not_accepted (done a) h = absurd (cc)
not_accepted (stopped s) h = refl

pub check_names_named :
    (vs : List Text) → is_done (check_names vs) ≡ true → check_names vs ≡ done (named vs)
unfolding check_names keys
check_names_named vs d = check_from_names vs [] [] (λ u c. absurd (cc)) d

pub check_names-is_done :
    (vs : List Text) → is_done (check_names vs) ≡ (are_names vs && are_distinct (folded vs))
unfolding check_names
check_names-is_done vs = ground (arith, check_from-is_done vs [] [], none_taken_nil (folded vs))

-- check_names accepts a list of variables if and only if the name of each is one that Key Vault takes
-- and no two of the names differ by case alone; it then gives each variable, in their order, its name.
pub accepted-check_names :
    (vs : List Text)
    → accepted (check_names vs)
      ≡ (if are_names vs && are_distinct (folded vs) then some (named vs) else none)
accepted-check_names vs = elim (Bool-cases (is_done (check_names vs))) [
  | inl d ↦ ground (arith, d, check_names_named vs, check_names-is_done vs)
  | inr d ↦ ground (arith, d, check_names-is_done vs, not_accepted (check_names vs))
]
