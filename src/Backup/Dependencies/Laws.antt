-- ===== src/Backup/Dependencies/Laws.antt =====
-- The entries of dependsOn.
use k8s_homelab.Prelude.{
  none, option_eq, ◌∙◌, nat_eq, list_eq, [], contains-add, ◌∷◌, arith, not, ◌&&◌, some, ◌==◌, any,
  ◌||◌, ◌≡◌, contains, List, Option,
}
use k8s_homelab.Prelude.Sort.{contains-sorted}
use k8s_homelab.Prelude.Sorted.{sorted-IsTextSorted, IsTextSorted}
use k8s_homelab.Prelude.Dict.{Dict}
use k8s_homelab.Prelude.Text.{Text}
use k8s_homelab.Backup.Dependencies.{operator_of, add_operator, depends_on, operator_names}
use k8s_homelab.Json.{Value}

contains-add_operator :
    (name : Text) (found : Option Text) (names : List Text) (n : Text)
    → contains (add_operator name found names) n
      ≡ (contains names n || (found == some n && not (n == name)))
contains-add_operator name none names n = ground arith
contains-add_operator name (some m) names n = ground (arith, contains-add m names n)

module _ (name : Text) (operators : Dict Text Text) where
  contains-operator_names :
      (docs : List Value) (names : List Text) (n : Text)
      → contains (operator_names name operators docs names) n ≡ (
          contains names n
          || (any (λ doc. operator_of operators doc == some n) docs && not (n == name)))
  unfolding operator_names
  contains-operator_names [] names n = ground arith
  contains-operator_names (doc ∷ docs) names n = ground (
    arith,
    contains-operator_names docs (add_operator name (operator_of operators doc) names) n,
    contains-add_operator name (operator_of operators doc) names n,
  )

  -- The entries of dependsOn are in order, and they are the Kustomizations of the operators that some document
  -- needs, but for the Kustomization itself.
  pub contains-depends_on :
      (docs : List Value)
      → IsTextSorted (depends_on name docs operators)
        × ((n : Text)
            → contains (depends_on name docs operators) n
              ≡ (any (λ doc. operator_of operators doc == some n) docs && not (n == name)))
  unfolding depends_on
  contains-depends_on docs = (
    sorted-IsTextSorted (operator_names name operators docs []),
    λ n.
        contains-sorted (operator_names name operators docs []) n
        ∙ contains-operator_names docs [] n,
  )
