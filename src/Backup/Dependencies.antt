-- ===== src/Backup/Dependencies.antt =====
-- scripts/k8s_backup/dependencies.py: the operators that an app's manifests need. The documents of the
-- manifests and the charts of the release folders are given; an apiVersion is a text.
pub mod Laws
pub mod Tests
use k8s_homelab.Prelude.{
  ◌>>=◌, set_of, nat_eq, list_eq, add, filter, is_none, contains, ◌||◌, ◌==◌, some, none,
  if◌then◌else◌, [], Bool, ◌∷◌, Option, List,
}
use k8s_homelab.Prelude.Dict.{insert, lookup, values, Dict}
use k8s_homelab.Prelude.Text.{ends_with, codes, Text}
use k8s_homelab.Prelude.Sort.{sorted}
use k8s_homelab.Json.{get, text_or_blank, dict, Value}

unfoldable pub operator_charts : Dict Text Text
operator_charts =
    (codes "postgresql.cnpg.io", codes "cloudnative-pg")
    ∷ (codes "cert-manager.io", codes "cert-manager")
    ∷ (codes "metallb.io", codes "metallb")
    ∷ (codes "longhorn.io", codes "longhorn")
    ∷ (codes "external-secrets.io", codes "external-secrets")
    ∷ (codes "traefik.io", codes "traefik")
    ∷ []

-- `found.setdefault(chart, folder)` for each chart.
unfoldable pub set_defaults : Text → List Text → Dict Text Text → Dict Text Text
set_defaults folder [] found = found
set_defaults folder (chart ∷ charts) found =
    set_defaults folder charts
      (if is_none (lookup chart found) then insert chart folder found else found)

unfoldable pub kustomizations_from : List (Text × List Text) → Dict Text Text → Dict Text Text
kustomizations_from [] found = found
kustomizations_from ((folder, charts) ∷ folders) found = kustomizations_from folders (
    set_defaults folder (sorted (filter (contains (values operator_charts)) (set_of charts))) found)

-- The folders in order, each with its name and the charts that it installs.
unfoldable pub operator_kustomizations : List (Text × List Text) → Dict Text Text
operator_kustomizations folders = kustomizations_from folders []

-- `s.rpartition("/")[0]`, which is empty without a slash.
unfoldable pub before_last_slash : Text → Text
before_last_slash [] = []
before_last_slash (c ∷ s) =
    let rest = before_last_slash s in if contains s b'/' then c ∷ rest else []

abbrev is_group : Text → Text → Bool
is_group group operator_group = group == operator_group || ends_with group (b'.' ∷ operator_group)

unfoldable pub chart_among : Text → Dict Text Text → Option Text
chart_among group [] = none
chart_among group ((operator_group, chart) ∷ later) =
    let rest = chart_among group later in if is_group group operator_group then some chart else rest

unfoldable pub operator_chart : Text → Option Text
operator_chart api_version = chart_among (before_last_slash api_version) operator_charts

-- The Kustomization of the operator that a document needs.
abbrev pub operator_of : Dict Text Text → Value → Option Text
operator_of operators (dict doc) =
    operator_chart (text_or_blank (get (codes "apiVersion") doc)) >>= λ chart.
    lookup chart operators
operator_of operators doc = none

abbrev add_operator : Text → Option Text → List Text → List Text
add_operator name none names = names
add_operator name (some n) names = if n == name then names else add n names

unfoldable pub operator_names : Text → Dict Text Text → List Value → List Text → List Text
operator_names name operators [] names = names
operator_names name operators (doc ∷ docs) names =
    operator_names name operators docs (add_operator name (operator_of operators doc) names)

unfoldable pub depends_on : Text → List Value → Dict Text Text → List Text
depends_on name docs operators = sorted (operator_names name operators docs [])
