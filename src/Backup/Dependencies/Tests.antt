-- ===== src/Backup/Dependencies/Tests.antt =====
-- The operators of some documents, and a witness.
use native.Mathlib.Decide.{ℕ_discrete}
use k8s_homelab.Prelude.{
  refl, set_of, option_eq, list_eq, nat_eq, not, ◌&&◌, some, ◌==◌, any, ◌≡◌, [], contains, ◌∷◌,
  String, List,
}
use k8s_homelab.Prelude.Text.{ends_with, codes, Text}
use k8s_homelab.Prelude.Sort.{text_leb, sorted_by, sorted}
use k8s_homelab.Prelude.Dict.{values, insert, lookup, Dict}
use k8s_homelab.Prelude.Sorted.{IsTextSorted}
use k8s_homelab.Backup.Dependencies.Laws.{contains-depends_on}
use k8s_homelab.Json.{get, no_fields, text, field, null, dict, Value}
use k8s_homelab.Backup.Dependencies.{
  operator_names, operator_of, operator_chart, chart_among, before_last_slash, kustomizations_from,
  operator_kustomizations, depends_on, set_defaults,
}
use k8s_homelab.Backup.Dependencies.{operator_charts}

abbrev doc_of : String → Value
doc_of api_version = dict (field (codes "apiVersion") (text (codes api_version)) no_fields)

abbrev installed : Dict Text Text
installed = operator_kustomizations (
    (codes "cnpg", codes "cloudnative-pg" ∷ [])
    ∷ (codes "web", codes "nginx" ∷ codes "traefik" ∷ [])
    ∷ (codes "web2", codes "traefik" ∷ [])
    ∷ [])

abbrev docs : List Value
docs =
    doc_of "traefik.io/v1alpha1"
    ∷ doc_of "acme.cert-manager.io/v1"
    ∷ doc_of "v1"
    ∷ doc_of "postgresql.cnpg.io/v1"
    ∷ null
    ∷ []

depends_runs :
    (depends_on (codes "app") docs installed ≡ codes "cnpg" ∷ codes "web" ∷ [])
    × (depends_on (codes "web") docs installed ≡ codes "cnpg" ∷ [])
    × (operator_chart (codes "acme.cert-manager.io/v1") ≡ some (codes "cert-manager"))
unfolding operator_charts set_defaults kustomizations_from operator_kustomizations before_last_slash
    chart_among operator_chart operator_names depends_on get lookup insert values sorted sorted_by
    text_leb set_of ends_with list_eq nat_eq ℕ_discrete
depends_runs = (refl, refl, refl)

contains-depends_on_example :
    IsTextSorted (depends_on (codes "app") docs installed)
    × ((n : Text)
        → contains (depends_on (codes "app") docs installed) n
          ≡ (any (λ doc. operator_of installed doc == some n) docs && not (n == codes "app")))
contains-depends_on_example = contains-depends_on (codes "app") installed docs
