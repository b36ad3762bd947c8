-- ===== src/Backup/Derived/Tests.antt =====
-- Runs of the derived labels, and witnesses.
use native.Mathlib.Decide.{ℕ_discrete}
use k8s_homelab.Prelude.{
  ◌≡◌, refl, List, [], ◌∷◌, Option, none, some, ◌&&◌, if◌then◌else◌, ◌==◌, any, list_eq, nat_eq,
}
use k8s_homelab.Prelude.Text.{Text, codes}
use k8s_homelab.Backup.Derived.{
  Ingress, tunnel_class, traefik_classes, ns, add_host, host_set, union_hosts, is_traefik, exposure,
}
use k8s_homelab.Backup.Derived.Laws.{is_reached, exposure_lem}

abbrev ingress : Text → Text → Text → Ingress
ingress namespace class host = record {
  namespace = some namespace;
  ingress_class = some class;
  rule_hosts = some host ∷ none ∷ [];
}

abbrev ingresses : List Ingress
ingresses =
    ingress (codes "tunnel") (codes "cloudflare-tunnel") (codes "a.org")
    ∷ ingress (codes "a") (codes "traefik") (codes "a.org")
    ∷ ingress (codes "b") (codes "traefik") (codes "b.org")
    ∷ ingress (codes "c") (codes "nginx") (codes "a.org")
    ∷ []

exposed : Text → Option Text
unfolding exposure union_hosts host_set add_host tunnel_class traefik_classes list_eq nat_eq
    ℕ_discrete
exposed namespace = exposure namespace (some ingresses)

exposed_runs :
    (exposed (codes "tunnel") ≡ some (codes "internet"))
    × (exposed (codes "a") ≡ some (codes "internet"))
    × (exposed (codes "b") ≡ some (codes "lan"))
    × (exposed (codes "c") ≡ some (codes "cluster"))
unfolding exposed
exposed_runs = (refl, refl, refl, refl)

exposure_lem_example :
    let own = λ (i : Ingress). ns i.namespace == codes "a" in
    exposure (codes "a") (some ingresses)
    ≡ some (
        if any (λ i. own i && is_reached ingresses i) ingresses
        then codes "internet"
        else if any (λ i. own i && is_traefik i) ingresses
        then codes "lan"
        else codes "cluster")
exposure_lem_example = exposure_lem (codes "a") ingresses
