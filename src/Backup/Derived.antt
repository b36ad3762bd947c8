-- ===== src/Backup/Derived.antt =====
-- The derived labels of scripts/k8s_backup/derived.py, from what is read of the objects: the
-- namespace, and of an Ingress its class and the hosts of its rules.
pub mod Laws
pub mod Tests
use k8s_homelab.Prelude.{
  List, [], ◌∷◌, ◌++◌, Option, none, some, Bool, true, false, not, ◌&&◌, ◌||◌, if◌then◌else◌, ◌==◌,
  contains, any, filter, add, union, list_eq, nat_eq,
}
use k8s_homelab.Prelude.Text.{Text, codes, is_empty}
use k8s_homelab.Prelude.Dict.{Dict, insert}

unfoldable pub data_label : Text
data_label = codes "homelab.local/data"

unfoldable pub exposure_label : Text
exposure_label = codes "homelab.local/exposure"

unfoldable pub tunnel_class : Text
tunnel_class = codes "cloudflare-tunnel"

unfoldable pub traefik_classes : List Text
traefik_classes = codes "traefik" ∷ codes "traefik-isolated" ∷ []

pub record Ingress : Type 0 where
  pub namespace : Option Text
  pub ingress_class : Option Text
  pub rule_hosts : List (Option Text)

abbrev pub or_blank : Option Text → Text
or_blank none = []
or_blank (some t) = t

-- `_ns`, `_hosts` and `_class`
abbrev pub ns : Option Text → Text
ns namespace = or_blank namespace

unfoldable pub add_host : Option Text → List Text → List Text
add_host none hosts = hosts
add_host (some host) hosts = if is_empty host then hosts else add host hosts

unfoldable pub host_set : List (Option Text) → List Text
host_set [] = []
host_set (h ∷ hs) = add_host h (host_set hs)

abbrev pub hosts_of : Ingress → List Text
hosts_of i = host_set i.rule_hosts

abbrev pub class_of : Ingress → Text
class_of i = or_blank i.ingress_class

unfoldable pub data_class :
    Text → Option (List (Option Text)) → Option (List (Option Text)) → Option Text
data_class namespace none clusters = none
data_class namespace (some pvcs) none = none
data_class namespace (some pvcs) (some clusters) =
    if any (λ c. ns c == namespace) clusters
    then some (codes "database")
    else if any (λ p. ns p == namespace) pvcs
    then some (codes "files")
    else some (codes "stateless")

abbrev pub is_tunnel : Ingress → Bool
is_tunnel i = class_of i == tunnel_class

abbrev pub is_traefik : Ingress → Bool
is_traefik i = contains traefik_classes (class_of i)

-- `set().union(*...)`
unfoldable pub union_hosts : List Ingress → List Text
union_hosts [] = []
union_hosts (i ∷ is) = union (hosts_of i) (union_hosts is)

-- `a & b`, as a truth value
abbrev pub meets : List Text → List Text → Bool
meets a b = any (contains b) a

unfoldable pub exposure : Text → Option (List Ingress) → Option Text
exposure namespace none = none
exposure namespace (some ingresses) =
    let tunnel_hosts = union_hosts (filter is_tunnel ingresses) in
    let own = filter (λ i. ns i.namespace == namespace) ingresses in
    let traefik = filter is_traefik own in
    if any is_tunnel own
    then some (codes "internet")
    else if any (λ i. meets (hosts_of i) tunnel_hosts) traefik
    then some (codes "internet")
    else if not (any (λ i. true) traefik)
    then some (codes "cluster")
    else some (codes "lan")

abbrev pub set_known : Text → Option Text → Dict Text Text → Dict Text Text
set_known label none out = out
set_known label (some v) out = insert label v out

unfoldable pub namespace_labels :
    Text
    → Option (List (Option Text))
    → Option (List (Option Text))
    → Option (List Ingress)
    → Dict Text Text
namespace_labels namespace pvcs clusters ingresses =
    set_known exposure_label (exposure namespace ingresses)
      (set_known data_label (data_class namespace pvcs clusters) [])
