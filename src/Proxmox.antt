-- ===== src/Proxmox.antt =====
-- kubernetes/prod/system/external-services/external-services/app/proxmox-endpoints.py: one pass of
-- its loop, from NetBox's answer to the EndpointSlice. What NetBox and the hosts answer is given for
-- each pass; the cluster's API is a parameter, a world that is patched and read.
pub mod Laws
pub mod Tests
use k8s_homelab.Prelude.{
  option_eq, nat_eq, list_eq, map, set_of, ◌>>=◌, false, ◌++◌, not, ◌==◌, ltb, true, if◌then◌else◌,
  none, ◌∷◌, filter, Bool, some, ℕ, [], List, Option,
}
use k8s_homelab.Prelude.Decimal.{decimal}
use k8s_homelab.Prelude.Text.{is_empty, codes, split_on, Text}
use k8s_homelab.Prelude.Sort.{sorted}
use k8s_homelab.Json.{
  number, is_truthy, bool, no_fields, list, text, no_values, value, field, get, dict, Value, Values,
  Fields,
}

-- A device as NetBox lists it: the address of its primary IPv4, with a prefix length.
pub record Device : Type 0 where
  pub primary_ip4 : Option Text

-- What a host answers: below 400, an HTTP error, or nothing, with the error's reason and name.
pub data Probe : Type 0 where
  page : Probe
  http_error : ℕ → Probe
  no_answer : Text → Text → Probe

abbrev pub address_of : Device → Text
address_of d = elim d.primary_ip4 [ none ↦ [] | some a ↦ (split_on b'/' a).0 ]

unfoldable pub addresses : List Device → List Text
unfolding sorted split_on
addresses devices = sorted (filter (λ a. not (is_empty a)) (set_of (map address_of devices)))

unfoldable pub refresh : List Text → Option (List Text) → List Text
refresh known none = known
refresh known (some []) = known
refresh known (some (a ∷ found)) = a ∷ found

unfoldable pub problem : Probe → Option Text
problem page = none
problem (http_error code) = if ltb code 500 then none else some (codes "HTTP " ++ decimal code)
problem (no_answer reason name) = some (if is_empty reason then name else reason)

abbrev pub single : Value → Values
single v = value v no_values

abbrev pub endpoint : Text → Value
endpoint a = dict (
    field (codes "addresses") (list (single (text a)))
      (field (codes "conditions") (dict (field (codes "ready") (bool true) no_fields)) no_fields))

unfoldable pub endpoints_of : List Text → Values
endpoints_of [] = no_values
endpoints_of (a ∷ up) = value (endpoint a) (endpoints_of up)

unfoldable pub endpoint_slice : Text → Text → ℕ → List Text → Fields
endpoint_slice namespace service port up =
    field (codes "apiVersion") (text (codes "discovery.k8s.io/v1")) (
      field (codes "kind") (text (codes "EndpointSlice")) (
        field (codes "metadata")
          (dict (
            field (codes "name") (text service) (
              field (codes "namespace") (text namespace) (
                field (codes "labels")
                  (dict (
                    field (codes "kubernetes.io/service-name") (text service) (
                      field (codes "endpointslice.kubernetes.io/managed-by")
                        (text (codes "proxmox-endpoints")) no_fields)))
                  no_fields))))
          (field (codes "addressType") (text (codes "IPv4")) (
            field (codes "ports")
              (list (
                single (
                  dict (
                    field (codes "name") (text (codes "https")) (
                      field (codes "port") (number (decimal port))
                        (field (codes "protocol") (text (codes "TCP")) no_fields))))))
              (field (codes "endpoints") (list (endpoints_of up)) no_fields)))))

-- The addresses that an EndpointSlice lists; `none` where Python raises.
unfoldable pub texts_of : Values → Option (List Text)
texts_of no_values = some []
texts_of (value (text t) vs) = let rest = texts_of vs in rest >>= λ ts. some (t ∷ ts)
texts_of (value _ vs) = none

abbrev pub list_or_empty : Option Value → Option Values
list_or_empty none = some no_values
list_or_empty (some (list vs)) = some vs
list_or_empty (some _) = none

unfoldable pub listed : Values → Option (List Text)
listed no_values = some []
listed (value (dict e) vs) =
    let rest = listed vs in
    list_or_empty (get (codes "addresses") e) >>= λ found.
    texts_of found >>= λ ts. rest >>= λ more. some (ts ++ more)
listed (value _ vs) = none

-- `obj.get("endpoints") or []`, of which a list is asked.
unfoldable pub endpoint_values : Option Value → Option Values
endpoint_values (some (list vs)) = some vs
endpoint_values v = if is_truthy v then none else some no_values

unfoldable pub written : Fields → Option (List Text)
written obj = endpoint_values (get (codes "endpoints") obj) >>= λ vs.
    listed vs >>= λ found. some (sorted found)

-- The cluster's API: a PATCH, which may fail and may have taken effect all the same, and a GET.
pub record Kube (W : Type 0) : Type 0 where
  pub patch : Fields → W → Bool × W
  pub read : W → Option Fields

-- What one pass meets.
pub record Round : Type 0 where
  pub devices : Option (List Device)
  pub probe : Text → Probe

pub record State : Type 0 where
  pub known : List Text
  pub current : Option (List Text)

abbrev pub netbox_hosts : Round → Option (List Text)
netbox_hosts r = elim r.devices [ none ↦ none | some ds ↦ some (addresses ds) ]

abbrev pub is_up : Round → Text → Bool
is_up r a = elim (problem (r.probe a)) [ none ↦ true | some why ↦ false ]

module _ {W : Type 0} (kube : Kube W) (namespace service : Text) (port : ℕ) where
  -- The write and its reading back.
  unfoldable pub update : List Text → State → W → State × W
  update up s w =
      let (taken, w') = kube.patch (endpoint_slice namespace service port up) w in
      if taken
      then elim (kube.read w') [
        | none ↦ (s, w')
        | some obj ↦
            if written obj == some up then (record s { current = some up }, w') else (s, w')
      ]
      else (s, w')

  unfoldable pub pass : Round → State → W → State × W
  pass r s w =
      let known = refresh s.known (netbox_hosts r) in
      let s' = record s { known = known } in
      let up = filter (is_up r) known in
      if known == [] then (s', w) else if some up == s.current then (s', w) else update up s' w

  unfoldable pub passes : List Round → State → W → State × W
  passes [] s w = (s, w)
  passes (r ∷ rs) s w = let (s', w') = pass r s w in passes rs s' w'

abbrev pub start : State
start = record { known = []; current = none }
