-- ===== src/Proxmox/Laws.antt =====
-- What the passes of the loop come to.
use mathlib.Core.Path.{subst}
use native.Mathlib.Decide.{ℕ_discrete}
use k8s_homelab.Prelude.{
  ap, inr, sym, Option, none, some, inl, ◌≢◌, Option-cases, map, set_of, refl, [], ◌∙◌, not, arith,
  ◌∷◌, filter, true, nat_eq, ◌≡◌, ℕ, list_eq, List,
}
use k8s_homelab.Prelude.Sort.{text_leb}
use k8s_homelab.Prelude.Sorted.{filter-IsSorted, sorted_fixed, sorted-IsTextSorted, IsTextSorted}
use k8s_homelab.Prelude.Text.{is_empty, codes, Text}
use k8s_homelab.Proxmox.{
  start, passes, is_up, pass, address_of, State, netbox_hosts, refresh, update, Round, texts_of,
  endpoint_values, Device, endpoints_of, Kube, listed, written,
}
use k8s_homelab.Proxmox.{addresses, endpoint_slice}
use k8s_homelab.Json.{list, Fields, get}

listed-endpoints_of : (up : List Text) → listed (endpoints_of up) ≡ some up
unfolding listed endpoints_of get texts_of list_eq nat_eq ℕ_discrete
listed-endpoints_of [] = refl
listed-endpoints_of (a ∷ up) = rw (listed-endpoints_of up) refl

get-endpoint_slice :
    (namespace service : Text) (port : ℕ) (up : List Text)
    → get (codes "endpoints") (endpoint_slice namespace service port up)
      ≡ some (list (endpoints_of up))
unfolding endpoint_slice get list_eq nat_eq ℕ_discrete
get-endpoint_slice namespace service port up = refl

-- An object with the endpoints that were written reads back as the hosts, if these are in order.
written_back :
    (obj : Fields) (up : List Text)
    → get (codes "endpoints") obj ≡ some (list (endpoints_of up))
    → IsTextSorted up
    → written obj ≡ some up
unfolding written endpoint_values
written_back obj up e h = ground (arith, listed-endpoints_of up, sorted_fixed up h)

addresses-IsTextSorted : (ds : List Device) → IsTextSorted (addresses ds)
unfolding addresses
addresses-IsTextSorted ds =
    sorted-IsTextSorted (filter (λ a. not (is_empty a)) (set_of (map address_of ds)))

refreshed :
    (known found : List Text)
    → IsTextSorted known
    → IsTextSorted found
    → IsTextSorted (refresh known (some found))
unfolding refresh
refreshed known [] h k = h
refreshed known (a ∷ found) h k = k

refresh-IsTextSorted :
    (known : List Text) (r : Round)
    → IsTextSorted known
    → IsTextSorted (refresh known (netbox_hosts r))
unfolding refresh
refresh-IsTextSorted known r h = elim (Option-cases r.devices) [
  | inl e ↦
      subst
        (λ x. IsTextSorted (refresh known (elim x [ none ↦ none | some ds ↦ some (addresses ds) ])))
        (sym e) h
  | inr (ds, e) ↦
      subst
        (λ x. IsTextSorted (refresh known (elim x [ none ↦ none | some ds ↦ some (addresses ds) ])))
        (sym e) (refreshed known (addresses ds) h (addresses-IsTextSorted ds))
]

refresh_idem :
    (known : List Text) (found : Option (List Text))
    → refresh (refresh known found) found ≡ refresh known found
unfolding refresh
refresh_idem known none = refl
refresh_idem known (some []) = refl
refresh_idem known (some (a ∷ found)) = refl

module _ {W : Type 0} (kube : Kube W) where
  -- A cluster that takes a write and gives its endpoints back.
  pub record Answers : Type 0 where
    pub taken : (b : Fields) (w : W) → (kube.patch b w).0 ≡ true
    pub given :
        (b : Fields) (w : W)
        → (obj : Fields) × (kube.read (kube.patch b w).1 ≡ some obj)
          × (get (codes "endpoints") obj ≡ get (codes "endpoints") b)

module _ {W : Type 0} (kube : Kube W) (namespace service : Text) (port : ℕ) where
  update_done :
      (up : List Text) (s : State) (w : W)
      → Answers kube
      → IsTextSorted up
      → (update kube namespace service port up s w).0 ≡ record s { current = some up }
  unfolding update
  update_done up s w k h =
      let (obj, e, same) = k.given (endpoint_slice namespace service port up) w in
      ground (
        arith,
        k.taken (endpoint_slice namespace service port up) w,
        written_back obj up (same ∙ get-endpoint_slice namespace service port up) h,
      )

  -- One pass, by cases.
  pass_idle :
      (r : Round) (s : State) (w : W)
      → refresh s.known (netbox_hosts r) ≢ []
      → some (filter (is_up r) (refresh s.known (netbox_hosts r))) ≡ s.current
      → pass kube namespace service port r s w
        ≡ (record s { known = refresh s.known (netbox_hosts r) }, w)
  unfolding pass
  pass_idle r s w n e = ground arith

  pass_known :
      (r : Round) (s : State) (w : W)
      → (pass kube namespace service port r s w).0.known ≡ refresh s.known (netbox_hosts r)
  unfolding pass update
  pass_known r s w = ground arith

  passes-IsTextSorted :
      (rs : List Round) (s : State) (w : W)
      → IsTextSorted s.known
      → IsTextSorted (passes kube namespace service port rs s w).0.known
  unfolding passes
  passes-IsTextSorted [] s w h = h
  passes-IsTextSorted (r ∷ rs) s w h =
      let (s', w') = pass kube namespace service port r s w in
      passes-IsTextSorted rs s' w'
        (subst IsTextSorted (sym (pass_known r s w)) (refresh-IsTextSorted s.known r h))

  pass_changes :
      (r : Round) (s : State) (w : W)
      → Answers kube
      → IsTextSorted s.known
      → refresh s.known (netbox_hosts r) ≢ []
      → (pass kube namespace service port r s w).0 ≡ record {
        known = refresh s.known (netbox_hosts r);
        current = some (filter (is_up r) (refresh s.known (netbox_hosts r)));
      }
  unfolding pass
  pass_changes r s w k h n =
      let known = refresh s.known (netbox_hosts r) in
      let up = filter (is_up r) known in
      ground (
        arith,
        update_done up (record s { known = known }) w k
            (filter-IsSorted text_leb (is_up r) known (refresh-IsTextSorted s.known r h)),
      )

module _ {W : Type 0} (kube : Kube W) (namespace service : Text) (port : ℕ) where
  -- After any passes against any cluster, whose writes and readings may have failed in them, one pass
  -- against a cluster that takes a write and gives it back holds the hosts that are up for current, and
  -- a further pass that meets the same changes and sends nothing; it is for a pass that knows a host,
  -- from NetBox now or from before.
  pub pass_settles :
      (before : Kube W) (rs : List Round) (r : Round) (w : W)
      → Answers kube
      → let (s, v) = passes before namespace service port rs start w in
        refresh s.known (netbox_hosts r) ≢ []
        → let (s, v) = passes before namespace service port rs start w in
          let (t, u) = pass kube namespace service port r s v in
          (t.current ≡ some (filter (is_up r) t.known))
          × (pass kube namespace service port r t u ≡ (t, u))
  pass_settles before rs r w k n =
      let (s, v) = passes before namespace service port rs start w in
      let (t, u) = pass kube namespace service port r s v in
      let known = refresh s.known (netbox_hosts r) in
      let now =
        pass_changes kube namespace service port r s v k
          (passes-IsTextSorted before namespace service port rs start w tt) n in
      let again : refresh t.known (netbox_hosts r) ≡ known =
        ap (λ (x : State). refresh x.known (netbox_hosts r)) now
        ∙ refresh_idem s.known (netbox_hosts r) in
      let held : t.current ≡ some (filter (is_up r) known) = ap (λ (x : State). x.current) now in
      (
        held ∙ ap (λ (x : State). some (filter (is_up r) x.known)) (sym now),
        pass_idle kube namespace service port r t u (λ e. n (sym again ∙ e))
              (ap (λ x. some (filter (is_up r) x)) again ∙ sym held)
            ∙ ap (λ x. (x, u)) (ground (arith, again, now)),
      )
