-- ===== src/Pihole/Server/Laws.antt =====
-- One synchronisation of a Pi-hole that takes the requests of the plan.
use k8s_homelab.Prelude.{
  ◌≡◌, refl, List, [], ◌∷◌, Bool, true, false, some, contains, list_eq, nat_eq, pair_eq, string_eq,
  arith, Bool-cases, inl, inr,
}
use k8s_homelab.Prelude.Text.{Text}
use k8s_homelab.Pihole.Plan.{Entry, Plan, plan}
use k8s_homelab.Pihole.Clean.{IsClean}
use k8s_homelab.Pihole.Converge.{IsApplied}
use k8s_homelab.Pihole.Settles.{IsSettled, plan-settles}
use k8s_homelab.Pihole.Server.{
  Kind, hosts, cname_records, Method, ok, Exec, Server, is_nil, outstanding, read_back, sync_one,
}
use k8s_homelab.Pihole.Server.Requests.{IsLawful, is_sendable, carry_out_lem}

module _ {State : Type 0} (server : Server State) (lawful : IsLawful server) where
  open server use {login, lists, change, close}
  open lawful use {lines, reads, answers}

  empty_of : (xs : List Text) → is_nil xs ≡ true → xs ≡ []
  empty_of [] h = refl
  empty_of (x ∷ xs) h = cc

  kept_all :
      (ls removed added : List Text)
      → is_nil removed ≡ true
      → is_nil added ≡ true
      → IsApplied ls removed added ls
  kept_all ls removed added r a x = rw (empty_of removed r, empty_of added a) (ground arith)

  none-IsApplied :
      (p : Plan) (ls ms : List Text)
      → outstanding p ≡ false
      → IsApplied ls p.remove_hosts p.add_hosts ls × IsApplied ms p.remove_cnames p.add_cnames ms
  unfolding outstanding
  none-IsApplied p ls ms h = (
    kept_all ls p.remove_hosts p.add_hosts (ground arith) (ground arith),
    kept_all ms p.remove_cnames p.add_cnames (ground arith) (ground arith),
  )

  module _ (zones : List Text) (wanted : List Entry) (deletes : Bool)
      (clean : (w : Entry) → contains wanted w ≡ true → IsClean zones w) where
    settled_outstanding : (p : Plan) → IsSettled p → outstanding p ≡ false
    unfolding outstanding
    settled_outstanding p h =
        rw (h.no_host_removed, h.no_host_added, h.no_cname_removed, h.no_cname_added)

    read_back_lem :
        (p : Plan) (t u : State)
        → plan zones wanted deletes (lines hosts t) (lines cname_records t) ≡ some p
        → IsApplied (lines hosts t) p.remove_hosts p.add_hosts (lines hosts u)
        → IsApplied (lines cname_records t) p.remove_cnames p.add_cnames (lines cname_records u)
        → read_back server zones wanted true deletes u ≡ (ok true, u)
    unfolding read_back
    read_back_lem p t u planned ah ac =
        let (p', again, settled) =
          plan-settles zones wanted deletes clean (lines hosts t) (lines cname_records t) p planned
            (lines hosts u) (lines cname_records u) ah ac in
        rw (reads u) (rw again (rw (settled_outstanding p' settled) refl))

    -- With `--apply` and well-formed wanted records, where the login goes well and there is a plan, one
    -- round carries out exactly the plan, reads the Pi-hole back and says that it matches, if the
    -- requests of the plan are ones that the Pi-hole takes: each line that it removes is there, each
    -- that it adds is not there or is one that it removes, and it names none twice.
    pub sync_one_settles :
        (s t : State) (p : Plan)
        → login s ≡ (ok tt, t)
        → plan zones wanted deletes (lines hosts t) (lines cname_records t) ≡ some p
        → is_sendable (lines hosts t) p.remove_hosts p.add_hosts ≡ true
        → is_sendable (lines cname_records t) p.remove_cnames p.add_cnames ≡ true
        → (u : State) × (sync_one server zones wanted true deletes s ≡ (ok true, close u))
          × IsApplied (lines hosts t) p.remove_hosts p.add_hosts (lines hosts u)
          × IsApplied (lines cname_records t) p.remove_cnames p.add_cnames (lines cname_records u)
    unfolding sync_one
    sync_one_settles s t p entered planned sh sc = elim (Bool-cases (outstanding p)) [
      | inl some_changes ↦
          let (u, done, ah, ac) = carry_out_lem server lawful p t sh sc in
          (
            u,
            rw entered (
                rw (reads t) (
                  rw planned
                    (rw (some_changes) (rw done (rw (read_back_lem p t u planned ah ac) refl))))),
            ah,
            ac,
          )
      | inr no_changes ↦
          let (ah, ac) = none-IsApplied p (lines hosts t) (lines cname_records t) no_changes in
          (t, rw entered (rw (reads t) (rw planned (rw no_changes refl))), ah, ac)
    ]

module _ {State : Type 0} (server : Server State) (zones : List Text) (wanted : List Entry)
    (deletes : Bool) where
  -- Without `--apply` the Pi-hole is only read: what `change` does makes no difference.
  sync_one_dry :
      (change : Method → Kind → Text → Exec State Unit) (s : State)
      → sync_one (record server { change = change }) zones wanted false deletes s
        ≡ sync_one server zones wanted false deletes s
  unfolding sync_one
  sync_one_dry change s = refl
