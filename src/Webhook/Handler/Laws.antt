-- ===== src/Webhook/Handler/Laws.antt =====
-- What a POST may do to NetBox, whatever NetBox answers.
use mathlib.Core.List.{append-nil, append_assoc}
use mathlib.Core.Bool.{false≢true}
use k8s_homelab.Prelude.{
  all, not, ◌↔◌, ℕ, ◌≡◌, refl, ◌∙◌, sym, ap, List, [], ◌∷◌, ◌++◌, Bool, true, false, map, arith,
  none, some, Bool-cases, inl, inr, if◌then◌else◌, string_eq,
}
use k8s_homelab.Prelude.{nat_eq, contains, All, All-append}
use k8s_homelab.Webhook.Zones.{Zone, Record}
use k8s_homelab.Webhook.Plan.{Changes, Create, plan}
use k8s_homelab.Webhook.Plan.Owned.{owned_in, plan-owned}
use k8s_homelab.Webhook.Plan.Created.{IsAllowed, plan-IsAllowed}
use k8s_homelab.Webhook.Handler.{
  no_content, failed, Request, remove, create, NetBox, Session, read_all, send_all, requests_of,
  post_records, do_post, do_get, object,
}

-- The request touches only what the plan may: an owned record, or a free name.
abbrev pub Permitted : List Record → List Zone → Request → Type 0
Permitted records zones (remove i) = owned_in i records ≡ true
Permitted records zones (create c) = IsAllowed records zones c

All-map_remove :
    (records : List Record) (zones : List Zone) (is : List ℕ)
    → ((i : ℕ) → contains is i ≡ true → owned_in i records ≡ true)
    → All (Permitted records zones) (map remove is)
All-map_remove records zones [] h = tt
All-map_remove records zones (i ∷ is) h =
    (h i (ground arith), All-map_remove records zones is (λ j m. h j (ground arith)))

All-map_create :
    (records : List Record) (zones : List Zone) (cs : List Create)
    → All (IsAllowed records zones) cs
    → All (Permitted records zones) (map create cs)
All-map_create records zones [] h = tt
All-map_create records zones (c ∷ cs) (a, h) = (a, All-map_create records zones cs h)

All-prefix : (P : Request → Type 0) (xs ys : List Request) → All P (xs ++ ys) → All P xs
All-prefix P [] ys h = tt
All-prefix P (x ∷ xs) ys (a, h) = (a, All-prefix P xs ys h)

answers :
    (b : Bool) (rest : List Request)
    → ((b ≡ true) ↔ (rest ≡ []))
    → ((if b then no_content else failed) ≡ no_content) ↔ (rest ≡ [])
answers true rest iff = (λ h. iff.0 refl, λ h. refl)
answers false rest iff = (λ h. absurd (cc), λ h. absurd (false≢true (iff.1 h)))

module _ (netbox : NetBox) where
  requests_of-Permitted :
      (changes : Changes) (records : List Record) (zones : List Zone)
      → All (Permitted records zones) (requests_of netbox (plan changes records zones))
  requests_of-Permitted changes records zones =
      let w = plan changes records zones in
      All-append (Permitted records zones) (map remove w.deletes) (map create w.creates)
        (All-map_remove records zones w.deletes (plan-owned changes records zones))
        (All-map_create records zones w.creates (plan-IsAllowed changes records zones))

  -- Whether NetBox refuses the first of the requests that were not sent, where there is one.
  abbrev pub stops_at : List Request → Bool
  stops_at [] = true
  stops_at (r ∷ rs) = not (netbox.accepts r)

  -- What was sent: the requests from the start up to the first that was not accepted.
  abbrev pub Sent : List Request → List Request → Bool × List Request → Type 0
  Sent rs before out =
      (done : List Request) × (rest : List Request) × (out.1 ≡ before ++ done)
      × (done ++ rest ≡ rs)
      × ((all netbox.accepts done ≡ true) × (stops_at rest ≡ true))
      × ((out.0 ≡ true) ↔ (rest ≡ []))

  send_all-Sent : (rs before : List Request) → Sent rs before (send_all netbox rs before)
  unfolding send_all
  send_all-Sent [] before =
      ([], [], sym (append-nil before), refl, (refl, refl), (λ h. refl, λ h. refl))
  send_all-Sent (r ∷ rs) before = elim (Bool-cases (netbox.accepts r)) [
    | inl e ↦
        let (done, rest, q, p, (taken, stopped), iff) = send_all-Sent rs (before ++ r ∷ []) in
        (
          r ∷ done,
          rest,
          rw (e, send_all) (q ∙ append_assoc before (r ∷ []) done),
          ap (λ xs. r ∷ xs) p,
          (ground (arith, e, taken), stopped),
          rw (e, send_all) iff,
        )
    | inr e ↦ (
      [],
      r ∷ rs,
      rw (e, send_all) (sym (append-nil before)),
      refl,
      (refl, ground (arith, e)),
      rw (e, send_all) (λ h. absurd (cc), λ h. absurd (cc)),
    )
  ]

  -- A POST of changes whose reads succeed sends the plan's requests in order, up to the first that
  -- NetBox refuses: NetBox accepts all that are counted as sent, and refuses the next one, where there
  -- is one; all it sends deletes owned records or creates under free names of a zone; and
  -- it answers 204 just when it sent them all.
  pub post_records_lem :
      (changes : Changes) (s : Session) (zones : List Zone) (records : List Record)
      → read_all netbox ≡ some (zones, records)
      → (done : List Request) × (rest : List Request) × ((post_records netbox changes s).1.sent
          ≡ s.sent ++ done)
        × (done ++ rest ≡ requests_of netbox (plan changes records zones))
        × ((all netbox.accepts done ≡ true) × (stops_at rest ≡ true))
        × All (Permitted records zones) done
        × (((post_records netbox changes s).0 ≡ no_content) ↔ (rest ≡ []))
  unfolding post_records
  post_records_lem changes s zones records read =
      let (done, rest, q, p, sorted_out, iff) =
        send_all-Sent (requests_of netbox (plan changes records zones)) s.sent in
      (
        done,
        rest,
        rw (read, post_records) q,
        p,
        sorted_out,
        All-prefix (Permitted records zones) done rest
            (rw (← p) at (requests_of-Permitted changes records zones)),
        rw (read, post_records)
            (answers (send_all netbox (requests_of netbox (plan changes records zones)) s.sent).0
              rest iff),
      )

  -- A failed read of NetBox answers 500, and neither sends nor forgets anything.
  post_records_unread :
      (changes : Changes) (s : Session)
      → read_all netbox ≡ none
      → (do_post netbox "/records" (object changes) s ≡ (failed, s))
        × (do_get netbox "/records" ≡ failed)
  unfolding do_post do_get post_records string_eq
  post_records_unread changes s read = (rw (read, post_records), rw (read, do_get))
