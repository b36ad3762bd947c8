-- ===== src/Webhook/Handler.antt =====
-- `Handler.do_GET` and `Handler.do_POST` of netbox-dns-webhook.py. NetBox is a parameter: what its
-- two listings answer, and which requests it accepts.
pub mod Laws
use k8s_homelab.Prelude.{
  ℕ, String, List, [], ◌∷◌, ◌++◌, Bool, true, false, not, ◌&&◌, ◌||◌, map, Option, none, some,
  if◌then◌else◌, ◌==◌, ◌>>=◌, string_eq, list_eq, nat_eq,
}
use k8s_homelab.Prelude.Text.{Text}
use k8s_homelab.Webhook.Zones.{Zone, Record, local_view, by_id}
use k8s_homelab.Webhook.Plan.{Endpoint, Changes, Create, Work, plan}
use k8s_homelab.Webhook.Endpoints.{Group, endpoints}

-- The answers: 200 with the domain filter, with endpoints or with the request's own body, 204, 404
-- and 500. `raised` is an exception that no handler catches.
pub data Reply : Type 0 where
  domains : Reply
  listing : List Group → Reply
  adjusted : Changes → Reply
  no_content : Reply
  not_found : Reply
  failed : Reply
  raised : Reply

pub data Request : Type 0 where
  remove : ℕ → Request
  create : Create → Request

-- A request's body: not JSON, `null`, or an object.
pub data Body : Type 0 where
  malformed : Body
  null : Body
  object : Changes → Body

-- `NetBox`: `none` in a listing is `NetBoxError`, and so is a request that is not accepted.
pub record NetBox : Type 0 where
  pub zones : Option (List Zone)
  pub records : Option (List Record)
  pub accepts : Request → Bool

-- The handler's state: the requests that NetBox accepted, and what was skipped last.
pub record Session : Type 0 where
  pub sent : List Request
  pub last_skipped : List Text

abbrev or_no_changes : Body → Option Changes
or_no_changes malformed = none
or_no_changes null = some []
or_no_changes (object c) = some c

module _ (netbox : NetBox) where
  unfoldable pub read_all : Option (List Zone × List Record)
  read_all = do zones ← netbox.zones; records ← netbox.records; local_view zones records

  unfoldable pub do_get : String → Reply
  unfolding read_all
  do_get path =
      if path == "/"
      then domains
      else if path == "/records"
      then elim read_all [
        | none ↦ failed
        | some (zones, records) ↦ listing (endpoints records (by_id zones []))
      ]
      else not_found

  -- Requests in order; the first that is not accepted ends them.
  unfoldable pub send_all : List Request → List Request → Bool × List Request
  send_all [] sent = (true, sent)
  send_all (r ∷ rs) sent = elim (netbox.accepts r) [
    | true ↦ send_all rs (sent ++ r ∷ [])
    | false ↦ (false, sent)
  ]

  abbrev pub requests_of : Work → List Request
  requests_of w = map remove w.deletes ++ map create w.creates

  unfoldable pub post_records : Changes → Session → Reply × Session
  unfolding read_all
  post_records changes s = elim read_all [
    | none ↦ (failed, s)
    | some (zones, records) ↦
        let w = plan changes records zones in
        let (done, sent) = send_all (requests_of w) s.sent in
        (if done then no_content else failed, record { sent = sent; last_skipped = w.skipped })
  ]

  unfoldable pub do_post : String → Body → Session → Reply × Session
  unfolding post_records
  do_post path body s =
      if path == "/adjustendpoints"
      then (elim (or_no_changes body) [ none ↦ raised | some c ↦ adjusted c ], s)
      else if not (path == "/records")
      then (not_found, s)
      else elim (or_no_changes body) [ none ↦ (failed, s) | some c ↦ post_records c s ]
