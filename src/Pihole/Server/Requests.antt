-- ===== src/Pihole/Server/Requests.antt =====
-- The requests that a Pi-hole takes, and what the four loops of sync_one make of its lines.
use mathlib.Core.Path.{subst}
use k8s_homelab.Prelude.{
  ==_eq, all-contains, ==_refl, all, are_distinct, ◌≡◌, refl, ◌∙◌, List, [], ◌∷◌, Bool, true, false,
  not, ◌&&◌, ◌||◌, contains, ◌==◌, list_eq, nat_eq, pair_eq,
}
use k8s_homelab.Prelude.{string_eq, arith, Bool-cases, inl, inr}
use k8s_homelab.Prelude.Text.{Text}
use k8s_homelab.Pihole.Plan.{Plan}
use k8s_homelab.Pihole.Converge.{IsApplied}
use k8s_homelab.Pihole.Server.{
  Kind, hosts, cname_records, Method, delete, put, ok, Server, change_all, carry_out,
}

abbrev pub other : Kind → Kind
other hosts = cname_records
other cname_records = hosts

-- The lines of one kind after a request for the line `l`.
abbrev pub changed : Method → Text → List Text → Text → Bool
changed delete l before x = contains before x && not (x == l)
changed put l before x = contains before x || x == l

-- What a Pi-hole takes: a DELETE of a line that it has, and a PUT of one that it does not have. It
-- refuses the others, as gone or as present already.
abbrev pub takes : Method → List Text → Text → Bool
takes delete before l = contains before l
takes put before l = not (contains before l)

-- A Pi-hole that answers: a reading gives its lines and changes nothing; a DELETE of a line that is
-- there takes it away, a PUT of one that is not there adds it, and neither touches other lines. It
-- says nothing of a DELETE of a line that is gone or of a PUT of one that is there.
pub record IsLawful {State : Type 0} (server : Server State) : Type 0 where
  pub lines : Kind → State → List Text
  pub reads : (s : State) → server.lists s ≡ (ok (lines hosts s, lines cname_records s), s)
  pub answers :
      (m : Method) (k : Kind) (l : Text) (s : State)
      → takes m (lines k s) l ≡ true
      → (t : State) × (server.change m k l s ≡ (ok tt, t))
        × ((x : Text) → contains (lines k t) x ≡ changed m l (lines k s) x)
        × (lines (other k) t ≡ lines (other k) s)

-- Requests that a Pi-hole with the lines `before` takes one after another: each removed line is
-- there, each added one is not there or is removed, and none is named twice.
unfoldable pub is_sendable : List Text → List Text → List Text → Bool
is_sendable before removed added =
    are_distinct removed
    && all (contains before) removed
    && are_distinct added
    && all (λ l. not (contains before l) || contains removed l) added

-- The lines after requests for all of `ls`.
abbrev all_changed : Method → List Text → List Text → Text → Bool
all_changed delete ls before x = contains before x && not (contains ls x)
all_changed put ls before x = contains before x || contains ls x

all_changed-cons :
    (m : Method) (l : Text) (ls before between : List Text) (x : Text)
    → contains between x ≡ changed m l before x
    → all_changed m ls between x ≡ all_changed m (l ∷ ls) before x
all_changed-cons delete l ls before between x h = ground arith
all_changed-cons put l ls before between x h = ground arith

all_changed-nil :
    (m : Method) (before : List Text) (x : Text) → contains before x ≡ all_changed m [] before x
all_changed-nil delete before x = ground arith
all_changed-nil put before x = ground arith

-- Each request of a list is taken where each of its lines is, and none is named twice.
abbrev Taken : Method → List Text → List Text → Type 0
Taken m ls before = (x : Text) → contains ls x ≡ true → takes m before x ≡ true

distinct_apart :
    (l : Text) (ls : List Text) (x : Text)
    → are_distinct (l ∷ ls) ≡ true
    → contains ls x ≡ true
    → (x == l) ≡ false
distinct_apart l ls x d m = elim (Bool-cases (x == l)) [
  | inl e ↦ absurd (ground (arith, subst (λ y. contains ls y ≡ true) (==_eq x l e) m))
  | inr e ↦ e
]

taken-changed :
    (m : Method) (before between : List Text) (l x : Text)
    → contains between x ≡ changed m l before x
    → (x == l) ≡ false
    → takes m before x ≡ true
    → takes m between x ≡ true
taken-changed delete before between l x h e t = ground arith
taken-changed put before between l x h e t = ground arith

module _ {State : Type 0} (server : Server State) (lawful : IsLawful server) where
  open server use {login, lists, change, close}
  open lawful use {lines, reads, answers}

  change_all_lem :
      (m : Method) (k : Kind) (ls : List Text) (s : State)
      → are_distinct ls ≡ true
      → Taken m ls (lines k s)
      → (t : State) × (change_all server m k ls s ≡ (ok tt, t))
        × ((x : Text) → contains (lines k t) x ≡ all_changed m ls (lines k s) x)
        × (lines (other k) t ≡ lines (other k) s)
  unfolding change_all
  change_all_lem m k [] s d taken = (s, refl, λ x. all_changed-nil m (lines k s) x, refl)
  change_all_lem m k (l ∷ ls) s d taken =
      let (t, e, here, there) = answers m k l s (taken l (ground (arith, ==_refl l))) in
      let (u, es, heres, theres) = change_all_lem m k ls t (ground arith) (λ x h.
        taken-changed m (lines k s) (lines k t) l x (here x) (distinct_apart l ls x d h)
          (taken x (ground arith))) in
      (
        u,
        rw e es,
        λ x. heres x ∙ all_changed-cons m l ls (lines k s) (lines k t) x (here x),
        theres ∙ there,
      )

  removed-Taken :
      (before removed added : List Text)
      → is_sendable before removed added ≡ true
      → (are_distinct removed ≡ true) × Taken delete removed before
  unfolding is_sendable
  removed-Taken before removed added h =
      (ground arith, λ x m. all-contains (contains before) removed x (ground arith) m)

  added-Taken :
      (before removed added between : List Text)
      → is_sendable before removed added ≡ true
      → ((x : Text) → contains between x ≡ all_changed delete removed before x)
      → (are_distinct added ≡ true) × Taken put added between
  unfolding is_sendable
  added-Taken before removed added between h k = (
    ground arith,
    λ x m. ground (
      arith,
      k x,
      all-contains (λ l. not (contains before l) || contains removed l) added x (ground arith) m,
    ),
  )

  -- The four loops leave the lines that the plan is to leave.
  pub carry_out_lem :
      (p : Plan) (s : State)
      → is_sendable (lines hosts s) p.remove_hosts p.add_hosts ≡ true
      → is_sendable (lines cname_records s) p.remove_cnames p.add_cnames ≡ true
      → (t : State) × (carry_out server p s ≡ (ok tt, t))
        × IsApplied (lines hosts s) p.remove_hosts p.add_hosts (lines hosts t)
        × IsApplied (lines cname_records s) p.remove_cnames p.add_cnames (lines cname_records t)
  unfolding carry_out
  carry_out_lem p s sh sc =
      let (d₁, r₁) = removed-Taken (lines hosts s) p.remove_hosts p.add_hosts sh in
      let (s₁, e₁, h₁, k₁) = change_all_lem delete hosts p.remove_hosts s d₁ r₁ in
      let (d₂, r₂) = removed-Taken (lines cname_records s) p.remove_cnames p.add_cnames sc in
      let (s₂, e₂, h₂, k₂) =
        change_all_lem delete cname_records p.remove_cnames s₁ d₂ (λ x m. rw k₁ (r₂ x m)) in
      let (d₃, r₃) =
        added-Taken (lines hosts s) p.remove_hosts p.add_hosts (lines hosts s₂) sh
          (λ x. rw k₂ (h₁ x)) in
      let (s₃, e₃, h₃, k₃) = change_all_lem put hosts p.add_hosts s₂ d₃ r₃ in
      let (d₄, r₄) =
        added-Taken (lines cname_records s) p.remove_cnames p.add_cnames (lines cname_records s₃) sc
          (λ x. rw (k₃, h₂ x, k₁) refl) in
      let (s₄, e₄, h₄, k₄) = change_all_lem put cname_records p.add_cnames s₃ d₄ r₄ in
      (
        s₄,
        rw e₁ (rw e₂ (rw e₃ (rw e₄ refl))),
        λ x. rw (k₄, h₃ x, k₂, h₁ x) refl,
        λ x. rw (h₄ x, k₃, h₂ x, k₁) refl,
      )
