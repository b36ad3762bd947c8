-- ===== src/Pihole/Round/Laws.antt =====
-- A round over all Pi-holes, and the numbered settings that name them.
use mathlib.Core.List.{append-nil, append_assoc}
use k8s_homelab.Prelude.{
  ℕ, zero, suc, ◌<◌, ◌≡◌, refl, ◌∙◌, List, [], ◌∷◌, ◌++◌, Bool, false, ◌&&◌, all, ap, none, some,
  arith, Option-cases, inl, inr, length,
}
use k8s_homelab.Prelude.Text.{Text}
use k8s_homelab.Pihole.Plan.{Entry}
use k8s_homelab.Pihole.Server.{Result, ok, refused, crashed, Server, sync_one}
use k8s_homelab.Pihole.Round.{Env, Login, set_value, piholes_loop, piholes_from, round_loop}

-- The logins numbered n, n + 1, … for `count` numbers.
pub data Numbered (env : Env) : ℕ → List Login → Type 0 where
  stop : {n : ℕ} → set_value (env.url n) ≡ none → Numbered env n []
  login :
      {n : ℕ} {url password : Text} {rest : List Login}
      → set_value (env.url n) ≡ some url
      → set_value (env.password n) ≡ some password
      → Numbered env (suc n) rest
      → Numbered env n ((url, password) ∷ rest)

module _ (env : Env) where
  piholes_loop_of_Numbered :
      (fuel : ℕ) {n : ℕ} {logins : List Login}
      → Numbered env n logins
      → (out : List Login) → length logins < fuel
      → piholes_loop env fuel n out ≡ some (out ++ logins)
  unfolding piholes_loop
  piholes_loop_of_Numbered zero p out h = absurd (omega arith)
  piholes_loop_of_Numbered (suc fuel) (stop e) out h = rw (e, piholes_loop, append-nil)
  piholes_loop_of_Numbered (suc fuel) (login {url} {password} {rest} u p more) out h =
      rw (u, piholes_loop)
        (rw (p, piholes_loop)
          (piholes_loop_of_Numbered fuel more (out ++ (url, password) ∷ []) (omega arith)
            ∙ ap some (append_assoc out ((url, password) ∷ []) rest)))

  Numbered-of_piholes_loop :
      (fuel n : ℕ) (out logins : List Login)
      → piholes_loop env fuel n out ≡ some logins
      → (rest : List Login) × Numbered env n rest × (logins ≡ out ++ rest)
  unfolding piholes_loop
  Numbered-of_piholes_loop zero n out logins h = absurd (cc)
  Numbered-of_piholes_loop (suc fuel) n out logins h = elim (Option-cases (set_value (env.url n))) [
    | inl e ↦ ([], stop e, rw append-nil (ground arith))
    | inr (url, e) ↦ elim (Option-cases (set_value (env.password n))) [
      | inl k ↦ absurd (ground arith)
      | inr (password, k) ↦
          let (rest, more, q) =
            Numbered-of_piholes_loop fuel (suc n) (out ++ (url, password) ∷ []) logins
              (ground arith) in
          ((url, password) ∷ rest, login e k more, q ∙ append_assoc out ((url, password) ∷ []) rest)
    ]
  ]

  -- The settings of the Pi-holes numbered from 1 without a gap are those returned, in order.
  piholes_from-Numbered :
      (fuel : ℕ) (first : Login) (rest : List Login)
      → Numbered env 1 (first ∷ rest)
      → length (first ∷ rest) < fuel
      → piholes_from env fuel ≡ some (first ∷ rest)
  unfolding piholes_from
  piholes_from-Numbered fuel first rest p h = rw (piholes_loop_of_Numbered fuel p [] h)

module _ {World : Type 0} (server : Login → Bool → Server World) (zones : List Text)
    (wanted : List Entry) (apply deletes verify : Bool) where
  abbrev pub outcome : Result Bool → Bool
  outcome (ok b) = b
  outcome refused = false
  outcome crashed = false

  abbrev pub Caught : Result Bool → Type 0
  Caught (ok b) = Unit
  Caught refused = Unit
  Caught crashed = ⊥

  -- Every Pi-hole in turn, each from the world that the one before left, refused ones included.
  pub data Tried : List Login → World → List Bool → World → Type 0 where
    done : {w : World} → Tried [] w [] w
    tried :
        {l : Login} {ls : List Login} {r : Result Bool} {bs : List Bool} {w v u : World}
        → sync_one (server l verify) zones wanted apply deletes w ≡ (r, v)
        → Caught r
        → Tried ls v bs u
        → Tried (l ∷ ls) w (outcome r ∷ bs) u

  -- What a loop over `ls` from `v` has to show.
  abbrev pub Shown : List Login → Bool → World → World → Bool → Type 0
  Shown ls so_far v u b = (bs : List Bool) × Tried ls v bs u × (b ≡ (so_far && all (λ x. x) bs))

  abbrev synced : Login → World → Result Bool × World
  synced l w = sync_one (server l verify) zones wanted apply deletes w

  round_loop-cons :
      (l : Login) (ls : List Login) (so_far : Bool) (w u : World) (b : Bool) (r : Result Bool)
      → (synced l w).0 ≡ r
      → ((t : Bool)
          → round_loop server zones wanted apply deletes verify ls t (synced l w).1 ≡ (ok b, u)
          → Shown ls t (synced l w).1 u b)
      → round_loop server zones wanted apply deletes verify (l ∷ ls) so_far w ≡ (ok b, u)
      → Shown (l ∷ ls) so_far w u b
  unfolding round_loop
  round_loop-cons l ls so_far w u b (ok c) e ih h =
      let (bs, t, q) = ih (so_far && c) (rw (e, round_loop) at h) in
      (c ∷ bs, tried (ap (λ x. (x, (synced l w).1)) e) tt t, ground arith)
  round_loop-cons l ls so_far w u b refused e ih h =
      let (bs, t, q) = ih false (rw (e, round_loop) at h) in
      (false ∷ bs, tried (ap (λ x. (x, (synced l w).1)) e) tt t, ground arith)
  round_loop-cons l ls so_far w u b crashed e ih h =
      let k : ◌≡◌ {A = Result Bool × World} (crashed, (synced l w).1) (ok b, u) =
        rw (e, round_loop) at h in
      absurd (cc)

  -- A round that ends has tried every Pi-hole, also after one that refused, and its answer is
  -- whether all of them matched.
  pub round_loop-Tried :
      (ls : List Login) (so_far : Bool) (w u : World) (b : Bool)
      → round_loop server zones wanted apply deletes verify ls so_far w ≡ (ok b, u)
      → Shown ls so_far w u b
  unfolding round_loop
  round_loop-Tried [] so_far w u b h = ([], rw (ap (λ t. t.1) h) done, ground arith)
  round_loop-Tried (l ∷ ls) so_far w u b h =
      round_loop-cons l ls so_far w u b (synced l w).0 refl
        (λ t. round_loop-Tried ls t (synced l w).1 u b) h
