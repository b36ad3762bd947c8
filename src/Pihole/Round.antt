-- ===== src/Pihole/Round.antt =====
-- `piholes_from`, `round_` and one turn of `main` of netbox_pihole_sync.py.
pub mod Laws
use k8s_homelab.Prelude.{
  ℕ, zero, suc, ◌≡◌, String, List, [], ◌∷◌, ◌++◌, Bool, true, false, not, ◌&&◌, ◌||◌, Option, none,
  some, if◌then◌else◌, ◌==◌, list_eq, nat_eq,
}
use k8s_homelab.Prelude.Text.{Text, codes, lower}
use k8s_homelab.Pihole.Plan.{Entry}
use k8s_homelab.Pihole.Server.{
  Result, ok, refused, crashed, Exec, Server, ◌>>=◌, pure, or_crash, sync_one,
}

-- The variables of the environment that the program reads. `url n` is PIHOLE_n_URL.
pub record Env : Type 0 where
  pub url : ℕ → Option Text
  pub password : ℕ → Option Text
  pub tls_verify : Option Text
  pub sync_apply : Option Text
  pub sync_delete : Option Text

-- The truth of `env.get(key)`: set, and not empty.
abbrev pub set_value : Option Text → Option Text
set_value none = none
set_value (some []) = none
set_value (some (c ∷ t)) = some (c ∷ t)

abbrev or_default : Option Text → Text → Text
or_default none d = d
or_default (some t) d = t

abbrev pub Login : Type 0
Login = Text × Text

-- The loop of `piholes_from`; `none` is `SystemExit`, or no fuel left.
unfoldable pub piholes_loop : Env → ℕ → ℕ → List Login → Option (List Login)
piholes_loop env zero n out = none
piholes_loop env (suc fuel) n out = elim (set_value (env.url n)) [
  | none ↦ some out
  | some url ↦ elim (set_value (env.password n)) [
    | none ↦ none
    | some password ↦ piholes_loop env fuel (suc n) (out ++ (url, password) ∷ [])
  ]
]

abbrev some_login : List Login → Option (List Login)
some_login [] = none
some_login (l ∷ ls) = some (l ∷ ls)

abbrev exit_or_some : Option (List Login) → Option (List Login)
exit_or_some none = none
exit_or_some (some out) = some_login out

unfoldable pub piholes_from : Env → ℕ → Option (List Login)
unfolding piholes_loop
piholes_from env fuel = exit_or_some (piholes_loop env fuel 1 [])

unfoldable pub verify_of : Env → Bool
verify_of env = not (lower (or_default env.tls_verify (codes "true")) == codes "false")

unfoldable pub deletes_of : Env → Bool
deletes_of env = lower (or_default env.sync_delete (codes "false")) == codes "true"

-- The Pi-holes share a world, and each login gives the requests to one of them.
module _ {World : Type 0} (server : Login → Bool → Server World) where
  module _ (zones : List Text) (wanted : List Entry) (apply deletes verify : Bool) where
    -- `ok &= sync_one(…)`, and `ok = False` when it was refused.
    unfoldable pub add_outcome : Bool → Result Bool → Result Bool
    add_outcome so_far (ok b) = ok (so_far && b)
    add_outcome so_far refused = ok false
    add_outcome so_far crashed = crashed

    unfoldable pub round_loop : List Login → Bool → Exec World Bool
    unfolding add_outcome
    round_loop [] so_far w = (ok so_far, w)
    round_loop (l ∷ ls) so_far w =
        let (r, w') = sync_one (server l verify) zones wanted apply deletes w in
        elim (add_outcome so_far r) [
          | ok b ↦ round_loop ls b w'
          | refused ↦ (refused, w')
          | crashed ↦ (crashed, w')
        ]

  -- `netbox` is what `netbox_wanted` returned; `none` in it is `Refused`.
  unfoldable pub round : Env → ℕ → Bool → Option (List Text × List Entry) → Exec World Bool
  unfolding round_loop verify_of deletes_of piholes_from
  round env fuel apply none w = (refused, w)
  round env fuel apply (some (zones, wanted)) w = elim (piholes_from env fuel) [
    | none ↦ (crashed, w)
    | some logins ↦ round_loop zones wanted apply (deletes_of env) (verify_of env) logins true w
  ]

  -- One turn of the loop of `main`: whether it went well, which is also whether the health file
  -- is touched; a refusal is reported and the next turn follows.
  unfoldable pub turn : Env → ℕ → Bool → Option (List Text × List Entry) → Exec World Bool
  unfolding round
  turn env fuel apply_flag netbox w =
      let apply = apply_flag || lower (or_default env.sync_apply (codes "false")) == codes "true" in
      let (r, w') = round env fuel apply netbox w in
      elim r [ ok b ↦ (ok b, w') | refused ↦ (ok false, w') | crashed ↦ (crashed, w') ]
