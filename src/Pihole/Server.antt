-- ===== src/Pihole/Server.antt =====
-- `PiHole` and `sync_one` of netbox_pihole_sync.py. The Pi-hole's API is not part of the
-- repository: it is a parameter, a state with the requests that the class makes.
pub mod Requests
pub mod Laws
use k8s_homelab.Prelude.{
  ℕ, ◌≡◌, List, [], ◌∷◌, Bool, true, false, not, ◌&&◌, ◌||◌, Option, none, some, if◌then◌else◌,
  contains, ◌==◌, list_eq, nat_eq,
}
use k8s_homelab.Prelude.Text.{Text}
use k8s_homelab.Pihole.Plan.{Entry, Plan, plan}

pub data Kind : Type 0 where
  hosts cname_records : Kind

pub data Method : Type 0 where
  delete put : Method

-- `refused` is the exception `Refused`; `crashed` is any other, which no caller catches.
pub data Result {ℓ} (A : Type ℓ) : Type ℓ where
  ok : A → Result A
  refused : Result A
  crashed : Result A

-- What a step leaves behind stays, also when it raises.
abbrev pub Exec : Type 0 → Type 0 → Type 0
Exec S A = S → Result A × S

module _ {S A B : Type 0} where
  abbrev pub continue : Result A → (A → Exec S B) → Exec S B
  continue (ok a) f s = f a s
  continue refused f s = (refused, s)
  continue crashed f s = (crashed, s)

  infixl 10 ◌>>=◌ ◌>>◌
  abbrev pub ◌>>=◌ : Exec S A → (A → Exec S B) → Exec S B
  ◌>>=◌ m f s = let (r, s') = m s in continue r f s'

  abbrev pub ◌>>◌ : Exec S A → Exec S B → Exec S B
  m >> n = m >>= λ _. n

abbrev pub pure : {S A : Type 0} → A → Exec S A
pure a s = (ok a, s)

-- The requests: the login of the constructor, `lists`, `change` and `close`, which never raises.
pub record Server (State : Type 0) : Type 0 where
  pub login : Exec State Unit
  pub lists : Exec State (List Text × List Text)
  pub change : Method → Kind → Text → Exec State Unit
  pub close : State → State

abbrev pub or_crash : {S A : Type 0} → Option A → Exec S A
or_crash none s = (crashed, s)
or_crash (some a) s = (ok a, s)

abbrev pub is_nil : List Text → Bool
is_nil [] = true
is_nil (l ∷ ls) = false

-- `any(again[:4])`, and whether a plan asks for a change at all.
unfoldable pub outstanding : Plan → Bool
outstanding p =
    not (is_nil p.remove_hosts)
    || not (is_nil p.add_hosts)
    || not (is_nil p.remove_cnames)
    || not (is_nil p.add_cnames)

module _ {State : Type 0} (server : Server State) where
  open server use {login, lists, change, close}

  -- One request for each line, in order; the first that is refused ends the round.
  unfoldable pub change_all : Method → Kind → List Text → Exec State Unit
  change_all m k [] = pure tt
  change_all m k (l ∷ ls) = do change m k l; change_all m k ls

  -- The `for` loops of `sync_one`: the removals first.
  unfoldable pub carry_out : Plan → Exec State Unit
  unfolding change_all
  carry_out p = do
    change_all delete hosts p.remove_hosts
    change_all delete cname_records p.remove_cnames
    change_all put hosts p.add_hosts
    change_all put cname_records p.add_cnames

  module _ (zones : List Text) (wanted : List Entry) (apply deletes : Bool) where
    -- The last reading: whether the Pi-hole matches.
    unfoldable pub read_back : Exec State Bool
    unfolding outstanding
    read_back = do
      now ← lists
      again ← or_crash (plan zones wanted deletes now.0 now.1)
      pure (not (outstanding again))

    unfoldable pub sync_body : Exec State Bool
    unfolding outstanding read_back
    sync_body = do
      now ← lists
      p ← or_crash (plan zones wanted deletes now.0 now.1)
      if not apply || not (outstanding p) then pure true else do carry_out p; read_back

    abbrev finally : Exec State Bool → Exec State Bool
    finally m s = let (r, s') = m s in (r, close s')

    unfoldable pub sync_one : Exec State Bool
    unfolding sync_body
    sync_one = do login; finally sync_body
