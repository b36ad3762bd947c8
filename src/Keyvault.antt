-- ===== src/Keyvault.antt =====
-- scripts/keyvault_copy.py: the names that Key Vault takes, and the run's errors.
pub mod Names
pub mod Source
pub mod Vault
pub mod SignIn
pub mod Main
pub mod Writes
pub mod Holds
pub mod Settles
pub mod Judge
pub mod Differ
pub mod Copied
pub mod Run
pub mod Laws
pub mod Tests
use k8s_homelab.Prelude.{
  refl, inr, inl, ◌⊎◌, ◌≡◌, none, list_eq, some, ◌||◌, nat_eq, not, length, ◌∷◌, ◌==◌, [], ◌&&◌,
  true, all, map, if◌then◌else◌, false, leb, List, Bool, ℕ,
}
use k8s_homelab.Prelude.Dict.{lookup, insert, Dict}
use k8s_homelab.Prelude.Text.{lower, Text}

-- Why a run stops; each stands for the text of the source's `Stop`.
pub data Stop : Type 0 where
  not_a_name : Text → Text → Stop
  same_name : Text → Text → Text → Stop
  not_ready : Stop
  no_variables : Stop
  not_held : Text → Stop
  built_otherwise : Text → Stop
  not_text : Text → Stop
  not_encoded : Text → Stop
  no_answer : Text → Stop
  refused : Text → ℕ → Text → Stop
  not_a_vault : Stop
  not_read : Stop
  both_secrets : Stop
  unset : List Text → Stop
  not_signed_in : Stop
  one_name : Text → Text → Stop
  two_values : Text → Text → Text → Stop
  not_in_map : List Text → Stop
  not_an_entry : ℕ → Stop

pub data Result (A : Type 0) : Type 0 where
  done : A → Result A
  stopped : Stop → Result A

abbrev pub is_done : {A : Type 0} → Result A → Bool
is_done (done a) = true
is_done (stopped s) = false

-- `variable.replace("_", "-")`
abbrev dashed : ℕ → ℕ
dashed c = if c == b'_' then b'-' else c

unfoldable pub keyvault_name : Text → Text
keyvault_name variable = map dashed variable

-- [A-Za-z0-9-]
unfoldable pub is_name_char : ℕ → Bool
is_name_char c =
    (leb b'A' c && leb c b'Z') || (leb b'a' c && leb c b'z') || (leb 48 c && leb c 57) || c == b'-'

-- `SECRET_NAME.fullmatch`
unfoldable pub is_secret_name : Text → Bool
is_secret_name name = all is_name_char name && leb 1 (length name) && leb (length name) 127

abbrev is_letter : ℕ → Bool
is_letter c = (leb b'A' c && leb c b'Z') || (leb b'a' c && leb c b'z')

abbrev ends_vault : Text → Bool
ends_vault [] = false
ends_vault (c ∷ []) = is_name_char c && not (c == b'-')
ends_vault (c ∷ cs) = let rest = ends_vault cs in is_name_char c && rest

-- `VAULT_NAME.fullmatch`
unfoldable pub is_vault_name : Text → Bool
is_vault_name [] = false
is_vault_name (c ∷ cs) = is_letter c && leb 2 (length cs) && leb (length cs) 23 && ends_vault cs

-- `check_names`, from the names given so far and the variable that each is taken by.
unfoldable pub check_from : List Text → Dict Text Text → Dict Text Text → Result (Dict Text Text)
check_from [] names taken = done names
check_from (v ∷ vs) names taken =
    let rest =
      check_from vs (insert v (keyvault_name v) names) (insert (lower (keyvault_name v)) v taken) in
    if not (is_secret_name (keyvault_name v))
    then stopped (not_a_name v (keyvault_name v))
    else elim (lookup (lower (keyvault_name v)) taken) [
      | some other ↦ stopped (same_name v other (keyvault_name v))
      | none ↦ rest
    ]

unfoldable pub check_names : List Text → Result (Dict Text Text)
check_names variables = check_from variables [] []

pub Result-cases :
    {A : Type 0} (r : Result A) → ((s : Stop) × (r ≡ stopped s)) ⊎ ((a : A) × (r ≡ done a))
Result-cases (stopped s) = inl (s, refl)
Result-cases (done a) = inr (a, refl)

pub is_done-stopped : {A : Type 0} (r : Result A) → is_done r ≡ false → (s : Stop) × (r ≡ stopped s)
is_done-stopped (stopped s) h = (s, refl)
is_done-stopped (done a) h = absurd (cc)
