-- ===== src/Keyvault/SignIn.antt =====
-- keyvault_copy.py: how access_token signs in, by the environment. A variable that is not set reads as
-- the empty text, which the source takes for it. The sign-in itself is a parameter of main.
use k8s_homelab.Prelude.{list_eq, nat_eq, any, not, ◌==◌, if◌then◌else◌, [], ◌∷◌, filter, List}
use k8s_homelab.Prelude.Text.{lower, is_empty, codes, Text}
use k8s_homelab.Keyvault.{both_secrets, unset, stopped, done, Result}

pub data SignIn : Type 0 where
  by_proxy : Text → Text → SignIn
  service_principal : Text → Text → Text → SignIn
  azure_cli : SignIn

abbrev client_id : Text
client_id = codes "AZURE_CLIENT_ID"

abbrev client_secret : Text
client_secret = codes "AZURE_CLIENT_SECRET"

abbrev tenant_id : Text
tenant_id = codes "AZURE_TENANT_ID"

unfoldable pub sp_variables : List Text
sp_variables = client_id ∷ client_secret ∷ tenant_id ∷ []

abbrev missing : (Text → Text) → List Text → List Text
missing environ names = filter (λ n. is_empty (environ n)) names

abbrev by_proxy_from : (Text → Text) → List Text → Result SignIn
by_proxy_from environ [] = done (by_proxy (environ client_id) (environ tenant_id))
by_proxy_from environ (n ∷ ns) = stopped (unset (n ∷ ns))

abbrev principal_from : (Text → Text) → List Text → Result SignIn
principal_from environ [] =
    done (service_principal (environ client_id) (environ client_secret) (environ tenant_id))
principal_from environ (n ∷ ns) = stopped (unset (n ∷ ns))

unfoldable pub sign_in : (Text → Text) → Result SignIn
sign_in environ =
    if lower (environ (codes "AZURE_CLIENT_SECRET_BY_PROXY")) == codes "true"
    then if not (is_empty (environ client_secret))
      then stopped both_secrets
      else by_proxy_from environ (missing environ (client_id ∷ tenant_id ∷ []))
    else if any (λ n. not (is_empty (environ n))) sp_variables
    then principal_from environ (missing environ sp_variables)
    else done azure_cli
