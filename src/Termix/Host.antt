-- ===== src/Termix/Host.antt =====
-- termix-netbox-sync.py: the body of a write, and what of a host differs. `none` stands for the
-- AttributeError of a member that should be a dict.
use k8s_homelab.Prelude.{
  contains, nat_eq, list_eq, union, none, ◌||◌, ◌==◌, false, [], some, ◌++◌, ◌∷◌, ◌>>=◌,
  if◌then◌else◌, not, List, true, Option, String, Bool,
}
use k8s_homelab.Prelude.Sort.{sorted}
use k8s_homelab.Prelude.Text.{lower, codes, Text}
use k8s_homelab.Json.{
  str_value, str_of, null, list, get, is_text, number, no_fields, is_truthy, text, field, put,
  or_empty, bool, dict, Fields, Value,
}
use k8s_homelab.Termix.{tags_of, text_values, str_or_blank, put_all, owned_tag, Want}

abbrev pub rdp_plugin : Text
rdp_plugin = codes "remote-desktop"

abbrev pub flag : String → Bool → Text × Value
flag k b = (codes k, bool b)

abbrev pub entry : String → Text → Text × Value
entry k t = (codes k, text t)

-- The members of an RDP host's login.
abbrev pub rdp_auth : Value → Value
rdp_auth credential_id = dict (
    field (codes "rdp")
      (dict (
        field (codes "authType") (text (codes "credential"))
          (field (codes "credentialId") credential_id no_fields)))
      no_fields)

abbrev pub synced_rdp : Want → List (Text × Value)
synced_rdp want =
    entry "ip" want.ip ∷ (codes "port", number want.port) ∷ entry "folder" want.folder ∷ []

abbrev pub synced : Want → List (Text × Value)
synced want =
    entry "ip" want.ip
    ∷ (codes "port", number want.port)
    ∷ entry "username" want.username
    ∷ entry "folder" want.folder
    ∷ []

abbrev pub rdp_update : Want → Value → List (Text × Value)
rdp_update want credential_id =
    synced_rdp want
    ++ entry "name" want.name
      ∷ entry "connectionType" (codes "rdp")
      ∷ flag "enableSsh" false
      ∷ entry "authType" (codes "none")
      ∷ (codes "credentialId", null)
      ∷ flag "overrideCredentialUsername" false
      ∷ entry "username" []
      ∷ (codes "protocolAuth", rdp_auth credential_id)
      ∷ []

abbrev pub ssh_update : Want → Value → List (Text × Value)
ssh_update want credential_id =
    synced want
    ++ entry "name" want.name
      ∷ entry "connectionType" (codes "ssh")
      ∷ entry "authType" (codes "credential")
      ∷ (codes "credentialId", credential_id)
      ∷ flag "overrideCredentialUsername" true
      ∷ flag "enableSsh" true
      ∷ []

abbrev pub host_update : Want → Value → List (Text × Value)
host_update want credential_id =
    if want.is_rdp then rdp_update want credential_id else ssh_update want credential_id

-- `bool(have.get("statusCheckEnabled", True))`
abbrev pub checked : Option Value → Bool
checked none = true
checked (some v) = is_truthy (some v)

abbrev pub with_status : Bool → List Text → Fields → Fields
with_status enabled tags have =
    put (codes "tags") (list (text_values tags))
      (put (codes "statusCheckEnabled") (bool enabled) have)

module _ (repr : Value → Text) where
  -- The body before the wanted fields; without a host the dict is empty.
  unfoldable pub body_start : Fields → Option Fields
  body_start no_fields = some (with_status true (owned_tag ∷ []) no_fields)
  body_start (field k v o) = tags_of repr (field k v o) >>= λ tags. some (
      with_status (checked (get (codes "statusCheckEnabled") (field k v o)))
        (sorted (union tags (owned_tag ∷ []))) (field k v o))

  unfoldable pub host_body : Want → Value → Fields → Option Fields
  host_body want credential_id have =
      body_start have >>= λ body. some (put_all (host_update want credential_id) body)

  -- The keys of the wanted fields that a host has otherwise.
  unfoldable pub differing : List (Text × Value) → Fields → List Text
  differing [] have = []
  differing ((k, v) ∷ kvs) have =
      let rest = differing kvs have in
      if str_or_blank repr (get k have) == str_value repr v then rest else k ∷ rest

  abbrev pub lacks_credential : Fields → Value → Bool
  lacks_credential login credential_id =
      not (is_text (codes "credential") (get (codes "authType") login))
      || not (str_of repr (get (codes "credentialId") login) == str_value repr credential_id)

  abbrev pub named_if : Bool → String → List Text
  named_if test name = if test then codes name ∷ [] else []

  unfoldable pub differs_rdp : Fields → Want → Value → Option (List Text)
  differs_rdp have want credential_id = or_empty (get (codes "protocolAuth") have) >>= λ auth.
      or_empty (get (codes "rdp") auth) >>= λ login. some (
        differing (synced_rdp want) have
        ++ named_if (not (is_text (codes "rdp") (get (codes "connectionType") have)))
            "connection type"
        ++ named_if (lacks_credential login credential_id) "credential")

  unfoldable pub differs : Fields → Want → Value → Option (List Text)
  differs have want credential_id =
      if want.is_rdp
      then differs_rdp have want credential_id
      else some (
          differing (synced want) have
          ++ named_if (lacks_credential have credential_id) "credential"
          ++ named_if (not (is_truthy (get (codes "overrideCredentialUsername") have)))
              "username override")

  -- The remote-desktop plugin's settings of a wanted host.
  abbrev pub rdp_settings : Want → Fields
  rdp_settings want =
      field (codes "enableRdp") (bool true) (field (codes "rdpPort") (number want.port) no_fields)

  abbrev pub same_setting : Option Value → Text → Bool
  same_setting current wanted = lower (str_of repr current) == lower wanted

  unfoldable pub rdp_settings_differ : Fields → Want → Option Bool
  rdp_settings_differ have want = or_empty (get (codes "pluginSettings") have) >>= λ settings.
      or_empty (get rdp_plugin settings) >>= λ current. some (
        not (same_setting (get (codes "enableRdp") current) (codes "True"))
        || not (same_setting (get (codes "rdpPort") current) want.port))

  -- `OWNED_TAG in tags_of(h)`
  unfoldable pub is_owned : Fields → Option Bool
  is_owned h = tags_of repr h >>= λ tags. some (contains tags owned_tag)
