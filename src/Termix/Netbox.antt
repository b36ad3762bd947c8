-- ===== src/Termix/Netbox.antt =====
-- termix-netbox-sync.py: username_for, and the members of NetBox's answers that are read. A local
-- context's values are texts.
use k8s_homelab.Prelude.{
  contains, list_eq, nat_eq, ◌&&◌, ◌==◌, not, if◌then◌else◌, some, ◌∷◌, ℕ, [], none, Option, List,
  Bool,
}
use k8s_homelab.Prelude.Dict.{lookup, Dict}
use k8s_homelab.Prelude.Text.{strip, is_empty, codes, Text}
use k8s_homelab.Termix.{named, looked_up, no_login_tag, Login}

-- Where the username of a tag comes from.
pub data Source : Type 0 where
  env_of : Text → Source
  fixed : Text → Source
  context_of : Text → Source

unfoldable pub accounts : List (Text × Source)
accounts =
    (codes "debian", env_of (codes "TERMIX_SSH_ADMIN_USER"))
    ∷ (codes "openwrt_aps", fixed (codes "root"))
    ∷ (codes "thingino", fixed (codes "root"))
    ∷ (codes "synology", env_of (codes "TERMIX_SSH_SYNOLOGY_USER"))
    ∷ (codes "nas", env_of (codes "TERMIX_SSH_TERRAMASTER_USER"))
    ∷ (codes "bastion-key", context_of (codes "termix_user"))
    ∷ []

abbrev pub or_blank : Option Text → Text
or_blank none = []
or_blank (some t) = t

abbrev or_none : Text → Option Text
or_none [] = none
or_none (c ∷ t) = some (c ∷ t)

abbrev looked_for : Text → Text → Text → Option Text × Login
looked_for tag key found = (or_none found, looked_up tag key (not (is_empty found)))

-- The username that a source gives a tag.
unfoldable pub source_user : Dict Text Text → Dict Text Text → Text → Source → Option Text × Login
source_user env context tag (fixed name) = (some name, named tag)
source_user env context tag (context_of key) =
    looked_for tag key (strip (or_blank (lookup key context)))
source_user env context tag (env_of key) = looked_for tag key (strip (or_blank (lookup key env)))

unfoldable pub user_among :
    Dict Text Text → Dict Text Text → List Text → List (Text × Source) → Option Text × Login
user_among env context tags [] = (none, no_login_tag)
user_among env context tags ((tag, source) ∷ later) =
    let rest = user_among env context tags later in
    if tag == codes "nas" && contains tags (codes "synology")
    then rest
    else if contains tags tag
    then source_user env context tag source
    else rest

unfoldable pub username_for : Dict Text Text → List Text → Dict Text Text → Option Text × Login
username_for env tags context = user_among env context tags accounts

pub record Primary : Type 0 where
  pub address : Text
  pub dns_name : Text

-- A device, or a virtual machine; the address of its primary IPv4, if it has one.
pub record Object : Type 0 where
  pub is_vm : Bool
  pub id : ℕ
  pub name : Text
  pub tags : List Text
  pub context : Dict Text Text
  pub role : Option Text
  pub primary_ip4 : Option Primary

-- An address, with the type it is assigned to and the id of its device or virtual machine.
pub record Address : Type 0 where
  pub object_type : Text
  pub parent : Option ℕ
  pub address : Text
  pub dns_name : Text

pub record Prefix : Type 0 where
  pub prefix : Text
  pub description : Text

pub record Service : Type 0 where
  pub name : Text
  pub ports : List ℕ
  pub parent_type : Text
  pub parent : Option ℕ

-- Why a host is left out.
pub data Skip : Type 0 where
  no_credential_named : Text → Skip
  no_username : Text → Login → Skip
  no_address_found : Text → Skip
  credential_count : Text → ℕ → Text → Skip
