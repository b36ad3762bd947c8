-- ===== src/Termix/Wanted.antt =====
-- termix-netbox-sync.py: wanted_hosts. The letters of a service's name are ASCII ones; `none` stands for
-- the ValueError of an address.
use k8s_homelab.Prelude.{
  ◌++◌, pair_eq, none, inr, length, drop, nat_eq, list_eq, ◌>>=◌, ◌||◌, inl, ◌&&◌, [], not, ◌==◌,
  ◌⊎◌, some, ◌∷◌, false, List, contains, if◌then◌else◌, leb, ℕ,
}
use k8s_homelab.Prelude.{Option, Bool}
use k8s_homelab.Prelude.Text.{starts_with, is_empty, lower, codes, strip, Text}
use k8s_homelab.Prelude.Dict.{insert, lookup, Dict}
use k8s_homelab.Prelude.Decimal.{decimal}
use k8s_homelab.Termix.Netbox.{
  no_address_found, username_for, no_credential_named, no_username, Prefix, or_blank, Address, Skip,
  Service, Object,
}
use k8s_homelab.Termix.Reach.{reached, management, has_text}
use k8s_homelab.Termix.{no_login_tag, rdp_login, Want, Login}
use k8s_homelab.Ipv4.{Network}

abbrev is_word_char : ℕ → Bool
is_word_char c =
    (leb 48 c && leb c 57) || (leb b'a' c && leb c b'z') || (leb b'A' c && leb c b'Z') || c == b'_'

abbrev begins_word : Text → Bool
begins_word [] = false
begins_word (c ∷ s) = is_word_char c

-- The word stands in the lower-case text, whose first letter follows a letter of a word or not.
unfoldable pub has_word : Text → Bool → Text → Bool
has_word word after [] = false
has_word word after (c ∷ s) =
    (not after && starts_with (c ∷ s) word && not (begins_word (drop (length word) (c ∷ s))))
    || has_word word (is_word_char c) s

-- The first port of the last service of each parent that is named for the protocol.
abbrev add_port : Text → Service → Option ℕ → List ℕ → Dict (Text × ℕ) ℕ → Dict (Text × ℕ) ℕ
add_port proto s (some id) (port ∷ ports) known =
    if has_word proto false (lower s.name) && not (id == 0)
    then insert (s.parent_type, id) port known
    else known
add_port proto s parent ports known = known

unfoldable pub ports_from : Text → List Service → Dict (Text × ℕ) ℕ → Dict (Text × ℕ) ℕ
ports_from proto [] known = known
ports_from proto (s ∷ services) known =
    ports_from proto services (add_port proto s s.parent s.ports known)

abbrev kind_of : Bool → Text
kind_of is_vm = if is_vm then codes "vm" else codes "device"

-- The port of the first service whose parent has the id, and the kind in the name of its type.
unfoldable pub port_for : Object → Dict (Text × ℕ) ℕ → ℕ → ℕ
port_for o [] default_port = default_port
port_for o (((kind, id), port) ∷ known) default_port =
    let rest = port_for o known default_port in
    if id == o.id && has_text (kind_of o.is_vm) kind then port else rest

abbrev credential_named : Object → Text
credential_named o = strip (or_blank (lookup (codes "termix_credential") o.context))

abbrev name_of_role : Option Text → Text
name_of_role (some (c ∷ s)) = c ∷ s
name_of_role _ = codes "Other"

abbrev is_rdp_object : Object → Bool
is_rdp_object o = contains o.tags (codes "rdp")

abbrev login_found : Text → Option Text → Login → Option (Skip ⊎ (Text × Login))
login_found name none no_login_tag = none
login_found name none source = some (inl (no_username name source))
login_found name (some []) source = some (inl (no_username name source))
login_found name (some (c ∷ s)) source = some (inr (c ∷ s, source))

module _ (env : Dict Text Text) (default_credential : Text) where
  -- The login of an object: a reason to leave it out, or its username; none without a login tag.
  unfoldable pub login_of : Object → Option (Skip ⊎ (Text × Login))
  login_of o =
      if is_rdp_object o
      then some (
          if is_empty (credential_named o)
          then inl (no_credential_named o.name)
          else inr ([], rdp_login))
      else let (user, source) = username_for env o.tags o.context in login_found o.name user source

  abbrev port_of : Object → List Service → ℕ
  port_of o services =
      if is_rdp_object o
      then port_for o (ports_from (codes "rdp") services []) 3389
      else port_for o (ports_from (codes "ssh") services []) 22

  abbrev full_or_default : Text → Text
  full_or_default [] = default_credential
  full_or_default (c ∷ s) = c ∷ s

  abbrev make_want : Object → List Service → Text → Login → Text × Bool → Want
  make_want o services user source (found, by_primary) = record {
    name = o.name;
    ip = found;
    port = decimal (port_of o services);
    username = user;
    folder = name_of_role o.role;
    login = source;
    by_primary = by_primary;
    credential = full_or_default (credential_named o);
    is_rdp = is_rdp_object o;
  }

  -- One object, beside the hosts and the reasons so far.
  unfoldable pub want_object :
      List Network
      → List Address
      → List Service
      → Object
      → Dict Text Want × List Skip
      → Option (Dict Text Want × List Skip)
  want_object nets addresses services o (hosts, skipped) = elim (login_of o) [
    | none ↦ some (hosts, skipped)
    | some (inl why) ↦ some (hosts, skipped ++ why ∷ [])
    | some (inr (user, source)) ↦ reached nets addresses o >>= λ found. some (elim found [
      | none ↦ (hosts, skipped ++ no_address_found o.name ∷ [])
      | some at ↦ (insert o.name (make_want o services user source at) hosts, skipped)
    ])
  ]

  unfoldable pub want_objects :
      List Network
      → List Address
      → List Service
      → List Object
      → Dict Text Want × List Skip
      → Option (Dict Text Want × List Skip)
  want_objects nets addresses services [] s = some s
  want_objects nets addresses services (o ∷ later) s =
      want_object nets addresses services o s >>= λ s'.
      want_objects nets addresses services later s'

  unfoldable pub wanted_hosts :
      List Object → List Address → List Prefix → List Service → Option (Dict Text Want × List Skip)
  wanted_hosts objects addresses prefixes services =
      management prefixes >>= λ nets. want_objects nets addresses services objects ([], [])
