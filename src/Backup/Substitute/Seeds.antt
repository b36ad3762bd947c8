-- ===== src/Backup/Substitute/Seeds.antt =====
-- varsub.py: auto_seed_candidates. The objects are as the API server gives them: dicts where the source
-- asks for a dict, and names, servers and hosts that are texts. Whether a text is an IPv6 address is a
-- parameter.
use k8s_homelab.Prelude.{
  nat_eq, is_nil, list_eq, ◌>>=◌, ◌&&◌, leb, union, any, length, ◌||◌, zero, true, false, suc, not,
  ◌==◌, contains, filter, ◌++◌, some, Bool, [], if◌then◌else◌,
}
use k8s_homelab.Prelude.{◌∷◌, none, map, Option, ℕ, List}
use k8s_homelab.Prelude.Text.{is_space, is_empty, codes, Text, split_on}
use k8s_homelab.Prelude.Dict.{lookup, insert, Dict}
use k8s_homelab.Prelude.Decimal.{decimal}
use k8s_homelab.Json.{
  null, field, number, bool, no_values, no_fields, text, list, value, dict, get, Fields, Values,
  Value,
}
use k8s_homelab.Ipv4.{is_ipv4}
use k8s_homelab.Backup.Substitute.Entries.{wrapped, Entry}

abbrev pub fields_at : Text → Fields → Fields
fields_at k o = elim (get k o) [ some (dict d) ↦ d | _ ↦ no_fields ]

abbrev pub values_at : Text → Fields → Values
values_at k o = elim (get k o) [ some (list vs) ↦ vs | _ ↦ no_values ]

abbrev pub text_at : Text → Fields → Text
text_at k o = elim (get k o) [ some (text t) ↦ t | _ ↦ [] ]

-- `metadata.name`, or a question mark.
abbrev pub object_name : Fields → Text
object_name o = elim (get (codes "name") (fields_at (codes "metadata") o)) [
  | some (text t) ↦ t
  | _ ↦ codes "?"
]

-- A dot between two characters.
unfoldable pub has_inner_dot : Text → Bool
has_inner_dot [] = false
has_inner_dot (c ∷ []) = false
has_inner_dot (c ∷ d ∷ s) = let rest = has_inner_dot (d ∷ s) in c == b'.' || rest

abbrev is_mail_host : Text → Bool
is_mail_host [] = false
is_mail_host (c ∷ s) = has_inner_dot s

abbrev is_mail_parts : Text × List Text → Bool
is_mail_parts (user, host ∷ []) = not (is_empty user) && is_mail_host host
is_mail_parts (user, hosts) = false

-- A text less one newline at its end.
unfoldable pub chop_newline : Text → Text
chop_newline [] = []
chop_newline (c ∷ s) = let rest = chop_newline s in if c == 10 && is_nil s then [] else c ∷ rest

-- `_EMAIL_RE.match`
unfoldable pub is_email : Text → Bool
unfolding split_on
is_email t = not (any is_space (chop_newline t)) && is_mail_parts (split_on b'@' (chop_newline t))

-- `_find_strings_matching` with `_EMAIL_RE`.
unfoldable mutual
  pub emails_in : Value → List Text
  emails_in (dict o) = emails_in_fields o
  emails_in (list vs) = emails_in_values vs
  emails_in (text t) = if is_email t then t ∷ [] else []
  emails_in null = []
  emails_in (bool b) = []
  emails_in (number n) = []

  pub emails_in_values : Values → List Text
  emails_in_values no_values = []
  emails_in_values (value v vs) = emails_in v ++ emails_in_values vs

  pub emails_in_fields : Fields → List Text
  emails_in_fields no_fields = []
  emails_in_fields (field k v o) = emails_in v ++ emails_in_fields o

abbrev unless_blank : Text → List Text → List Text
unless_blank [] hosts = hosts
unless_blank (c ∷ host) hosts = (c ∷ host) ∷ hosts

-- `_extract_ingress_hostnames`
unfoldable pub rule_hosts : Values → List Text
rule_hosts no_values = []
rule_hosts (value (dict rule) vs) = unless_blank (text_at (codes "host") rule) (rule_hosts vs)
rule_hosts (value v vs) = rule_hosts vs

unfoldable pub texts_of : Values → List Text
texts_of no_values = []
texts_of (value (text t) vs) = t ∷ texts_of vs
texts_of (value v vs) = texts_of vs

unfoldable pub tls_hosts : Values → List Text
tls_hosts no_values = []
tls_hosts (value (dict tls) vs) = texts_of (values_at (codes "hosts") tls) ++ tls_hosts vs
tls_hosts (value v vs) = tls_hosts vs

unfoldable pub ingress_hosts : List Fields → List Text
ingress_hosts [] = []
ingress_hosts (ing ∷ ings) =
    rule_hosts (values_at (codes "rules") (fields_at (codes "spec") ing))
    ++ (tls_hosts (values_at (codes "tls") (fields_at (codes "spec") ing)) ++ ingress_hosts ings)

-- The last two of some parts, joined by a dot.
unfoldable pub last_two : Text → List Text → Text
last_two a [] = a
last_two a (b ∷ []) = a ++ b'.' ∷ b
last_two a (b ∷ c ∷ parts) = last_two b (c ∷ parts)

unfoldable pub registrable_domain : Text → Text
unfolding split_on
registrable_domain host = let (a, parts) = split_on b'.' host in last_two a parts

abbrev or_none : Option (List Text) → List Text
or_none none = []
or_none (some hosts) = hosts

-- The distinct hosts of each domain.
unfoldable pub count_hosts : List Text → Dict Text (List Text) → Dict Text (List Text)
count_hosts [] counts = counts
count_hosts (host ∷ hosts) counts = count_hosts hosts (
    insert (registrable_domain host)
      (union (or_none (lookup (registrable_domain host) counts)) (host ∷ [])) counts)

unfoldable pub dominant_domains : ℕ → List Fields → List Text
dominant_domains min_hosts ings =
    map (λ e. e.0) (filter (λ e. leb min_hosts (length e.1)) (count_hosts (ingress_hosts ings) []))

pub record Candidate : Type 0 where
  pub literal : Text
  pub base : Text
  pub note : Text

unfoldable pub issuer_candidates : List Fields → List Candidate
issuer_candidates [] = []
issuer_candidates (issuer ∷ issuers) =
    map
      (λ email. record {
        literal = email;
        base = codes "ACME_EMAIL";
        note = codes "ACME account email (ClusterIssuer " ++ object_name issuer ++ codes ")";
      })
      (emails_in (dict (fields_at (codes "acme") (fields_at (codes "spec") issuer))))
    ++ issuer_candidates issuers

-- `classify_ip(server) is None`
abbrev is_hostname : (Text → Bool) → Text → Bool
is_hostname is_ipv6 server = not (is_empty server) && not (is_ipv4 server || is_ipv6 server)

abbrev pub server_of : Fields → Text
server_of pv = text_at (codes "server") (fields_at (codes "nfs") (fields_at (codes "spec") pv))

unfoldable pub volume_candidates : (Text → Bool) → List Fields → List Candidate
volume_candidates is_ipv6 [] = []
volume_candidates is_ipv6 (pv ∷ pvs) =
    let rest = volume_candidates is_ipv6 pvs in
    if is_hostname is_ipv6 (server_of pv)
    then record {
      literal = server_of pv;
      base = codes "NFS_HOSTNAME";
      note = codes "NFS server hostname (PV " ++ object_name pv ++ codes ")";
    }
      ∷ rest
    else rest

unfoldable pub candidates_of :
    (Text → Bool) → List Fields → List Fields → List Fields → List Candidate
candidates_of is_ipv6 issuers pvs ings =
    issuer_candidates issuers
    ++ (volume_candidates is_ipv6 pvs
        ++ map
            (λ domain. record {
              literal = domain;
              base = codes "BASE_DOMAIN";
              note = codes "domain used across multiple Ingress hosts";
            })
            (dominant_domains 2 ings))

-- `${base_i}`
abbrev pub numbered : Text → ℕ → Text
numbered base i = wrapped (base ++ b'_' ∷ decimal i)

-- The loop of `_next_placeholder`; none when the fuel runs out.
unfoldable pub next_from : ℕ → Text → ℕ → List Text → Option Text
next_from zero base i taken = none
next_from (suc fuel) base i taken =
    let rest = next_from fuel base (suc i) taken in
    if contains taken (numbered base i) then rest else some (numbered base i)

unfoldable pub next_placeholder : Text → List Text → Option Text
next_placeholder base taken =
    if contains taken (wrapped base)
    then next_from (suc (length taken)) base 2 taken
    else some (wrapped base)

abbrev pub new_entry : Candidate → Text → Entry
new_entry c placeholder = record {
  substitution = record { literal = c.literal; placeholder = placeholder; replace = true };
  sensitivity = text (codes "secret");
  note = text c.note;
}

-- The entries of the candidates that are new, of the literals and the placeholders there are.
unfoldable pub new_entries : List Candidate → List Text → List Text → Option (List Entry)
new_entries [] literals taken = some []
new_entries (c ∷ cs) literals taken = elim (contains literals c.literal) [
  | true ↦ new_entries cs literals taken
  | false ↦ next_placeholder c.base taken >>= λ placeholder.
      new_entries cs (c.literal ∷ literals) (placeholder ∷ taken) >>= λ es.
      some (new_entry c placeholder ∷ es)
]

unfoldable pub auto_seed_candidates :
    (Text → Bool) → List Fields → List Fields → List Fields → List Entry → Option (List Entry)
auto_seed_candidates is_ipv6 issuers pvs ings known =
    new_entries (candidates_of is_ipv6 issuers pvs ings) (map (λ e. e.substitution.literal) known)
      (map (λ e. e.substitution.placeholder) known)
