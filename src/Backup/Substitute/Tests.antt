-- ===== src/Backup/Substitute/Tests.antt =====
-- Runs of varsub.py's loading, seeding and pending rows, and witnesses.
use native.Mathlib.Decide.{ℕ_discrete}
use k8s_homelab.Prelude.{
  ◌>>=◌, Option, list_eq, refl, nat_eq, true, some, false, ◌∷◌, Bool, ◌≡◌, [], map, List,
}
use k8s_homelab.Prelude.Dict.{lookup, insert, Dict}
use k8s_homelab.Prelude.Decimal.{decimal}
use k8s_homelab.Prelude.Text.{split_on, codes, Text}
use k8s_homelab.Backup.Substitute.{Substitution}
use k8s_homelab.Ipv4.{is_ipv4}
use k8s_homelab.Backup.Substitute.Seeds.{
  has_inner_dot, chop_newline, is_email, emails_in, rule_hosts, texts_of, tls_hosts, ingress_hosts,
  last_two, registrable_domain, count_hosts,
}
use k8s_homelab.Backup.Substitute.Seeds.{
  dominant_domains, issuer_candidates, volume_candidates, candidates_of, next_from,
  next_placeholder, new_entries, auto_seed_candidates,
}
use k8s_homelab.Json.{
  Values, str_value, is_truthy, get, bool, no_fields, no_values, list, text, dict, field, value,
  Value, Fields,
}
use k8s_homelab.Backup.Substitute.Seeded.{
  auto_seed_candidates-AreSeeded, placeholders_of, literals_of, AreSeeded,
}
use k8s_homelab.Backup.Substitute.Entries.{
  is_name_rest, is_name_char, lstrip_braces, is_name_start, from_live, rstrip_braces,
  normalize_placeholder, cache_rows, Entry, var_name,
}
use k8s_homelab.Backup.Substitute.Entries.{pending_row, load_substitutions, NewValue, PendingRow}
use k8s_homelab.Backup.Substitute.Cache.{load_substitutions-from_live, substitutions_of}

no_repr : Value → Text
no_repr v = []

abbrev config : Dict Text Text
config = (codes "TZ", codes "UTC") ∷ (codes "SUFFIX", []) ∷ []

abbrev secret : Dict Text Text
secret = (codes "EMAIL", codes "me@example.com") ∷ []

-- The decoding of this test is that of a Secret that holds plain texts.
abbrev plain : Text → Text
plain t = t

load_substitutions-from_live_example :
    substitutions_of
      (load_substitutions no_repr (cache_rows (from_live plain (some secret) (some config))))
    ≡ substitutions_of (from_live plain (some secret) (some config))
load_substitutions-from_live_example =
    load_substitutions-from_live no_repr plain (some secret) (some config)

loading : Values → List Entry
unfolding load_substitutions normalize_placeholder is_name_start is_name_char is_name_rest get
    is_truthy str_value list_eq nat_eq ℕ_discrete
loading vs = load_substitutions no_repr vs

-- A bare name is wrapped, a missing placeholder is left out, and so is an empty text to replace.
loaded :
    substitutions_of (
      loading (
        value
          (dict (
            field
              (codes "literal")
              (text (codes "x"))
              (field (codes "placeholder") (text (codes "A_1")) no_fields)))
          (value (dict (field (codes "literal") (text (codes "y")) no_fields)) (
            value
              (dict (
                field
                  (codes "literal")
                  (text [])
                  (field (codes "placeholder") (text (codes "B")) no_fields)))
              (value
                (dict (
                  field (codes "literal") (text []) (
                    field
                      (codes "placeholder")
                      (text (codes "${C}"))
                      (field (codes "replace") (bool false) no_fields))))
                no_values)))))
    ≡ record { literal = codes "x"; placeholder = codes "${A_1}"; replace = true }
      ∷ record { literal = []; placeholder = codes "${C}"; replace = false }
      ∷ []
unfolding loading
loaded = refl

abbrev issuer : Fields
issuer = field (codes "metadata") (dict (field (codes "name") (text (codes "le")) no_fields)) (
    field (codes "spec")
      (dict (
        field (codes "acme")
          (dict (field (codes "email") (text (codes "me@example.com")) no_fields)) no_fields))
      no_fields)

abbrev volume : Fields
volume =
    field (codes "spec")
      (dict (
        field (codes "nfs") (dict (field (codes "server") (text (codes "nas")) no_fields))
          no_fields))
      no_fields

abbrev host_rule : Text → Value
host_rule host = dict (field (codes "host") (text host) no_fields)

abbrev ingress : Fields
ingress =
    field (codes "spec")
      (dict (
        field (codes "rules")
          (list (
            value (host_rule (codes "a.example.org")) (
              value (host_rule (codes "b.example.org"))
                (value (host_rule (codes "c.test")) no_values))))
          no_fields))
      no_fields

abbrev no_ipv6 : Text → Bool
no_ipv6 t = false

abbrev known : List Entry
known =
    record {
      substitution = record {
        literal = codes "nas";
        placeholder = codes "${ACME_EMAIL}";
        replace = true;
      };
      sensitivity = text (codes "secret");
      note = text [];
    }
    ∷ []

seeding : List Entry → Option (List Substitution)
unfolding auto_seed_candidates new_entries next_placeholder next_from candidates_of
    volume_candidates issuer_candidates dominant_domains count_hosts registrable_domain last_two
    ingress_hosts tls_hosts texts_of rule_hosts emails_in is_email chop_newline has_inner_dot get
    list_eq nat_eq ℕ_discrete split_on is_ipv4 decimal insert lookup
seeding es = auto_seed_candidates no_ipv6 (issuer ∷ []) (volume ∷ []) (ingress ∷ []) es >>= λ new.
    some (substitutions_of new)

-- The e-mail address takes the next free name, the server is known, and of the domains the one of
-- two hosts is new.
seeded :
    seeding known
    ≡ some (
        record {
          literal = codes "me@example.com";
          placeholder = codes "${ACME_EMAIL_2}";
          replace = true;
        }
        ∷ record {
          literal = codes "example.org";
          placeholder = codes "${BASE_DOMAIN}";
          replace = true;
        }
        ∷ [])
unfolding seeding k8s_homelab.Prelude.Text.is_space k8s_homelab.Ipv4.address k8s_homelab.Ipv4.quad
seeded = refl

auto_seed_candidates-AreSeeded_example :
    (es : List Entry) × (auto_seed_candidates no_ipv6
        (issuer ∷ [])
        (volume ∷ [])
        (ingress ∷ [])
        known
      ≡ some es)
    × AreSeeded
        (candidates_of no_ipv6 (issuer ∷ []) (volume ∷ []) (ingress ∷ []))
        (literals_of known)
        (placeholders_of known)
        es
auto_seed_candidates-AreSeeded_example =
    auto_seed_candidates-AreSeeded no_ipv6 (issuer ∷ []) (volume ∷ []) (ingress ∷ []) known

rows_for : NewValue → PendingRow
unfolding pending_row var_name rstrip_braces lstrip_braces nat_eq ℕ_discrete
rows_for e = pending_row (λ t. some (codes "plain")) e

encoded_row :
    rows_for (record {
      literal = codes "cGxhaW4=";
      placeholder = codes "${KEY}";
      note = [];
      secret_data = true;
    })
    ≡ record {
      name = codes "KEY";
      value = codes "plain";
      template = some (codes "{{ .KEY | b64enc }}");
      note = [];
    }
unfolding rows_for
encoded_row = refl
