-- ===== src/Backup/Secrets/Ips.antt =====
-- What secretscan.py's find_ip_addresses finds: addresses only, with their class, and those that are
-- written in a text.
use mathlib.Core.List.{append_assoc, append-nil}
use k8s_homelab.Prelude.{
  Bool-cases, ◌-◌, all-append, length, inr, ◌==◌, none, inl, refl, Option-cases, ◌∙◌, nat_eq,
  Option, pair_eq, list_eq, ◌∷◌, [], ◌++◌, arith, zero, map, suc, some,
}
use k8s_homelab.Prelude.{is_none, false, true, ◌≡◌, ◌<◌, contains, not, any, all, ℕ, Bool, List}
use k8s_homelab.Prelude.Text.{lower, Text}
use k8s_homelab.Prelude.Decimal.{is_digit}
use k8s_homelab.Backup.Secrets.Address.{
  placed, IpFinding, ip_safe_key_names, goes_on, first_head, dotted, is_image_tag, is_inside,
  octet_heads, ips_in_fields, joined_heads, last_of,
}
use k8s_homelab.Backup.Secrets.Address.{
  ips_in_values, number_heads, find_ip_addresses_in_text, match_address, classified,
  candidates_from, ips_in,
}
use k8s_homelab.Backup.Secrets.Classes.{read_address, class_of, Ipv6, v4}
use k8s_homelab.Json.{
  no_fields, no_values, null, field, Fields, value, Values, number, bool, text, list, dict, Value,
}
use k8s_homelab.Backup.Secrets.{key_path, index_path}
use k8s_homelab.Backup.Secrets.Octets.{match_address-is_none}
use k8s_homelab.Ipv4.Laws.{address-address_text}
use k8s_homelab.Backup.Secrets.Written.{match_address-address_text}
use k8s_homelab.Ipv4.{address_text, address}

candidates_from-is_none :
    (skip : ℕ) (before s : Text)
    → all (λ f. not (is_none (address f.1))) (candidates_from skip before s) ≡ true
unfolding candidates_from
candidates_from-is_none skip before [] = refl
candidates_from-is_none (suc skip) before (c ∷ s) =
    candidates_from-is_none skip (before ++ c ∷ []) s
candidates_from-is_none zero before (c ∷ s) =
    elim (Option-cases (match_address (last_of before) (c ∷ s))) [
      | inl e ↦ rw (e, candidates_from) (candidates_from-is_none zero (before ++ c ∷ []) s)
      | inr (m, e) ↦
          rw (e, candidates_from, match_address-is_none (last_of before) (c ∷ s) m e)
            (candidates_from-is_none (length m - 1) (before ++ c ∷ []) s)
    ]

-- Whether a text is an IPv4 address of this class.
abbrev pub is_classed : Ipv6 → Text → Text → Bool
is_classed ipv6 ip classification = elim (address ip) [
  | none ↦ false
  | some a ↦ classification == class_of ipv6 (v4 a)
]

classified-is_classed :
    (ipv6 : Ipv6) (found : List (Text × Text))
    → all (λ f. not (is_none (address f.1))) found ≡ true
    → all (λ f. is_classed ipv6 f.0 f.1) (classified ipv6 found) ≡ true
unfolding classified read_address
classified-is_classed ipv6 [] h = refl
classified-is_classed ipv6 ((before, m) ∷ found) h = elim (Option-cases (address m)) [
  | inl e ↦ absurd (ground arith)
  | inr (a, e) ↦ ground (arith, e, classified-is_classed ipv6 found)
]

pub all-find_ip_addresses_in_text :
    (ipv6 : Ipv6) (s : Text)
    → all (λ f. is_classed ipv6 f.0 f.1) (find_ip_addresses_in_text ipv6 s) ≡ true
unfolding find_ip_addresses_in_text
all-find_ip_addresses_in_text ipv6 s =
    classified-is_classed ipv6 (candidates_from zero [] s) (candidates_from-is_none zero [] s)

abbrev pub is_right : Ipv6 → IpFinding → Bool
is_right ipv6 f = is_classed ipv6 f.ip f.classification

all-in_text :
    (ipv6 : Ipv6) (path : Text) (found : List (Text × Text))
    → all (λ f. is_classed ipv6 f.0 f.1) found ≡ true
    → all (is_right ipv6) (map (placed path) found) ≡ true
all-in_text ipv6 path [] h = refl
all-in_text ipv6 path (f ∷ found) h = ground (arith, all-in_text ipv6 path found)

mutual
  unfolding ips_in ips_in_values ips_in_fields

  -- Each finding of find_ip_addresses, wherever it is in the tree, is an IPv4 address with the class of
  -- that address.
  pub all-ips_in :
      (ipv6 : Ipv6) (path : Text) (v : Value) → all (is_right ipv6) (ips_in ipv6 path v) ≡ true
  all-ips_in ipv6 path (dict o) = all-ips_in_fields ipv6 path o
  all-ips_in ipv6 path (list vs) = all-ips_in_values ipv6 path zero vs
  all-ips_in ipv6 path (text t) =
      all-in_text ipv6 path (find_ip_addresses_in_text ipv6 t)
        (all-find_ip_addresses_in_text ipv6 t)
  all-ips_in ipv6 path null = refl
  all-ips_in ipv6 path (bool b) = refl
  all-ips_in ipv6 path (number n) = refl

  all-ips_in_values :
      (ipv6 : Ipv6) (path : Text) (i : ℕ) (vs : Values)
      → all (is_right ipv6) (ips_in_values ipv6 path i vs) ≡ true
  all-ips_in_values ipv6 path i no_values = refl
  all-ips_in_values ipv6 path i (value v vs) =
      all-append (is_right ipv6) (ips_in ipv6 (index_path path i) v)
        (ips_in_values ipv6 path (suc i) vs) (all-ips_in ipv6 (index_path path i) v)
        (all-ips_in_values ipv6 path (suc i) vs)

  all-ips_in_fields :
      (ipv6 : Ipv6) (path : Text) (o : Fields)
      → all (is_right ipv6) (ips_in_fields ipv6 path o) ≡ true
  all-ips_in_fields ipv6 path no_fields = refl
  all-ips_in_fields ipv6 path (field k v o) =
      elim (Bool-cases (contains ip_safe_key_names (lower k))) [
        | inl e ↦ rw e (all-ips_in_fields ipv6 path o)
        | inr e ↦ rw e (
            all-append (is_right ipv6) (ips_in ipv6 (key_path path k) v) (ips_in_fields ipv6 path o)
              (all-ips_in ipv6 (key_path path k) v) (all-ips_in_fields ipv6 path o))
      ]

-- A text without a digit holds no match.
match_address_nondigit :
    (before : Option ℕ) (c : ℕ) (s : Text)
    → is_digit c ≡ false
    → match_address before (c ∷ s) ≡ none
unfolding match_address number_heads joined_heads octet_heads dotted first_head is_digit
match_address_nondigit before c [] h = ground arith
match_address_nondigit before c (d ∷ []) h = ground arith
match_address_nondigit before c (d ∷ e ∷ s) h = ground arith

candidates_from-append :
    (b before s : Text)
    → any is_digit before ≡ false
    → candidates_from zero b (before ++ s) ≡ candidates_from zero (b ++ before) s
unfolding candidates_from
candidates_from-append b [] s h = rw append-nil refl
candidates_from-append b (c ∷ before) s h =
    rw (match_address_nondigit (last_of b) c (before ++ s) (ground arith), candidates_from)
      (candidates_from-append (b ++ c ∷ []) before s (ground arith) ∙ rw append_assoc refl)

match_address_end : (before : Option ℕ) → match_address before [] ≡ none
unfolding match_address number_heads joined_heads octet_heads dotted first_head
match_address_end before = ground arith

contains-candidates_from :
    (before s m : Text)
    → match_address (last_of before) s ≡ some m
    → contains (candidates_from zero before s) (before, m) ≡ true
unfolding candidates_from
contains-candidates_from before [] m h = absurd (ground (arith, match_address_end (last_of before)))
contains-candidates_from before (c ∷ s) m h = rw (h, candidates_from) (ground arith)

contains-classified :
    (ipv6 : Ipv6) (before m : Text) (a : ℕ) (found : List (Text × Text))
    → contains found (before, m) ≡ true
    → is_image_tag before ≡ false
    → address m ≡ some a
    → contains (classified ipv6 found) (m, class_of ipv6 (v4 a)) ≡ true
unfolding classified read_address
contains-classified ipv6 before m a [] h i e = absurd (cc)
contains-classified ipv6 before m a ((b, n) ∷ found) h i e =
    ground (arith, contains-classified ipv6 before m a found)

-- An address that is written in a text, after a part without a digit that ends neither in a dot nor as the
-- reference of an image before its tag, and before a part that does not go on with a digit or with a dot
-- and a digit, is found there with its class.
pub find_ip_addresses_in_text-address_text :
    (ipv6 : Ipv6) (before : Text) (a : ℕ) (after : Text)
    → a < 4294967296
    → any is_digit before ≡ false
    → is_inside (last_of before) ≡ false
    → is_image_tag before ≡ false
    → goes_on after ≡ false
    → contains
        (find_ip_addresses_in_text ipv6 (before ++ (address_text a ++ after)))
        (address_text a, class_of ipv6 (v4 a))
      ≡ true
unfolding find_ip_addresses_in_text
find_ip_addresses_in_text-address_text ipv6 before a after h d i t g =
    rw (candidates_from-append [] before (address_text a ++ after) d) (
      contains-classified ipv6 before (address_text a) a
        (candidates_from zero before (address_text a ++ after))
        (contains-candidates_from before (address_text a ++ after) (address_text a)
          (match_address-address_text (last_of before) a after h i g))
        t (address-address_text a h))
