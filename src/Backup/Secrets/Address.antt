-- ===== src/Backup/Secrets/Address.antt =====
-- secretscan.py: the IPv4 addresses in a text and in a tree. A digit is an ASCII one.
use k8s_homelab.Prelude.{
  list_eq, nat_eq, contains, ◌-◌, length, leb, some, ◌||◌, [], ◌∷◌, ◌==◌, map, suc, if◌then◌else◌,
  false, none, not, ◌&&◌, ◌++◌, zero, true, Option, Bool, List, ℕ,
}
use k8s_homelab.Prelude.Text.{lower, is_space, codes, Text}
use k8s_homelab.Prelude.Decimal.{is_digit}
use k8s_homelab.Backup.Secrets.Classes.{classify_ip, Ipv6}
use k8s_homelab.Json.{
  no_fields, no_values, null, field, Fields, value, Values, number, bool, text, list, dict, Value,
}
use k8s_homelab.Backup.Secrets.{key_path, index_path}
use k8s_homelab.Backup.Secrets.Pattern.{match_here, Piece, literal, class, at_end}

-- 25[0-5]|2[0-4]\d|1\d\d, of which at most one matches
abbrev pub is_full : ℕ → ℕ → ℕ → Bool
is_full c d e =
    (c == 50 && (d == 53 && (leb 48 e && leb e 53)))
    || ((c == 50 && (leb 48 d && (leb d 52 && is_digit e)))
        || (c == 49 && (is_digit d && is_digit e)))

-- A text that matches, and what follows it.
abbrev pub Head : Type 0
Head = Text × Text

abbrev pub full_octet : Text → List Head
full_octet (c ∷ d ∷ e ∷ s) = if is_full c d e then (c ∷ d ∷ e ∷ [], s) ∷ [] else []
full_octet s = []

-- [1-9]?\d, with the first and without
abbrev pub two_digits : Text → List Head
two_digits (c ∷ d ∷ s) = if leb 49 c && (leb c 57 && is_digit d) then (c ∷ d ∷ [], s) ∷ [] else []
two_digits s = []

abbrev pub one_digit : Text → List Head
one_digit [] = []
one_digit (c ∷ s) = if is_digit c then (c ∷ [], s) ∷ [] else []

unfoldable pub octet_heads : Text → List Head
octet_heads s = full_octet s ++ (two_digits s ++ one_digit s)

-- What follows the octets that a dot follows.
unfoldable pub dotted : List Head → List Head
dotted [] = []
dotted ((x, []) ∷ heads) = dotted heads
dotted ((x, c ∷ s) ∷ heads) = let rest = dotted heads in if c == b'.' then (x, s) ∷ rest else rest

abbrev pub prefixed : Text → List Head → List Head
prefixed x heads = map (λ h. (x ++ b'.' ∷ h.0, h.1)) heads

-- Each octet before a dot, with what `heads_of` finds in the text after it.
unfoldable pub joined_heads : (Text → List Head) → List Head → List Head
joined_heads heads_of [] = []
joined_heads heads_of ((x, s) ∷ heads) = prefixed x (heads_of s) ++ joined_heads heads_of heads

-- `n` octets with their dots, and one octet more, in the order in which they are tried.
unfoldable pub number_heads : ℕ → Text → List Head
number_heads zero s = octet_heads s
number_heads (suc n) s = joined_heads (number_heads n) (dotted (octet_heads s))

-- (?!\.?\d)
abbrev pub goes_on : Text → Bool
goes_on [] = false
goes_on (c ∷ []) = is_digit c
goes_on (c ∷ d ∷ s) = is_digit c || (c == b'.' && is_digit d)

unfoldable pub first_head : List Head → Option Text
first_head [] = none
first_head ((x, s) ∷ heads) = let rest = first_head heads in if goes_on s then rest else some x

-- The address that begins a text, for the character before it.
abbrev pub is_inside : Option ℕ → Bool
is_inside none = false
is_inside (some c) = is_digit c || c == b'.'

unfoldable pub match_address : Option ℕ → Text → Option Text
match_address before s = if is_inside before then none else first_head (number_heads 3 s)

abbrev pub last_of : Text → Option ℕ
last_of [] = none
last_of (c ∷ s) = some (last_from c s)
  where
    last_from : ℕ → Text → ℕ
    last_from c [] = c
    last_from c (d ∷ s) = last_from d s

-- `IPV4_CANDIDATE_RE.finditer`: the text before each match, and the match. `skip` characters of a match
-- are still to be passed over.
unfoldable pub candidates_from : ℕ → Text → Text → List (Text × Text)
candidates_from skip before [] = []
candidates_from (suc skip) before (c ∷ s) = candidates_from skip (before ++ c ∷ []) s
candidates_from zero before (c ∷ s) = elim (match_address (last_of before) (c ∷ s)) [
  | none ↦ candidates_from zero (before ++ c ∷ []) s
  | some m ↦ (before, m) ∷ candidates_from (length m - 1) (before ++ c ∷ []) s
]

-- `_IMAGE_TAG_PREFIX_RE`, after the start of the text or white space.
abbrev tag_pieces : List Piece
tag_pieces =
    class (λ c. not (is_space c) && not (c == b':')) 0 none
    ∷ literal (codes "/")
    ∷ class (λ c. not (is_space c) && not (c == b':')) 0 none
    ∷ literal (codes ":")
    ∷ class (λ c. c == b'v') 0 (some 1)
    ∷ at_end
    ∷ []

unfoldable pub tag_from : Bool → Text → Bool
tag_from starts [] = starts && match_here tag_pieces false []
tag_from starts (c ∷ s) = (starts && match_here tag_pieces false (c ∷ s)) || tag_from (is_space c) s

unfoldable pub is_image_tag : Text → Bool
is_image_tag before = tag_from true before

-- The findings among the candidates.
unfoldable pub classified : Ipv6 → List (Text × Text) → List (Text × Text)
classified ipv6 [] = []
classified ipv6 ((before, m) ∷ found) =
    let rest = classified ipv6 found in
    if is_image_tag before
    then rest
    else elim (classify_ip ipv6 m) [ none ↦ rest | some label ↦ (m, label) ∷ rest ]

unfoldable pub find_ip_addresses_in_text : Ipv6 → Text → List (Text × Text)
find_ip_addresses_in_text ipv6 s = classified ipv6 (candidates_from zero [] s)

unfoldable pub ip_safe_key_names : List Text
ip_safe_key_names =
    codes "tag"
    ∷ codes "version"
    ∷ codes "chartversion"
    ∷ codes "appversion"
    ∷ codes "revision"
    ∷ codes "imagetag"
    ∷ []

pub record IpFinding : Type 0 where
  pub path : Text
  pub ip : Text
  pub classification : Text

-- A finding in a text, where it is in the tree.
abbrev pub placed : Text → Text × Text → IpFinding
placed path (ip, classification) = record { path = path; ip = ip; classification = classification }

-- `find_ip_addresses`
unfoldable mutual
  pub ips_in : Ipv6 → Text → Value → List IpFinding
  ips_in ipv6 path (dict o) = ips_in_fields ipv6 path o
  ips_in ipv6 path (list vs) = ips_in_values ipv6 path zero vs
  ips_in ipv6 path (text t) = map (placed path) (find_ip_addresses_in_text ipv6 t)
  ips_in ipv6 path null = []
  ips_in ipv6 path (bool b) = []
  ips_in ipv6 path (number n) = []

  pub ips_in_values : Ipv6 → Text → ℕ → Values → List IpFinding
  ips_in_values ipv6 path i no_values = []
  ips_in_values ipv6 path i (value v vs) =
      ips_in ipv6 (index_path path i) v ++ ips_in_values ipv6 path (suc i) vs

  pub ips_in_fields : Ipv6 → Text → Fields → List IpFinding
  ips_in_fields ipv6 path no_fields = []
  ips_in_fields ipv6 path (field k v o) =
      let rest = ips_in_fields ipv6 path o in
      let found = ips_in ipv6 (key_path path k) v in
      if contains ip_safe_key_names (lower k) then rest else found ++ rest
