-- ===== src/Backup/Secrets.antt =====
-- scripts/k8s_backup/secretscan.py: what a text looks like a credential by. The keys of a manifest are
-- texts.
pub mod Pattern
pub mod Find
pub mod Redact
pub mod Kept
pub mod Clean
pub mod Open
pub mod Entries
pub mod Same
pub mod Found
pub mod EnvFound
pub mod Laws
pub mod Classes
pub mod Address
pub mod Purpose
pub mod Octets
pub mod Written
pub mod Ips
pub mod Pools
pub mod IpTests
pub mod Tests
use Prim.Native.Nat.{◌^◌}
use k8s_homelab.Prelude.{
  list_eq, length, false, suc, nat_eq, ◌*◌, [], contains, none, not, leb, ◌&&◌, if◌then◌else◌, ◌==◌,
  any, ◌||◌, ◌∷◌, some, Bool, ◌++◌, Option, ℕ, List, String,
}
use k8s_homelab.Prelude.Dict.{values, lookup, insert, Dict}
use k8s_homelab.Prelude.Text.{ends_with, is_empty, lower, codes, Text}
use k8s_homelab.Prelude.Decimal.{decimal}
use k8s_homelab.Backup.Substitute.{occurs}
use k8s_homelab.Backup.Secrets.Pattern.{found_by, match_here, at_end, edge, literal, class, Piece}

abbrev is_digit_char : ℕ → Bool
is_digit_char c = leb 48 c && leb c 57

abbrev is_upper : ℕ → Bool
is_upper c = leb b'A' c && leb c b'Z'

abbrev is_lower : ℕ → Bool
is_lower c = leb b'a' c && leb c b'z'

abbrev is_alphanumeric : ℕ → Bool
is_alphanumeric c = is_digit_char c || is_upper c || is_lower c

-- A character of the text.
abbrev among : String → ℕ → Bool
among s c = contains (codes s) c

abbrev one_of : String → Piece
one_of s = class (among s) 1 (some 0)

abbrev at_least : ℕ → (ℕ → Bool) → Piece
at_least n p = class p n none

abbrev jwt_part : Piece
jwt_part = at_least 10 (λ c. is_alphanumeric c || among "_-" c)

unfoldable pub high_confidence_patterns : Dict Text (List Piece)
high_confidence_patterns =
    (
      codes "private key material",
      literal (codes "-----BEGIN ")
          ∷ at_least 0 (λ c. is_upper c || is_digit_char c || c == 32)
          ∷ literal (codes "PRIVATE KEY-----")
          ∷ [],
    )
    ∷ (
      codes "AWS access key ID",
      edge
          ∷ literal (codes "A")
          ∷ one_of "KS"
          ∷ literal (codes "IA")
          ∷ class (λ c. is_digit_char c || is_upper c) 16 (some 0)
          ∷ edge
          ∷ [],
    )
    ∷ (
      codes "GitHub token",
      edge
          ∷ literal (codes "gh")
          ∷ one_of "pousr"
          ∷ literal (codes "_")
          ∷ at_least 36 is_alphanumeric
          ∷ edge
          ∷ [],
    )
    ∷ (
      codes "Slack token",
      edge
          ∷ literal (codes "xox")
          ∷ one_of "baprs"
          ∷ literal (codes "-")
          ∷ at_least 10 (λ c. is_alphanumeric c || c == b'-')
          ∷ edge
          ∷ [],
    )
    ∷ (
      codes "JWT",
      edge
          ∷ literal (codes "eyJ")
          ∷ jwt_part
          ∷ literal (codes ".")
          ∷ jwt_part
          ∷ literal (codes ".")
          ∷ jwt_part
          ∷ edge
          ∷ [],
    )
    ∷ []

unfoldable pub safe_key_suffixes : List Text
safe_key_suffixes =
    codes "name"
    ∷ codes "ref"
    ∷ codes "path"
    ∷ codes "url"
    ∷ codes "uri"
    ∷ codes "enabled"
    ∷ codes "kind"
    ∷ codes "type"
    ∷ codes "host"
    ∷ codes "hostname"
    ∷ codes "class"
    ∷ codes "annotations"
    ∷ codes "labels"
    ∷ []

unfoldable pub safe_key_names : List Text
safe_key_names = codes "apitokenkey" ∷ codes "existingsecret" ∷ []

-- The texts that the alternatives of SUSPICIOUS_KEY_RE stand for, in lower case.
unfoldable pub suspicious_words : List Text
suspicious_words =
    codes "password"
    ∷ codes "passwd"
    ∷ codes "pwd"
    ∷ codes "secret"
    ∷ codes "token"
    ∷ codes "apikey"
    ∷ codes "api_key"
    ∷ codes "api-key"
    ∷ codes "accesskey"
    ∷ codes "access_key"
    ∷ codes "access-key"
    ∷ codes "privatekey"
    ∷ codes "private_key"
    ∷ codes "private-key"
    ∷ []

unfoldable pub is_suspicious_key : Text → Bool
is_suspicious_key key = any (λ w. occurs w (lower key)) suspicious_words

unfoldable pub is_safe_key : Text → Bool
is_safe_key key =
    contains safe_key_names (lower key)
    || any (λ suffix. ends_with (lower key) suffix) safe_key_suffixes

abbrev pub is_flagged_key : Text → Bool
is_flagged_key key = is_suspicious_key key && not (is_safe_key key)

abbrev base64ish : List Piece
base64ish =
    at_least 32 (λ c. is_alphanumeric c || among "+/" c)
    ∷ class (λ c. c == b'=') 0 (some 2)
    ∷ at_end
    ∷ []

-- How often each character stands in the text.
abbrev count_of : Option ℕ → ℕ
count_of none = 0
count_of (some n) = n

unfoldable pub count_chars : Text → Dict ℕ ℕ → Dict ℕ ℕ
count_chars [] counts = counts
count_chars (c ∷ s) counts = count_chars s (insert c (suc (count_of (lookup c counts))) counts)

unfoldable pub product_of : List ℕ → ℕ
product_of [] = 1
product_of (n ∷ ns) = n ^ (2 * n) * product_of ns

-- `shannon_entropy(s) >= 4.5`, with both sides raised from logarithms: for a text of length l and counts
-- n, that 2 ^ (9 * l) times each n ^ (2 * n) is at most l ^ (2 * l). It is exact where floats are not.
unfoldable pub has_high_entropy : Text → Bool
has_high_entropy s =
    not (is_empty s)
    && leb (2 ^ (9 * length s) * product_of (values (count_chars s []))) (length s ^ (2 * length s))

unfoldable pub looks_like_high_entropy_secret : Text → Bool
looks_like_high_entropy_secret s =
    if match_here base64ish false s && any is_upper s && any is_lower s && any is_digit_char s
    then has_high_entropy s
    else false

unfoldable pub labels_of : Text → Dict Text (List Piece) → List Text
labels_of s [] = []
labels_of s ((label, pattern) ∷ later) =
    let rest = labels_of s later in if found_by pattern s then label ∷ rest else rest

unfoldable pub scan_text_for_high_confidence_patterns : Text → List Text
scan_text_for_high_confidence_patterns s = labels_of s high_confidence_patterns

unfoldable pub redaction_placeholder : Text
redaction_placeholder = codes "<REDACTED-BY-k8s-backup-repo-gen>"

-- The path of a member of a dict and of a list.
abbrev pub key_path : Text → Text → Text
key_path [] key = key
key_path (c ∷ path) key = (c ∷ path) ++ b'.' ∷ key

abbrev pub index_path : Text → ℕ → Text
index_path path i = path ++ b'[' ∷ decimal i ++ codes "]"
