-- ===== src/Kea/Values.antt =====
-- docker/kea/tools/dnsmasq_to_kea.py: lease times and MAC addresses. Digits are the ASCII ones.
use k8s_homelab.Prelude.{
  list_eq, ◌*◌, nat_eq, ◌>>=◌, none, ltb, ◌||◌, ◌==◌, ◌&&◌, map, all, [], if◌then◌else◌, some,
  length, leb, Bool, Option, List, ◌∷◌, ℕ,
}
use k8s_homelab.Prelude.Text.{join, codes, lower, Text}
use k8s_homelab.Prelude.Decimal.{read_decimal, is_digit}

abbrev pub infinite : ℕ
infinite = 4294967295

-- The digits of a time and what follows them.
unfoldable pub leading_digits : Text → Text × Text
leading_digits [] = ([], [])
leading_digits (c ∷ s) =
    let (digits, rest) = leading_digits s in if is_digit c then (c ∷ digits, rest) else ([], c ∷ s)

unfoldable pub unit_seconds : Text → Option ℕ
unit_seconds [] = some 1
unit_seconds (u ∷ []) =
    if u == b's'
    then some 1
    else if u == b'm'
    then some 60
    else if u == b'h'
    then some 3600
    else if u == b'd'
    then some 86400
    else if u == b'w'
    then some 604800
    else none
unit_seconds _ = none

unfoldable pub lease_seconds : Text → Option ℕ
lease_seconds s =
    if s == codes "infinite"
    then some infinite
    else let (digits, unit) = leading_digits s in
      read_decimal digits >>= λ n. unit_seconds unit >>= λ seconds. some (n * seconds)

-- `re.split("[:-]", text)`: the first part and the later ones.
abbrev mac_step : ℕ → Text × List Text → Text × List Text
mac_step c (part, later) = if c == b':' || c == b'-' then ([], part ∷ later) else (c ∷ part, later)

unfoldable pub mac_parts : Text → Text × List Text
mac_parts [] = ([], [])
mac_parts (c ∷ s) = mac_step c (mac_parts s)

unfoldable pub is_hex : ℕ → Bool
is_hex c = (leb 48 c && leb c 57) || (leb b'a' c && leb c b'f') || (leb b'A' c && leb c b'F')

unfoldable pub is_mac_part : Text → Bool
is_mac_part part = all is_hex part && ltb 0 (length part) && leb (length part) 2

-- MAC_RE: six parts of one or two hexadecimal digits.
unfoldable pub is_mac : Text → Bool
is_mac s =
    let (part, later) = mac_parts s in
    length later == 5 && is_mac_part part && all is_mac_part later

-- `part.zfill(2)`, for a part without a sign.
unfoldable pub fill_part : Text → Text
fill_part [] = codes "00"
fill_part (c ∷ []) = b'0' ∷ c ∷ []
fill_part (c ∷ d ∷ s) = c ∷ d ∷ s

unfoldable pub normal_mac : Text → Text
normal_mac s =
    let (part, later) = mac_parts (lower s) in join (codes ":") (map fill_part (part ∷ later))
