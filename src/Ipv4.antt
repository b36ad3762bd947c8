-- ===== src/Ipv4.antt =====
-- IPv4 addresses and networks as Python's `ipaddress` has them: an address is its number, a network
-- the number of its first address and the length of its prefix.
pub mod Laws
pub mod Networks
use Prim.Native.Nat.{◌%◌, ◌^◌, ◌/◌}
use mathlib.Core.Path.{ap₂}
use mathlib.Core.Logic.{dite}
use native.Mathlib.Decide.{ℕ_discrete}
use k8s_homelab.Prelude.{
  option_eq, nat_eq, ap, Eq, length, zero, ◌+◌, leb, true, all, [], not, suc, ◌*◌, false, ◌>>=◌,
  ◌&&◌, ◌||◌, none, ◌-◌, if◌then◌else◌, some, ◌∷◌, ◌==◌, ◌++◌,
}
use k8s_homelab.Prelude.{Option, List, ltb, Bool, ℕ}
use k8s_homelab.Prelude.Decimal.{read_digits, is_digit, read_decimal, decimal}
use k8s_homelab.Prelude.Text.{is_empty, split_on, Text}

unfoldable pub octet : Text → Option ℕ
octet [] = none
octet (c ∷ s) =
    if not (all is_digit (c ∷ s)) || ltb 3 (length (c ∷ s)) || (c == 48 && not (is_empty s))
    then none
    else let n = read_digits 0 (c ∷ s) in if ltb 255 n then none else some n

unfoldable pub quad : Text → List Text → Option ℕ
quad a (b ∷ c ∷ d ∷ []) = octet a >>= λ i.
    octet b >>= λ j. octet c >>= λ k. octet d >>= λ l. some (((i * 256 + j) * 256 + k) * 256 + l)
quad a _ = none

-- `IPv4Address(text)`; `none` for a ValueError.
unfoldable pub address : Text → Option ℕ
unfolding split_on
address s = let (a, rest) = split_on b'.' s in quad a rest

unfoldable pub is_ipv4 : Text → Bool
is_ipv4 s = elim (address s) [ none ↦ false | some a ↦ true ]

-- `str(address)`
unfoldable pub address_text : ℕ → Text
address_text a =
    decimal (a / 16777216)
    ++ b'.'
      ∷ (decimal (a / 65536 % 256) ++ b'.' ∷ (decimal (a / 256 % 256) ++ b'.' ∷ decimal (a % 256)))

pub record Network : Type 0 where
  pub first : ℕ
  pub prefix : ℕ

abbrev pub size : ℕ → ℕ
size prefix = 2 ^ (32 - prefix)

-- `IPv4Network(f"{a}/{prefix}", strict=False)`
unfoldable pub network : ℕ → ℕ → Option Network
network a prefix =
    if ltb 32 prefix
    then none
    else some (record { first = a / size prefix * size prefix; prefix = prefix })

-- The length of a netmask, else of a hostmask, searched from 0 up.
unfoldable pub mask_length : ℕ → ℕ → Option ℕ
mask_length zero mask = if mask == 4294967295 then some 32 else none
mask_length (suc left) mask =
    let prefix = 31 - left in
    let rest = mask_length left mask in
    if mask == 4294967296 - size prefix then some prefix else rest

unfoldable pub host_length : ℕ → ℕ → Option ℕ
host_length zero mask = if mask == 0 then some 32 else none
host_length (suc left) mask =
    let prefix = 31 - left in
    let rest = host_length left mask in if mask == size prefix - 1 then some prefix else rest

unfoldable pub prefix_of_mask : ℕ → Option ℕ
prefix_of_mask mask = elim (mask_length 32 mask) [
  | some prefix ↦ some prefix
  | none ↦ host_length 32 mask
]

-- What stands after the slash: a length, a netmask or a hostmask.
unfoldable pub prefix_of_text : Text → Option ℕ
prefix_of_text s = elim (read_decimal s) [
  | some prefix ↦ if ltb 32 prefix then none else some prefix
  | none ↦ address s >>= prefix_of_mask
]

-- `IPv4Network(text, strict=False)`; a text without a slash is one address.
abbrev pub network_parts : Text × List Text → Option Network
network_parts (a, []) = address a >>= λ i. network i 32
network_parts (a, p ∷ []) = address a >>= λ i. prefix_of_text p >>= λ n. network i n
network_parts (a, _) = none

unfoldable pub read_network : Text → Option Network
unfolding split_on
read_network s = network_parts (split_on b'/' s)

-- `IPv4Network(text)`, which is strict: the address before the slash is the network's first one.
abbrev first_only : Option ℕ → Network → Option Network
first_only a net = if a == some net.first then some net else none

unfoldable pub read_strict : Text → Option Network
unfolding split_on
read_strict s = read_network s >>= λ net. first_only (address (split_on b'/' s).0) net

-- `ip in net`
unfoldable pub lies_in : ℕ → Network → Bool
lies_in ip net = ip / size net.prefix == net.first / size net.prefix

unfoldable pub network_text : Network → Text
unfolding address_text
network_text net = address_text net.first ++ b'/' ∷ decimal net.prefix

-- The order of networks: by the first address, then the prefix.
unfoldable pub network_leb : Network → Network → Bool
network_leb m n = ltb m.first n.first || (m.first == n.first && leb m.prefix n.prefix)

network_dec : Discrete Network
network_dec m n =
    dite (ℕ_discrete m.first n.first)
      (λ p.
        dite (ℕ_discrete m.prefix n.prefix)
          (λ q. yes (ap₂ (λ a b. record { first = a; prefix = b }) p q))
          (λ ne. no (λ r. ne (ap (λ t. t.prefix) r))))
      (λ ne. no (λ r. ne (ap (λ t. t.first) r)))

instance unfoldable pub network_eq : Eq Network
unfolding network_dec
network_eq = record { dec = network_dec }
