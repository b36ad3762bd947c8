-- ===== src/Ipv4/Networks.antt =====
-- Networks are written as they are read, and the addresses that are read are below 2 ^ 32.
use Prim.Native.Nat.{◌%◌, ◌/◌}
use mathlib.Core.Path.{subst}
use mathlib.Core.Option.{some-injective}
use native.Mathlib.Nat.{mul-div-le}
use k8s_homelab.Prelude.{
  inr, Returns-any, >>=-Returns, inl, Option-cases, Returns, ◌++◌, ◌-◌, ap, refl, ◌*◌, >>=-eq-some,
  [], if-eq-some, arith, ◌∷◌, false, true, some, ◌≡◌, List, all,
}
use k8s_homelab.Prelude.{◌<◌, ltb, ℕ}
use k8s_homelab.Prelude.Decimal.{all-decimal, read_decimal-decimal, decimal, is_digit}
use k8s_homelab.Prelude.Text.{split_on-lacks, lacks-append, split_on, split_on_first, lacks, Text}
use k8s_homelab.Ipv4.{
  read_strict, network_parts, size, network_text, quad, network, address, Network, octet,
  prefix_of_text, address_text, read_network,
}
use k8s_homelab.Ipv4.Laws.{size_pos, div_again, address-address_text}

-- A network that `ipaddress` can make: its first address is a multiple of its size.
pub record IsNetwork (net : Network) : Type 0 where
  pub prefix_bound : ltb 32 net.prefix ≡ false
  pub aligned : net.first / size net.prefix * size net.prefix ≡ net.first
  pub first_bound : net.first < 4294967296

octet-bound : (s : Text) (n : ℕ) → octet s ≡ some n → n < 256
unfolding octet
octet-bound [] n h = absurd (cc)
octet-bound (c ∷ s) n h = ground arith

quad-bound : (a : Text) (fields : List Text) (n : ℕ) → quad a fields ≡ some n → n < 4294967296
unfolding quad
quad-bound a [] n h = absurd (cc)
quad-bound a (b ∷ []) n h = absurd (cc)
quad-bound a (b ∷ c ∷ []) n h = absurd (cc)
quad-bound a (b ∷ c ∷ d ∷ []) n h =
    let (i, ei, hi) = >>=-eq-some (octet a) _ h in
    let (j, ej, hj) = >>=-eq-some (octet b) _ hi in
    let (k, ek, hk) = >>=-eq-some (octet c) _ hj in
    let (l, el, hl) = >>=-eq-some (octet d) _ hk in
    ground (arith, octet-bound a i ei, octet-bound b j ej, octet-bound c k ek, octet-bound d l el)
quad-bound a (b ∷ c ∷ d ∷ e ∷ fields) n h = absurd (cc)

pub address-bound : (s : Text) (n : ℕ) → address s ≡ some n → n < 4294967296
unfolding address
address-bound s n h = quad-bound (split_on b'.' s).0 (split_on b'.' s).1 n h

pub network-IsNetwork :
    (a prefix : ℕ) (net : Network) → a < 4294967296 → network a prefix ≡ some net → IsNetwork net
unfolding network
network-IsNetwork a prefix net lt h =
    let (e, f) = if-eq-some (ltb 32 prefix) _ h in
    let made = some-injective _ _ f in
    subst IsNetwork made (record {
      prefix_bound = e;
      aligned = ap (λ q. q * size prefix) (div_again a (size prefix) (size_pos (32 - prefix)));
      first_bound = grind (arith, mul-div-le a (size prefix));
    })

lacks_slash : (s : Text) → all is_digit s ≡ true → lacks b'/' s ≡ true
unfolding is_digit
lacks_slash [] h = refl
lacks_slash (c ∷ s) h = ground (arith, lacks_slash s)

lacks_slash-dotted :
    (n : ℕ) (t : Text) → lacks b'/' t ≡ true → lacks b'/' (decimal n ++ b'.' ∷ t) ≡ true
lacks_slash-dotted n t h =
    ground
      (arith, lacks-append b'/' (decimal n) (b'.' ∷ t), lacks_slash (decimal n) (all-decimal n))

lacks_slash-address_text : (a : ℕ) → lacks b'/' (address_text a) ≡ true
unfolding address_text
lacks_slash-address_text a = lacks_slash-dotted (a / 16777216) _ (
    lacks_slash-dotted (a / 65536 % 256) _ (
      lacks_slash-dotted (a / 256 % 256) _
        (lacks_slash (decimal (a % 256)) (all-decimal (a % 256)))))

prefix_of_text-decimal : (n : ℕ) → ltb 32 n ≡ false → prefix_of_text (decimal n) ≡ some n
unfolding prefix_of_text
prefix_of_text-decimal n h = ground (arith, read_decimal-decimal n)

-- A network that is written is read back.
pub read_network-network_text :
    (net : Network) → IsNetwork net → read_network (network_text net) ≡ some net
unfolding read_network network_text network
read_network-network_text net w =
    rw
      (split_on_first b'/' (address_text net.first) (decimal net.prefix)
        (lacks_slash-address_text net.first))
      (rw
        (split_on-lacks b'/' (decimal net.prefix)
          (lacks_slash (decimal net.prefix) (all-decimal net.prefix)))
        (rw (address-address_text net.first w.first_bound) (
          rw (prefix_of_text-decimal net.prefix w.prefix_bound)
            (rw w.prefix_bound (rw w.aligned refl)))))

written_first :
    (net : Network) → IsNetwork net → address (split_on b'/' (network_text net)).0 ≡ some net.first
unfolding network_text
written_first net w =
    rw
      (split_on_first b'/' (address_text net.first) (decimal net.prefix)
        (lacks_slash-address_text net.first))
      (address-address_text net.first w.first_bound)

-- It is read strictly, too.
pub read_strict-network_text :
    (net : Network) → IsNetwork net → read_strict (network_text net) ≡ some net
unfolding read_strict
read_strict-network_text net w =
    rw (read_strict, read_network-network_text net w, written_first net w) (ground arith)

-- What is read strictly is read.
pub read_network-read_strict :
    (s : Text) (net : Network) → read_strict s ≡ some net → read_network s ≡ some net
unfolding read_strict
read_network-read_strict s net h = elim (Option-cases (read_network s)) [
  | inl e ↦ absurd (ground arith)
  | inr (other, e) ↦ ground arith
]

pub address-Returns : (s : Text) → Returns (λ n. n < 4294967296) (address s)
address-Returns s = elim (Option-cases (address s)) [
  | inl e ↦ rw e tt
  | inr (n, e) ↦ rw e (address-bound s n e)
]

pub network-Returns : (a prefix : ℕ) → a < 4294967296 → Returns IsNetwork (network a prefix)
network-Returns a prefix lt = elim (Option-cases (network a prefix)) [
  | inl e ↦ rw e tt
  | inr (net, e) ↦ rw e (network-IsNetwork a prefix net lt e)
]

network_parts-Returns :
    (first : Text) (later : List Text) → Returns IsNetwork (network_parts (first, later))
network_parts-Returns first [] =
    >>=-Returns _ IsNetwork (address first) _ (address-Returns first)
      (λ a lt. network-Returns a 32 lt)
network_parts-Returns first (p ∷ []) =
    >>=-Returns _ IsNetwork (address first) _ (address-Returns first) (λ a lt.
      >>=-Returns (λ n. Unit) IsNetwork (prefix_of_text p) _ (Returns-any (prefix_of_text p))
        (λ n t. network-Returns a n lt))
network_parts-Returns first (p ∷ q ∷ later) = tt

-- Every network that is read is one that `ipaddress` can make.
pub read_network-Returns : (s : Text) → Returns IsNetwork (read_network s)
unfolding read_network
read_network-Returns s = network_parts-Returns (split_on b'/' s).0 (split_on b'/' s).1
