-- ===== src/Backup/Secrets/Pools.antt =====
-- What secretscan.py's _ip_in_metallb_range says of the ranges and networks that are written as their
-- addresses.
use Prim.Native.Nat.{◌%◌, ◌/◌}
use k8s_homelab.Prelude.{
  inr, inl, Bool-cases, ap, false, ◌&&◌, refl, leb, all-append, contains-append, some, nat_eq,
  all_imp, [], arith, ◌∷◌, true, ◌==◌, ◌++◌, ◌≡◌, not, all, contains,
}
use k8s_homelab.Prelude.{Bool, ◌<◌, ℕ}
use k8s_homelab.Prelude.Text.{split_on_first, strip-no_space, lacks, strip, Text, is_space}
use k8s_homelab.Prelude.Decimal.{all-decimal, decimal, is_digit}
use k8s_homelab.Backup.Secrets.Purpose.{
  below_end, before_dash, in_range, in_network, read_stripped, ip_in_metallb_range, after_dash,
}
use k8s_homelab.Backup.Secrets.Classes.{v4, read_address, Ipv6}
use k8s_homelab.Ipv4.Networks.{read_network-network_text, IsNetwork}
use k8s_homelab.Ipv4.Laws.{address-address_text}
use k8s_homelab.Ipv4.{lies_in, network_text, address_text, Network}

module _ (p : ℕ → Bool) (dot : p b'.' ≡ true)
    (digits : (c : ℕ) → is_digit c ≡ true → p c ≡ true) where
  all-decimal_lem : (n : ℕ) → all p (decimal n) ≡ true
  all-decimal_lem n = all_imp is_digit p (decimal n) digits (all-decimal n)

  all-dot : (n : ℕ) (s : Text) → all p s ≡ true → all p (decimal n ++ b'.' ∷ s) ≡ true
  all-dot n s h = all-append p (decimal n) (b'.' ∷ s) (all-decimal_lem n) (ground arith)

  all-address_text : (a : ℕ) → all p (address_text a) ≡ true
  unfolding address_text
  all-address_text a =
      all-dot (a / 16777216) _
        (all-dot (a / 65536 % 256) _ (all-dot (a / 256 % 256) _ (all-decimal_lem (a % 256))))

  all-network_text : (net : Network) → p b'/' ≡ true → all p (network_text net) ≡ true
  unfolding network_text
  all-network_text net h =
      all-append p (address_text net.first) (b'/' ∷ decimal net.prefix) (all-address_text net.first)
        (ground (arith, all-decimal_lem net.prefix))

lacks_of_all : (d : ℕ) (s : Text) → all (λ c. not (d == c)) s ≡ true → lacks d s ≡ true
lacks_of_all d [] h = refl
lacks_of_all d (c ∷ s) h = ground (arith, lacks_of_all d s)

no_dash-digit : (c : ℕ) → is_digit c ≡ true → not (b'-' == c) ≡ true
unfolding is_digit
no_dash-digit c h = ground arith

no_space-digit : (c : ℕ) → is_digit c ≡ true → not (is_space c) ≡ true
unfolding is_digit is_space
no_space-digit c h = ground arith

no_space_dot : not (is_space b'.') ≡ true
unfolding is_space
no_space_dot = ground arith

no_space_slash : not (is_space b'/') ≡ true
unfolding is_space
no_space_slash = ground arith

lacks_dash : (a : ℕ) → lacks b'-' (address_text a) ≡ true
lacks_dash a =
    lacks_of_all b'-' (address_text a)
      (all-address_text (λ c. not (b'-' == c)) (ground arith) no_dash-digit a)

strip-address_text : (a : ℕ) → strip (address_text a) ≡ address_text a
strip-address_text a =
    strip-no_space (address_text a)
      (all-address_text (λ c. not (is_space c)) no_space_dot no_space-digit a)

after_dash_first : (s t : Text) → lacks b'-' s ≡ true → after_dash (s ++ b'-' ∷ t) ≡ t
unfolding after_dash
after_dash_first [] t h = ground arith
after_dash_first (c ∷ s) t h = ground (arith, after_dash_first s t)

has_dash : (s t : Text) → contains (s ++ b'-' ∷ t) b'-' ≡ true
has_dash s t = rw (contains-append s (b'-' ∷ t) b'-') (ground arith)

before_dash_first : (s t : Text) → lacks b'-' s ≡ true → before_dash (s ++ b'-' ∷ t) ≡ s
unfolding before_dash
before_dash_first s t h = rw (before_dash, split_on_first b'-' s t h)

read_written :
    (ipv6 : Ipv6) (a : ℕ) → a < 4294967296 → read_address ipv6 (address_text a) ≡ some (v4 a)
unfolding read_address
read_written ipv6 a h = rw (read_address, address-address_text a h)

read_stripped_written :
    (ipv6 : Ipv6) (a : ℕ) → a < 4294967296 → read_stripped ipv6 (address_text a) ≡ some (v4 a)
unfolding read_stripped
read_stripped_written ipv6 a h = rw (read_stripped, strip-address_text a) (read_written ipv6 a h)

below_end_written :
    (ipv6 : Ipv6) (a last : ℕ)
    → last < 4294967296
    → below_end ipv6 (v4 a) (address_text last) ≡ some (leb a last)
unfolding below_end
below_end_written ipv6 a last h = rw (below_end, read_stripped_written ipv6 last h)

in_range_written :
    (ipv6 : Ipv6) (a first last : ℕ)
    → first < 4294967296
    → last < 4294967296
    → in_range ipv6 (v4 a) (address_text first) (address_text last)
      ≡ some (leb first a && leb a last)
unfolding in_range
in_range_written ipv6 a first last hf hl =
    rw (in_range, read_stripped_written ipv6 first hf)
      (elim (Bool-cases (leb first a)) [
        | inl e ↦ rw e (below_end_written ipv6 a last hl)
        | inr e ↦ rw e
      ])

in_written_range :
    (ipv6 : Ipv6) (a first last : ℕ)
    → a < 4294967296
    → first < 4294967296
    → last < 4294967296
    → ip_in_metallb_range ipv6 (address_text a) (address_text first ++ b'-' ∷ address_text last)
      ≡ some (leb first a && leb a last)
unfolding ip_in_metallb_range
in_written_range ipv6 a first last ha hf hl =
    rw
      (
        ip_in_metallb_range,
        read_written ipv6 a ha,
        has_dash (address_text first) (address_text last),
        before_dash_first (address_text first) (address_text last) (lacks_dash first),
        after_dash_first (address_text first) (address_text last) (lacks_dash first),
      )
      (in_range_written ipv6 a first last hf hl)

in_network_written :
    (ipv6 : Ipv6) (a : ℕ) (net : Network)
    → IsNetwork net
    → in_network ipv6 (v4 a) (network_text net) ≡ lies_in a net
unfolding in_network lies_in
in_network_written ipv6 a net h = rw (in_network, read_network-network_text net h)

in_written_network :
    (ipv6 : Ipv6) (a : ℕ) (net : Network)
    → a < 4294967296
    → IsNetwork net
    → ip_in_metallb_range ipv6 (address_text a) (network_text net) ≡ some (lies_in a net)
unfolding ip_in_metallb_range lies_in
in_written_network ipv6 a net ha h =
    let lacked =
      lacks_of_all b'-' (network_text net)
        (all-network_text (λ c. not (b'-' == c)) (ground arith) no_dash-digit net (ground arith)) in
    let spaced =
      strip-no_space (network_text net)
        (all-network_text (λ c. not (is_space c)) no_space_dot no_space-digit net no_space_slash) in
    rw (ip_in_metallb_range, read_written ipv6 a ha, not_contains (network_text net) lacked, spaced)
      (ap some (in_network_written ipv6 a net h))
  where
    not_contains : (s : Text) → lacks b'-' s ≡ true → contains s b'-' ≡ false
    not_contains s h = ground arith
