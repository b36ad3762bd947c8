-- ===== src/Ipv4/Laws.antt =====
-- Addresses are read as they are written, and a network holds the address it is made from.
use Prim.Native.Nat.{◌^◌, ◌%◌, ◌/◌}
use native.Mathlib.Omega.{pow_step}
use native.Mathlib.Nat.{mul-div_cancel}
use native.Mathlib.Decide.{ℕ_discrete}
use k8s_homelab.Prelude.{
  ◌-◌, [], ◌+◌, ◌∷◌, ◌++◌, ◌*◌, all, refl, zero, ◌==◌, option_eq, nat_eq, ◌&&◌, some, suc, arith,
  true, ◌≡◌, Bool, ◌<◌, ℕ,
}
use k8s_homelab.Prelude.Text.{split_on-lacks, split_on_first, Text, split_on, lacks}
use k8s_homelab.Prelude.Decimal.{all-decimal, read_digits, is_digit, decimal}
use k8s_homelab.Ipv4.{size, quad, Network, lies_in, address_text, network, address, octet}

-- Whether every octet under `bound` is read as it is written.
octets_agree : ℕ → Bool
octets_agree zero = true
octets_agree (suc last) = octets_agree last && octet (decimal last) == some last

octets_agree_all : octets_agree 256 ≡ true
unfolding octets_agree octet decimal is_digit read_digits nat_eq option_eq ℕ_discrete
octets_agree_all = refl

agreed_octet : (bound n : ℕ) → octets_agree bound ≡ true → n < bound → octet (decimal n) ≡ some n
unfolding octets_agree
agreed_octet zero n agree lt = absurd (omega (arith, lt))
agreed_octet (suc last) n agree lt = ground (arith, agreed_octet last n)

octet-decimal : (n : ℕ) → n < 256 → octet (decimal n) ≡ some n
octet-decimal n = agreed_octet 256 n octets_agree_all

lacks_dot : (s : Text) → all is_digit s ≡ true → lacks b'.' s ≡ true
unfolding is_digit
lacks_dot [] h = refl
lacks_dot (c ∷ s) h = ground (arith, lacks_dot s)

lacks_dot-decimal : (n : ℕ) → lacks b'.' (decimal n) ≡ true
lacks_dot-decimal n = lacks_dot (decimal n) (all-decimal n)

split_on-address_text :
    (i j k l : ℕ)
    → split_on b'.' (decimal i ++ b'.' ∷ (decimal j ++ b'.' ∷ (decimal k ++ b'.' ∷ decimal l)))
      ≡ (decimal i, decimal j ∷ decimal k ∷ decimal l ∷ [])
split_on-address_text i j k l = ground (
  arith,
  split_on_first b'.' (decimal i) (decimal j ++ b'.' ∷ (decimal k ++ b'.' ∷ decimal l))
      (lacks_dot-decimal i),
  split_on_first b'.' (decimal j) (decimal k ++ b'.' ∷ decimal l) (lacks_dot-decimal j),
  split_on_first b'.' (decimal k) (decimal l) (lacks_dot-decimal k),
  split_on-lacks b'.' (decimal l) (lacks_dot-decimal l),
)

quad_lem :
    (i j k l a : ℕ)
    → i < 256
    → j < 256
    → k < 256
    → l < 256
    → ((i * 256 + j) * 256 + k) * 256 + l ≡ a
    → quad (decimal i) (decimal j ∷ decimal k ∷ decimal l ∷ []) ≡ some a
unfolding quad
quad_lem i j k l a hi hj hk hl e =
    ground (arith, octet-decimal i, octet-decimal j, octet-decimal k, octet-decimal l)

-- An address that is written is read back.
pub address-address_text : (a : ℕ) → a < 4294967296 → address (address_text a) ≡ some a
unfolding address address_text
address-address_text a h =
    let i = a / 16777216 in
    let j = a / 65536 % 256 in
    let k = a / 256 % 256 in
    let l = a % 256 in
    rw (split_on-address_text i j k l)
      (quad_lem i j k l a (omega arith) (omega arith) (omega arith) (omega arith) (omega arith))

pub size_pos : (k : ℕ) → 0 < 2 ^ k
size_pos zero = omega arith
size_pos (suc k) = omega (arith, pow_step 2 k, size_pos k)

pub div_again : (a s : ℕ) → 0 < s → a / s * s / s ≡ a / s
div_again a s h = mul-div_cancel (a / s) h

-- A network holds the address that it is made from.
pub lies_in-network :
    (a prefix : ℕ) (net : Network) → network a prefix ≡ some net → lies_in a net ≡ true
unfolding network lies_in nat_eq
lies_in-network a prefix net h = ground (arith, div_again a (size prefix) (size_pos (32 - prefix)))
