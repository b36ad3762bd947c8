-- ===== src/Backup/Secrets/Written.antt =====
-- An address that is written in a text is what secretscan.py's pattern matches there.
use Prim.Native.Nat.{◌/◌, ◌%◌}
use mathlib.Core.List.{append_assoc}
use native.Mathlib.Decide.{ℕ_discrete}
use k8s_homelab.Prelude.{
  inr, refl, zero, inl, Bool-cases, ◌==◌, [], ◌&&◌, false, arith, suc, ◌+◌, ltb, ◌∷◌, nat_eq, some,
  leb, true, list_eq, Option, Bool, ◌≡◌, if◌then◌else◌, ◌<◌,
}
use k8s_homelab.Prelude.{List, ◌++◌, ℕ}
use k8s_homelab.Prelude.Decimal.{is_digit, decimal}
use k8s_homelab.Prelude.Text.{Text}
use k8s_homelab.Backup.Secrets.Address.{
  prefixed, goes_on, is_inside, is_full, dotted, joined_heads, octet_heads, match_address,
  first_head, number_heads, Head,
}
use k8s_homelab.Ipv4.{address_text}

abbrev shape : ℕ → Text
shape n =
    if ltb n 10
    then (48 + n) ∷ []
    else if ltb n 100
    then (48 + n / 10) ∷ (48 + n % 10) ∷ []
    else (48 + n / 100) ∷ (48 + n / 10 % 10) ∷ (48 + n % 10) ∷ []

shapes_agree : ℕ → Bool
shapes_agree zero = true
shapes_agree (suc last) = shapes_agree last && decimal last == shape last

shapes_agree_all : shapes_agree 256 ≡ true
unfolding shapes_agree decimal list_eq nat_eq ℕ_discrete
shapes_agree_all = refl

agreed_shape : (bound n : ℕ) → shapes_agree bound ≡ true → n < bound → decimal n ≡ shape n
unfolding shapes_agree
agreed_shape zero n agree lt = absurd (omega (arith, lt))
agreed_shape (suc last) n agree lt = ground (arith, agreed_shape last n)

decimal-shape : (n : ℕ) → n < 256 → decimal n ≡ shape n
decimal-shape n = agreed_shape 256 n shapes_agree_all

module _ (s : Text) where
  dotted_one : (c : ℕ) → is_digit c ≡ true → dotted (octet_heads (c ∷ b'.' ∷ s)) ≡ (c ∷ [], s) ∷ []
  unfolding octet_heads dotted is_digit
  dotted_one c h = elim s [ [] ↦ ground arith | e ∷ r ↦ ground arith ]

  dotted_two :
      (c d : ℕ)
      → (leb 49 c && (leb c 57 && is_digit d)) ≡ true
      → dotted (octet_heads (c ∷ d ∷ b'.' ∷ s)) ≡ (c ∷ d ∷ [], s) ∷ []
  unfolding octet_heads dotted is_digit
  dotted_two c d h = ground arith

  dotted_three :
      (c d e : ℕ)
      → is_full c d e ≡ true
      → dotted (octet_heads (c ∷ d ∷ e ∷ b'.' ∷ s)) ≡ (c ∷ d ∷ e ∷ [], s) ∷ []
  unfolding octet_heads dotted is_digit
  dotted_three c d e h = ground arith

  dotted-shape : (n : ℕ) → n < 256 → dotted (octet_heads (shape n ++ b'.' ∷ s)) ≡ (shape n, s) ∷ []
  unfolding is_digit
  dotted-shape n h = elim (Bool-cases (ltb n 10)) [
    | inl p ↦ rw p (dotted_one (48 + n) (ground arith))
    | inr p ↦ elim (Bool-cases (ltb n 100)) [
      | inl q ↦ rw (p, q) (dotted_two (48 + n / 10) (48 + n % 10) (ground arith))
      | inr q ↦
          rw (p, q) (dotted_three (48 + n / 100) (48 + n / 10 % 10) (48 + n % 10) (ground arith))
    ]
  ]

  first_one :
      (c : ℕ)
      → is_digit c ≡ true
      → goes_on s ≡ false
      → first_head (octet_heads (c ∷ s)) ≡ some (c ∷ [])
  unfolding octet_heads first_head is_digit
  first_one c h g = elim s [ [] ↦ ground arith | e ∷ [] ↦ ground arith | e ∷ f ∷ r ↦ ground arith ]

  first_two :
      (c d : ℕ)
      → (leb 49 c && (leb c 57 && is_digit d)) ≡ true
      → goes_on s ≡ false
      → first_head (octet_heads (c ∷ d ∷ s)) ≡ some (c ∷ d ∷ [])
  unfolding octet_heads first_head is_digit
  first_two c d h g = elim s [
    | [] ↦ ground arith
    | e ∷ [] ↦ ground arith
    | e ∷ f ∷ r ↦ ground arith
  ]

  first_three :
      (c d e : ℕ)
      → is_full c d e ≡ true
      → goes_on s ≡ false
      → first_head (octet_heads (c ∷ d ∷ e ∷ s)) ≡ some (c ∷ d ∷ e ∷ [])
  unfolding octet_heads first_head is_digit
  first_three c d e h g = ground arith

  first_head-shape :
      (n : ℕ)
      → n < 256
      → goes_on s ≡ false
      → first_head (octet_heads (shape n ++ s)) ≡ some (shape n)
  unfolding is_digit
  first_head-shape n h g = elim (Bool-cases (ltb n 10)) [
    | inl p ↦ rw p (first_one (48 + n) (ground arith) g)
    | inr p ↦ elim (Bool-cases (ltb n 100)) [
      | inl q ↦ rw (p, q) (first_two (48 + n / 10) (48 + n % 10) (ground arith) g)
      | inr q ↦
          rw (p, q) (first_three (48 + n / 100) (48 + n / 10 % 10) (48 + n % 10) (ground arith) g)
    ]
  ]

first_head-prefixed :
    (x m : Text) (heads more : List Head)
    → first_head heads ≡ some m
    → first_head (prefixed x heads ++ more) ≡ some (x ++ b'.' ∷ m)
unfolding first_head
first_head-prefixed x m [] more h = absurd (cc)
first_head-prefixed x m ((y, s) ∷ heads) more h = ground (arith, first_head-prefixed x m heads more)

first_head_last :
    (n : ℕ) (s : Text)
    → n < 256
    → goes_on s ≡ false
    → first_head (number_heads 0 (decimal n ++ s)) ≡ some (decimal n)
unfolding number_heads
first_head_last n s h g = rw (decimal-shape n h) (first_head-shape s n h g)

first_head_next :
    (k n : ℕ) (s m : Text)
    → n < 256
    → first_head (number_heads k s) ≡ some m
    → first_head (number_heads (suc k) (decimal n ++ b'.' ∷ s)) ≡ some (decimal n ++ b'.' ∷ m)
unfolding number_heads joined_heads
first_head_next k n s m h f =
    rw (decimal-shape n h, dotted-shape s n h)
      (first_head-prefixed (shape n) m (number_heads k s) [] f)

abbrev quad_text : ℕ → ℕ → ℕ → ℕ → Text → Text
quad_text i j k l s =
    decimal i ++ b'.' ∷ (decimal j ++ b'.' ∷ (decimal k ++ b'.' ∷ (decimal l ++ s)))

first_head-quad_text :
    (i j k l : ℕ) (s : Text)
    → i < 256
    → j < 256
    → k < 256
    → l < 256
    → goes_on s ≡ false
    → first_head (number_heads 3 (quad_text i j k l s))
      ≡ some (decimal i ++ b'.' ∷ (decimal j ++ b'.' ∷ (decimal k ++ b'.' ∷ decimal l)))
first_head-quad_text i j k l s hi hj hk hl g =
    first_head_next 2 i _ _ hi
      (first_head_next 1 j _ _ hj (first_head_next 0 k _ _ hk (first_head_last l s hl g)))

address_text-append :
    (a : ℕ) (s : Text)
    → address_text a ++ s ≡ quad_text (a / 16777216) (a / 65536 % 256) (a / 256 % 256) (a % 256) s
unfolding address_text
address_text-append a s = simp append_assoc

pub match_address-address_text :
    (before : Option ℕ) (a : ℕ) (s : Text)
    → a < 4294967296
    → is_inside before ≡ false
    → goes_on s ≡ false
    → match_address before (address_text a ++ s) ≡ some (address_text a)
unfolding match_address address_text
match_address-address_text before a s h i g =
    rw (i, address_text-append a s)
      (first_head-quad_text (a / 16777216) (a / 65536 % 256) (a / 256 % 256) (a % 256) s
        (omega arith) (omega arith) (omega arith) (omega arith) g)
