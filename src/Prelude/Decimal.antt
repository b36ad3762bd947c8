-- ===== src/Prelude/Decimal.antt =====
-- `str` and `int` on natural numbers: decimal digits.
use Prim.Native.Nat.{zero, ◌-◌, ◌+◌, ◌*◌, suc, ◌<◌, ℕ, ◌/◌, ◌%◌}
use mathlib.Core.Path.{ap, ◌∙◌, refl, ◌≡◌}
use mathlib.Core.Bool.{false, true, ◌&&◌, Bool}
use mathlib.Core.Option.{none, Option, some}
use mathlib.Core.List.{◌∷◌, ◌++◌, []}
use native.Mathlib.Omega.{arith}
use k8s_homelab.Prelude.Text.{is_empty, codes, Text}
use k8s_homelab.Prelude.Tests.{ltb, if◌then◌else◌, leb}
use k8s_homelab.Prelude.Lists.{all}

-- The digits of the number, before those of `rest`; the fuel is at least the count of digits.
digits : ℕ → ℕ → Text → Text
digits zero n rest = rest
digits (suc fuel) n rest =
    let more = digits fuel (n / 10) ((48 + n % 10) ∷ rest) in
    if ltb n 10 then (48 + n) ∷ rest else more

-- `str(n)`
unfoldable pub decimal : ℕ → Text
unfolding digits
decimal n = digits (suc n) n []

unfoldable pub is_digit : ℕ → Bool
is_digit c = leb 48 c && leb c 57

-- The number that the digits make after `acc`.
unfoldable pub read_digits : ℕ → Text → ℕ
read_digits acc [] = acc
read_digits acc (c ∷ s) = read_digits (acc * 10 + (c - 48)) s

-- `int(s)` of digits; `none` where the text is no decimal number.
unfoldable pub read_decimal : Text → Option ℕ
read_decimal [] = none
read_decimal (c ∷ s) = if all is_digit (c ∷ s) then some (read_digits 0 (c ∷ s)) else none

read_digits-append :
    (acc : ℕ) (s t : Text) → read_digits acc (s ++ t) ≡ read_digits (read_digits acc s) t
unfolding read_digits
read_digits-append acc [] t = refl
read_digits-append acc (c ∷ s) t = read_digits-append (acc * 10 + (c - 48)) s t

digits-append : (fuel n : ℕ) (s t : Text) → digits fuel n (s ++ t) ≡ digits fuel n s ++ t
unfolding digits
digits-append zero n s t = refl
digits-append (suc fuel) n s t = ground (arith, digits-append fuel (n / 10) ((48 + n % 10) ∷ s) t)

read_digits-digits : (fuel n : ℕ) → n < fuel → read_digits 0 (digits fuel n []) ≡ n
unfolding digits read_digits
read_digits-digits zero n h = absurd (omega arith)
read_digits-digits (suc fuel) n h = ground (
  arith,
  digits-append fuel (n / 10) [] ((48 + n % 10) ∷ []),
  read_digits-append 0 (digits fuel (n / 10) []) ((48 + n % 10) ∷ []),
  read_digits-digits fuel (n / 10),
)

all-digits :
    (fuel n : ℕ) (rest : Text) → all is_digit rest ≡ true → all is_digit (digits fuel n rest) ≡ true
unfolding digits is_digit
all-digits zero n rest h = h
all-digits (suc fuel) n rest h = ground (arith, all-digits fuel (n / 10) ((48 + n % 10) ∷ rest))

digits_full : (fuel n c : ℕ) (rest : Text) → is_empty (digits fuel n (c ∷ rest)) ≡ false
unfolding digits
digits_full zero n c rest = refl
digits_full (suc fuel) n c rest = ground (arith, digits_full fuel (n / 10) (48 + n % 10) (c ∷ rest))

pub decimal_full : (n : ℕ) → is_empty (decimal n) ≡ false
unfolding decimal
decimal_full n = ground (arith, digits_full n (n / 10) (48 + n % 10) [])

pub all-decimal : (n : ℕ) → all is_digit (decimal n) ≡ true
unfolding decimal
all-decimal n = all-digits (suc n) n [] refl

read_decimal_full :
    (s : Text)
    → is_empty s ≡ false
    → all is_digit s ≡ true
    → read_decimal s ≡ some (read_digits 0 s)
unfolding read_decimal
read_decimal_full [] e h = absurd (cc)
read_decimal_full (c ∷ s) e h = rw h refl

read_digits-decimal : (n : ℕ) → read_digits 0 (decimal n) ≡ n
unfolding decimal
read_digits-decimal n = read_digits-digits (suc n) n (omega arith)

-- A number that is written is read back.
pub read_decimal-decimal : (n : ℕ) → read_decimal (decimal n) ≡ some n
read_decimal-decimal n =
    read_decimal_full (decimal n) (decimal_full n) (all-decimal n) ∙ ap some (read_digits-decimal n)

decimal_runs : (decimal 0 ≡ codes "0") × (decimal 3600 ≡ codes "3600")
unfolding decimal
decimal_runs = (refl, refl)
