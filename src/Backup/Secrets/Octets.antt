-- ===== src/Backup/Secrets/Octets.antt =====
-- What secretscan.py's pattern takes for an address is one that `ipaddress` reads.
use k8s_homelab.Prelude.{
  refl, [], zero, arith, nat_eq, &&_both, ◌∷◌, ◌++◌, false, is_none, all-append, ◌==◌, suc, length,
  true, some, not, ◌&&◌, Option, all, ◌≡◌, Bool, List, ℕ,
}
use k8s_homelab.Prelude.Text.{split_on-lacks, split_on_first, lacks, split_on, Text}
use k8s_homelab.Prelude.Decimal.{read_digits, is_digit}
use k8s_homelab.Backup.Secrets.Address.{
  prefixed, two_digits, one_digit, full_octet, joined_heads, dotted, first_head, number_heads,
  octet_heads, match_address, Head,
}
use k8s_homelab.Ipv4.{quad, octet, address}

abbrev pub is_octet : Text → Bool
is_octet x = not (is_none (octet x)) && lacks b'.' x

full_octet_lem : (s : Text) → all (λ h. is_octet h.0) (full_octet s) ≡ true
unfolding octet is_digit read_digits
full_octet_lem [] = refl
full_octet_lem (c ∷ []) = refl
full_octet_lem (c ∷ d ∷ []) = refl
full_octet_lem (c ∷ d ∷ e ∷ s) = ground arith

two_digits_lem : (s : Text) → all (λ h. is_octet h.0) (two_digits s) ≡ true
unfolding octet is_digit read_digits
two_digits_lem [] = refl
two_digits_lem (c ∷ []) = refl
two_digits_lem (c ∷ d ∷ s) = ground arith

one_digit_lem : (s : Text) → all (λ h. is_octet h.0) (one_digit s) ≡ true
unfolding octet is_digit read_digits
one_digit_lem [] = refl
one_digit_lem (c ∷ s) = ground arith

octet_heads_lem : (s : Text) → all (λ h. is_octet h.0) (octet_heads s) ≡ true
unfolding octet_heads
octet_heads_lem s =
    all-append (λ h. is_octet h.0) (full_octet s) (two_digits s ++ one_digit s) (full_octet_lem s)
      (all-append (λ h. is_octet h.0) (two_digits s) (one_digit s) (two_digits_lem s)
        (one_digit_lem s))

all-dotted :
    (p : Text → Bool) (heads : List Head)
    → all (λ h. p h.0) heads ≡ true
    → all (λ h. p h.0) (dotted heads) ≡ true
unfolding dotted
all-dotted p [] h = refl
all-dotted p ((x, []) ∷ heads) h = ground (arith, all-dotted p heads)
all-dotted p ((x, c ∷ s) ∷ heads) h = ground (arith, all-dotted p heads)

-- `n` octets with their dots, and one octet more.
abbrev pub is_dotted : ℕ → Text → Bool
is_dotted n x =
    is_octet (split_on b'.' x).0
    && (all is_octet (split_on b'.' x).1 && length (split_on b'.' x).1 == n)

is_dotted_next :
    (n : ℕ) (x y : Text)
    → is_octet x ≡ true
    → is_dotted n y ≡ true
    → is_dotted (suc n) (x ++ b'.' ∷ y) ≡ true
is_dotted_next n x y h k =
    let (o, l) = &&_both (not (is_none (octet x))) (lacks b'.' x) h in
    rw (split_on_first b'.' x y l) (ground arith)

all-prefixed :
    (n : ℕ) (x : Text) (heads : List Head)
    → is_octet x ≡ true
    → all (λ h. is_dotted n h.0) heads ≡ true
    → all (λ h. is_dotted (suc n) h.0) (prefixed x heads) ≡ true
all-prefixed n x [] h k = refl
all-prefixed n x ((y, s) ∷ heads) h k =
    let (a, b) = &&_both (is_dotted n y) (all (λ h. is_dotted n h.0) heads) k in
    rw (is_dotted_next n x y h a) (all-prefixed n x heads h b)

all-joined_heads :
    (n : ℕ) (heads_of : Text → List Head)
    → ((s : Text) → all (λ h. is_dotted n h.0) (heads_of s) ≡ true)
    → (heads : List Head) → all (λ h. is_octet h.0) heads ≡ true
    → all (λ h. is_dotted (suc n) h.0) (joined_heads heads_of heads) ≡ true
unfolding joined_heads
all-joined_heads n heads_of f [] h = refl
all-joined_heads n heads_of f ((x, s) ∷ heads) h =
    let (a, b) = &&_both (is_octet x) (all (λ h. is_octet h.0) heads) h in
    all-append (λ h. is_dotted (suc n) h.0) (prefixed x (heads_of s)) (joined_heads heads_of heads)
      (all-prefixed n x (heads_of s) a (f s)) (all-joined_heads n heads_of f heads b)

octet-is_dotted :
    (heads : List Head)
    → all (λ h. is_octet h.0) heads ≡ true
    → all (λ h. is_dotted 0 h.0) heads ≡ true
octet-is_dotted [] h = refl
octet-is_dotted ((x, s) ∷ heads) h = ground (arith, octet-is_dotted heads, split_on-lacks b'.' x)

number_heads_lem : (n : ℕ) (s : Text) → all (λ h. is_dotted n h.0) (number_heads n s) ≡ true
unfolding number_heads
number_heads_lem zero s = octet-is_dotted (octet_heads s) (octet_heads_lem s)
number_heads_lem (suc n) s =
    all-joined_heads n (number_heads n) (number_heads_lem n) (dotted (octet_heads s))
      (all-dotted is_octet (octet_heads s) (octet_heads_lem s))

quad_of_octets :
    (a : Text) (rest : List Text)
    → (is_octet a && (all is_octet rest && length rest == 3)) ≡ true
    → is_none (quad a rest) ≡ false
unfolding quad
quad_of_octets a [] h = absurd (ground arith)
quad_of_octets a (b ∷ []) h = absurd (ground arith)
quad_of_octets a (b ∷ c ∷ []) h = absurd (ground arith)
quad_of_octets a (b ∷ c ∷ d ∷ []) h = ground arith
quad_of_octets a (b ∷ c ∷ d ∷ e ∷ rest) h = absurd (ground arith)

address_of_dotted : (x : Text) → is_dotted 3 x ≡ true → is_none (address x) ≡ false
unfolding address
address_of_dotted x h = quad_of_octets (split_on b'.' x).0 (split_on b'.' x).1 h

all-first_head :
    (p : Text → Bool) (heads : List Head) (m : Text)
    → all (λ h. p h.0) heads ≡ true
    → first_head heads ≡ some m
    → p m ≡ true
unfolding first_head
all-first_head p [] m h e = absurd (cc)
all-first_head p ((x, s) ∷ heads) m h e = ground (arith, all-first_head p heads m)

pub match_address-is_none :
    (before : Option ℕ) (s m : Text) → match_address before s ≡ some m → is_none (address m) ≡ false
unfolding match_address
match_address-is_none before s m h =
    address_of_dotted m
      (all-first_head (is_dotted 3) (number_heads 3 s) m (number_heads_lem 3 s) (ground arith))
