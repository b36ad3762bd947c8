-- ===== src/Prelude/Text.antt =====
-- Python texts that the programs walk: lists of code points. `lower` maps the ASCII letters, and
-- white space is what `str.split` and `str.strip` take it to be.
use Prim.Native.Nat.{ℕ, ◌+◌, ◌≤◌}
use Prim.Native.Char.{code}
use Prim.Native.String.{String}
use mathlib.Core.Path.{◌≡◌, refl, ap}
use mathlib.Core.Bool.{Bool, true, false, not, ◌&&◌, ◌||◌}
use mathlib.Core.List.{List, [], ◌∷◌, ◌++◌, map}
use native.Mathlib.Decide.{ℕ_discrete}
use native.Mathlib.Omega.{arith}
use k8s_homelab.Prelude.Tests.{leb, if◌then◌else◌}
use k8s_homelab.Prelude.Equality.{◌==◌, contains, nat_eq, list_eq}
use k8s_homelab.Prelude.Lists.{all}

abbrev pub Text : Type 0
Text = List ℕ

abbrev pub codes : String → Text
codes String.[] = []
codes (String.◌∷◌ c s) = code c ∷ codes s

unfoldable pub is_space : ℕ → Bool
is_space c =
    (leb 9 c && leb c 13)
    || (leb 28 c && leb c 32)
    || c == 133
    || c == 160
    || c == 5760
    || (leb 8192 c && leb c 8202)
    || c == 8232
    || c == 8233
    || c == 8239
    || c == 8287
    || c == 12288

unfoldable pub lower_char : ℕ → ℕ
lower_char c = if leb b'A' c && leb c b'Z' then c + 32 else c

-- `s.lower()`
unfoldable pub lower : Text → Text
unfolding lower_char
lower s = map lower_char s

-- `s.endswith(t)`
unfoldable pub ends_with : Text → Text → Bool
ends_with [] t = t == []
ends_with (c ∷ s) t = (c ∷ s) == t || ends_with s t

-- `s.rstrip(".")`, for the character `d`
abbrev strip_step : ℕ → ℕ → Text → Text
strip_step d c [] = if c == d then [] else c ∷ []
strip_step d c (x ∷ r) = c ∷ x ∷ r

unfoldable pub rstrip : ℕ → Text → Text
rstrip d [] = []
rstrip d (c ∷ s) = strip_step d c (rstrip d s)

-- `s.strip()`
unfoldable pub lstrip_spaces : Text → Text
lstrip_spaces [] = []
lstrip_spaces (c ∷ s) = let rest = lstrip_spaces s in if is_space c then rest else c ∷ s

abbrev strip_space_step : ℕ → Text → Text
strip_space_step c [] = if is_space c then [] else c ∷ []
strip_space_step c (x ∷ r) = c ∷ x ∷ r

unfoldable pub rstrip_spaces : Text → Text
rstrip_spaces [] = []
rstrip_spaces (c ∷ s) = strip_space_step c (rstrip_spaces s)

unfoldable pub strip : Text → Text
unfolding lstrip_spaces rstrip_spaces
strip s = rstrip_spaces (lstrip_spaces s)

-- `s.split()`: the word that begins here, and the later ones.
abbrev close : Text → List Text → List Text
close [] later = later
close (c ∷ w) later = (c ∷ w) ∷ later

abbrev word_step : ℕ → Text × List Text → Text × List Text
word_step c (w, later) = if is_space c then ([], close w later) else (c ∷ w, later)

words_from : Text → Text × List Text
words_from [] = ([], [])
words_from (c ∷ s) = word_step c (words_from s)

unfoldable pub words : Text → List Text
unfolding words_from
words s = let (w, later) = words_from s in close w later

-- `s.split(",")`, for the character `d`: the first field and the later ones.
abbrev field_step : ℕ → ℕ → Text × List Text → Text × List Text
field_step d c (f, later) = if c == d then ([], f ∷ later) else (c ∷ f, later)

unfoldable pub split_on : ℕ → Text → Text × List Text
split_on d [] = ([], [])
split_on d (c ∷ s) = field_step d c (split_on d s)

-- A text with no white space, and one without the character `d`.
abbrev pub no_space : Text → Bool
no_space s = all (λ c. not (is_space c)) s

abbrev pub lacks : ℕ → Text → Bool
lacks d s = not (contains s d)

abbrev pub is_empty : Text → Bool
is_empty [] = true
is_empty (c ∷ s) = false

pub lower_char_idem : (c : ℕ) → lower_char (lower_char c) ≡ lower_char c
unfolding lower_char
lower_char_idem c = ground arith

pub lower_idem : (s : Text) → lower (lower s) ≡ lower s
unfolding lower
lower_idem [] = refl
lower_idem (c ∷ s) = cc (lower_char_idem c, lower_idem s)

pub lower-append : (s t : Text) → lower (s ++ t) ≡ lower s ++ lower t
unfolding lower
lower-append [] t = refl
lower-append (c ∷ s) t = ap (λ r. lower_char c ∷ r) (lower-append s t)

pub ends_with-append : (s t : Text) → ends_with (s ++ t) t ≡ true
unfolding ends_with list_eq
ends_with-append [] [] = refl
ends_with-append [] (c ∷ t) = ground arith
ends_with-append (c ∷ s) t = ground (arith, ends_with-append s t)

words_from-no_space : (s : Text) → no_space s ≡ true → words_from s ≡ (s, [])
unfolding words_from
words_from-no_space [] h = refl
words_from-no_space (c ∷ s) h = ground (arith, words_from-no_space s)

is_space_blank : is_space 32 ≡ true
unfolding is_space nat_eq ℕ_discrete
is_space_blank = refl

words_from-space : (s t : Text) → no_space s ≡ true → words_from (s ++ 32 ∷ t) ≡ (s, words t)
unfolding words
words_from-space [] t h = rw is_space_blank
words_from-space (c ∷ s) t h = ground (arith, words_from-space s t)

-- A word of a text: no white space, and not empty.
abbrev pub is_word : Text → Bool
is_word w = no_space w && not (is_empty w)

-- No letter is white space, in either case.
is_space-letter : (c : ℕ) → 65 ≤ c → c ≤ 122 → is_space c ≡ false
unfolding is_space nat_eq
is_space-letter c lo hi = ground arith

is_space-lower_char : (c : ℕ) → is_space (lower_char c) ≡ is_space c
unfolding lower_char
is_space-lower_char c = ground (arith, is_space-letter c, is_space-letter (c + 32))

pub no_space-lower : (s : Text) → no_space (lower s) ≡ no_space s
unfolding lower
no_space-lower [] = refl
no_space-lower (c ∷ s) = ground (arith, is_space-lower_char c, no_space-lower s)

pub is_word-lower : (s : Text) → is_word (lower s) ≡ is_word s
unfolding lower
is_word-lower [] = refl
is_word-lower (c ∷ s) = unfold lower in ground (arith, no_space-lower (c ∷ s))

all-words_from :
    (s : Text) → (no_space (words_from s).0 ≡ true) × (all is_word (words_from s).1 ≡ true)
unfolding words_from
all-words_from [] = (refl, refl)
all-words_from (c ∷ s) = let (first, later) = all-words_from s in (ground arith, ground arith)

-- `split` yields words only.
pub all-words : (s : Text) → all is_word (words s) ≡ true
unfolding words
all-words s = let (first, later) = all-words_from s in ground arith

-- A line of two words reads back as those words.
pub words-pair :
    (s t : Text)
    → no_space s ≡ true
    → no_space t ≡ true
    → is_empty s ≡ false
    → is_empty t ≡ false
    → words (s ++ 32 ∷ t) ≡ s ∷ t ∷ []
words-pair [] t hs ht es et = cc
words-pair (c ∷ s) [] hs ht es et = cc
words-pair (c ∷ s) (d ∷ t) hs ht es et =
    unfold words in rw (words_from-space (c ∷ s) (d ∷ t) hs) (rw (words_from-no_space (d ∷ t) ht))

pub split_on-lacks : (d : ℕ) (s : Text) → lacks d s ≡ true → split_on d s ≡ (s, [])
unfolding split_on
split_on-lacks d [] h = refl
split_on-lacks d (c ∷ s) h = ground (arith, split_on-lacks d s)

pub split_on-pair :
    (d : ℕ) (s t : Text)
    → lacks d s ≡ true
    → lacks d t ≡ true
    → split_on d (s ++ d ∷ t) ≡ (s, t ∷ [])
unfolding split_on
split_on-pair d [] t hs ht = ground (arith, split_on-lacks d t)
split_on-pair d (c ∷ s) t hs ht = ground (arith, split_on-pair d s t)

lstrip_spaces-no_space : (s : Text) → no_space s ≡ true → lstrip_spaces s ≡ s
unfolding lstrip_spaces
lstrip_spaces-no_space [] h = refl
lstrip_spaces-no_space (c ∷ s) h = ground arith

rstrip_spaces-no_space : (s : Text) → no_space s ≡ true → rstrip_spaces s ≡ s
unfolding rstrip_spaces
rstrip_spaces-no_space [] h = refl
rstrip_spaces-no_space (c ∷ []) h = ground arith
rstrip_spaces-no_space (c ∷ d ∷ s) h = rw (rstrip_spaces-no_space (d ∷ s) (ground arith))

pub strip-no_space : (s : Text) → no_space s ≡ true → strip s ≡ s
unfolding strip
strip-no_space s h = rw (lstrip_spaces-no_space s h) (rstrip_spaces-no_space s h)

abbrev sample : Text
sample = codes " 10.0.0.1  Host.Lan,x. "

sample_runs :
    (words sample ≡ codes "10.0.0.1" ∷ codes "Host.Lan,x." ∷ [])
    × (rstrip b'.' (strip sample) ≡ codes "10.0.0.1  Host.Lan,x")
    × (lower (codes "AbZ9") ≡ codes "abz9")
    × (split_on b',' (codes "a,b,") ≡ (codes "a", codes "b" ∷ [] ∷ []))
    × (ends_with (codes "a.lan") (codes ".lan") ≡ true)
unfolding words rstrip strip lower split_on ends_with is_space list_eq nat_eq ℕ_discrete
sample_runs = (refl, refl, refl, refl, refl)

-- `s.startswith(t)`
unfoldable pub starts_with : Text → Text → Bool
starts_with s [] = true
starts_with [] (d ∷ t) = false
starts_with (c ∷ s) (d ∷ t) = c == d && starts_with s t

-- The first field ends at the first mark.
pub split_on_first :
    (d : ℕ) (s t : Text)
    → lacks d s ≡ true
    → split_on d (s ++ d ∷ t) ≡ (s, (split_on d t).0 ∷ (split_on d t).1)
unfolding split_on
split_on_first d [] t h = ground arith
split_on_first d (c ∷ s) t h = ground (arith, split_on_first d s t)

pub lacks-append : (d : ℕ) (s t : Text) → lacks d (s ++ t) ≡ (lacks d s && lacks d t)
lacks-append d [] t = refl
lacks-append d (c ∷ s) t = ground (arith, lacks-append d s t)

-- `sep.join(texts)`, of a first text and the later ones.
unfoldable pub join_from : Text → Text → List Text → Text
join_from sep s [] = s
join_from sep s (t ∷ later) = s ++ sep ++ join_from sep t later

unfoldable pub join : Text → List Text → Text
join sep [] = []
join sep (s ∷ later) = join_from sep s later
