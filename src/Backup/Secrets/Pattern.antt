-- ===== src/Backup/Secrets/Pattern.antt =====
-- The regular expressions of scripts/k8s_backup/secretscan.py, as rows of pieces that are tried with
-- backtracking, as `re` does. The characters of a word and the letters are the ASCII ones.
use k8s_homelab.Prelude.{
  zero, none, list_eq, nat_eq, [], ◌||◌, some, ◌&&◌, suc, true, ◌∷◌, not, leb, Option, ◌==◌, false,
  ℕ, List, Bool, if◌then◌else◌,
}
use k8s_homelab.Prelude.Text.{Text}

-- A literal, a class of characters from a least count up to so many more (or any number), an edge of a
-- word, the end of the text or before a last newline.
pub data Piece : Type 0 where
  literal : Text → Piece
  class : (ℕ → Bool) → ℕ → Option ℕ → Piece
  edge : Piece
  at_end : Piece

unfoldable pub is_word_char : ℕ → Bool
is_word_char c =
    (leb 48 c && leb c 57) || (leb b'a' c && leb c b'z') || (leb b'A' c && leb c b'Z') || c == b'_'

-- What is left to match, after a character of a word or not.
abbrev Rest : Type 0
Rest = Bool → Text → Bool

unfoldable pub match_literal : Text → Rest → Rest
match_literal [] k after s = k after s
match_literal (c ∷ l) k after [] = false
match_literal (c ∷ l) k after (d ∷ s) = c == d && match_literal l k (is_word_char d) s

unfoldable pub match_many : (ℕ → Bool) → Rest → Rest
match_many p k after [] = k after []
match_many p k after (d ∷ s) = k after (d ∷ s) || (p d && match_many p k (is_word_char d) s)

unfoldable pub match_upto : (ℕ → Bool) → ℕ → Rest → Rest
match_upto p zero k after s = k after s
match_upto p (suc n) k after [] = k after []
match_upto p (suc n) k after (d ∷ s) =
    k after (d ∷ s) || (p d && match_upto p n k (is_word_char d) s)

unfoldable pub match_exact : (ℕ → Bool) → ℕ → Rest → Rest
match_exact p zero k after s = k after s
match_exact p (suc n) k after [] = false
match_exact p (suc n) k after (d ∷ s) = p d && match_exact p n k (is_word_char d) s

abbrev match_more : (ℕ → Bool) → Option ℕ → Rest → Rest
match_more p none k = match_many p k
match_more p (some n) k = match_upto p n k

abbrev begins_word : Text → Bool
begins_word [] = false
begins_word (d ∷ s) = is_word_char d

abbrev is_last : Text → Bool
is_last s = s == [] || s == 10 ∷ []

unfoldable pub match_piece : Piece → Rest → Rest
match_piece (literal l) k after s = match_literal l k after s
match_piece (class p n more) k after s = match_exact p n (match_more p more k) after s
match_piece edge k after s = (if begins_word s then not after else after) && k after s
match_piece at_end k after s = is_last s && k after s

-- `pattern.match` at a place of the text, and `pattern.search`.
unfoldable pub match_here : List Piece → Rest
match_here [] after s = true
match_here (p ∷ ps) after s = match_piece p (match_here ps) after s

unfoldable pub search_from : List Piece → Rest
search_from ps after [] = match_here ps after []
search_from ps after (d ∷ s) = match_here ps after (d ∷ s) || search_from ps (is_word_char d) s

unfoldable pub found_by : List Piece → Text → Bool
found_by ps s = search_from ps false s
