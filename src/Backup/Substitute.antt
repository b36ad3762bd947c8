-- ===== src/Backup/Substitute.antt =====
-- The substitutions of scripts/k8s_backup/varsub.py: private literals are replaced by placeholders
-- in the texts of a manifest, and in a rendered text. What the source changes in place is
-- returned, with the count. The filter and the order are taken once, and not again at each level,
-- where they give the same list.
pub mod Laws
pub mod Entries
pub mod Cache
pub mod Seeds
pub mod Fresh
pub mod Seeded
pub mod Tests
use k8s_homelab.Prelude.{
  ℕ, zero, suc, ◌+◌, ◌-◌, List, [], ◌∷◌, ◌++◌, Bool, true, false, not, ◌||◌, if◌then◌else◌, ◌==◌,
  filter, length, leb, list_eq, nat_eq,
}
use k8s_homelab.Prelude.Text.{Text, starts_with}
use k8s_homelab.Prelude.Sort.{sorted_by}
use k8s_homelab.Json.{
  Value, null, bool, number, text, list, dict, Values, no_values, value, Fields, no_fields, field,
}

pub record Substitution : Type 0 where
  pub literal : Text
  pub placeholder : Text
  pub replace : Bool

-- `s in t`
unfoldable pub occurs : Text → Text → Bool
occurs s [] = starts_with [] s
occurs s (c ∷ t) = starts_with (c ∷ t) s || occurs s t

-- `t.replace(s, p)` for a text `s` that is not empty: `skip` characters of an occurrence are still
-- to be passed over.
unfoldable pub replace_from : ℕ → Text → Text → Text → Text
replace_from skip s p [] = []
replace_from (suc skip) s p (c ∷ t) = replace_from skip s p t
replace_from zero s p (c ∷ t) =
    let after = replace_from (length s - 1) s p t in
    let next = replace_from zero s p t in if starts_with (c ∷ t) s then p ++ after else c ∷ next

-- For the empty text, `p` goes before each character and to the end.
unfoldable pub replace_empty : Text → Text → Text
replace_empty p [] = p
replace_empty p (c ∷ t) = p ++ c ∷ replace_empty p t

unfoldable pub replaced : Text → Text → Text → Text
replaced [] p t = replace_empty p t
replaced (c ∷ s) p t = replace_from zero (c ∷ s) p t

-- `_replaceable`, and the order of the longest literal first.
unfoldable pub replaceable : List Substitution → List Substitution
replaceable subs = filter (λ s. s.replace) subs

unfoldable pub ordered : List Substitution → List Substitution
unfolding sorted_by
ordered subs = sorted_by (λ a b. leb (length b.literal) (length a.literal)) subs

-- What becomes of a text in a manifest, and of a rendered text.
unfoldable pub new_text : List Substitution → Text → Text
new_text [] t = t
new_text (s ∷ subs) t =
    new_text subs (if occurs s.literal t then replaced s.literal s.placeholder t else t)

unfoldable pub replace_each : List Substitution → Text → Text
replace_each [] t = t
replace_each (s ∷ subs) t = replace_each subs (replaced s.literal s.placeholder t)

unfoldable pub apply_substitutions_text : Text → List Substitution → Text
apply_substitutions_text t subs = replace_each (ordered (replaceable subs)) t

abbrev pub touched : Text → Text → ℕ
touched new old = if new == old then 0 else 1

-- The walk over a manifest, for substitutions in order: the count of the texts touched, and the
-- value that is left. A text that is not in a dict or a list stays.
unfoldable mutual
  pub walk_value : List Substitution → Value → ℕ × Value
  walk_value subs (dict d) = let (n, e) = walk_fields subs d in (n, dict e)
  walk_value subs (list l) = let (n, e) = walk_values subs l in (n, list e)
  walk_value subs null = (0, null)
  walk_value subs (bool b) = (0, bool b)
  walk_value subs (number n) = (0, number n)
  walk_value subs (text t) = (0, text t)

  pub walk_member : List Substitution → Value → ℕ × Value
  walk_member subs (text t) = let new = new_text subs t in (touched new t, text new)
  walk_member subs (dict d) = let (n, e) = walk_fields subs d in (n, dict e)
  walk_member subs (list l) = let (n, e) = walk_values subs l in (n, list e)
  walk_member subs null = (0, null)
  walk_member subs (bool b) = (0, bool b)
  walk_member subs (number n) = (0, number n)

  pub walk_values : List Substitution → Values → ℕ × Values
  walk_values subs no_values = (0, no_values)
  walk_values subs (value v vs) =
      let (n, w) = walk_member subs v in let (m, ws) = walk_values subs vs in (n + m, value w ws)

  pub walk_fields : List Substitution → Fields → ℕ × Fields
  walk_fields subs no_fields = (0, no_fields)
  walk_fields subs (field k v d) =
      let (n, w) = walk_member subs v in let (m, e) = walk_fields subs d in (n + m, field k w e)

unfoldable pub apply_substitutions : Value → List Substitution → ℕ × Value
apply_substitutions obj subs = walk_value (ordered (replaceable subs)) obj
