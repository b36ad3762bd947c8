-- ===== src/Dockhand/Plan.antt =====
-- dockhand_keyvault_copy.py: plan.
use k8s_homelab.Prelude.{
  ◌==◌, contains, none, union, list_eq, nat_eq, ◌∷◌, ◌++◌, some, if◌then◌else◌, List, Option, [],
}
use k8s_homelab.Prelude.Text.{codes, lower, Text}
use k8s_homelab.Prelude.Dict.{insert, lookup, Dict}
use k8s_homelab.Dockhand.{name, built, is_reference, selectors, unread, reader_of, Rule, Variable}
use k8s_homelab.Keyvault.{one_name, two_values, not_in_map, keyvault_name, stopped, done, Result}
use k8s_homelab.Keyvault.Main.{◌then_on◌}

pub record Target : Type 0 where
  pub value : Text
  pub readers : List Text

pub record Built : Type 0 where
  pub reader : Text
  pub template : Text
  pub names : List Text
  pub value : Text

pub record Plan : Type 0 where
  pub targets : Dict Text Target
  pub by_lower : Dict Text Text
  pub builts : List Built
  pub skipped : List Text
  pub refs : Dict Text (List Text)
  pub unmapped : List Text

abbrev pub nothing_planned : Plan
nothing_planned = record {
  targets = [];
  by_lower = [];
  builts = [];
  skipped = [];
  refs = [];
  unmapped = [];
}

abbrev pub Rules : Type 0
Rules = Dict Text (Dict Text Rule)

abbrev pub or_empty_dict : {V : Type 0} → Option (Dict Text V) → Dict Text V
or_empty_dict none = []
or_empty_dict (some d) = d

abbrev pub rule_for : Rules → Variable → Option Rule
rule_for rules e = lookup e.key (or_empty_dict (lookup e.stack rules))

abbrev pub skip : Text → Plan → Plan
skip why p = record p { skipped = p.skipped ++ why ∷ [] }

abbrev pub or_none : Option (List Text) → List Text
or_none none = []
or_none (some ns) = ns

-- `refs.setdefault(stack, set()).update(names)`
abbrev pub refer : Text → List Text → Plan → Plan
refer stack names p = record p {
  refs = insert stack (union (or_none (lookup stack p.refs)) names) p.refs;
}

abbrev pub first_reader : List Text → Text
first_reader [] = []
first_reader (r ∷ rs) = r

abbrev pub put_target : Text → Target → Plan → Plan
put_target n t p = record p { targets = insert n t p.targets }

unfoldable pub add_target : Variable → Text → Option Target → Plan → Result Plan
add_target e n none p =
    done (put_target n (record { value = e.value; readers = reader_of e ∷ [] }) p)
add_target e n (some t) p =
    if t.value == e.value
    then done (put_target n (record { value = t.value; readers = t.readers ++ reader_of e ∷ [] }) p)
    else stopped (two_values (reader_of e) (first_reader t.readers) n)

-- The name that Key Vault took first for a name, ignoring case: `by_lower.setdefault`.
unfoldable pub add_named : Variable → Text → Option Text → Plan → Result Plan
add_named e n none p =
    add_target e n (lookup n p.targets)
      (record p { by_lower = insert (lower (keyvault_name n)) n p.by_lower })
add_named e n (some first) p =
    if first == n then add_target e n (lookup n p.targets) p else stopped (one_name n first)

unfoldable pub add_mapped : Variable → Option Rule → Plan → Result Plan
add_mapped e none p = done (record p { unmapped = p.unmapped ++ reader_of e ∷ [] })
add_mapped e (some (unread why)) p = done (skip (reader_of e ++ codes ": " ++ why) p)
add_mapped e (some (built template names)) p = done (
    refer e.stack names (record p {
      builts =
          p.builts
          ++ record { reader = reader_of e; template = template; names = names; value = e.value }
            ∷ [];
    }))
add_mapped e (some (name n)) p =
    add_named e n (lookup (lower (keyvault_name n)) p.by_lower) (refer e.stack (n ∷ []) p)

unfoldable pub add_variable : Rules → Variable → Plan → Result Plan
add_variable rules e p =
    if contains selectors e.key
    then done (skip (reader_of e ++ codes ": Dockhand's bulk-pull selector, not a secret") p)
    else if is_reference e.value
    then done (skip (reader_of e ++ codes ": already a secret-provider reference") p)
    else add_mapped e (rule_for rules e) p

unfoldable pub plan_from : Rules → List Variable → Plan → Result Plan
plan_from rules [] p = done p
plan_from rules (e ∷ es) p = elim (add_variable rules e p) [
  | stopped s ↦ stopped s
  | done q ↦ plan_from rules es q
]

abbrev pub all_mapped : Plan → Result Plan
all_mapped p = elim p.unmapped [ [] ↦ done p | r ∷ rs ↦ stopped (not_in_map (r ∷ rs)) ]

unfoldable pub plan : List Variable → Rules → Result Plan
plan entries rules = plan_from rules entries nothing_planned then_on λ p. all_mapped p
