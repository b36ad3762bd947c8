-- ===== src/Organizr/Main.antt =====
-- organizr-sync.py: the read-back of `verify`, and `main` from the configuration on. The categories and the
-- tabs of the configuration are given by their names, each once.
use k8s_homelab.Prelude.{
  false, true, nat_eq, list_eq, contains, minus, none, not, ◌++◌, ◌>>=◌, filter, ◌==◌, [], ◌∷◌,
  some, map, if◌then◌else◌, ℕ, Bool, Option, List,
}
use k8s_homelab.Prelude.Dict.{Dict, keys, lookup}
use k8s_homelab.Prelude.Text.{codes, lower, Text}
use k8s_homelab.Prelude.Sort.{sorted}
use k8s_homelab.Organizr.Setup.{
  apply_settings, first_run, wait_ready, resolve, is_secret, read_config, Env,
}
use k8s_homelab.Json.{
  null, text, pop, put, dict, get, is_empty_dict, str_value, is_truthy, field, str_of, no_fields,
  Fields, Value,
}
use k8s_homelab.Organizr.{
  remove_unlisted, apply_list, differs, data_of, list_of, Answers, Session, Step, Items,
}

-- What the read-back finds amiss.
pub data Problem : Type 0 where
  setting_empty : Text → Problem
  setting_differs : Text → Problem
  category_missing : Text → Problem
  category_unlisted : Text → Problem
  tab_missing : Text → Problem
  tab_unlisted : Text → Problem
  tab_differs : Text → Problem

pub record Spec : Type 0 where
  pub wizard : Fields
  pub settings : Fields
  pub categories : Items
  pub tabs : Items
  pub exact : Bool

abbrev pub missing : Items → List Text → List Problem
missing have names = map category_missing (filter (λ n. not (contains (keys have) n)) names)

abbrev pub unlisted : (Text → Problem) → Bool → Items → List Text → List Problem
unlisted problem exact have names =
    if exact then map problem (sorted (minus (keys have) names)) else []

abbrev pub dict_of : Option Value → Option Fields
dict_of (some (dict o)) = some o
dict_of v = none

abbrev pub config_of : Option (ℕ × Value) → Option Fields
config_of none = none
config_of (some (status, resp)) =
    if status == 200 then (data_of resp >>= λ found. dict_of found) else none

-- `category_ids`, of the categories that are in the list.
unfoldable pub ids_of : Items → List Text → Option (Dict Text Value)
ids_of have [] = some []
ids_of have (name ∷ names) = elim (lookup name have) [
  | none ↦ ids_of have names
  | some item ↦
      get (codes "category_id") item >>= λ id. ids_of have names >>= λ ids. some ((name, id) ∷ ids)
]

-- A tab with the id of its category; none where there is no such category.
abbrev pub with_id : Fields → Option Value → Option Fields
with_id tab none = none
with_id tab (some id) = some (put (codes "category_id") id (pop (codes "category") tab))

abbrev pub placed_tab : Dict Text Value → Fields → Option Value → Option Fields
placed_tab ids tab none = some tab
placed_tab ids tab (some null) = some (pop (codes "category") tab)
placed_tab ids tab (some (text name)) = with_id tab (lookup name ids)
placed_tab ids tab (some v) = none

unfoldable pub placed_tabs : Dict Text Value → Items → Option Items
placed_tabs ids [] = some []
placed_tabs ids ((name, tab) ∷ tabs) = placed_tab ids tab (get (codes "category") tab) >>= λ placed.
    placed_tabs ids tabs >>= λ rest. some ((name, placed) ∷ rest)

-- What follows a step that must go well.
unfoldable pub then_run : Bool × Session → (Session → Bool × Session) → Bool × Session
then_run (true, sent) next = next sent
then_run (false, sent) next = (false, sent)

abbrev pub verified : Option (List Problem) × Session → Bool × Session
verified (some [], sent) = (true, sent)
verified (problems, sent) = (false, sent)

module _ (repr : Value → Text) where
  unfoldable pub same_setting : Option Value → Value → Bool
  same_setting got wanted = lower (str_of repr got) == lower (str_value repr wanted)

  abbrev pub setting_problem : Text → Option Value → Option Value → Option (List Problem)
  setting_problem key got none = none
  setting_problem key got (some wanted) =
      some (if same_setting got wanted then [] else setting_differs key ∷ [])

  -- The problems of one setting; none where the environment lacks what it reads.
  unfoldable pub problems_of : Env → Fields → Text → Value → Option (List Problem)
  problems_of env config key v =
      if is_secret key
      then some (if is_truthy (get key config) then [] else setting_empty key ∷ [])
      else setting_problem key (get key config) (resolve env v)

  unfoldable pub setting_problems : Env → Fields → Fields → Option (List Problem)
  setting_problems env config no_fields = some []
  setting_problems env config (field key v settings) = problems_of env config key v >>= λ ps.
      setting_problems env config settings >>= λ rest. some (ps ++ rest)

  abbrev pub tab_problem : Text → Fields → Option Fields → List Problem
  tab_problem name tab none = tab_missing name ∷ []
  tab_problem name tab (some have) =
      if is_empty_dict (differs repr have tab) then [] else tab_differs name ∷ []

  unfoldable pub tab_problems : Items → Items → List Problem
  tab_problems have [] = []
  tab_problems have ((name, tab) ∷ tabs) =
      tab_problem name tab (lookup name have) ++ tab_problems have tabs

  module _ (os_error : Session → Bool) (answer : Answers) (env : Env) where
    -- The two lists, after the problems of the settings.
    unfoldable pub verify_lists : List Problem → Items → Items → Bool → Step (List Problem)
    verify_lists problems categories tabs exact sent =
        let (found, sent') = list_of answer (codes "categories") (codes "category") sent in
        let (listed, sent'') = list_of answer (codes "tabs") (codes "name") sent' in
        elim found [
          | none ↦ (none, sent')
          | some have ↦ elim listed [
            | none ↦ (none, sent'')
            | some there ↦ (
              some (
                  problems
                  ++ (missing have (keys categories)
                      ++ (unlisted category_unlisted exact have (keys categories)
                          ++ (unlisted tab_unlisted exact there (keys tabs)
                              ++ tab_problems there tabs)))),
              sent'',
            )
          ]
        ]

    -- The problems that `verify` finds; none where it ends before.
    unfoldable pub verify : Fields → Items → Items → Bool → Step (List Problem)
    verify settings categories tabs exact sent =
        let (r, sent') = read_config os_error answer sent in
        elim (config_of r >>= λ config. setting_problems env config settings) [
          | none ↦ (none, sent')
          | some problems ↦ verify_lists problems categories tabs exact sent'
        ]

    unfoldable pub category_ids : List Text → Step (Dict Text Value)
    category_ids names sent =
        let (found, sent') = list_of answer (codes "categories") (codes "category") sent in
        (found >>= λ have. ids_of have names, sent')

    -- From the tabs on, with the ids of their categories.
    unfoldable pub sync_tabs : Spec → Items → Session → Bool × Session
    sync_tabs spec tabs sent =
        then_run (apply_list repr answer (codes "tabs") (codes "name") tabs sent) (λ s.
          then_run
            (remove_unlisted repr answer (codes "tabs") (codes "name") (keys tabs) spec.exact s)
            (λ t.
              then_run
                (remove_unlisted repr answer (codes "categories") (codes "category")
                  (keys spec.categories) spec.exact t)
                (λ u. verified (verify spec.settings spec.categories tabs spec.exact u))))

    abbrev pub sync_given : Spec → Option Items → Session → Bool × Session
    sync_given spec none sent = (false, sent)
    sync_given spec (some tabs) sent = sync_tabs spec tabs sent

    abbrev pub sync_placed : Spec → Option (Dict Text Value) × Session → Bool × Session
    sync_placed spec (none, sent) = (false, sent)
    sync_placed spec (some ids, sent) = sync_given spec (placed_tabs ids spec.tabs) sent

    -- `main`, which returns or fails.
    unfoldable pub main : Spec → Session → Bool × Session
    main spec sent = then_run (wait_ready os_error answer 60 sent) (λ s.
        then_run (first_run os_error answer env spec.wizard s) (λ t.
          then_run (apply_settings os_error answer env spec.settings t) (λ u.
            then_run
              (apply_list repr answer (codes "categories") (codes "category") spec.categories u)
              (λ v. sync_placed spec (category_ids (keys spec.categories) v)))))
