-- ===== src/Json.antt =====
-- JSON values, whose dicts keep the order of their keys, and how Python reads them.
use k8s_homelab.Prelude.{
  ◌≡◌, refl, ap, ◌∙◌, List, [], ◌∷◌, Option, none, some, Bool, true, false, arith, if◌then◌else◌,
  ◌==◌, contains, list_eq, nat_eq, not, ◌&&◌,
}
use k8s_homelab.Prelude.Text.{Text, codes, is_empty}

-- A number is kept as it is written.
mutual
  pub data Value : Type 0 where
    null : Value
    bool : Bool → Value
    number : Text → Value
    text : Text → Value
    list : Values → Value
    dict : Fields → Value

  pub data Values : Type 0 where
    no_values : Values
    value : Value → Values → Values

  pub data Fields : Type 0 where
    no_fields : Fields
    field : Text → Value → Fields → Fields

abbrev pub is_empty_dict : Fields → Bool
is_empty_dict no_fields = true
is_empty_dict (field k v o) = false

-- `o.get(k)`
unfoldable pub get : Text → Fields → Option Value
get k no_fields = none
get k (field j v o) = let rest = get k o in if j == k then some v else rest

-- `o[k] = v`
unfoldable pub put : Text → Value → Fields → Fields
put k v no_fields = field k v no_fields
put k v (field j w o) = let rest = put k v o in if j == k then field j v o else field j w rest

-- `o.pop(k, None)`
unfoldable pub pop : Text → Fields → Fields
pop k no_fields = no_fields
pop k (field j v o) = let rest = pop k o in if j == k then rest else field j v rest

unfoldable pub pop_all : List Text → Fields → Fields
pop_all [] o = o
pop_all (k ∷ ks) o = pop_all ks (pop k o)

-- A value that is a dict; a text.
abbrev pub as_dict : Option Value → Option Fields
as_dict (some (dict d)) = some d
as_dict _ = none

abbrev pub is_text : Text → Option Value → Bool
is_text s (some (text t)) = t == s
is_text s _ = false

-- A JSON number is zero if its digits before the exponent are.
unfoldable pub is_zero : Text → Bool
is_zero [] = true
is_zero (c ∷ n) =
    let rest = is_zero n in
    if contains (codes "eE") c then true else contains (codes "0.-") c && rest

unfoldable pub is_truthy : Option Value → Bool
is_truthy none = false
is_truthy (some null) = false
is_truthy (some (bool b)) = b
is_truthy (some (number n)) = not (is_zero n)
is_truthy (some (text t)) = not (is_empty t)
is_truthy (some (list no_values)) = false
is_truthy (some (list (value v vs))) = true
is_truthy (some (dict d)) = not (is_empty_dict d)

-- `o.get(k, {})`, and `o.get(k) or {}`, of which a dict is asked.
unfoldable pub dict_or_empty : Option Value → Option Fields
dict_or_empty none = some no_fields
dict_or_empty (some (dict d)) = some d
dict_or_empty (some _) = none

unfoldable pub or_empty : Option Value → Option Fields
or_empty (some (dict d)) = some d
or_empty v = if is_truthy v then none else some no_fields

-- `o.get(k, "")`
abbrev pub text_or_blank : Option Value → Text
text_or_blank (some (text t)) = t
text_or_blank _ = []

-- `str` of a list or a dict is a parameter.
module _ (repr : Value → Text) where
  -- `str(v)`
  unfoldable pub str_value : Value → Text
  str_value null = codes "None"
  str_value (bool true) = codes "True"
  str_value (bool false) = codes "False"
  str_value (number n) = n
  str_value (text t) = t
  str_value (list vs) = repr (list vs)
  str_value (dict o) = repr (dict o)

  -- `str(o.get(k))`
  abbrev pub str_of : Option Value → Text
  str_of none = codes "None"
  str_of (some v) = str_value v

pub get-put :
    (k j : Text) (v : Value) (o : Fields) → get j (put k v o) ≡ (if k == j then some v else get j o)
unfolding get put
get-put k j v no_fields = ground arith
get-put k j v (field i w o) = ground (arith, get-put k j v o)

pub get-pop : (k j : Text) (o : Fields) → get j (pop k o) ≡ (if k == j then none else get j o)
unfolding get pop
get-pop k j no_fields = ground arith
get-pop k j (field i w o) = ground (arith, get-pop k j o)

pub pop_absent : (k : Text) (o : Fields) → get k o ≡ none → pop k o ≡ o
unfolding get pop
pop_absent k no_fields h = refl
pop_absent k (field i w o) h = ground (arith, pop_absent k o)

pub put_same : (k : Text) (v : Value) (o : Fields) → get k o ≡ some v → put k v o ≡ o
unfolding get put
put_same k v no_fields h = absurd (cc)
put_same k v (field i w o) h = ground (arith, put_same k v o)

pub get-pop_all :
    (ks : List Text) (j : Text) (o : Fields)
    → get j (pop_all ks o) ≡ (if contains ks j then none else get j o)
unfolding pop_all
get-pop_all [] j o = refl
get-pop_all (k ∷ ks) j o = ground (arith, get-pop_all ks j (pop k o), get-pop k j o)

pub pop_all_absent :
    (ks : List Text) (o : Fields)
    → ((j : Text) → contains ks j ≡ true → get j o ≡ none)
    → pop_all ks o ≡ o
unfolding pop_all
pop_all_absent [] o h = refl
pop_all_absent (k ∷ ks) o h =
    let absent = pop_absent k o (h k (ground arith)) in
    ap (pop_all ks) absent ∙ pop_all_absent ks o (λ j m. h j (ground arith))

pub pop_all_idem : (ks : List Text) (o : Fields) → pop_all ks (pop_all ks o) ≡ pop_all ks o
pop_all_idem ks o = pop_all_absent ks (pop_all ks o) (λ j m. ground (arith, get-pop_all ks j o))

pub put-put : (k : Text) (v w : Value) (o : Fields) → put k w (put k v o) ≡ put k w o
unfolding put
put-put k v w no_fields = ground arith
put-put k v w (field i u o) = ground (arith, put-put k v w o)
