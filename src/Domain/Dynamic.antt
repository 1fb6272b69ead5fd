-- ===== src/Domain/Dynamic.antt =====
-- The `any` values of inputs, variables and results, as JSON and CEL produce them, and the maps
-- `map[string]any` of such values. A float64 is modelled where it is a whole number.
use go_saga_orchestration.Prelude.{
  ◌≡◌, refl, Bool, String, Option, none, some, List, [], ◌∷◌, arith, ◌==◌, string_eq, if◌then◌else◌,
  ℤ,
}

mutual
  pub data Value : Type 0 where
    null : Value
    bool : Bool → Value
    int : ℤ → Value
    float : ℤ → Value
    str : String → Value
    list : Values → Value
    obj : Fields → Value

  -- `[]any`
  pub data Values : Type 0 where
    nil : Values
    cons : Value → Values → Values

  -- `map[string]any`; the nil map is the empty one.
  pub data Fields : Type 0 where
    end : Fields
    field : String → Value → Fields → Fields

-- `m[k]`, with `none` for a missing key.
abbrev pub get : String → Fields → Option Value
get k end = none
get k (field j v m) = if j == k then some v else get k m

-- `m[k] = v`
abbrev pub put : String → Value → Fields → Fields
put k v end = field k v end
put k v (field j w m) = if j == k then field k v m else field j w (put k v m)

-- `v.(string)`, with "" where the assertion fails.
abbrev pub as_string : Option Value → String
as_string (some (str s)) = s
as_string _ = ""

-- `v.(map[string]any)`
abbrev pub as_fields : Option Value → Option Fields
as_fields (some (obj m)) = some m
as_fields _ = none

-- `v.([]any)`
abbrev pub as_list : Option Value → Option Values
as_list (some (list l)) = some l
as_list _ = none

-- The entries of a map as a list, for the loops that range over it.
abbrev pub entries : Fields → List (String × Value)
entries end = []
entries (field k v m) = (k, v) ∷ entries m

unfoldable pub to_fields : List (String × Value) → Fields
to_fields [] = end
to_fields ((k, v) ∷ l) = field k v (to_fields l)

abbrev pub elements : Values → List Value
elements nil = []
elements (cons v l) = v ∷ elements l

pub get-put :
    (k j : String) (v : Value) (m : Fields)
    → get j (put k v m) ≡ (if k == j then some v else get j m)
get-put k j v end = refl
get-put k j v (field i w m) =
    ground
      (arith, string_eq.beq_iff k j, string_eq.beq_iff i k, string_eq.beq_iff i j, get-put k j v m)
