-- ===== src/Qualification/Schema.antt =====
-- `_validate` of scripts/qualification/finalizer.py: the part of JSON schema that the qualification
-- contracts in ci/schemas use.
use Prim.Native.Char.{code}
use Prim.Native.String.{◌++◌}
use terragrunt_demo.Common.{
  ℕ, zero, suc, String, Bool, true, false, not, ◌&&◌, ◌||◌, none, some, List, [], ◌∷◌, nat_eq,
  length, codes, contains, elem, if◌then◌else◌, Result, ok, raise, Raised, require, ◌>>=◌, ◌>>◌,
}
use terragrunt_demo.Json.{
  Value, str, bool, num, obj, arr, null, Fields, field, end, Items, cons, nil, find, names, item,
  is_text, py_eq,
}
use terragrunt_demo.Dicts.{get, get_or, dict_of, require_dict, in_set, truthy}
use terragrunt_demo.Recovery.Exact.{is_int, le}

-- `type(a) is type(b)`
abbrev pub same_type : Value → Value → Bool
same_type (str a) (str b) = true
same_type (bool a) (bool b) = true
same_type (obj a) (obj b) = true
same_type (arr a) (arr b) = true
same_type null null = true
same_type a b = is_int a && is_int b

abbrev pub any_item : (Value → Bool) → Items → Bool
any_item p nil = false
any_item p (cons v vs) = p v || any_item p vs

-- `value in container`
unfoldable pub is_in : Value → Value → Result Bool
is_in v (arr vs) = ok (any_item (py_eq v) vs)
is_in v (obj fs) = in_set v (names fs)
is_in (str s) (str t) = ok (contains s t)
is_in v _ = raise Raised.type_error

-- `set(list) <= keys`, for the items of a list: one that cannot be hashed raises.
abbrev pub items_among : List String → Items → Result Bool
items_among keys nil = ok true
items_among keys (cons v vs) = do
  here ← in_set v keys
  others ← items_among keys vs
  ok (here && others)

abbrev pub letters : String → List String
letters String.[] = []
letters (String.◌∷◌ c s) = String.◌∷◌ c String.[] ∷ letters s

abbrev pub all_among : List String → List String → Bool
all_among keys [] = true
all_among keys (k ∷ ks) = elem k keys && all_among keys ks

-- `set(v) <= set(value)`, for a value with these keys
unfoldable pub among : List String → Value → Result Bool
among keys (arr vs) = items_among keys vs
among keys (obj fs) = ok (all_among keys (names fs))
among keys (str s) = ok (all_among keys (letters s))
among keys _ = raise Raised.type_error

abbrev pub last_from : String → String → String
last_from current String.[] = current
last_from current (String.◌∷◌ c s) =
    if nat_eq (code c) b'/' then last_from "" s else last_from (current ++ String.◌∷◌ c String.[]) s

-- `s.split('/')[-1]`
unfoldable pub last_part : String → String
last_part s = last_from "" s

-- A text where Python needs one.
abbrev pub text_of : Value → Result String
text_of (str s) = ok s
text_of _ = raise Raised.type_error

-- `if key in schema: check(schema[key])`
abbrev pub if_there : String → Fields → (Value → Result (Unit {0})) → Result (Unit {0})
if_there key schema check = elim (find key schema) [ none ↦ ok tt | some v ↦ check v ]

-- `for k, v in value.items()`, with the properties of the schema
abbrev pub each_property : (Value → Value → Result (Unit {0})) → Fields → Fields → Result (Unit {0})
each_property validate properties end = ok tt
each_property validate properties (field k v fs) = do
  schema ← item properties k
  validate v schema
  each_property validate properties fs

unfoldable pub check_object :
    (Value → Value → Result (Unit {0})) → Fields → Value → Result (Unit {0})
check_object validate schema value = do
  fs ← require_dict value
  all_there ← among (names fs) (get_or schema "required" (arr nil))
  require all_there
  require (not (truthy (get schema "additionalProperties")))
  p ← item schema "properties"
  properties ← dict_of p
  require (all_among (names properties) (names fs))
  each_property validate properties fs

-- `fullmatch pattern s` is `re.fullmatch(pattern, s) is not None`.
module _ (fullmatch : String → String → Bool) where
  unfoldable pub check_string : Fields → Value → Result (Unit {0})
  check_string schema (str s) = do
    short ← le (num (length (codes s))) (get_or schema "maxLength" (num 4096))
    require short
    long ← le (get_or schema "minLength" (num 0)) (num (length (codes s)))
    require long
    if_there "pattern" schema (λ v. do pattern ← text_of v; require (fullmatch pattern s))
  check_string schema _ = raise Raised.rejected

  -- What the type of the schema asks for.
  unfoldable pub check_kind :
      (Value → Value → Result (Unit {0})) → Fields → Value → Result (Unit {0})
  check_kind validate schema value =
      if is_text (get schema "type") "object"
      then check_object validate schema value
      else if is_text (get schema "type") "string"
      then check_string schema value
      else if is_text (get schema "type") "integer"
      then require (is_int value)
      else ok tt

  -- One call of `_validate`, whose own calls are `validate`.
  unfoldable pub validate_step :
      (Value → Value → Result (Unit {0})) → Fields → Value → Value → Result (Unit {0})
  validate_step validate definitions value s = do
    schema ← dict_of s
    elim (find "$ref" schema) [
      | some r ↦ do
        path ← text_of r
        definition ← item definitions (last_part path)
        validate value definition
      | none ↦ do
        if_there "const" schema (λ c. require (same_type value c && py_eq value c))
        if_there "enum" schema (λ e. do known ← is_in value e; require known)
        check_kind validate schema value
    ]

  -- `_validate(value, schema, definitions)`, with as many calls inside each other as Python allows.
  unfoldable pub validate_value : ℕ → Fields → Value → Value → Result (Unit {0})
  validate_value zero definitions value schema = raise Raised.recursion_error
  validate_value (suc frames) definitions value schema =
      validate_step (validate_value frames definitions) definitions value schema
