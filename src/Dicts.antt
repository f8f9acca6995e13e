-- ===== src/Dicts.antt =====
-- What the sources do with JSON values whose form is not known yet: an access that Python refuses
-- raises, a test of a value's form is a condition.
use terragrunt_demo.Common.{
  String, Bool, true, false, not, ◌&&◌, ◌||◌, Option, none, some, List, [], ◌∷◌, ◌≡◌, refl, arith,
  ◌==◌, nat_eq, if◌then◌else◌, elem, Result, ok, raise, Raised, ◌>>=◌, ◌>>◌, require, In, ap, ◌∙◌,
  &&-true, Bool-cases, inl, inr, all, eq_iff, returned-bind, require-then, ok-injective,
}
use terragrunt_demo.Json.{
  Value, str, bool, num, neg, obj, arr, null, Fields, field, end, Items, cons, nil, find, names,
  same_keys, item, item-then, is_text, py_eq,
}

-- `d.get(k, default)`
abbrev pub get_or : Fields → String → Value → Value
get_or fs k default = elim (find k fs) [ none ↦ default | some v ↦ v ]

-- `d.get(k)`
abbrev pub get : Fields → String → Value
get fs k = get_or fs k null

-- A value that is used as a dictionary.
abbrev pub dict_of : Value → Result Fields
dict_of (obj fs) = ok fs
dict_of _ = raise Raised.type_error

-- `require(type(v) is dict …)`
abbrev pub require_dict : Value → Result Fields
require_dict (obj fs) = ok fs
require_dict _ = raise Raised.rejected

-- `require(type(v) is str …)`
abbrev pub require_str : Value → Result String
require_str (str s) = ok s
require_str _ = raise Raised.rejected

-- `require(type(v) is list …)`
abbrev pub require_list : Value → Result Items
require_list (arr xs) = ok xs
require_list _ = raise Raised.rejected

-- `keys(value, expected, reason)`
unfoldable pub keys : Value → List String → Result Fields
keys v expected = do fs ← require_dict v; require (same_keys fs expected); ok fs

-- `bool(v)`
abbrev pub truthy : Value → Bool
truthy (str s) = not (s == "")
truthy (bool b) = b
truthy (num n) = not (nat_eq n 0)
truthy (neg n) = true
truthy (obj end) = false
truthy (obj (field k v fs)) = true
truthy (arr nil) = false
truthy (arr (cons v xs)) = true
truthy null = false

-- `v in names`, for a set or a dictionary with the keys `names`: a value that cannot be hashed
-- raises.
abbrev pub in_set : Value → List String → Result Bool
in_set (str s) ks = ok (elem s ks)
in_set (obj fs) ks = raise Raised.type_error
in_set (arr xs) ks = raise Raised.type_error
in_set _ ks = ok false

-- `d.get(v)` by a value, `none` for a key that the dictionary lacks.
abbrev pub find_by : Value → Fields → Result (Option Value)
find_by (str s) fs = ok (find s fs)
find_by (obj gs) fs = raise Raised.type_error
find_by (arr xs) fs = raise Raised.type_error
find_by _ fs = ok none

-- `for element in v`, where each element is used as a dictionary: a value that is neither a list nor
-- empty raises, at once or at its first element.
abbrev pub elements : Value → Result Items
elements (arr xs) = ok xs
elements (obj end) = ok nil
elements (str s) = if s == "" then ok nil else raise Raised.type_error
elements _ = raise Raised.type_error

-- `all(p(v) for v in d.values())` and `any(p(v) for v in d.values())`
abbrev pub all_values : (Value → Bool) → Fields → Bool
all_values p end = true
all_values p (field k v fs) = p v && all_values p fs

abbrev pub any_value : (Value → Bool) → Fields → Bool
any_value p end = false
any_value p (field k v fs) = p v || any_value p fs

-- `type(v) is bool`
abbrev pub is_bool : Value → Bool
is_bool (bool b) = true
is_bool _ = false

-- `v is None`
abbrev pub is_null : Value → Bool
is_null null = true
is_null _ = false

-- `v is True` and `v is False`
abbrev pub is_true : Value → Bool
is_true (bool b) = b
is_true _ = false

abbrev pub is_false : Value → Bool
is_false (bool b) = not b
is_false _ = false

-- `type(v) is int and v == 0`
abbrev pub is_int_zero : Value → Bool
is_int_zero (num n) = nat_eq n 0
is_int_zero _ = false

-- A list of texts.
abbrev pub texts : List String → Value
texts ss = arr (list ss)
  where
    list : List String → Items
    list [] = nil
    list (s ∷ rest) = cons (str s) (list rest)

pub dict_of-ok : (v : Value) (fs : Fields) → dict_of v ≡ ok fs → v ≡ obj fs
dict_of-ok v fs h = ground arith

pub require_dict-ok : (v : Value) (fs : Fields) → require_dict v ≡ ok fs → v ≡ obj fs
require_dict-ok v fs h = ground arith

pub require_str-ok : (v : Value) (s : String) → require_str v ≡ ok s → v ≡ str s
require_str-ok v s h = ground arith

-- An access whose value goes through a check of its form.
pub item_of {κ ℓ} :
    {A : Type κ} {B : Type ℓ} (fs : Fields) (k : String) (form : Value → Result A)
    (rest : A → Result B) {b : B}
    → (item fs k >>= form >>= rest) ≡ ok b
    → (v : Value) × (a : A) × (find k fs ≡ some v) × (form v ≡ ok a) × (rest a ≡ ok b)
item_of fs k form rest h =
    let (a, checked, h1) = returned-bind (item fs k >>= form) rest h in
    let (v, found, formed) = item-then fs k form checked in (v, a, found, formed, h1)

pub all-In :
    (p : String → Bool) (k : String) (ks : List String) → all p ks ≡ true → In k ks → p k ≡ true
all-In p k [] h m = elim m [ ]
all-In p k (j ∷ ks) h In.here = (&&-true (p k) (all p ks) h).0
all-In p k (j ∷ ks) h (In.there m) = all-In p k ks (&&-true (p j) (all p ks) h).1 m

pub find_of_name :
    (k : String) (fs : Fields) → elem k (names fs) ≡ true → (v : Value) × (find k fs ≡ some v)
find_of_name k end h = cc
find_of_name k (field j v fs) h = elim (Bool-cases (j == k)) [
  | inl same ↦ (v, ground arith)
  | inr other ↦
      let (w, found) = find_of_name k fs (ground (arith, eq_iff j k, eq_iff k j)) in
      (w, ground arith)
]

-- A dictionary with the expected keys has a value at each.
pub same_keys-find :
    (fs : Fields) (ks : List String) (k : String)
    → same_keys fs ks ≡ true
    → In k ks
    → (v : Value) × (find k fs ≡ some v)
same_keys-find fs ks k h m = find_of_name k fs (
    all-In (λ j. elem j (names fs)) k ks
      (&&-true (all (λ j. elem j (names fs)) ks) (all (λ j. elem j ks) (names fs)) h).0 m)

pub keys-ok :
    (v : Value) (expected : List String) (fs : Fields)
    → keys v expected ≡ ok fs
    → (v ≡ obj fs) × (same_keys fs expected ≡ true)
unfolding keys
keys-ok v expected fs h =
    let (gs, is_dict, h1) = returned-bind (require_dict v) _ h in
    let (same, done) = require-then (same_keys gs expected) _ h1 in
    let e : gs ≡ fs = ok-injective done in (require_dict-ok v gs is_dict ∙ ap obj e, rw (← e) same)

pub is_true-eq : (v : Value) → is_true v ≡ true → v ≡ bool true
is_true-eq v h = ground arith

pub is_text-eq : (v : Value) (s : String) → is_text v s ≡ true → v ≡ str s
is_text-eq (str t) s h = ap str ((eq_iff t s).0 h)
is_text-eq _ s h = cc

pub no_items : (v : Value) → py_eq v (arr nil) ≡ true → v ≡ arr nil
unfolding py_eq
no_items (arr nil) h = refl
no_items (arr (cons x xs)) h = cc
no_items _ h = cc

-- `d[k] = v`: a new key comes last.
abbrev pub put_item : String → Value → Fields → Fields
put_item k v end = field k v end
put_item k v (field j w fs) = if j == k then field j v fs else field j w (put_item k v fs)

-- `k in d`
abbrev pub has_key : String → Fields → Bool
has_key k fs = elem k (names fs)

pub find-put_item :
    (j k : String) (v : Value) (fs : Fields)
    → find j (put_item k v fs) ≡ (if k == j then some v else find j fs)
find-put_item j k v end = refl
find-put_item j k v (field i w fs) =
    ground (arith, eq_iff k j, eq_iff i k, eq_iff i j, find-put_item j k v fs)
