-- ===== src/Recovery/Exact.antt =====
-- What scripts/normal_delivery/authorization.py checks values with: `exact`, `version`, the integers.
use Prim.Native.Nat.{◌+◌, ◌-◌}
use terragrunt_demo.Common.{
  ℕ, Bool, true, false, not, ◌&&◌, ◌||◌, Option, none, some, ◌==◌, nat_eq, leb, ltb, length, all,
  codes, is_digit, if◌then◌else◌, elem, lowers_to, is_sha256, Result, ok, raise, Raised, require,
}
use terragrunt_demo.Json.{
  Value, str, bool, num, neg, obj, arr, null, Fields, field, end, Items, cons, nil, find, names,
  bool_eq, bool_num,
}

-- `exact(actual, expected)` passes: equal values of equal types, at every depth.
unfoldable mutual
  pub same : Value → Value → Bool
  same null null = true
  same null _ = false
  same (bool a) (bool b) = bool_eq a b
  same (bool a) _ = false
  same (num m) (num n) = nat_eq m n
  same (num m) _ = false
  same (neg m) (neg n) = nat_eq m n
  same (neg m) _ = false
  same (str s) (str t) = s == t
  same (str s) _ = false
  same (arr xs) (arr ys) = same_items xs ys
  same (arr xs) _ = false
  same (obj fs) (obj gs) =
      all (λ k. elem k (names fs)) (names gs)
      && all (λ k. elem k (names gs)) (names fs)
      && same_fields fs gs
  same (obj fs) _ = false

  pub same_items : Items → Items → Bool
  same_items nil nil = true
  same_items nil (cons y ys) = false
  same_items (cons x xs) nil = false
  same_items (cons x xs) (cons y ys) = same x y && same_items xs ys

  pub same_fields : Fields → Fields → Bool
  same_fields end gs = true
  same_fields (field k v fs) gs =
      elim (find k gs) [ none ↦ false | some w ↦ same v w ] && same_fields fs gs

abbrev pub exact : Value → Value → Result (Unit {0})
exact actual expected = require (same actual expected)

-- `type(v) is int`
abbrev pub is_int : Value → Bool
is_int (num n) = true
is_int (neg n) = true
is_int _ = false

-- `a <= b` for integers
abbrev pub int_le : Value → Value → Bool
int_le (num m) (num n) = leb m n
int_le (num m) _ = false
int_le (neg m) (neg n) = leb n m
int_le (neg m) (num n) = true
int_le _ _ = false

-- `v + n`, for a numeral `n`
unfoldable pub plus : Value → ℕ → Result Value
plus (num m) n = ok (num (m + n))
plus (neg m) n = ok (if ltb m n then num (n - m - 1) else neg (m - n))
plus (bool b) n = ok (num (bool_num b + n))
plus _ n = raise Raised.type_error

-- `[A-Za-z0-9._+/=-]`
abbrev pub is_version_char : ℕ → Bool
is_version_char c =
    is_digit c
    || (leb b'A' c && leb c b'Z')
    || (leb b'a' c && leb c b'z')
    || nat_eq c b'.'
    || nat_eq c b'_'
    || nat_eq c b'+'
    || nat_eq c b'/'
    || nat_eq c b'='
    || nat_eq c b'-'

-- `version(v)` passes.
unfoldable pub is_version : Value → Bool
unfolding lowers_to
is_version (str s) =
    not (lowers_to s "null" || lowers_to s "latest")
    && all is_version_char (codes s)
    && leb 1 (length (codes s))
    && leb (length (codes s)) 1024
is_version _ = false

-- A number as Python compares it; a Boolean is 0 or 1.
abbrev pub as_int : Value → Option Value
as_int (bool b) = some (num (bool_num b))
as_int (num n) = some (num n)
as_int (neg n) = some (neg n)
as_int _ = none

-- `a <= b`
unfoldable pub le : Value → Value → Result Bool
le a b = elim (as_int a) [
  | none ↦ raise Raised.type_error
  | some x ↦ elim (as_int b) [ none ↦ raise Raised.type_error | some y ↦ ok (int_le x y) ]
]

-- `type(v) is str and bool(v)`
abbrev pub is_some_text : Value → Bool
is_some_text (str s) = not (s == "")
is_some_text _ = false

-- `match('[0-9a-f]{64}', v)` passes.
abbrev pub is_digest : Value → Bool
is_digest (str s) = is_sha256 s
is_digest _ = false

-- `type(v) is int and v > 0`
abbrev pub is_positive : Value → Bool
is_positive (num n) = ltb 0 n
is_positive _ = false
