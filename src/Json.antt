-- ===== src/Json.antt =====
-- JSON documents as the sources hold them after `json.loads`: Python values without floats, which
-- no document of the modelled code carries. A negative integer -(n + 1) is `neg n`.
use terragrunt_demo.Common.{
  ℕ, String, ◌≡◌, refl, eq_iff, arith, inl, inr, Bool-cases, Option-cases, Bool, true, false, ◌&&◌,
  Option, none, some, List, [], ◌∷◌, ◌==◌, nat_eq, if◌then◌else◌, elem, all, Result, ok, raise,
  Raised, ◌>>=◌,
}

mutual
  -- The items of a dictionary, in the order of their insertion.
  pub data Fields : Type 0 where
    field : String → Value → Fields → Fields
    end : Fields

  -- The items of a list.
  pub data Items : Type 0 where
    cons : Value → Items → Items
    nil : Items

  pub data Value : Type 0 where
    str : String → Value
    bool : Bool → Value
    num : ℕ → Value
    neg : ℕ → Value
    obj : Fields → Value
    arr : Items → Value
    null : Value

-- `d.get(k)` on a dictionary
abbrev pub find : String → Fields → Option Value
find k end = none
find k (field j v fs) = if j == k then some v else find k fs

abbrev pub names : Fields → List String
names end = []
names (field j v fs) = j ∷ names fs

abbrev pub bool_num : Bool → ℕ
bool_num true = 1
bool_num false = 0

abbrev pub bool_eq : Bool → Bool → Bool
bool_eq true b = b
bool_eq false true = false
bool_eq false false = true

-- `{key: item for key, item in d.items() if key != k}`
abbrev pub without : String → Fields → Fields
without k end = end
without k (field j v fs) = let rest = without k fs in if j == k then rest else field j v rest

-- `set(d) == set(expected)`
abbrev pub same_keys : Fields → List String → Bool
same_keys fs ks = all (λ k. elem k (names fs)) ks && all (λ k. elem k ks) (names fs)

-- Python's `a == b`. A Boolean is equal to the integer 0 or 1, and the order of a dictionary's keys
-- does not matter.
unfoldable mutual
  pub py_eq : Value → Value → Bool
  py_eq null null = true
  py_eq null _ = false
  py_eq (bool a) (bool b) = bool_eq a b
  py_eq (bool a) (num n) = nat_eq (bool_num a) n
  py_eq (bool a) _ = false
  py_eq (num m) (num n) = nat_eq m n
  py_eq (num m) (bool b) = nat_eq m (bool_num b)
  py_eq (num m) _ = false
  py_eq (neg m) (neg n) = nat_eq m n
  py_eq (neg m) _ = false
  py_eq (str s) (str t) = s == t
  py_eq (str s) _ = false
  py_eq (arr xs) (arr ys) = py_eq_items xs ys
  py_eq (arr xs) _ = false
  py_eq (obj fs) (obj gs) = all (λ k. elem k (names fs)) (names gs) && py_eq_fields fs gs
  py_eq (obj fs) _ = false

  pub py_eq_items : Items → Items → Bool
  py_eq_items nil nil = true
  py_eq_items nil (cons y ys) = false
  py_eq_items (cons x xs) nil = false
  py_eq_items (cons x xs) (cons y ys) = py_eq x y && py_eq_items xs ys

  -- every key of the first dictionary has an equal value in the second one
  pub py_eq_fields : Fields → Fields → Bool
  py_eq_fields end gs = true
  py_eq_fields (field k v fs) gs =
      elim (find k gs) [ none ↦ false | some w ↦ py_eq v w ] && py_eq_fields fs gs

-- The value at a key of an equal dictionary is equal.
pub find-py_eq_fields :
    (k : String) (fs gs : Fields) (v : Value)
    → py_eq_fields fs gs ≡ true
    → find k fs ≡ some v
    → (w : Value) × (find k gs ≡ some w) × (py_eq v w ≡ true)
unfolding py_eq
find-py_eq_fields k end gs v e h = cc
find-py_eq_fields k (field j u fs) gs v e h = elim (Bool-cases (j == k)) [
  | inl same ↦ elim (Option-cases (find k gs)) [
    | inl missing ↦ absurd (ground (arith, eq_iff j k))
    | inr (w, found) ↦ (w, found, ground (arith, eq_iff j k))
  ]
  | inr other ↦ find-py_eq_fields k fs gs v (ground arith) (ground arith)
]

pub py_eq-str : (v : Value) (s : String) → py_eq v (str s) ≡ true → v ≡ str s
unfolding py_eq
py_eq-str (str t) s h = ground (arith, eq_iff t s)
py_eq-str _ s h = cc

pub py_eq-null : (v : Value) → py_eq v null ≡ true → v ≡ null
unfolding py_eq
py_eq-null null h = refl
py_eq-null _ h = cc

-- `d[k]`
abbrev pub item : Fields → String → Result Value
item fs k = elim (find k fs) [ none ↦ raise Raised.key_error | some v ↦ ok v ]

pub item-then {ℓ} :
    {B : Type ℓ} (fs : Fields) (k : String) (f : Value → Result B) {b : B}
    → (item fs k >>= f) ≡ ok b
    → (v : Value) × (find k fs ≡ some v) × (f v ≡ ok b)
item-then fs k f h = elim (Option-cases (find k fs)) [
  | inl missing ↦ absurd (ground arith)
  | inr (v, found) ↦ (v, found, ground arith)
]

-- `value == text`, for a text
abbrev pub is_text : Value → String → Bool
is_text (str s) t = s == t
is_text _ t = false

-- `value in texts`
abbrev pub in_texts : Value → List String → Bool
in_texts (str s) ts = elem s ts
in_texts _ ts = false
