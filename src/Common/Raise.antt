-- ===== src/Common/Raise.antt =====
-- Code that raises. The exception's class is kept as far as a handler in the sources tells it from
-- another one: the module's own rejection, a missing key, a wrong type, and a provider's error,
-- whose code some handlers read, text that does not decode, a command that takes too long, the
-- `Uncertain` of the CI selector with its reason and of the delivery without one, the delivery's
-- `Absent` and `JournalError` with its key, a recursion that Python stops, and a write where an
-- object exists.
use Prim.Native.String.{String}
use mathlib.Core.Path.{◌≡◌, refl}
use mathlib.Core.Bool.{Bool, true, false}
use mathlib.Core.Option.{Option, none, some}
use mathlib.Core.Logic.{◌⊎◌, inl, inr}

pub data Raised : Type 0 where
  rejected key_error type_error index_error unicode_error timeout : Raised
  absent recursion_error file_exists : Raised
  provider : String → Raised
  journal : String → Raised
  uncertain : String → Raised

-- What a call comes to: an exception, or its value.
pub data Result {ℓ} (T : Type ℓ) : Type ℓ where
  raise : Raised → Result T
  ok : T → Result T

-- The rest of a function runs on the value, and an exception passes through it.
abbrev pub and_then {κ ℓ} : {T : Type ℓ} {U : Type κ} → (T → Result U) → Result T → Result U
and_then rest (raise x) = raise x
and_then rest (ok t) = rest t

infixl 5 ◌>>=◌
abbrev pub ◌>>=◌ {κ ℓ} : {T : Type ℓ} {U : Type κ} → Result T → (T → Result U) → Result U
call >>= rest = and_then rest call

infixl 5 ◌>>◌
abbrev pub ◌>>◌ {κ} : {U : Type κ} → Result (Unit {0}) → Result U → Result U
check >> rest = and_then (λ _. rest) check

-- `require(ok)` of the modules: a failing condition raises their own error.
abbrev pub require : Bool → Result (Unit {0})
require true = ok tt
require false = raise Raised.rejected

-- A value that `require` insists on.
abbrev pub or_rejected {ℓ} : {A : Type ℓ} → Option A → Result A
or_rejected none = raise Raised.rejected
or_rejected (some a) = ok a

-- `d[k]`: a missing key raises `KeyError`.
abbrev pub or_key_error {ℓ} : {A : Type ℓ} → Option A → Result A
or_key_error none = raise Raised.key_error
or_key_error (some a) = ok a

pub ok-injective {ℓ} : {A : Type ℓ} {a b : A} → ok a ≡ ok b → a ≡ b
ok-injective h = cc

pub require-ok : (b : Bool) → require b ≡ ok tt → b ≡ true
require-ok true h = refl
require-ok false h = cc

pub raise≢ok {ℓ} : {A : Type ℓ} {e : Raised} {a : A} → ¬ (raise e ≡ ok a)
raise≢ok h = cc

pub returned-bind {κ ℓ} :
    {T : Type ℓ} {U : Type κ} (call : Result T) (rest : T → Result U) {u : U}
    → (call >>= rest) ≡ ok u
    → (t : T) × (call ≡ ok t) × (rest t ≡ ok u)
returned-bind (raise x) rest e = absurd (raise≢ok e)
returned-bind (ok t) rest e = (t, refl, e)

pub require-then {ℓ} :
    {B : Type ℓ} (c : Bool) (k : Result B) {b : B}
    → (require c >> k) ≡ ok b
    → (c ≡ true) × (k ≡ ok b)
require-then true k h = (refl, h)
require-then false k h = cc

pub Result-cases {ℓ} :
    {A : Type ℓ} (r : Result A) → ((a : A) × (r ≡ ok a)) ⊎ ((e : Raised) × (r ≡ raise e))
Result-cases (ok a) = inl (a, refl)
Result-cases (raise e) = inr (e, refl)
