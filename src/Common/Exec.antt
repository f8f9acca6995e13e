-- ===== src/Common/Exec.antt =====
-- Methods that change an object and may raise: what was changed before a raise stays changed.
use mathlib.Core.Path.{◌≡◌, refl}
use package.terragrunt_demo.Common.Raise.{Result, ok, raise, raise≢ok}

abbrev pub Exec {ℓ} : Type ℓ → Type ℓ → Type ℓ
Exec State T = State → Result T × State

-- What a method does after a step that came to a result and a state.
abbrev pub continue {ℓ} : {State T U : Type ℓ} → Result T → (T → Exec State U) → Exec State U
continue (raise x) rest state = (raise x, state)
continue (ok t) rest state = rest t state

infixl 5 ◌>>=◌
abbrev pub ◌>>=◌ {ℓ} : {State T U : Type ℓ} → Exec State T → (T → Exec State U) → Exec State U
◌>>=◌ step rest state = let (came, state') = step state in continue came rest state'

infixl 5 ◌>>◌
abbrev pub ◌>>◌ {ℓ} : {State T U : Type ℓ} → Exec State T → Exec State U → Exec State U
◌>>◌ step rest state = let (came, state') = step state in continue came (λ _. rest) state'

-- `return value`
abbrev pub pure {ℓ} : {State T : Type ℓ} → T → Exec State T
pure t state = (ok t, state)

-- A step that reads the state and may raise.
abbrev pub reads {ℓ} : {State T : Type ℓ} → (State → Result T) → Exec State T
reads look state = (look state, state)

-- An assignment to the object's fields.
abbrev pub modify {ℓ} : {State : Type ℓ} → (State → State) → Exec State (Unit {ℓ})
modify change state = (ok tt, change state)

-- A step that returned: its first part did, and the second part gave the result and the state.
pub continue-ok {ℓ} :
    {S A B : Type ℓ} (r : Result A) (f : A → Exec S B) (s : S) {b : B}
    → (continue r f s).0 ≡ ok b
    → (a : A) × (r ≡ ok a) × (continue r f s ≡ f a s) × ((f a s).0 ≡ ok b)
continue-ok (ok a) f s h = (a, refl, refl, h)
continue-ok (raise e) f s h = absurd (raise≢ok h)
