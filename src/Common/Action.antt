-- ===== src/Common/Action.antt =====
-- Methods with handlers: what was changed before an exception stays changed, also for the handler.
-- The building blocks are shut, so a proof takes a method apart by their rules.
pub mod Keeps
use mathlib.Core.Path.{◌≡◌, refl}
use mathlib.Core.Option.{Option, none, some}
use package.terragrunt_demo.Common.Raise.{Raised, Result, ok, raise, raise≢ok}

abbrev pub Action : Type 0 → Type 0 → Type 0
Action S A = S → Result A × S

module _ {S A : Type 0} where
  -- `return value`
  unfoldable pub pure : A → Action S A
  pure a s = (ok a, s)

  -- `raise Error`
  unfoldable pub fail : Raised → Action S A
  fail e s = (raise e, s)

  -- A step that leaves the state alone.
  unfoldable pub lift : Result A → Action S A
  lift r s = (r, s)

  unfoldable pub gets : (S → A) → Action S A
  gets f s = (ok (f s), s)

  abbrev pub handle : Result A → (Raised → Action S A) → Action S A
  handle (ok a) h s = (ok a, s)
  handle (raise e) h s = h e s

  -- `try: step` with its handlers
  unfoldable pub rescue : Action S A → (Raised → Action S A) → Action S A
  rescue m h s = let (r, s') = m s in handle r h s'

-- An assignment to the object's fields.
unfoldable pub modify : {S : Type 0} → (S → S) → Action S (Unit {0})
modify f s = (ok tt, f s)

module _ {S A B : Type 0} where
  abbrev pub continue : Result A → (A → Action S B) → Action S B
  continue (ok a) f s = f a s
  continue (raise e) f s = (raise e, s)

  -- A branch on a value that may be `None`.
  abbrev pub choose : Option A → Action S B → (A → Action S B) → Action S B
  choose none m f = m
  choose (some a) m f = f a

  infixl 5 ◌>>=◌ ◌>>◌
  -- opening this opens the other blocks too
  unfoldable pub ◌>>=◌ : Action S A → (A → Action S B) → Action S B
  unfolding pure fail lift gets rescue modify
  ◌>>=◌ m f s = let (r, s') = m s in continue r f s'

  abbrev pub ◌>>◌ : Action S A → Action S B → Action S B
  m >> n = m >>= λ _. n

  -- A method that returned, after its first step and before the others.
  pub returned :
      (m : Action S A) (f : A → Action S B) (s : S) {b : B}
      → ((m >>= f) s).0 ≡ ok b
      → (a : A) × ((m s).0 ≡ ok a) × ((m >>= f) s ≡ f a (m s).1) × ((f a (m s).1).0 ≡ ok b)
  unfolding ◌>>=◌
  returned m f s h = split (m s).0 (m s).1 h
    where
      split :
          (r : Result A) (s' : S) {b : B}
          → (continue r f s').0 ≡ ok b
          → (a : A) × (r ≡ ok a) × (continue r f s' ≡ f a s') × ((f a s').0 ≡ ok b)
      split (ok a) s' h = (a, refl, refl, h)
      split (raise e) s' h = absurd (raise≢ok h)

  -- The same without the step's result and state side by side.
  pub step-then :
      (m : Action S A) (f : A → Action S B) (s : S) {b : B}
      → ((m >>= f) s).0 ≡ ok b
      → (a : A) × ((m s).0 ≡ ok a) × ((f a (m s).1).0 ≡ ok b)
  step-then m f s h = let (a, came, _, rest) = returned m f s h in (a, came, rest)

  pub lift-then :
      (r : Result A) (f : A → Action S B) (s : S) {b : B}
      → ((lift r >>= f) s).0 ≡ ok b
      → (a : A) × (r ≡ ok a) × ((f a s).0 ≡ ok b)
  unfolding ◌>>=◌
  lift-then (ok a) f s h = (a, refl, h)
  lift-then (raise e) f s h = absurd (raise≢ok h)
