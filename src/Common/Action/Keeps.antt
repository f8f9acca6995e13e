-- ===== src/Common/Action/Keeps.antt =====
-- What methods keep and reach, one rule for each way to build a method.
use mathlib.Core.Path.{◌≡◌, refl, subst}
use mathlib.Core.Bool.{Bool, true, false}
use mathlib.Core.Option.{Option, none, some}
use package.terragrunt_demo.Common.Raise.{Raised, Result, ok, raise, raise≢ok, ok-injective}
use package.terragrunt_demo.Common.Tests.{if◌then◌else◌}
use package.terragrunt_demo.Common.Action.{
  Action, pure, fail, lift, gets, modify, handle, rescue, choose, continue, ◌>>=◌, ◌>>◌,
}

-- What holds of a result: `Q` of the value that is returned, `E` after an exception.
abbrev pub After : {S A : Type 0} → (A → S → Type 0) → (S → Type 0) → Result A → S → Type 0
After Q E (ok a) s = Q a s
After Q E (raise e) s = E s

-- From a state with `P` the method comes to one with `Q`, or raises in one with `E`.
pub record Reaches {S A : Type 0} (P : S → Type 0) (m : Action S A) (Q : A → S → Type 0)
    (E : S → Type 0) : Type 0 where
  pub at : (s : S) → P s → After Q E (m s).0 (m s).1

-- What holds of every state.
abbrev pub Any : {S : Type 0} → S → Type 0
Any s = Unit

-- A method that returned has come where it leads.
pub Reaches-returned :
    {S A : Type 0} {P : S → Type 0} {m : Action S A} {Q : A → S → Type 0} {E : S → Type 0}
    → Reaches P m Q E
    → (s : S) (a : A) → P s
    → (m s).0 ≡ ok a
    → Q a (m s).1
Reaches-returned {S} {A} {P} {m} {Q} {E} r s a p e = split (m s).0 (m s).1 e (r.at s p)
  where
    split : (r : Result A) (s : S) → r ≡ ok a → After Q E r s → Q a s
    split (ok b) s e h = subst (λ x. Q x s) (ok-injective e) h
    split (raise x) s e h = absurd (raise≢ok e)

-- The method keeps `P`, whether it returns or raises.
pub record Keeps {S A : Type 0} (P : S → Type 0) (m : Action S A) : Type 0 where
  pub at : (s : S) → P s → P (m s).1

module _ {S A : Type 0} {P : S → Type 0} where
  -- A method that only looks at the state.
  Keeps-looking : (result : S → Result A) → Keeps P (λ s. (result s, s))
  Keeps-looking result = record { at = λ s kept. kept }

  pub Keeps-gets : (view : S → A) → Keeps P (gets view)
  unfolding gets
  Keeps-gets view = Keeps-looking (λ s. ok (view s))

  pub Keeps-lift : (outcome : Result A) → Keeps P (lift outcome)
  unfolding lift
  Keeps-lift outcome = Keeps-looking (λ _. outcome)

  pub Keeps-fail : (e : Raised) → Keeps P (fail {A = A} e)
  unfolding fail
  Keeps-fail e = Keeps-looking (λ _. raise e)

  pub Keeps-pure : (value : A) → Keeps P (pure value)
  unfolding pure
  Keeps-pure value = Keeps-looking (λ _. ok value)

  pub Keeps-if :
      (b : Bool) (m n : Action S A) → Keeps P m → Keeps P n → Keeps P (if b then m else n)
  Keeps-if false m n on_true on_false = on_false
  Keeps-if true m n on_true on_false = on_true

  pub Keeps-rescue :
      (m : Action S A) (h : Raised → Action S A)
      → Keeps P m
      → ((e : Raised) → Keeps P (h e))
      → Keeps P (rescue m h)
  unfolding rescue
  Keeps-rescue m h km kh = record { at = λ s p. split (m s).0 (m s).1 (km.at s p) }
    where
      split : (r : Result A) (s : S) → P s → P (handle r h s).1
      split (ok a) s p = p
      split (raise e) s p = (kh e).at s p

  pub Reaches-weak :
      {Q : A → S → Type 0} {E : S → Type 0} (m : Action S A)
      → Keeps P m
      → ((a : A) (s : S) → P s → Q a s)
      → ((s : S) → P s → E s)
      → Reaches P m Q E
  Reaches-weak {Q} {E} m km q e = record { at = λ s p. split (m s).0 (m s).1 (km.at s p) }
    where
      split : (r : Result A) (s : S) → P s → After Q E r s
      split (ok a) s p = q a s p
      split (raise x) s p = e s p

  -- What holds of a returned value adds to what the method keeps.
  pub Reaches-ok :
      {Q : A → S → Type 0} (m : Action S A)
      → Keeps P m
      → ((s : S) (a : A) → P s → (m s).0 ≡ ok a → Q a (m s).1)
      → Reaches P m (λ a s. P s × Q a s) P
  Reaches-ok {Q} m km q = record {
    at = λ s p. split (m s).0 (m s).1 (km.at s p) (λ a e. q s a p e);
  }
    where
      split :
          (r : Result A) (s : S)
          → P s
          → ((a : A) → r ≡ ok a → Q a s)
          → After (λ a s. P s × Q a s) P r s
      split (ok a) s p q = (p, q a refl)
      split (raise x) s p q = p

  pub Reaches-then :
      {Q Q' : A → S → Type 0} {E E' : S → Type 0} {m : Action S A}
      → Reaches P m Q E
      → ((a : A) (s : S) → Q a s → Q' a s)
      → ((s : S) → E s → E' s)
      → Reaches P m Q' E'
  Reaches-then {Q} {Q'} {E} {E'} {m} r q e = record { at = λ s p. split (m s).0 (m s).1 (r.at s p) }
    where
      split : (r : Result A) (s : S) → After Q E r s → After Q' E' r s
      split (ok a) s h = q a s h
      split (raise x) s h = e s h

  pub Reaches-from :
      {P' : S → Type 0} {Q : A → S → Type 0} {E : S → Type 0} {m : Action S A}
      → ((s : S) → P s → P' s)
      → Reaches P' m Q E
      → Reaches P m Q E
  Reaches-from from r = record { at = λ s p. r.at s (from s p) }

  pub Reaches-pure :
      {Q : A → S → Type 0} {E : S → Type 0} (a : A)
      → ((s : S) → P s → Q a s)
      → Reaches P (pure a) Q E
  unfolding pure
  Reaches-pure a q = record { at = q }

  pub Reaches-fail :
      {Q : A → S → Type 0} {E : S → Type 0} (e : Raised)
      → ((s : S) → P s → E s)
      → Reaches P (fail e) Q E
  unfolding fail
  Reaches-fail e q = record { at = q }

  -- What a method keeps adds to what it reaches.
  pub Reaches-and :
      {Q : A → S → Type 0} {E : S → Type 0} (m : Action S A)
      → Keeps P m
      → Reaches P m Q E
      → Reaches P m (λ a s. P s × Q a s) E
  Reaches-and {Q} {E} m k r = record { at = λ s p. split (m s).0 (m s).1 (k.at s p) (r.at s p) }
    where
      split : (r : Result A) (s : S) → P s → After Q E r s → After (λ a s. P s × Q a s) E r s
      split (ok a) s p q = (p, q)
      split (raise x) s p q = q

  pub Reaches-lift : (r : Result A) → Reaches P (lift r) (λ a s. P s × (r ≡ ok a)) P
  unfolding lift
  Reaches-lift (ok a) = record { at = λ s p. (p, refl) }
  Reaches-lift (raise x) = record { at = λ s p. p }

  pub Reaches-handled :
      {Q : A → S → Type 0} {E E' : S → Type 0} (m : Action S A) (h : Raised → Action S A)
      → Reaches P m Q E
      → ((e : Raised) → Reaches E (h e) Q E')
      → Reaches P (rescue m h) Q E'
  unfolding rescue
  Reaches-handled {Q} {E} {E'} m h r k = record { at = λ s p. split (m s).0 (m s).1 (r.at s p) }
    where
      split : (r : Result A) (s : S) → After Q E r s → After Q E' (handle r h s).0 (handle r h s).1
      split (ok a) s q = q
      split (raise x) s q = (k x).at s q

  pub Reaches-if :
      {Q : A → S → Type 0} {E : S → Type 0} (b : Bool) (m n : Action S A)
      → Reaches P m Q E
      → Reaches P n Q E
      → Reaches P (if b then m else n) Q E
  Reaches-if true m n rm rn = rm
  Reaches-if false m n rm rn = rn

  -- An exception of a check becomes another one.
  pub Reaches-rescue :
      {E : S → Type 0} (r : Result A) (e : Raised)
      → ((s : S) → P s → E s)
      → Reaches P (rescue (lift r) (λ _. fail e)) (λ a s. P s × (r ≡ ok a)) E
  unfolding rescue lift fail
  Reaches-rescue (ok a) e q = record { at = λ s p. (p, refl) }
  Reaches-rescue (raise x) e q = record { at = q }

  pub Reaches-same :
      {Q : S → Type 0} (m : Action S A) → ((s : S) → P s → Q (m s).1) → Reaches P m (λ _. Q) Q
  Reaches-same {Q} m q = record { at = λ s p. split (m s).0 (m s).1 (q s p) }
    where
      split : (r : Result A) (s : S) → Q s → After (λ _. Q) Q r s
      split (ok a) s h = h
      split (raise x) s h = h

  pub Keeps-Reaches : (m : Action S A) → Reaches P m (λ _. P) P → Keeps P m
  Keeps-Reaches m r = record { at = λ s p. split (m s).0 (m s).1 (r.at s p) }
    where
      split : (r : Result A) (s : S) → After (λ _. P) P r s → P s
      split (ok a) s h = h
      split (raise x) s h = h

pub Reaches-choose :
    {S A B : Type 0} {P : S → Type 0} {Q : B → S → Type 0} {E : S → Type 0} (o : Option A)
    (m : Action S B) (f : A → Action S B)
    → (o ≡ none → Reaches P m Q E)
    → ((a : A) → o ≡ some a → Reaches P (f a) Q E)
    → Reaches P (choose o m f) Q E
Reaches-choose none m f rm rf = rm refl
Reaches-choose (some a) m f rm rf = rf a refl

-- A fact that does not depend on the state.
pub Reaches-given :
    {S A : Type 0} {C : Type 0} {m : Action S A} {Q : A → S → Type 0} {E : S → Type 0}
    → (C → Reaches Any m Q E)
    → Reaches (λ _. C) m Q E
Reaches-given r = record { at = λ s c. (r c).at s tt }

pub Reaches-Any : {S A : Type 0} (m : Action S A) → Reaches Any m (λ _. Any) Any
Reaches-Any m = Reaches-same m (λ s h. tt)

pub Keeps-modify :
    {S : Type 0} {P : S → Type 0} (f : S → S) → ((s : S) → P s → P (f s)) → Keeps P (modify f)
unfolding modify
Keeps-modify f h = record { at = h }

module _ {S A B : Type 0} {P : S → Type 0} where
  pub Keeps-choose :
      (o : Option A) (otherwise : Action S B) (use_it : A → Action S B)
      → Keeps P otherwise
      → ((value : A) → Keeps P (use_it value))
      → Keeps P (choose o otherwise use_it)
  Keeps-choose none otherwise use_it ko ku = ko
  Keeps-choose (some value) otherwise use_it ko ku = ku value

  pub Keeps-bind :
      (first : Action S A) (rest : A → Action S B)
      → Keeps P first
      → ((value : A) → Keeps P (rest value))
      → Keeps P (first >>= rest)
  unfolding ◌>>=◌
  Keeps-bind first rest kf kr = record { at = λ s p. split (first s).0 (first s).1 (kf.at s p) }
    where
      split : (r : Result A) (s : S) → P s → P (continue r rest s).1
      split (ok value) s p = (kr value).at s p
      split (raise e) s p = p

  pub Keeps-then : (m : Action S A) (n : Action S B) → Keeps P m → Keeps P n → Keeps P (m >> n)
  Keeps-then m n km kn = Keeps-bind m (λ _. n) km (λ _. kn)

  pub Reaches-bind :
      {Q : A → S → Type 0} {R : B → S → Type 0} {E : S → Type 0} (m : Action S A)
      (f : A → Action S B)
      → Reaches P m Q E
      → ((a : A) → Reaches (Q a) (f a) R E)
      → Reaches P (m >>= f) R E
  unfolding ◌>>=◌
  Reaches-bind {Q} {R} {E} m f km kf = record { at = λ s p. split (m s).0 (m s).1 (km.at s p) }
    where
      split :
          (r : Result A) (s : S) → After Q E r s → After R E (continue r f s).0 (continue r f s).1
      split (ok a) s p = (kf a).at s p
      split (raise e) s p = p

pub ruleset keeps_rules = (
  Keeps-pure, Keeps-fail, Keeps-lift, Keeps-gets, Keeps-if, Keeps-choose, Keeps-rescue, Keeps-bind,
  Keeps-then,
)
