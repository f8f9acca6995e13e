-- ===== src/Qualification/Steady.antt =====
-- Methods that can be run again, for scripts/qualification/finalizer.py: those that only look at
-- what does not change, and those whose second run finds what the first one has left.
use mathlib.Core.Path.{subst}
use terragrunt_demo.Common.{◌≡◌, refl, ap, sym, ◌∙◌, Result, ok, raise, Raised, raise≢ok}
use terragrunt_demo.Common.Action.{Action, pure, fail, lift, rescue, handle, continue, ◌>>=◌}

module _ {S A : Type 0} where
  -- The method has one answer, and leaves the state alone.
  pub record Steady (m : Action S A) : Type 0 where
    pub answer : Result A
    pub gives : (s : S) → m s ≡ (answer, s)

  pub Steady-lift : (r : Result A) → Steady (lift r)
  unfolding lift
  Steady-lift r = record { answer = r; gives = λ s. refl }

  pub Steady-fail : (e : Raised) → Steady (fail e)
  unfolding fail
  Steady-fail e = record { answer = raise e; gives = λ s. refl }

  pub Steady-pure : (a : A) → Steady (pure a)
  unfolding pure
  Steady-pure a = record { answer = ok a; gives = λ s. refl }

pub raises-rescue :
    {S A : Type 0} (m : Action S A) (h : Raised → Action S A) (s t : S) (e : Raised)
    → m s ≡ (raise e, t)
    → rescue m h s ≡ h e t
unfolding rescue
raises-rescue m h s t e came = ap (λ (x : Result _ × _). handle x.0 h x.1) came

module _ {S A B : Type 0} where
  pub steps-bind :
      (m : Action S A) (f : A → Action S B) (s t : S) (a : A)
      → m s ≡ (ok a, t)
      → (m >>= f) s ≡ f a t
  unfolding ◌>>=◌
  steps-bind m f s t a came = ap (λ (x : Result A × S). continue x.0 f x.1) came

  pub Steady-bind :
      (m : Action S A) (f : A → Action S B) → Steady m → ((a : A) → Steady (f a)) → Steady (m >>= f)
  unfolding ◌>>=◌
  Steady-bind m f km kf = by_answer km.answer km.gives
    where
      by_answer : (r : Result A) → ((s : S) → m s ≡ (r, s)) → Steady (m >>= f)
      by_answer (ok a) gives = record {
        answer = (kf a).answer;
        gives = λ s. steps-bind m f s s a (gives s) ∙ (kf a).gives s;
      }
      by_answer (raise e) gives = record {
        answer = raise e;
        gives = λ s. ap (λ (x : Result A × S). continue x.0 f x.1) (gives s);
      }

-- After a run that returned, a run in any later state returns the same and changes nothing.
module _ {S : Type 0} (Later : S → S → Type 0) where
  pub record Repeats {A : Type 0} (m : Action S A) : Type 0 where
    pub again : (s : S) (a : A) → (m s).0 ≡ ok a → (t : S) → Later (m s).1 t → m t ≡ (ok a, t)

  pub Repeats-after :
      {A B : Type 0} (m : Action S A) (f : A → Action S B)
      → Steady m
      → ((a : A) → Repeats (f a))
      → Repeats (m >>= f)
  unfolding ◌>>=◌
  Repeats-after {A} {B} m f km kf = by_answer km.answer km.gives
    where
      by_answer : (r : Result A) → ((s : S) → m s ≡ (r, s)) → Repeats (m >>= f)
      by_answer (ok a) gives = record {
        again = λ s b h t later.
            let e = steps-bind m f s s a (gives s) in
            steps-bind m f t t a (gives t)
            ∙ (kf a).again s b (ap (λ (x : Result B × S). x.0) (sym e) ∙ h) t
                (subst (λ (x : Result B × S). Later x.1 t) e later);
      }
      by_answer (raise e) gives = record {
        again = λ s b h t later.
            absurd
              (raise≢ok (ap (λ (x : Result A × S). (continue x.0 f x.1).0) (sym (gives s)) ∙ h));
      }

  -- A handler that raises does not change that.
  pub Repeats-rescue :
      {A : Type 0} (m : Action S A) (e : Raised) → Repeats m → Repeats (rescue m (λ _. fail e))
  unfolding rescue fail
  Repeats-rescue {A} m e km = record { again = λ s a h t later. split s a t (m s) refl h later }
    where
      split :
          (s : S) (a : A) (t : S) (x : Result A × S)
          → m s ≡ x
          → (handle x.0 (λ _ u. (raise e, u)) x.1).0 ≡ ok a
          → Later (handle x.0 (λ _ u. (raise e, u)) x.1).1 t
          → handle (m t).0 (λ _ u. (raise e, u)) (m t).1 ≡ (ok a, t)
      split s a t (ok b, u) came h later =
          ap (λ (x : Result A × S). handle x.0 (λ _ u. (raise e, u)) x.1)
            (km.again s a (ap (λ (x : Result A × S). x.0) came ∙ h) t
              (subst (λ (x : Result A × S). Later x.1 t) (sym came) later))
      split s a t (raise x, u) came h later = absurd (raise≢ok h)
