-- ===== src/Recovery/Switch.antt =====
-- Errors of scripts/recovery/journal.py after the attempt to switch the traffic.
use Prim.Native.String.{◌++◌}
use terragrunt_demo.Common.{
  String, ◌≡◌, refl, ap, ◌∙◌, Bool, true, false, ◌&&◌, ◌||◌, none, List, [], ◌∷◌, In, Result, ok,
  raise, Raised, if◌then◌else◌,
}
use terragrunt_demo.Common.Action.{pure, gets, modify, rescue, ◌>>=◌}
use terragrunt_demo.Common.Action.Keeps.{
  After, Any, Reaches, Reaches-bind, Reaches-from, Reaches-then, Reaches-pure, Reaches-ok,
  Reaches-and, Reaches-handled, Reaches-given, Reaches-if, Reaches-choose,
}
use terragrunt_demo.Json.{Fields}
use terragrunt_demo.Mutation.Domain.{is_uuid}
use terragrunt_demo.Recovery.Ports.{Ports, State, Domain}
use terragrunt_demo.Recovery.Intent.{Journal}
use terragrunt_demo.Recovery.Journal.{path, read, occupied, any_attempt, attempted}
use terragrunt_demo.Recovery.Run.{
  status, uncertain_if, is_not_switch, begin, reject, on_raise, carry_out, execute,
}
use terragrunt_demo.Recovery.Stable.{
  Immutable, IsStable, Stands, read-Keeps, occupied-Keeps, attempted-Keeps,
}
use terragrunt_demo.Recovery.Reads.{read-none}
use terragrunt_demo.Recovery.Answers.{Never, occupied-Returns, attempted-Returns}

module _ (p : Ports) (j : Journal) (laws : Immutable p) where
  -- The operation was accepted, its switch was attempted, and no guard of the switch is running.
  pub record Switched (operation : String) (s : State p) : Type 0 where
    pub accepted : s.accepted ≡ true
    pub past : is_not_switch s.preparing ≡ true
    pub stands : Stands p laws s.world (path p j (operation ++ "/switch/attempt"))

  module _ (operation : String) where
    stable : IsStable p laws (Switched operation)
    stable = record {
      step = λ s t _ prep acc grows h. record {
        accepted = acc ∙ h.accepted;
        past = ap is_not_switch prep ∙ h.past;
        stands = (h.stands.0, grows _ _ h.stands.1);
      };
    }

    read_switch :
        Reaches
          (Switched operation)
          (read p j (operation ++ "/switch/attempt") true)
          (λ found s. ¬ (found ≡ none))
          Any
    read_switch =
        Reaches-then
          (Reaches-ok (read p j (operation ++ "/switch/attempt") true)
            (read-Keeps p j laws stable _ true)
            λ s found h r gone.
              laws.read_sees s.world _ h.stands.0 h.stands.1
                (read-none p j _ true s (r ∙ ap ok gone)))
          (λ found s h. h.1) (λ s h. tt)

    occupied_switch :
        Reaches
          (Switched operation)
          (occupied p j (operation ++ "/switch/attempt"))
          (λ b s. b ≡ true)
          Never
    unfolding occupied
    occupied_switch =
        Reaches-handled _ _
          (Reaches-bind _ _ read_switch λ found.
            Reaches-choose found _ _ (λ gone. record { at = λ s h. absurd (h gone) })
              (λ v e. Reaches-pure true (λ s h. refl)))
          (λ e. Reaches-pure true (λ s h. refl))

    any_attempt-switch :
        (stages : List String)
        → In "switch" stages
        → Reaches (Switched operation) (any_attempt p j operation stages) (λ b s. b ≡ true) Never
    unfolding any_attempt
    any_attempt-switch [] m = elim m [ ]
    any_attempt-switch (stage ∷ stages) In.here =
        Reaches-bind _ _ occupied_switch
          λ found. Reaches-given λ e. rw e (Reaches-pure true (λ s h. refl))
    any_attempt-switch (stage ∷ stages) (In.there m) =
        Reaches-bind _ _
          (Reaches-and _ (occupied-Keeps p j laws stable _)
            (Reaches-from (λ s h. tt) (occupied-Returns p j _)))
          λ found.
            Reaches-if found _ _ (Reaches-pure true (λ s h. refl))
              (Reaches-from (λ s h. h.0) (any_attempt-switch stages m))

    attempted-switch :
        is_uuid operation ≡ true
        → In "switch" j.stages
        → Reaches (Switched operation) (attempted p j operation) (λ b s. b ≡ true) Never
    unfolding attempted
    attempted-switch named m = rw named (any_attempt-switch j.stages m)

    -- The state is looked at.
    gets-Reaches :
        {A : Type 0} {P : State p → Type 0} (f : State p → A)
        → Reaches P (gets f) (λ a s. P s × (a ≡ f s)) Never
    unfolding gets
    gets-Reaches f = record { at = λ s h. (h, refl) }

    reject-Uncertain :
        Reaches (Switched operation) (reject p j operation) (λ r s. r ≡ status "UNCERTAIN") Never
    unfolding reject
    reject-Uncertain = Reaches-bind _ _ (gets-Reaches (λ s. s.reconciled)) λ reconciled.
        Reaches-bind _ _ (before reconciled) λ b.
          Reaches-bind _ _ (gets-Reaches (λ s. s.accepted && is_not_switch s.preparing)) λ asked.
            Reaches-bind _ _ (later asked)
              λ switched. Reaches-pure _ (λ s h. ap uncertain_if (ap (λ x. b || x) h ∙ or_true b))
      where
        or_true : (b : Bool) → (b || true) ≡ true
        or_true true = refl
        or_true false = refl

        before :
            (reconciled : Bool)
            → Reaches
                (λ s. Switched operation s × (reconciled ≡ s.reconciled))
                (if reconciled then pure false else attempted p j operation)
                (λ b s. Switched operation s)
                Never
        before reconciled =
            Reaches-from (λ s h. h.0)
              (Reaches-if reconciled _ _ (Reaches-pure false (λ s h. h)) (
                Reaches-then
                  (Reaches-and _ (attempted-Keeps p j laws stable operation)
                    (Reaches-from (λ s h. tt) (attempted-Returns p j operation)))
                  (λ b s h. h.0) (λ s h. h)))

        later :
            (asked : Bool)
            → Reaches
                (λ s. Switched operation s × (asked ≡ (s.accepted && is_not_switch s.preparing)))
                (if asked then occupied p j (operation ++ "/switch/attempt") else pure false)
                (λ b s. b ≡ true)
                Never
        later true = Reaches-from (λ s h. h.0) occupied_switch
        later false = record { at = λ s h. absurd (no s h.0 h.1) }
          where
            no :
                (s : State p)
                → Switched operation s
                → false ≡ (s.accepted && is_not_switch s.preparing)
                → ⊥
            no s h e = cc (h.accepted, h.past)

    on_raise-Uncertain :
        (e : Raised)
        → is_uuid operation ≡ true
        → In "switch" j.stages
        → ¬ (e ≡ Raised.absent)
        → Reaches
            (Switched operation)
            (on_raise p j operation e)
            (λ r s. r ≡ status "UNCERTAIN")
            Never
    unfolding on_raise
    on_raise-Uncertain Raised.absent named m n = absurd (n refl)
    on_raise-Uncertain (Raised.uncertain reason) named m n = Reaches-pure _ (λ s h. refl)
    on_raise-Uncertain (Raised.journal key) named m n =
        Reaches-bind _ _ (attempted-switch named m)
          λ before. Reaches-pure _ (λ s h. ap uncertain_if h)
    on_raise-Uncertain _ named m n = reject-Uncertain

    -- Once the switch was attempted, an operation that stops by any exception but the proof of an
    -- absent effect ends as UNCERTAIN, never as FAILURE. The exception is while a guard of the switch
    -- itself is running.
    pub execute-Uncertain :
        (d : Domain p) (raw : p.Raw) (s : State p) (e : Raised)
        → is_uuid operation ≡ true
        → In "switch" j.stages
        → (carry_out p j operation raw d (begin p j s)).0 ≡ raise e
        → ¬ (e ≡ Raised.absent)
        → Switched operation (carry_out p j operation raw d (begin p j s)).1
        → (execute p j operation raw d s).0 ≡ ok (status "UNCERTAIN")
    unfolding execute ◌>>=◌ rescue modify
    execute-Uncertain d raw s e named m raised n h =
        rw raised (returned _ _ ((on_raise-Uncertain e named m n).at _ h))
      where
        returned :
            (r : Result Fields) (t : State p)
            → After (λ x s. x ≡ status "UNCERTAIN") Never r t
            → r ≡ ok (status "UNCERTAIN")
        returned (ok x) t h = ap ok h
        returned (raise x) t h = absurd h
