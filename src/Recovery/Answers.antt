-- ===== src/Recovery/Answers.antt =====
-- `run` of scripts/recovery/journal.py returns whatever its ports do, and a SUCCESS is a receipt.
use terragrunt_demo.Common.{
  String, ◌≡◌, refl, Bool, true, false, ◌||◌, List, [], ◌∷◌, Result, ok, raise, Raised,
}
use terragrunt_demo.Common.Action.{gets, modify}
use terragrunt_demo.Common.Action.Keeps.{
  After, Any, Reaches, Reaches-bind, Reaches-Any, Reaches-then, Reaches-pure, Reaches-handled,
  Reaches-given, Reaches-if,
}
use terragrunt_demo.Json.{Fields}
use terragrunt_demo.Mutation.Domain.{is_uuid}
use terragrunt_demo.Recovery.Ports.{Ports, State, Domain}
use terragrunt_demo.Recovery.Intent.{Journal}
use terragrunt_demo.Recovery.Journal.{occupied, any_attempt, attempted}
use terragrunt_demo.Recovery.Run.{status, refused, uncertain_if, reject, on_raise, execute, run}
use terragrunt_demo.Recovery.Receipts.{NoRepeat, IsReceipt, carry_out-IsReceipt}

-- Nothing is raised.
abbrev pub Never : {S : Type 0} → S → Type 0
Never s = ⊥

module _ (p : Ports) (j : Journal) where
  -- What a run answers.
  pub data Answer (d : Domain p) (operation : String) (result : Fields) : Type 0 where
    receipt : IsReceipt p j d operation result → Answer d operation result
    absent : result ≡ refused → Answer d operation result
    failed : result ≡ status "FAILURE" → Answer d operation result
    uncertain : result ≡ status "UNCERTAIN" → Answer d operation result

  pub occupied-Returns : (key : String) → Reaches Any (occupied p j key) (λ b. Any) Never
  unfolding occupied
  occupied-Returns key = Reaches-handled _ _ (Reaches-Any _) (λ e. Reaches-pure true (λ s h. h))

  any_attempt-Returns :
      (operation : String) (stages : List String)
      → Reaches Any (any_attempt p j operation stages) (λ b. Any) Never
  unfolding any_attempt
  any_attempt-Returns operation [] = Reaches-pure false (λ s h. h)
  any_attempt-Returns operation (stage ∷ stages) = Reaches-bind _ _ (occupied-Returns _) λ found.
      Reaches-if found _ _ (Reaches-pure true (λ s h. h)) (any_attempt-Returns operation stages)

  pub attempted-Returns :
      (operation : String) → Reaches Any (attempted p j operation) (λ b. Any) Never
  unfolding attempted
  attempted-Returns operation =
      Reaches-if (is_uuid operation) _ _ (any_attempt-Returns operation j.stages)
        (Reaches-pure false (λ s h. h))

  module _ (d : Domain p) where
    uncertain_if-Answer : (operation : String) (b : Bool) → Answer d operation (uncertain_if b)
    uncertain_if-Answer operation true = uncertain refl
    uncertain_if-Answer operation false = failed refl

    reject-Answer :
        (operation : String)
        → Reaches Any (reject p j operation) (λ r s. Answer d operation r) Never
    unfolding reject gets
    reject-Answer operation =
        Reaches-bind _ _ (record { at = λ s h. h })
          λ reconciled.
            Reaches-bind _ _
              (Reaches-if reconciled _ _ (Reaches-pure false (λ s h. h))
                (attempted-Returns operation))
              λ before.
                Reaches-bind _ _ (record { at = λ s h. h })
                  λ asked.
                    Reaches-bind _ _
                      (Reaches-if asked _ _ (occupied-Returns _) (Reaches-pure false (λ s h. h)))
                      λ switched.
                        Reaches-pure _ (λ s h. uncertain_if-Answer operation (before || switched))

    on_raise-Answer :
        (operation : String) (e : Raised)
        → Reaches Any (on_raise p j operation e) (λ r s. Answer d operation r) Never
    unfolding on_raise
    on_raise-Answer operation Raised.absent = Reaches-pure _ (λ s h. absent refl)
    on_raise-Answer operation (Raised.uncertain reason) = Reaches-pure _ (λ s h. uncertain refl)
    on_raise-Answer operation (Raised.journal key) =
        Reaches-bind _ _ (attempted-Returns operation)
          λ before. Reaches-pure _ (λ s h. uncertain_if-Answer operation before)
    on_raise-Answer operation _ = reject-Answer operation

    execute-Answer :
        ((v actions : Fields) → d.actions v ≡ ok actions → NoRepeat actions)
        → (operation : String) (raw : p.Raw)
        → Reaches Any (execute p j operation raw d) (λ r s. Answer d operation r) Never
    unfolding execute modify
    execute-Answer dict operation raw =
        Reaches-bind _ _ (record { at = λ s h. h })
          λ u.
            Reaches-handled _ _
              (Reaches-then (carry_out-IsReceipt p j d dict operation raw) (λ r s h. receipt h)
                (λ s h. h))
              (λ e. on_raise-Answer operation e)

    run-Answers :
        ((v actions : Fields) → d.actions v ≡ ok actions → NoRepeat actions)
        → (operation : String) (raw : p.Raw)
        → Reaches Any (run p j operation raw d) (λ r s. Answer d operation r) Never
    unfolding run
    run-Answers dict operation raw = Reaches-bind _ _ (execute-Answer dict operation raw) λ result.
        Reaches-given λ answer.
          Reaches-bind _ _ (Reaches-handled _ _ (Reaches-Any _) (λ e. Reaches-pure tt (λ s h. h)))
            λ u. Reaches-pure result (λ s h. answer)

    -- A run of a controller that gives each stage one action at most returns, whatever the ports do
    -- and raise: SUCCESS comes with a receipt in which each action was applied, and every other answer is
    -- one of FAILURE, with or without the reason of an absent effect, and UNCERTAIN.
    pub run-Answer :
        ((v actions : Fields) → d.actions v ≡ ok actions → NoRepeat actions)
        → (operation : String) (raw : p.Raw) (s : State p)
        → (result : Fields) × ((run p j operation raw d s).0 ≡ ok result)
          × Answer d operation result
    run-Answer dict operation raw s =
        found (run p j operation raw d s).0 (run p j operation raw d s).1
          ((run-Answers dict operation raw).at s tt)
      where
        found :
            (r : Result Fields) (t : State p)
            → After (λ x s. Answer d operation x) Never r t
            → (result : Fields) × (r ≡ ok result) × Answer d operation result
        found (ok x) t h = (x, refl, h)
        found (raise e) t h = absurd h
