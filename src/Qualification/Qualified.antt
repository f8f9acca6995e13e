-- ===== src/Qualification/Qualified.antt =====
-- What a record that `finalize` of scripts/qualification/finalizer.py returns stands for.
use terragrunt_demo.Common.{◌≡◌, ok, raise, Raised, Result, raise≢ok}
use terragrunt_demo.Common.Action.{Action, fail, rescue, handle, step-then, lift-then}
use terragrunt_demo.Json.{Value, Fields, end}
use terragrunt_demo.Qualification.Checks.{Contracts, Finalizer, at, new_record}
use terragrunt_demo.Qualification.Agreement.{
  Accepted, check_operation-Accepted, Published, check_result-Published,
}
use terragrunt_demo.Qualification.Candidate.{
  Released, check_candidate-Released, Records, new_record-Records,
}
use terragrunt_demo.Qualification.Stored.{
  Conforms, validate-Conforms, Stored, read_manifest-Fetched, Persisted, persist-Persisted,
}
use terragrunt_demo.Qualification.Finalizer.{
  Ports, decode, conforms, validate, read_manifest, qualify, finalize_from, finalize,
}

-- What a handler that always raises lets through.
rescued :
    {S A : Type 0} (m : Action S A) (e : Raised) (s : S) {a : A}
    → (rescue m (λ _. fail e) s).0 ≡ ok a
    → (m s).0 ≡ ok a
unfolding rescue fail
rescued {S} {A} m e s h = split (m s).0 (m s).1 h
  where
    split : (r : Result A) (s : S) {a : A} → (handle r (λ _ t. (raise e, t)) s).0 ≡ ok a → r ≡ ok a
    split (ok b) s h = h
    split (raise x) s h = absurd (raise≢ok h)

module _ (p : Ports) (c : Contracts) where
  -- From the manifest to the record.
  pub record Qualified (self : Finalizer) (op result manifest : Value) (returned : Fields)
      : Type 0 where
    pub candidate : Value
    pub stored : Stored p c manifest candidate
    pub released : Released self op result candidate
    pub body : Fields
    pub says : Records self c.runtime op result manifest body
    pub persisted : Persisted p c body returned

  qualify-Qualified :
      (self : Finalizer) (op result manifest : Value) (w : p.World) (returned : Fields)
      → (qualify p c self op result manifest w).0 ≡ ok returned
      → Qualified self op result manifest returned
  unfolding qualify
  qualify-Qualified self op result manifest w returned h =
      let (bytes, read, h1) = step-then (read_manifest p c manifest) _ w h in
      let (candidate, decoded, h2) = lift-then (decode p c bytes) _ _ h1 in
      let (_, valid, h3) = lift-then (conforms p c end candidate c.release_manifest) _ _ h2 in
      let (_, checked, h4) = lift-then _ _ _ h3 in
      let (body, made, h5) = lift-then (new_record self c.runtime op result manifest) _ _ h4 in
      record {
        candidate = candidate;
        stored = record {
          bytes = bytes;
          fetched = read_manifest-Fetched p c manifest w bytes read;
          decoded = decoded;
          valid = valid;
        };
        released = check_candidate-Released self op result candidate checked;
        body = body;
        says = new_record-Records self c.runtime op result manifest body made;
        persisted = persist-Persisted p c body _ returned h5;
      }

  -- The answer of a port, in some state of the world.
  pub record Answers {A : Type 0} (port : Action p.World A) (a : A) : Type 0 where
    pub before : p.World
    pub answered : (port before).0 ≡ ok a

  -- The protected evidence of a wakeup, and the record that it supports.
  pub record Finalized (self : Finalizer) (wakeup : Value) (returned : Fields) : Type 0 where
    pub woken : Value
    pub of_wakeup : at wakeup "operation_id" ≡ ok woken
    pub op : Value
    pub accepted_by : Answers (p.operation woken) op
    pub accepted : Accepted self op wakeup
    pub build_id : Value
    pub of_build : at op "build_id" ≡ ok build_id
    pub build : Value
    pub built_by : Answers (p.build build_id) build
    pub operation_id : Value
    pub of_operation : at op "operation_id" ≡ ok operation_id
    pub result : Value
    pub tested_by : Answers (p.result operation_id build_id) result
    pub forms :
        Conforms p c "operation" op × Conforms p c "build" build × Conforms p c "result" result
    pub manifest : Value
    pub published : Published self c.required_checks op build result manifest
    pub qualified : Qualified self op result manifest returned

  finalize_from-Finalized :
      (self : Finalizer) (wakeup : Value) (w : p.World) (returned : Fields)
      → (finalize_from p c self wakeup w).0 ≡ ok returned
      → Finalized self wakeup returned
  unfolding finalize_from
  finalize_from-Finalized self wakeup w returned h =
      let (_, _, h1) = step-then (validate p c "wakeup" wakeup) _ w h in
      let (woken, of_wakeup, h2) = lift-then (at wakeup "operation_id") _ _ h1 in
      let (op, told, h3) = step-then (p.operation woken) _ _ h2 in
      let (_, op_form, h4) = step-then (validate p c "operation" op) _ _ h3 in
      let (_, accepted, h5) = lift-then _ _ _ h4 in
      let (build_id, of_build, h6) = lift-then (at op "build_id") _ _ h5 in
      let (build, built, h7) = step-then (p.build build_id) _ _ h6 in
      let (_, build_form, h8) = step-then (validate p c "build" build) _ _ h7 in
      let (operation_id, of_operation, h9) = lift-then (at op "operation_id") _ _ h8 in
      let (result, tested, h10) = step-then (p.result operation_id build_id) _ _ h9 in
      let (_, result_form, h11) = step-then (validate p c "result" result) _ _ h10 in
      let (manifest, published, h12) = lift-then _ _ _ h11 in
      record {
        woken = woken;
        of_wakeup = of_wakeup;
        op = op;
        accepted_by = record { before = _; answered = told };
        accepted = check_operation-Accepted self op wakeup accepted;
        build_id = build_id;
        of_build = of_build;
        build = build;
        built_by = record { before = _; answered = built };
        operation_id = operation_id;
        of_operation = of_operation;
        result = result;
        tested_by = record { before = _; answered = tested };
        forms = (
          validate-Conforms p c _ _ _ op_form,
          validate-Conforms p c _ _ _ build_form,
          validate-Conforms p c _ _ _ result_form,
        );
        manifest = manifest;
        published =
            check_result-Published self c.required_checks op build result manifest published;
        qualified = qualify-Qualified self op result manifest _ returned h12;
      }

  -- A record that `finalize` returns rests on an operation, a build and a result that the protected
  -- evidence gave for the wakeup: they agree on identity, commit and place, both observations
  -- succeeded with every required check, the manifest that the result names was read at its exact
  -- version, has the named digest and is of the same commit and image; the record has the fourteen
  -- fields that these say and its release id, and its bytes read back from the key of that id.
  pub finalize-Finalized :
      (self : Finalizer) (wakeup : Value) (w : p.World) (returned : Fields)
      → (finalize p c self wakeup w).0 ≡ ok returned
      → Finalized self wakeup returned
  unfolding finalize
  finalize-Finalized self wakeup w returned h =
      finalize_from-Finalized self wakeup w returned
        (rescued (finalize_from p c self wakeup) Raised.rejected w h)
