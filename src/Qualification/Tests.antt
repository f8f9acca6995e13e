-- ===== src/Qualification/Tests.antt =====
-- Evaluations of the model of scripts/qualification/finalizer.py, and examples of its properties.
use terragrunt_demo.Common.{
  or_key_error, ap, ◌∙◌, sym, ok-injective, raise≢ok, ◌≡◌, refl, Option, none, some, Result, ok,
  raise, Raised, is_commit, startswith, contains,
}
use terragrunt_demo.Common.Action.{◌>>=◌, fail, lift, pure, rescue}
use terragrunt_demo.Ci.FilePath.{split}
use terragrunt_demo.Json.{Value, str, obj, Fields, field, end, find, py_eq}
use terragrunt_demo.Recovery.Exact.{same, le}
use terragrunt_demo.DevDown.Consent.{is_account, is_region}
use terragrunt_demo.Qualification.Schema.{
  validate_value, validate_step, check_kind, check_object, among, check_string, is_in, last_part,
}
use terragrunt_demo.Qualification.Checks.{
  load_contracts, new, at, agree, matches, check_operation, check_record, check_result,
  check_candidate, new_record,
}
use terragrunt_demo.Qualification.Finalizer.{
  decode, validate, check_receipt, read_manifest, persist, qualify, finalize_from, finalize,
  validate_eligibility, eligible,
}
use terragrunt_demo.Qualification.Memory.{
  contracts, schema, free, authority, self, memory, build, wakeup, qualified, store, identity,
}
use terragrunt_demo.Qualification.Qualified.{Finalized, finalize-Finalized}
use terragrunt_demo.Qualification.Again.{Protected, finalize_again}

loads : load_contracts schema free ≡ ok contracts
unfolding load_contracts at
loads = refl

installs : new "123456789012" "us-east-1" authority ≡ ok self
unfolding new at is_account is_region split
installs = refl

abbrev first : Result Fields × Fields
first = finalize (memory build) contracts self wakeup end

finalizes : first.0 ≡ ok qualified
unfolding finalize finalize_from validate validate_value validate_step check_kind check_object among
    check_string le at check_operation agree matches py_eq startswith ◌>>=◌ fail lift pure rescue
    contains check_candidate check_record check_result new_record check_receipt decode persist
    qualify read_manifest is_in last_part same is_commit
finalizes = refl

-- A build with a failed check, and a wakeup with another key, are refused and change nothing.
abbrev failed : Value
failed = obj (
    identity (
      field "state" (str "SUCCEEDED")
        (field "checks" (obj (field "dotnet_test" (str "FAIL") end)) end)))

refuses_failed : finalize (memory failed) contracts self wakeup end ≡ (raise Raised.rejected, end)
unfolding finalize finalize_from validate validate_value validate_step check_kind check_object among
    check_string le at check_operation agree matches py_eq startswith ◌>>=◌ fail lift pure rescue
    contains check_candidate check_record check_result new_record check_receipt decode persist
    qualify read_manifest is_in last_part same is_commit
refuses_failed = refl

refuses_wakeup :
    finalize (memory build) contracts self (obj (field "build_id" (str "1") end)) end
    ≡ (raise Raised.rejected, end)
unfolding finalize finalize_from validate validate_value validate_step check_kind check_object among
    check_string le at check_operation agree matches py_eq startswith ◌>>=◌ fail lift pure rescue
    contains check_candidate check_record check_result new_record check_receipt decode persist
    qualify read_manifest is_in last_part same is_commit
refuses_wakeup = refl

-- A record without a schema of its kind is not eligible.
refuses_eligibility :
    validate_eligibility (memory build) contracts wakeup (str "x") end
    ≡ (raise Raised.rejected, end)
unfolding validate_eligibility eligible validate fail lift rescue ◌>>=◌
refuses_eligibility = refl

finalize-Finalized_example : Finalized (memory build) contracts self wakeup qualified
finalize-Finalized_example =
    finalize-Finalized (memory build) contracts self wakeup end qualified finalizes

found :
    (o : Option Value) (w v : Fields) (raw : Value) {x : Result Value × Fields}
    → x ≡ (or_key_error o, w)
    → x ≡ (ok raw, v)
    → (o ≡ some raw) × (v ≡ w)
found (some y) w v raw e h =
    let both = sym e ∙ h in
    (
      ap some (ok-injective (ap (λ (y : Result Value × Fields). y.0) both)),
      sym (ap (λ (y : Result Value × Fields). y.1) both),
    )
found none w v raw e h = absurd (raise≢ok (ap (λ (y : Result Value × Fields). y.0) (sym e ∙ h)))

abbrev laws : Protected (memory build)
laws = record {
  operation = λ id. record { answer = _; gives = λ w. refl };
  build = λ id. record { answer = _; gives = λ w. refl };
  result = λ id build_id. record { answer = _; gives = λ w. refl };
  manifest = λ bucket key version_id. record { answer = _; gives = λ w. refl };
  stored = λ w key. find key w;
  reads = λ key w v raw h. found (find key w) w v raw refl h;
  rereads = λ key w raw h. ap (λ o. (or_key_error o, w)) h;
  refuses = λ key raw held w h. ap (λ o. store o key raw w) h;
}

-- The record that the first run has stored.
abbrev later : Fields
later = first.1

finalize_again_example : finalize (memory build) contracts self wakeup later ≡ (ok qualified, later)
finalize_again_example =
    finalize_again (memory build) laws contracts self wakeup end qualified finalizes later
      (λ key raw h. h)
