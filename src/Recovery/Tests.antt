-- ===== src/Recovery/Tests.antt =====
-- Runs of the controllers of scripts/recovery over a storage in memory.
use terragrunt_demo.Common.{
  String, ◌≡◌, refl, Bool, true, false, none, [], ◌∷◌, Result, ok, raise, is_sha256, lowers_to,
}
use terragrunt_demo.Common.Action.{Action, pure, fail, lift, gets, modify, rescue, ◌>>=◌}
use terragrunt_demo.Json.{Value, str, num, bool, obj, null, Fields, field, end, py_eq}
use terragrunt_demo.Dicts.{keys, get, texts}
use terragrunt_demo.Mutation.Domain.{is_uuid}
use terragrunt_demo.Recovery.Exact.{same, plus, le, is_version}
use terragrunt_demo.Recovery.Ports.{State, Domain, port, dispatch}
use terragrunt_demo.Recovery.Intent.{
  Journal, decode, opened, check_request, plan, attempt_of, check_intent, check_retained,
  check_effect, validate_effect, settled,
}
use terragrunt_demo.Recovery.Journal.{
  read, put, occupied, any_attempt, attempted, create_intent, accept, bounded, no_effect_yet, start,
  recorded, observe, resolve, effect,
}
use terragrunt_demo.Recovery.Run.{
  check_unused, select_actions, reconcile, act, confirm, finish, carry_out, execute, run,
}
use terragrunt_demo.Recovery.Freshness.{check_time}
use terragrunt_demo.Recovery.NatContext.{
  check_texts, check_same, check_spec, check_membership, check_observed, check_answer, validate,
}
use terragrunt_demo.Recovery.NatActions.{disable_sdc, request_of, actions, check_final}
use terragrunt_demo.Recovery.NatControl
use terragrunt_demo.Recovery.NatControl.{context, guard, final}
use terragrunt_demo.Recovery.NatFinal.{actions-NoRepeat, Done, run-Done}
use terragrunt_demo.Recovery.Stable.{Leaves}
use terragrunt_demo.Recovery.Once.{Distinct, Recorded}
use terragrunt_demo.Recovery.Effects.{LeavesAll}
use terragrunt_demo.Recovery.Sequences.{Runs, runs_dispatch_once}
use terragrunt_demo.Recovery.Answers.{Answer, run-Answer}
use terragrunt_demo.Recovery.Controllers.{nat-LeavesAll}
use terragrunt_demo.Recovery.Memory.{Memory, memory_ports, memory_laws, sha}

abbrev id : String
id = "11111111-1111-4111-8111-111111111111"

abbrev tagged : Value
tagged = obj (field "Role" (str "nat") end)

abbrev spec : Value
spec = obj (
    field "ami" (str "ami-1") (
      field "launch_template" (str "lt-1") (
        field "launch_template_version" (num 3) (
          field "user_data_sha256" (str sha) (
            field "instance_profile" (str "nat-profile") (
              field "role" (str "nat-role") (
                field "security_groups" (texts ("sg-1" ∷ [])) (
                  field "http_tokens" (str "required") (
                    field "associate_public_ip" (bool true) (
                      field "delete_on_termination" (bool true)
                        (field "instance_type" (str "t3.micro") (field "tags" tagged end))))))))))))

abbrev resources : Fields → Fields
resources rest = field "environment" (str "dev") (
    field "vpc" (str "vpc-1") (
      field "subnet" (str "subnet-1") (
        field "az" (str "eu-central-1a") (
          field "asg" (str "asg-1") (
            field "instance" (str "i-1") (
              field "eni" (str "eni-1") (
                field "eip" (str "eipalloc-1")
                  (field "route_table" (str "rtb-1") (field "spec" spec rest)))))))))

-- The check of source and destination is on until a request was carried out.
abbrev checks : Fields → Bool
checks end = true
checks (field k v fs) = false

abbrev answer : Memory → Value
answer w = obj (
    field "membership" (obj (resources end)) (
      field "observed"
        (obj (
          resources (
            field "lifecycle" (str "InService") (
              field "health" (str "Healthy") (
                field "eni_instance" (str "i-1") (
                  field "route_vpc" (str "vpc-1") (
                    field "eip_environment" (str "dev") (
                      field "association_eni" null (
                        field "default_route_eni" (str "eni-1")
                          (field "source_dest_check" (bool (checks w.done)) end))))))))))
        (field "observed_at" (num w.clock) (field "route_exists" (bool true) end))))

abbrev look : String → Value → Action Memory Value
look action deadline w = (ok (answer w), w)

abbrev nat_journal : Journal
nat_journal = record { namespace = "dev/recovery/disable_sdc"; stages = "disable_sdc" ∷ [] }

abbrev nat : Domain memory_ports
nat = NatControl.controller memory_ports look "dev" disable_sdc

abbrev empty : State memory_ports
empty = record {
  world = record { store = end; done = end; clock = 100 };
  preparing = none;
  accepted = false;
  reconciled = false;
  calls = [];
}

abbrev first : Result Fields × State memory_ports
first = run memory_ports nat_journal id (obj end) nat empty

abbrev receipt_or_end : Result Fields → Fields
receipt_or_end (ok fs) = fs
receipt_or_end (raise e) = end

succeeds : get (receipt_or_end first.0) "status" ≡ str "SUCCESS"
unfolding run execute carry_out finish ◌>>=◌ pure fail lift gets modify rescue is_uuid check_request
    decode keys accept create_intent read put port opened is_version same attempted any_attempt
    occupied plus le check_intent bounded select_actions check_unused reconcile act confirm effect
    plan attempt_of check_retained check_effect validate_effect settled start no_effect_yet dispatch
    recorded observe resolve context check_time check_texts check_same check_spec check_membership
    check_observed check_answer validate request_of actions check_final guard final is_sha256
    lowers_to py_eq
succeeds = refl

look-Leaves :
    (name : String) (deadline : Value) → Leaves memory_ports memory_laws (look name deadline)
look-Leaves name deadline w k o h = h

nat_leaves : LeavesAll memory_ports memory_laws nat
nat_leaves = nat-LeavesAll memory_ports memory_laws look look-Leaves "dev" disable_sdc

-- The same operation runs a second time.
abbrev twice : State memory_ports
twice = (run memory_ports nat_journal id (obj end) nat first.1).1

runs_dispatch_once_example :
    Distinct twice.calls × Recorded memory_ports memory_laws twice.world twice.calls
runs_dispatch_once_example = runs_dispatch_once memory_ports memory_laws empty twice refl (
    Runs.next nat_journal nat nat_leaves id (obj end)
      (Runs.next nat_journal nat nat_leaves id (obj end) Runs.start))

run-Answer_example :
    (result : Fields) × (first.0 ≡ ok result) × Answer memory_ports nat_journal nat id result
run-Answer_example =
    run-Answer memory_ports nat_journal nat (λ v acts e. actions-NoRepeat disable_sdc v acts e) id
      (obj end) empty

returned : first.0 ≡ ok (receipt_or_end first.0)
unfolding run execute carry_out finish ◌>>=◌ pure fail lift gets modify rescue is_uuid check_request
    decode keys accept create_intent read put port opened is_version same attempted any_attempt
    occupied plus le check_intent bounded select_actions check_unused reconcile act confirm effect
    plan attempt_of check_retained check_effect validate_effect settled start no_effect_yet dispatch
    recorded observe resolve context check_time check_texts check_same check_spec check_membership
    check_observed check_answer validate request_of actions check_final guard final is_sha256
    lowers_to py_eq
returned = refl

run-Done_example : Done memory_ports look "dev" disable_sdc nat_journal id (receipt_or_end first.0)
run-Done_example =
    run-Done memory_ports look "dev" disable_sdc nat_journal id (obj end) empty
      (receipt_or_end first.0) returned succeeds
