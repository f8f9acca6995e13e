-- ===== src/Recovery/RetryTests.antt =====
-- A retried operation and an interrupted switch of scripts/recovery/journal.py, over a storage in
-- memory.
use Prim.Native.String.{◌++◌}
use terragrunt_demo.Common.{
  ◌+◌, String, ◌≡◌, refl, true, false, Option, none, some, [], ◌∷◌, In, Result, ok, raise, Raised,
  lowers_to,
}
use terragrunt_demo.Common.Action.{Action, pure, fail, lift, gets, modify, rescue, ◌>>=◌}
use terragrunt_demo.Json.{Value, str, num, obj, Fields, field, end, find}
use terragrunt_demo.Dicts.{keys}
use terragrunt_demo.Mutation.Domain.{is_uuid}
use terragrunt_demo.Recovery.Exact.{same, plus, is_version}
use terragrunt_demo.Recovery.Ports.{Observed, malformed, Operation, State, Domain, port, dispatch}
use terragrunt_demo.Recovery.Intent.{
  Journal, decode, opened, check_request, plan, attempt_of, check_intent, check_retained,
  check_effect, validate_effect, settled,
}
use terragrunt_demo.Recovery.Journal.{
  read, put, occupied, any_attempt, attempted, create_intent, accept, bounded, no_effect_yet, start,
  recorded, observe, resolve, effect,
}
use terragrunt_demo.Recovery.Run.{
  status, is_not_switch, begin, check_unused, select_actions, reconcile, act, confirm, finish,
  carry_out, execute,
}
use terragrunt_demo.Recovery.Retry.{accept-retry}
use terragrunt_demo.Recovery.Switch.{Switched, execute-Uncertain}
use terragrunt_demo.Recovery.Memory.{Memory, memory_ports, memory_laws, memory-Holds, stored}

abbrev id : String
id = "11111111-1111-4111-8111-111111111111"

abbrev emergency : Journal
emergency = record { namespace = "dev/recovery/emergency"; stages = "scale" ∷ "switch" ∷ [] }

abbrev empty : State memory_ports
empty = record {
  world = record { store = end; done = end; clock = 100 };
  preparing = none;
  accepted = false;
  reconciled = false;
  calls = [];
}

-- What a controller prepares at its time.
abbrev prepare : Action Memory Fields
prepare w = (ok (field "at" (num w.clock) end), record w { clock = w.clock + 1 })

abbrev accepted : Result Operation × State memory_ports
accepted = accept memory_ports emergency id end prepare empty

abbrev again : Result Operation × State memory_ports
again = accept memory_ports emergency id end prepare accepted.1

abbrev operation_or : Operation → Result Operation → Operation
operation_or default (ok op) = op
operation_or default (raise e) = default

abbrev nothing : Operation
nothing = record {
  body = end;
  operation = "";
  request = end;
  started = num 0;
  deadline = num 0;
  domain = end;
}

accepts : accepted.0 ≡ ok (operation_or nothing accepted.0)
unfolding accept create_intent read put port opened decode is_version same attempted any_attempt
    occupied plus check_intent ◌>>=◌ pure fail lift rescue is_uuid keys lowers_to
accepts = refl

accepts_again : again.0 ≡ ok (operation_or nothing again.0)
unfolding accept create_intent read put port opened decode is_version same attempted any_attempt
    occupied plus check_intent ◌>>=◌ pure fail lift rescue is_uuid keys lowers_to
accepts_again = refl

accept-retry_example :
    (operation_or nothing again.0 ≡ operation_or nothing accepted.0)
    × (again.1 ≡ (read memory_ports emergency (id ++ "/intent") true accepted.1).1)
accept-retry_example =
    accept-retry memory_ports emergency memory_laws id end end prepare prepare empty accepted.1
      (operation_or nothing accepted.0) (operation_or nothing again.0) accepts (λ k o h. h)
      accepts_again

-- A controller that switches, and then finds its final proof missing.
abbrev switching : Domain memory_ports
switching = record {
  prepare = prepare;
  validate = λ v. ok tt;
  actions = λ v. ok (field "switch" (obj (field "target" (str "green") end)) end);
  guard = λ op stage effects w. (ok tt, w);
  final = λ op effects w. (raise Raised.rejected, w);
}

abbrev interrupted : Result Fields × State memory_ports
interrupted =
    carry_out memory_ports emergency id (obj end) switching (begin memory_ports emergency empty)

interrupts : interrupted.0 ≡ raise Raised.rejected
unfolding carry_out finish ◌>>=◌ pure fail lift gets modify rescue is_uuid check_request decode keys
    accept create_intent read put port opened is_version same attempted any_attempt occupied plus
    check_intent bounded select_actions check_unused reconcile act confirm effect plan attempt_of
    check_retained check_effect validate_effect settled start no_effect_yet dispatch recorded
    observe resolve lowers_to
interrupts = refl

abbrev switch_path : String
switch_path = "dev/recovery/emergency/11111111-1111-4111-8111-111111111111/switch/attempt"

abbrev entry_or : Option (Observed Value) → Observed Value
entry_or none = malformed
entry_or (some o) = o

abbrev attempt : Observed Value
attempt = entry_or (stored (find switch_path interrupted.1.world.store))

attempted_switch : stored (find switch_path interrupted.1.world.store) ≡ some attempt
unfolding carry_out finish ◌>>=◌ pure fail lift gets modify rescue is_uuid check_request decode keys
    accept create_intent read put port opened is_version same attempted any_attempt occupied plus
    check_intent bounded select_actions check_unused reconcile act confirm effect plan attempt_of
    check_retained check_effect validate_effect settled start no_effect_yet dispatch recorded
    observe resolve lowers_to
attempted_switch = refl

is_accepted : interrupted.1.accepted ≡ true
unfolding carry_out finish ◌>>=◌ pure fail lift gets modify rescue is_uuid check_request decode keys
    accept create_intent read put port opened is_version same attempted any_attempt occupied plus
    check_intent bounded select_actions check_unused reconcile act confirm effect plan attempt_of
    check_retained check_effect validate_effect settled start no_effect_yet dispatch recorded
    observe resolve lowers_to
is_accepted = refl

is_past : is_not_switch interrupted.1.preparing ≡ true
unfolding carry_out finish ◌>>=◌ pure fail lift gets modify rescue is_uuid check_request decode keys
    accept create_intent read put port opened is_version same attempted any_attempt occupied plus
    check_intent bounded select_actions check_unused reconcile act confirm effect plan attempt_of
    check_retained check_effect validate_effect settled start no_effect_yet dispatch recorded
    observe resolve lowers_to
is_past = refl

switched : Switched memory_ports emergency memory_laws id interrupted.1
switched = record {
  accepted = is_accepted;
  past = is_past;
  stands = (attempt, memory-Holds interrupted.1.world switch_path attempt attempted_switch);
}

named : is_uuid id ≡ true
unfolding is_uuid
named = refl

execute-Uncertain_example :
    (execute memory_ports emergency id (obj end) switching empty).0 ≡ ok (status "UNCERTAIN")
execute-Uncertain_example =
    execute-Uncertain memory_ports emergency memory_laws id switching (obj end) empty
      Raised.rejected named (In.there In.here) interrupts (cc) switched
