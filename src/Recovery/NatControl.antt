-- ===== src/Recovery/NatControl.antt =====
-- `Nat` of scripts/recovery/nat.py: the controller of one NAT action. `observe` is the runtime's
-- `context(action, deadline)`.
use terragrunt_demo.Common.{String, [], ◌∷◌, Result}
use terragrunt_demo.Common.Action.{Action, pure, lift, ◌>>=◌, ◌>>◌}
use terragrunt_demo.Json.{Value, obj, Fields}
use terragrunt_demo.Dicts.{keys, get}
use terragrunt_demo.Recovery.Exact.{exact, plus}
use terragrunt_demo.Recovery.Ports.{Ports, Operation, Domain}
use terragrunt_demo.Recovery.Intent.{Journal, open_journal}
use terragrunt_demo.Recovery.Freshness.{check_time}
use terragrunt_demo.Recovery.NatContext.{check_answer, validate}
use terragrunt_demo.Recovery.NatActions.{NatAction, name_of, actions, check_final}

module _ (p : Ports) (observe : String → Value → Action p.World Value) (environment : String)
    (action : NatAction) where
  unfoldable pub context : Action p.World Fields
  context = do
    now ← p.now
    deadline ← lift (plus now 30)
    answer ← observe (name_of action) deadline
    value ← lift (keys answer ("membership" ∷ "observed" ∷ "observed_at" ∷ "route_exists" ∷ []))
    check_time p now (get value "observed_at")
    lift (check_answer environment value)

  unfoldable pub guard : Operation → String → Fields → Action p.World (Unit {0})
  guard op stage effects = do current ← context; lift (exact (obj current) (obj op.domain))

  unfoldable pub final : Operation → Fields → Action p.World Value
  final op effects = do
    current ← context
    lift (check_final action current op.domain)
    pure (obj current)

  -- The controller as the journal calls it.
  abbrev pub controller : Domain p
  controller = record {
    prepare = context;
    validate = validate environment;
    actions = actions action;
    guard = guard;
    final = final;
  }

  -- `__init__`
  unfoldable pub nat_journal : Result Journal
  nat_journal = open_journal environment (name_of action) (name_of action ∷ [])
