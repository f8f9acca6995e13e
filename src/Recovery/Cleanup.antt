-- ===== src/Recovery/Cleanup.antt =====
-- `Application` and `Cleanup` of scripts/recovery/application.py. `read_config` and `observe` are the
-- runtime's `config` and `observe`.
use terragrunt_demo.Common.{String, [], ◌∷◌, Result}
use terragrunt_demo.Common.Action.{Action, pure, lift, ◌>>=◌, ◌>>◌}
use terragrunt_demo.Json.{Value, obj, Fields}
use terragrunt_demo.Dicts.{get}
use terragrunt_demo.Recovery.Exact.{exact, plus}
use terragrunt_demo.Recovery.Ports.{Ports, Operation, Domain}
use terragrunt_demo.Recovery.Intent.{Journal, open_journal}
use terragrunt_demo.Recovery.Freshness.{check_time}
use terragrunt_demo.Recovery.Snapshot.{
  dict_at, check_config, check_origin, check_snapshot, evidence,
}
use terragrunt_demo.Recovery.CleanupPlan.{validate, actions, check_guard, is_scaled, safe, prepared}

module _ (p : Ports) (read_config : Action p.World Value)
    (observe : String → Value → Action p.World Value) (environment : String) where
  unfoldable pub config : Action p.World Fields
  config = do value ← read_config; lift (check_config environment value)

  -- `Application.observe`
  unfoldable pub snapshot : Fields → String → Action p.World Fields
  snapshot accepted operation = do
    current ← config
    lift (exact (obj current) (obj accepted))
    now ← p.now
    deadline ← lift (plus now 30)
    value ← observe operation deadline
    s ← lift (check_origin environment operation value)
    check_time p now (get s "observed_at")
    lift (check_snapshot accepted s)
    pure s

  module _ (operation : String) where
    unfoldable pub prepare : Action p.World Fields
    prepare = do c ← config; s ← snapshot c operation; lift (prepared c s)

    unfoldable pub guard : Operation → String → Fields → Action p.World (Unit {0})
    guard op stage effects = do
      c ← lift (dict_at op.domain "config")
      s ← snapshot c operation
      lift (check_guard op.domain stage s)

    unfoldable pub final : Operation → Fields → Action p.World Value
    final op effects = do
      guard op "final" effects
      c ← lift (dict_at op.domain "config")
      s ← snapshot c operation
      lift (safe op.domain s)
      lift (is_scaled op.domain s)
      proof ← lift (evidence s)
      pure (obj proof)

    -- The controller as the journal calls it for this operation.
    abbrev pub controller : Domain p
    controller = record {
      prepare = prepare;
      validate = validate;
      actions = actions;
      guard = guard;
      final = final;
    }

  -- `__init__`
  unfoldable pub cleanup_journal : Result Journal
  cleanup_journal =
      open_journal environment "cleanup" ("scale_zero" ∷ "remove_target" ∷ "delete_rule" ∷ [])
