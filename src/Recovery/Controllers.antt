-- ===== src/Recovery/Controllers.antt =====
-- The controllers of scripts/recovery/nat.py and scripts/recovery/application.py only observe between
-- the calls of the journal: they leave every stored object standing.
use terragrunt_demo.Common.{String}
use terragrunt_demo.Common.Action.{Action}
use terragrunt_demo.Common.Action.Keeps.{Keeps, keeps_rules}
use terragrunt_demo.Json.{Value, Fields}
use terragrunt_demo.Recovery.Ports.{Ports, Observed, Operation}
use terragrunt_demo.Recovery.Freshness.{check_time}
use terragrunt_demo.Recovery.NatActions.{NatAction}
use terragrunt_demo.Recovery.NatControl
use terragrunt_demo.Recovery.Cleanup
use terragrunt_demo.Recovery.Stable.{Immutable, Leaves}
use terragrunt_demo.Recovery.Effects.{LeavesAll}

module _ (p : Ports) (laws : Immutable p) where
  -- One object, in the world of the ports.
  abbrev pub There : String → Observed p.Raw → p.World → Type 0
  There k o w = laws.Holds w k o

  -- An observation is a call that leaves every object.
  Leaves-Keeps :
      {A : Type 0} (m : Action p.World A) (k : String) (o : Observed p.Raw)
      → Leaves p laws m
      → Keeps (There k o) m
  Leaves-Keeps m k o leaves = record { at = λ w h. leaves w k o h }

  check_time-Keeps :
      (now at : Value) (k : String) (o : Observed p.Raw) → Keeps (There k o) (check_time p now at)
  unfolding check_time
  check_time-Keeps now at k o = search (keeps_rules, Leaves-Keeps, laws.now_leaves) depth 12

  module _ (observe : String → Value → Action p.World Value)
      (leaves : (name : String) (deadline : Value) → Leaves p laws (observe name deadline))
      (environment : String) where
    module _ (action : NatAction) where
      context-Keeps :
          (k : String) (o : Observed p.Raw)
          → Keeps (There k o) (NatControl.context p observe environment action)
      unfolding NatControl.context
      context-Keeps k o =
          search (keeps_rules, Leaves-Keeps, laws.now_leaves, leaves, check_time-Keeps) depth 14

      guard-Keeps :
          (op : Operation) (stage : String) (effects : Fields) (k : String) (o : Observed p.Raw)
          → Keeps (There k o) (NatControl.guard p observe environment action op stage effects)
      unfolding NatControl.guard
      guard-Keeps op stage effects k o = search (keeps_rules, context-Keeps)

      final-Keeps :
          (op : Operation) (effects : Fields) (k : String) (o : Observed p.Raw)
          → Keeps (There k o) (NatControl.final p observe environment action op effects)
      unfolding NatControl.final
      final-Keeps op effects k o = search (keeps_rules, context-Keeps) depth 8

      pub nat-LeavesAll : LeavesAll p laws (NatControl.controller p observe environment action)
      nat-LeavesAll = record {
        prepare_leaves = λ w k o. (context-Keeps k o).at w;
        guard_leaves = λ op stage effects w k o. (guard-Keeps op stage effects k o).at w;
        final_leaves = λ op effects w k o. (final-Keeps op effects k o).at w;
      }

    module _ (read_config : Action p.World Value) (config_leaves : Leaves p laws read_config)
        (operation : String) where
      snapshot-Keeps :
          (c : Fields) (k : String) (o : Observed p.Raw)
          → Keeps (There k o) (Cleanup.snapshot p read_config observe environment c operation)
      unfolding Cleanup.snapshot Cleanup.config
      snapshot-Keeps c k o =
          search
            (keeps_rules, Leaves-Keeps, laws.now_leaves, leaves, config_leaves, check_time-Keeps)
            depth 16

      prepare-Keeps :
          (k : String) (o : Observed p.Raw)
          → Keeps (There k o) (Cleanup.prepare p read_config observe environment operation)
      unfolding Cleanup.prepare Cleanup.config
      prepare-Keeps k o = search (keeps_rules, Leaves-Keeps, config_leaves, snapshot-Keeps) depth 10

      cleanup_guard-Keeps :
          (op : Operation) (stage : String) (effects : Fields) (k : String) (o : Observed p.Raw)
          → Keeps
              (There k o)
              (Cleanup.guard p read_config observe environment operation op stage effects)
      unfolding Cleanup.guard
      cleanup_guard-Keeps op stage effects k o = search (keeps_rules, snapshot-Keeps) depth 10

      cleanup_final-Keeps :
          (op : Operation) (effects : Fields) (k : String) (o : Observed p.Raw)
          → Keeps (There k o) (Cleanup.final p read_config observe environment operation op effects)
      unfolding Cleanup.final
      cleanup_final-Keeps op effects k o =
          search (keeps_rules, cleanup_guard-Keeps, snapshot-Keeps) depth 14

      pub cleanup-LeavesAll :
          LeavesAll p laws (Cleanup.controller p read_config observe environment operation)
      cleanup-LeavesAll = record {
        prepare_leaves = λ w k o. (prepare-Keeps k o).at w;
        guard_leaves = λ op stage effects w k o. (cleanup_guard-Keeps op stage effects k o).at w;
        final_leaves = λ op effects w k o. (cleanup_final-Keeps op effects k o).at w;
      }
