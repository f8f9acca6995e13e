-- ===== src/Recovery/Runs.antt =====
-- Runs of scripts/recovery/journal.py, one after the other and of any controllers, over one storage.
use mathlib.Core.Path.{subst}
use mathlib.Core.Option.{some-injective}
use terragrunt_demo.Common.{String, ◌≡◌, refl, sym, true, none, some, List, [], ◌∷◌, Raised}
use terragrunt_demo.Common.Action.{Action, modify}
use terragrunt_demo.Common.Action.Keeps.{
  Keeps, Keeps-bind, Keeps-then, Keeps-if, Keeps-lift, Keeps-modify, Keeps-pure, keeps_rules,
}
use terragrunt_demo.Json.{Fields, field, end}
use terragrunt_demo.Dicts.{has_key}
use terragrunt_demo.Recovery.Ports.{Ports, Operation, State, Domain}
use terragrunt_demo.Recovery.Intent.{Journal}
use terragrunt_demo.Recovery.Run.{
  begin, check_unused, select_actions, reconcile, act, confirm, finish, carry_out, reject, on_raise,
  execute, run,
}
use terragrunt_demo.Recovery.Stable.{
  Immutable, IsStable, Leaves, port-Keeps, read-Keeps, put-Keeps, occupied-Keeps, attempted-Keeps,
  accept-Keeps, bounded-Keeps,
}
use terragrunt_demo.Recovery.Once.{Once, Once-Grows, Once-IsStable}
use terragrunt_demo.Recovery.Effects.{LeavesAll, effect-Once}

module _ (p : Ports) (laws : Immutable p) where
  module _ (j : Journal) where
    stable : IsStable p laws (Once p laws)
    stable = Once-IsStable p laws

    -- The journal's own variables do not matter.
    quiet-Keeps :
        (f : State p → State p)
        → ((s : State p) → (f s).world ≡ s.world)
        → ((s : State p) → (f s).calls ≡ s.calls)
        → Keeps (Once p laws) (modify f)
    quiet-Keeps f w c = Keeps-modify f λ s h.
        Once-Grows p laws s (f s) (c s) (λ k o x. subst (λ v. laws.Holds v k o) (sym (w s)) x) h

    begin-Keeps : Keeps (Once p laws) (modify (begin p j))
    begin-Keeps = quiet-Keeps _ (λ s. refl) (λ s. refl)

    accepted-Keeps : Keeps (Once p laws) (modify (λ s. record s { accepted = true }))
    accepted-Keeps = quiet-Keeps _ (λ s. refl) (λ s. refl)

    reconciled-Keeps : Keeps (Once p laws) (modify (λ s. record s { reconciled = true }))
    reconciled-Keeps = quiet-Keeps _ (λ s. refl) (λ s. refl)

    check_unused-Keeps :
        (operation : String) (stages : List String)
        → Keeps (Once p laws) (check_unused p j operation stages)
    unfolding check_unused
    check_unused-Keeps operation [] = Keeps-pure tt
    check_unused-Keeps operation (stage ∷ stages) =
        Keeps-bind _ _ (read-Keeps p j laws stable _ true)
          λ found. Keeps-then _ _ (search keeps_rules) (check_unused-Keeps operation stages)

    reconcile-Keeps :
        (op : Operation) (actions effects : Fields)
        → Keeps (Once p laws) (reconcile p j op actions effects)
    unfolding reconcile
    reconcile-Keeps op end effects = Keeps-pure effects
    reconcile-Keeps op (field stage request actions) effects =
        Keeps-bind _ _ (effect-Once p laws j op stage request none (λ g h. cc))
          λ value. reconcile-Keeps op actions _

    confirm-Keeps :
        (op : Operation) (actions effects : Fields)
        → Keeps (Once p laws) (confirm p j op actions effects)
    unfolding confirm
    confirm-Keeps op end effects = Keeps-pure effects
    confirm-Keeps op (field stage request actions) effects =
        Keeps-bind _ _ (effect-Once p laws j op stage request none (λ g h. cc))
          λ value. Keeps-then _ _ (Keeps-lift _) (confirm-Keeps op actions _)

    module _ (d : Domain p) (leaves : LeavesAll p laws d) where
      act-Keeps :
          (op : Operation) (actions effects : Fields)
          → Keeps (Once p laws) (act p j op d actions effects)
      unfolding act
      act-Keeps op end effects = Keeps-pure effects
      act-Keeps op (field stage request actions) effects =
          Keeps-if (has_key stage effects) _ _ (act-Keeps op actions effects) (
            Keeps-bind _ _
              (effect-Once p laws j op stage request (some (d.guard op stage effects))
                (λ g h. guarded op stage effects g h))
              λ value. act-Keeps op actions _)
        where
          guarded :
              (op : Operation) (stage : String) (effects : Fields) (g : Action p.World (Unit {0}))
              → some (d.guard op stage effects) ≡ some g
              → Leaves p laws g
          guarded op stage effects g h =
              subst (λ (m : Action p.World (Unit {0})). Leaves p laws m) (some-injective _ _ h)
                (leaves.guard_leaves op stage effects)

      reject-Keeps : (operation : String) → Keeps (Once p laws) (reject p j operation)
      unfolding reject
      reject-Keeps operation =
          search (keeps_rules, attempted-Keeps p j laws stable, occupied-Keeps p j laws stable)
            depth 12

      on_raise-Keeps :
          (operation : String) (e : Raised) → Keeps (Once p laws) (on_raise p j operation e)
      unfolding on_raise
      on_raise-Keeps operation Raised.absent = Keeps-pure _
      on_raise-Keeps operation (Raised.uncertain reason) = Keeps-pure _
      on_raise-Keeps operation (Raised.journal key) =
          Keeps-bind _ _ (attempted-Keeps p j laws stable operation) (λ b. Keeps-pure _)
      on_raise-Keeps operation _ = reject-Keeps operation

      select_actions-Keeps : (op : Operation) → Keeps (Once p laws) (select_actions p j op d)
      unfolding select_actions
      select_actions-Keeps op = search (keeps_rules, check_unused-Keeps) depth 12

      finish-Keeps :
          (operation : String) (op : Operation) (actions earlier : Fields)
          → Keeps (Once p laws) (finish p j operation op d actions earlier)
      unfolding finish
      finish-Keeps operation op actions earlier =
          search
            (
              keeps_rules,
              act-Keeps,
              bounded-Keeps p j laws stable,
              port-Keeps p j laws stable,
              leaves.final_leaves,
              confirm-Keeps,
              put-Keeps p j laws stable,
            )
            depth 16

      carry_out-Keeps :
          (operation : String) (raw : p.Raw) → Keeps (Once p laws) (carry_out p j operation raw d)
      unfolding carry_out
      carry_out-Keeps operation raw = Keeps-then _ _ (Keeps-lift _) (
          Keeps-bind _ _ (Keeps-lift _) λ request.
            Keeps-bind _ _ (accept-Keeps p j laws stable _ _ d.prepare leaves.prepare_leaves) λ op.
              Keeps-then _ _ accepted-Keeps (
                Keeps-bind _ _ (select_actions-Keeps op) λ actions.
                  Keeps-bind _ _ (reconcile-Keeps op actions end) λ earlier.
                    Keeps-then _ _ reconciled-Keeps (finish-Keeps operation op actions earlier)))

      pub run-Once :
          (operation : String) (raw : p.Raw) → Keeps (Once p laws) (run p j operation raw d)
      unfolding run execute
      run-Once operation raw =
          search
            (keeps_rules, carry_out-Keeps, on_raise-Keeps, put-Keeps p j laws stable, begin-Keeps)
            depth 20
