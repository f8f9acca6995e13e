-- ===== src/Recovery/Effects.antt =====
-- `effect` of scripts/recovery/journal.py dispatches no call a second time.
use Prim.Native.String.{◌++◌}
use mathlib.Core.Path.{subst}
use text.Mathlib.TextLemmas.{append_assoc}
use terragrunt_demo.Common.{String, ◌≡◌, refl, ap, ◌∙◌, sym, true, Option, none, some, ok}
use terragrunt_demo.Common.Action.{Action, pure, choose, ◌>>=◌, ◌>>◌}
use terragrunt_demo.Common.Action.Keeps.{
  Reaches, Keeps, Reaches-bind, Reaches-weak, Reaches-ok, Keeps-Reaches, Keeps-bind, Keeps-pure,
  keeps_rules,
}
use terragrunt_demo.Json.{Value, Fields}
use terragrunt_demo.Recovery.Ports.{Ports, Operation, State, Domain}
use terragrunt_demo.Recovery.Intent.{Journal, Plan, stage_key, plan}
use terragrunt_demo.Recovery.Journal.{path, read, start, resolve, effect}
use terragrunt_demo.Recovery.Stable.{Immutable, Leaves, read-Keeps, resolve-Keeps}
use terragrunt_demo.Recovery.Reads.{read-none, read-world}
use terragrunt_demo.Recovery.Once.{
  attempt_path, Others, Once, Fresh, Once-IsStable, unrecorded, start-Once,
}

module _ (p : Ports) (laws : Immutable p) where
  -- A controller whose checks leave every stored object standing.
  pub record LeavesAll (d : Domain p) : Type 0 where
    pub prepare_leaves : Leaves p laws d.prepare
    pub guard_leaves :
        (op : Operation) (stage : String) (effects : Fields)
        → Leaves p laws (d.guard op stage effects)
    pub final_leaves : (op : Operation) (effects : Fields) → Leaves p laws (d.final op effects)

  module _ (j : Journal) where
    plan-path :
        (op : Operation) (stage : String) (request : Value)
        → attempt_path (plan p j op stage request).token
          ≡ path p j (stage_key op stage ++ "/attempt")
    unfolding plan
    plan-path op stage request =
        append_assoc j.namespace _ _ ∙ ap (λ s. j.namespace ++ s) (append_assoc "/" _ _)

    -- A read that reports the absence of the attempt of a token: it was not dispatched.
    read-Others :
        (token key : String)
        → attempt_path token ≡ path p j key
        → Reaches
            (Once p laws)
            (read p j key true)
            (λ a s. Once p laws s × (a ≡ none → Others token s.calls))
            (Once p laws)
    read-Others token key same =
        Reaches-ok (read p j key true) (read-Keeps p j laws (Once-IsStable p laws) key true)
          λ s a once h absent.
            subst (λ (t : State p). Others token t.calls) (sym (read-world p j key true s))
              (unrecorded p laws s.world token s.calls
                (λ stands.
                  laws.read_sees s.world (path p j key) stands.0
                    (subst (λ k. laws.Holds s.world k stands.0) same stands.1)
                    (read-none p j key true s (h ∙ ap ok absent)))
                once.recorded)

    module _ (op : Operation) (stage : String) (request : Value) where
      l : Plan
      l = plan p j op stage request

      resume :
          Reaches
            (Once p laws)
            (do fs ← resolve p j (stage_key op stage) l; pure (some fs))
            (λ _. Once p laws)
            (Once p laws)
      resume =
          Reaches-weak _ (search (keeps_rules, resolve-Keeps p j laws (Once-IsStable p laws)))
            (λ a s h. h) (λ s h. h)

      begin_or_not :
          (guard : Option (Action p.World (Unit {0})))
          → ((g : Action p.World (Unit {0})) → guard ≡ some g → Leaves p laws g)
          → Reaches
              (Fresh p laws l.token)
              (choose guard (pure none) (λ g. do
                start p j op stage l g
                fs ← resolve p j (stage_key op stage) l
                pure (some fs)))
              (λ _. Once p laws)
              (Once p laws)
      unfolding l
      begin_or_not none leaves =
          Reaches-weak (pure none) (Keeps-pure none) (λ a s h. h.once) (λ s h. h.once)
      begin_or_not (some g) leaves =
          Reaches-bind _ _
            (start-Once p laws j op stage l g (leaves g refl) (plan-path op stage request))
            (λ _. resume)

      go_on :
          (guard : Option (Action p.World (Unit {0}))) (attempt : Option Value)
          → ((g : Action p.World (Unit {0})) → guard ≡ some g → Leaves p laws g)
          → Reaches
              (λ s. Once p laws s × (attempt ≡ none → Others l.token s.calls))
              (choose attempt
                (choose guard (pure none) (λ g. do
                  start p j op stage l g
                  fs ← resolve p j (stage_key op stage) l
                  pure (some fs)))
                (λ _. do fs ← resolve p j (stage_key op stage) l; pure (some fs)))
              (λ _. Once p laws)
              (Once p laws)
      go_on guard none leaves = record {
        at = λ s h. (begin_or_not guard leaves).at s (record { once = h.0; others = h.1 refl });
      }
      go_on guard (some v) leaves = record { at = λ s h. resume.at s h.0 }

      pub effect-Once :
          (guard : Option (Action p.World (Unit {0})))
          → ((g : Action p.World (Unit {0})) → guard ≡ some g → Leaves p laws g)
          → Keeps (Once p laws) (effect p j op stage request guard)
      unfolding effect l
      effect-Once guard leaves =
          Keeps-bind _ _ (read-Keeps p j laws (Once-IsStable p laws) _ true) λ saved.
            Keeps-Reaches _ (
              Reaches-bind _ _ (read-Others l.token _ (plan-path op stage request)) λ attempt.
                Reaches-bind _ _ (Reaches-weak _ (search keeps_rules) (λ a s h. h) (λ s h. h.0))
                  λ _. go_on guard attempt leaves)
