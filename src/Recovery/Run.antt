-- ===== src/Recovery/Run.antt =====
-- `execute` and `run` of scripts/recovery/journal.py. Stages without an action are read in the
-- order of the stages; Python's set has no fixed one.
use Prim.Native.String.{◌++◌}
use terragrunt_demo.Common.{
  String, Bool, true, false, not, ◌&&◌, ◌||◌, Option, none, some, List, [], ◌∷◌, ◌==◌, all, elem,
  if◌then◌else◌, Raised, require, select,
}
use terragrunt_demo.Common.Action.{
  Action, pure, fail, lift, gets, modify, rescue, choose, ◌>>=◌, ◌>>◌,
}
use terragrunt_demo.Json.{Value, str, obj, null, Fields, field, end, names}
use terragrunt_demo.Dicts.{put_item, has_key}
use terragrunt_demo.Mutation.Domain.{is_uuid}
use terragrunt_demo.Recovery.Ports.{Ports, Operation, Domain, State, port}
use terragrunt_demo.Recovery.Intent.{Journal, check_request, has_state}
use terragrunt_demo.Recovery.Journal.{read, put, occupied, attempted, accept, bounded, effect}

abbrev pub value_of : Option Fields → Value
value_of none = null
value_of (some fs) = obj fs

abbrev pub is_applied : Option Fields → Bool
is_applied none = false
is_applied (some fs) = has_state "APPLIED" fs

abbrev pub status : String → Fields
status s = field "status" (str s) end

abbrev pub uncertain_if : Bool → Fields
uncertain_if true = status "UNCERTAIN"
uncertain_if false = status "FAILURE"

abbrev pub refused : Fields
refused =
    field "status" (str "FAILURE") (field "reason" (str "authoritative absence; no resend") end)

-- `preparing != 'switch'`
abbrev pub is_not_switch : Option String → Bool
is_not_switch none = true
is_not_switch (some stage) = not (stage == "switch")

module _ (p : Ports) (j : Journal) where
  abbrev pub begin : State p → State p
  begin s = record s { preparing = none; accepted = false; reconciled = false }

  abbrev pub receipt_of : Operation → Fields → Value → Fields
  receipt_of op effects final = field "status" (str "SUCCESS") (
      field "namespace" (str j.namespace) (
        field "operation" (str op.operation) (
          field "intent_sha256" (str (p.sha (p.canonical (obj op.body))))
            (field "effects" (obj effects) (field "final" final end)))))

  -- The stages without an action have no attempt.
  unfoldable pub check_unused : String → List String → Action (State p) (Unit {0})
  check_unused operation [] = pure tt
  check_unused operation (stage ∷ stages) = do
    found ← read p j (operation ++ "/" ++ stage ++ "/attempt") true
    choose found (pure tt) (λ _. fail Raised.rejected)
    check_unused operation stages

  unfoldable pub select_actions : Operation → Domain p → Action (State p) Fields
  select_actions op domain =
      rescue
        (do
          lift (domain.validate op.domain)
          actions ← lift (domain.actions op.domain)
          lift (require (all (λ k. elem k j.stages) (names actions)))
          check_unused op.operation (select (λ k. not (has_key k actions)) j.stages)
          pure actions)
        (λ _. fail (Raised.journal (op.operation ++ "/intent")))

  -- The first loop: the effects of earlier attempts.
  unfoldable pub reconcile : Operation → Fields → Fields → Action (State p) Fields
  reconcile op end effects = pure effects
  reconcile op (field stage request actions) effects = do
    value ← effect p j op stage request none
    reconcile op actions (elim value [ none ↦ effects | some fs ↦ put_item stage (obj fs) effects ])

  -- The second loop: the stages that have no effect yet.
  unfoldable pub act : Operation → Domain p → Fields → Fields → Action (State p) Fields
  act op domain end effects = pure effects
  act op domain (field stage request actions) effects =
      if has_key stage effects then act op domain actions effects else do
        value ← effect p j op stage request (some (domain.guard op stage effects))
        act op domain actions (put_item stage (value_of value) effects)

  -- The third loop: every effect is applied, as its evidence says now.
  unfoldable pub confirm : Operation → Fields → Fields → Action (State p) Fields
  confirm op end effects = pure effects
  confirm op (field stage request actions) effects = do
    value ← effect p j op stage request none
    lift (require (is_applied value))
    confirm op actions (put_item stage (value_of value) effects)

  -- What is left once every earlier attempt is settled.
  unfoldable pub finish : String → Operation → Domain p → Fields → Fields → Action (State p) Fields
  finish operation op domain actions earlier = do
    effects ← act op domain actions earlier
    bounded p j op
    final ← port p (domain.final op effects)
    applied ← confirm op actions effects
    put p j (operation ++ "/receipts/" ++ p.sha (p.canonical (obj (receipt_of op applied final))))
          (obj (receipt_of op applied final))
        >>= λ _. pure tt
    pure (receipt_of op applied final)

  -- What `execute` does inside its `try`.
  unfoldable pub carry_out : String → p.Raw → Domain p → Action (State p) Fields
  carry_out operation raw domain = do
    lift (require (is_uuid operation))
    request ← lift (check_request p raw)
    op ← accept p j operation request domain.prepare
    modify λ s. record s { accepted = true }
    actions ← select_actions op domain
    earlier ← reconcile op actions end
    modify λ s. record s { reconciled = true }
    finish operation op domain actions earlier

  -- The last handler: any other exception.
  unfoldable pub reject : String → Action (State p) Fields
  reject operation = do
    reconciled ← gets (λ s. s.reconciled)
    before ← if reconciled then pure false else attempted p j operation
    asked ← gets (λ s. s.accepted && is_not_switch s.preparing)
    switched ← if asked then occupied p j (operation ++ "/switch/attempt") else pure false
    pure (uncertain_if (before || switched))

  unfoldable pub on_raise : String → Raised → Action (State p) Fields
  on_raise operation Raised.absent = pure refused
  on_raise operation (Raised.uncertain reason) = pure (status "UNCERTAIN")
  on_raise operation (Raised.journal key) = do
    before ← attempted p j operation
    pure (uncertain_if before)
  on_raise operation _ = reject operation

  unfoldable pub execute : String → p.Raw → Domain p → Action (State p) Fields
  execute operation raw domain = do
    modify begin
    rescue (carry_out operation raw domain) (on_raise operation)

  -- A result as it is recorded.
  abbrev pub outcome : String → Fields → Value
  outcome operation result =
      obj (put_item "namespace" (str j.namespace) (put_item "operation" (str operation) result))

  unfoldable pub run : String → p.Raw → Domain p → Action (State p) Fields
  run operation raw domain = do
    result ← execute operation raw domain
    rescue
        (do
          lift (require (is_uuid operation))
          put p j (operation ++ "/outcomes/" ++ p.sha (p.canonical (outcome operation result)))
                (outcome operation result)
              >>= λ _. pure tt)
        (λ _. pure tt)
    pure result
