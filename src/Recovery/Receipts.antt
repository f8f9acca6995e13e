-- ===== src/Recovery/Receipts.antt =====
-- What a receipt of scripts/recovery/journal.py holds.
use Prim.Native.String.{◌++◌}
use terragrunt_demo.Common.{
  String, ◌≡◌, refl, ◌∙◌, true, false, Option, none, some, Result, ok, raise, require, require-ok,
  if◌then◌else◌, arith, ◌==◌, eq_iff, eq_refl,
}
use terragrunt_demo.Common.Action.{Action}
use terragrunt_demo.Common.Action.Keeps.{
  After, Any, Reaches, Reaches-bind, Reaches-Any, Reaches-then, Reaches-pure, Reaches-fail,
  Reaches-lift, Reaches-handled, Reaches-given, Reaches-same,
}
use terragrunt_demo.Json.{Value, Fields, field, end, obj, find}
use terragrunt_demo.Dicts.{put_item, has_key, find-put_item}
use terragrunt_demo.Recovery.Ports.{Ports, Operation, State, Domain, port}
use terragrunt_demo.Recovery.Intent.{Journal, plan, has_state, check_intent}
use terragrunt_demo.Recovery.Run.{
  value_of, is_applied, receipt_of, confirm, finish, select_actions, carry_out,
}
use terragrunt_demo.Recovery.Seen.{Seen, accept-Seen}
use terragrunt_demo.Recovery.Applied.{Checked, CheckedIf, effect-Checked}

-- A dictionary has each key once.
abbrev pub NoRepeat : Fields → Type 0
NoRepeat end = Unit
NoRepeat (field k v fs) = (has_key k fs ≡ false) × NoRepeat fs

module _ (p : Ports) (j : Journal) where
  -- Each stage of the actions has an effect that was applied, for this very request.
  abbrev pub AllApplied : Operation → Fields → Fields → Type 0
  AllApplied op end effects = Unit
  AllApplied op (field stage request actions) effects =
      ((fs : Fields) × (find stage effects ≡ some (obj fs))
        × Checked p (plan p j op stage request) fs
        × (has_state "APPLIED" fs ≡ true))
      × AllApplied op actions effects

  abbrev Rest : Fields → Fields → Fields → Type 0
  Rest actions effects effects' =
      (k : String) → has_key k actions ≡ false → find k effects' ≡ find k effects

  -- One round of the third loop, before the others.
  one_more :
      (op : Operation) (stage : String) (request : Value) (actions effects effects' : Fields)
      (value : Option Fields)
      → CheckedIf p (plan p j op stage request) value
      → is_applied value ≡ true
      → has_key stage actions ≡ false
      → AllApplied op actions effects'
      → Rest actions (put_item stage (value_of value) effects) effects'
      → AllApplied op (field stage request actions) effects'
        × Rest (field stage request actions) effects effects'
  one_more op stage request actions effects effects' none checked applied once others rest = cc
  one_more op stage request actions effects effects' (some fs) checked applied once others rest = (
    (
      (
        fs,
        rest stage once ∙ find-put_item stage stage (obj fs) effects ∙ rw (eq_refl stage),
        checked fs refl,
        applied,
      ),
      others,
    ),
    λ k absent. rest k (ground arith) ∙ find-put_item k stage (obj fs) effects ∙ other k absent,
  )
    where
      other :
          (k : String)
          → has_key k (field stage request actions) ≡ false
          → (if stage == k then some (obj fs) else find k effects) ≡ find k effects
      other k absent = ground (arith, eq_iff stage k, eq_iff k stage)

  confirm-AllApplied :
      (op : Operation) (actions effects : Fields)
      → NoRepeat actions
      → Reaches Any
          (confirm p j op actions effects)
          (λ r s. AllApplied op actions r × Rest actions effects r)
          Any
  unfolding confirm
  confirm-AllApplied op end effects once = Reaches-pure effects (λ s h. (tt, λ k e. refl))
  confirm-AllApplied op (field stage request actions) effects once =
      Reaches-bind _ _ (effect-Checked p j op stage request none) λ value.
        Reaches-bind _ _
          (Reaches-then (Reaches-lift (require (is_applied value))) (λ a s h. h) (λ s h. tt))
          λ u. Reaches-given λ h.
            Reaches-then
              (confirm-AllApplied op actions (put_item stage (value_of value) effects) once.1)
              (λ r s ih.
                one_more op stage request actions effects r value h.0 (require-ok _ h.1) once.0 ih.0
                  ih.1)
              (λ s h. h)

  -- A step that changes no fact.
  still : {A C : Type 0} (m : Action (State p) A) → Reaches (λ s. C) m (λ _ s. C) Any
  still m = Reaches-then (Reaches-same m (λ s h. h)) (λ a s h. h) (λ s h. tt)

  -- A port was called in some world.
  port-at :
      {A : Type 0} (m : Action p.World A)
      → Reaches Any (port p m) (λ a s. (w : p.World) × ((m w).0 ≡ ok a)) Any
  unfolding port
  port-at m = record { at = λ s h. split m (m s.world).0 s (m s.world).1 (s.world, refl) }
    where
      split :
          {A : Type 0} (m : Action p.World A) (r : Result A) (s : State p) (v : p.World)
          → (w : p.World) × ((m w).0 ≡ r)
          → After (λ a s. (w : p.World) × ((m w).0 ≡ ok a)) Any r (record s { world = v })
      split m (ok a) s v h = h
      split m (raise x) s v h = tt

  -- A receipt of an accepted operation, whose actions are those of its controller.
  pub record IsReceipt (d : Domain p) (operation : String) (result : Fields) : Type 0 where
    pub op : Operation
    pub retained : Value
    pub seen : Seen p j (operation ++ "/intent") retained
    pub accepted : check_intent p j operation retained ≡ ok op
    pub valid : d.validate op.domain ≡ ok tt
    pub actions : Fields
    pub of_domain : d.actions op.domain ≡ ok actions
    pub effects : Fields
    pub final : Value
    pub applied : AllApplied op actions effects
    pub begun : p.World
    pub acted : Fields
    pub proved : (d.final op acted begun).0 ≡ ok final
    pub is : result ≡ receipt_of p j op effects final

  module _ (d : Domain p)
      (dict : (v actions : Fields) → d.actions v ≡ ok actions → NoRepeat actions) where
    -- What is known when the loops begin.
    record Selected (operation : String) (op : Operation) (actions : Fields) : Type 0 where
      retained : Value
      seen : Seen p j (operation ++ "/intent") retained
      accepted : check_intent p j operation retained ≡ ok op
      valid : d.validate op.domain ≡ ok tt
      of_domain : d.actions op.domain ≡ ok actions

    select-Selected :
        (op : Operation)
        → Reaches Any
            (select_actions p j op d)
            (λ actions s. (d.validate op.domain ≡ ok tt) × (d.actions op.domain ≡ ok actions))
            Any
    unfolding select_actions
    select-Selected op =
        Reaches-handled _ _
          (Reaches-bind _ _
            (Reaches-then (Reaches-lift (d.validate op.domain)) (λ a s h. h.1) (λ s h. h))
            λ u. Reaches-given λ valid.
              Reaches-bind _ _
                (Reaches-then (Reaches-lift (d.actions op.domain)) (λ a s h. (valid, h.1))
                  (λ s h. h))
                λ actions.
                  Reaches-bind _ _ (still _)
                    λ u'. Reaches-bind _ _ (still _) λ u''. Reaches-pure actions (λ s h. h))
          (λ e. Reaches-fail _ (λ s h. h))

    finish-IsReceipt :
        (operation : String) (op : Operation) (actions earlier : Fields)
        → Selected operation op actions
        → Reaches Any
            (finish p j operation op d actions earlier)
            (λ fs s. IsReceipt d operation fs)
            Any
    unfolding finish
    finish-IsReceipt operation op actions earlier x = Reaches-bind _ _ (Reaches-Any _) λ effects.
        Reaches-bind _ _ (Reaches-Any _) λ u.
          Reaches-bind _ _ (port-at (d.final op effects)) λ final. Reaches-given λ proof.
            Reaches-bind _ _
              (confirm-AllApplied op actions effects (dict op.domain actions x.of_domain))
              λ applied. Reaches-bind _ _ (still _) λ u'. Reaches-pure _ λ s h. record {
                op = op;
                retained = x.retained;
                seen = x.seen;
                accepted = x.accepted;
                valid = x.valid;
                actions = actions;
                of_domain = x.of_domain;
                effects = applied;
                final = final;
                applied = h.0;
                begun = proof.0;
                acted = effects;
                proved = proof.1;
                is = refl;
              }

    pub carry_out-IsReceipt :
        (operation : String) (raw : p.Raw)
        → Reaches Any (carry_out p j operation raw d) (λ fs s. IsReceipt d operation fs) Any
    unfolding carry_out
    carry_out-IsReceipt operation raw = Reaches-bind _ _ (Reaches-Any _) λ u.
        Reaches-bind _ _ (Reaches-Any _) λ request.
          Reaches-bind _ _ (accept-Seen p j operation request d.prepare) λ op.
            Reaches-given λ accepted. Reaches-bind _ _ (Reaches-Any _) λ u'.
              Reaches-bind _ _ (select-Selected op) λ actions. Reaches-given λ chosen.
                Reaches-bind _ _ (Reaches-Any _) λ earlier. Reaches-bind _ _ (Reaches-Any _) λ u''.
                  finish-IsReceipt operation op actions earlier (record {
                    retained = accepted.0;
                    seen = accepted.1;
                    accepted = accepted.2;
                    valid = chosen.0;
                    of_domain = chosen.1;
                  })
