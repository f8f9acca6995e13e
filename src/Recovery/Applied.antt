-- ===== src/Recovery/Applied.antt =====
-- What the effects are that `effect` of scripts/recovery/journal.py returns.
use mathlib.Core.Path.{subst}
use mathlib.Core.Option.{some-injective}
use terragrunt_demo.Common.{
  String, ◌≡◌, ap, ◌∙◌, Option, none, some, List, [], ◌∷◌, ok, raise≢ok, Bool-cases, inl, inr,
  ok-injective, returned-bind,
}
use terragrunt_demo.Common.Action.{Action, pure, ◌>>=◌}
use terragrunt_demo.Common.Action.Keeps.{
  Any, Reaches, Reaches-bind, Reaches-Any, Reaches-from, Reaches-then, Reaches-pure, Reaches-fail,
  Reaches-lift, Reaches-handled, Reaches-if, Reaches-choose, Reaches-same,
}
use terragrunt_demo.Json.{Value, Fields}
use terragrunt_demo.Recovery.Ports.{Ports, Operation, State}
use terragrunt_demo.Recovery.Intent.{Journal, Plan, plan, validate_effect, settled, has_state}
use terragrunt_demo.Recovery.Journal.{is_absent, recorded, observe, resolve, effect}

module _ (p : Ports) where
  -- A checked effect of a plan: it names the plan's token, and one that is applied has its request.
  pub record Checked (l : Plan) (fs : Fields) : Type 0 where
    pub value : Value
    pub valid : validate_effect p value l ≡ ok fs

  abbrev pub CheckedIf : Plan → Option Fields → Type 0
  CheckedIf l o = (fs : Fields) → o ≡ some fs → Checked l fs

  settled-Checked :
      (l : Plan) (v : Option Value) (o : Option Fields) → settled p l v ≡ ok o → CheckedIf l o
  unfolding settled
  settled-Checked l none o h fs e = cc
  settled-Checked l (some value) o h fs e =
      let (gs, valid, h1) = returned-bind (validate_effect p value l) _ h in
      elim (Bool-cases (has_state "APPLIED" gs)) [
        | inl applied ↦
            let same : gs ≡ fs = some-injective _ _ (ok-injective (rw applied at h1) ∙ e) in
            record { value = value; valid = valid ∙ ap ok same }
        | inr other ↦ elim (Bool-cases (has_state "ABSENT" gs)) [
          | inl absent ↦ absurd (raise≢ok (rw (other, absent) at h1))
          | inr unknown ↦ absurd (not_some fs (ok-injective (rw (other, unknown) at h1) ∙ e))
        ]
      ]
    where
      not_some : (fs : Fields) → ¬ (none ≡ some fs)
      not_some fs e = cc

  module _ (j : Journal) where
    recorded-Checked :
        (key : String) (l : Plan) (suffixes : List String)
        → Reaches Any (recorded p j key l suffixes) (λ o s. CheckedIf l o) Any
    unfolding recorded
    recorded-Checked key l [] = Reaches-pure none (λ s h fs e. cc)
    recorded-Checked key l (suffix ∷ suffixes) =
        Reaches-bind _ _
          (Reaches-handled _ _
            (Reaches-bind _ _ (Reaches-Any _) λ value.
              Reaches-then (Reaches-lift (settled p l value))
                (λ o s h. settled-Checked l value o h.1) (λ s h. h))
            (λ e.
              Reaches-if (is_absent e) _ _ (Reaches-fail e (λ s h. h))
                (Reaches-pure none (λ s h fs e. cc))))
          λ found.
            Reaches-choose found _ _
              (λ e. Reaches-from (λ s h. tt) (recorded-Checked key l suffixes))
              (λ fs e. Reaches-pure (some fs) (λ s h gs e'. h gs (e ∙ e')))

    -- A step after the effect was checked.
    still :
        {A : Type 0} {l : Plan} {fs : Fields} (m : Action (State p) A)
        → Reaches (λ s. Checked l fs) m (λ _ s. Checked l fs) Any
    still m = Reaches-then (Reaches-same m (λ s h. h)) (λ a s h. h) (λ s h. tt)

    observe-Checked :
        (key : String) (l : Plan) → Reaches Any (observe p j key l) (λ fs s. Checked l fs) Any
    unfolding observe
    observe-Checked key l =
        Reaches-handled _ _
          (Reaches-bind _ _ (Reaches-Any _) λ now. Reaches-bind _ _ (Reaches-Any _) λ deadline.
            Reaches-bind _ _ (Reaches-Any _) λ value.
              Reaches-bind _ _
                (Reaches-then (Reaches-lift (validate_effect p value l))
                  (λ fs s h. record { value = value; valid = h.1 }) (λ s h. h))
                λ fs. Reaches-bind _ _ (still _) λ u. Reaches-bind _ _ (still _) λ before.
                  Reaches-bind _ _ (still _) λ u'.
                    Reaches-if (has_state "ABSENT" fs) _ _ (Reaches-fail _ (λ s h. tt))
                      (Reaches-pure fs (λ s h. h)))
          (λ e.
            Reaches-if (is_absent e) _ _ (Reaches-fail _ (λ s h. h)) (Reaches-fail _ (λ s h. h)))

    resolve-Checked :
        (key : String) (l : Plan) → Reaches Any (resolve p j key l) (λ fs s. Checked l fs) Any
    unfolding resolve
    resolve-Checked key l = Reaches-bind _ _ (recorded-Checked key l _) λ found.
        Reaches-choose found _ _ (λ e. Reaches-from (λ s h. tt) (observe-Checked key l))
          (λ fs e. Reaches-pure fs (λ s h. h fs e))

    answered :
        (key : String) (l : Plan)
        → Reaches Any (do fs ← resolve p j key l; pure (some fs)) (λ o s. CheckedIf l o) Any
    answered key l =
        Reaches-bind _ _ (resolve-Checked key l)
          λ fs. Reaches-pure (some fs) (λ s h gs e. subst (Checked l) (some-injective _ _ e) h)

    pub effect-Checked :
        (op : Operation) (stage : String) (request : Value)
        (guard : Option (Action p.World (Unit {0})))
        → Reaches Any
            (effect p j op stage request guard)
            (λ o s. CheckedIf (plan p j op stage request) o)
            Any
    unfolding effect
    effect-Checked op stage request guard = Reaches-bind _ _ (Reaches-Any _) λ saved.
        Reaches-bind _ _ (Reaches-Any _) λ attempt. Reaches-bind _ _ (Reaches-Any _) λ u.
          Reaches-choose attempt _ _
            (λ e.
              Reaches-choose guard _ _ (λ e'. Reaches-pure none (λ s h fs e''. cc))
                (λ g e'. Reaches-bind _ _ (Reaches-Any _) λ u'. answered _ _))
            (λ v e. answered _ _)
