-- ===== src/Contract/Teardown.antt =====
-- The plans that `validate_plan` of scripts/lifecycle/contract.py accepts, as a whole.
use terragrunt_demo.Common.{
  String, ◌≡◌, refl, sym, ◌∙◌, Bool, true, false, ◌⊎◌, inl, inr, some, [], ◌∷◌, arith,
  if◌then◌else◌, Result, ok, ok-injective, ap, List, not, require-then, returned-bind,
}
use terragrunt_demo.Json.{Value, str, bool, arr, obj, Fields, Items, nil, find, py_eq, is_text}
use terragrunt_demo.Dicts.{
  require_dict, require_dict-ok, require_list, get, get_or, texts, elements, truthy, is_false,
  is_true, is_text-eq,
}
use terragrunt_demo.Contract.Request.{
  Operation, plan, create, reconcile, teardown, is_teardown, is_plan,
}
use terragrunt_demo.Contract.Authorize.{Layer}
use terragrunt_demo.Contract.Quiescent.{quiescent, Quiet, quiescent-Quiet}
use terragrunt_demo.Contract.Plan.{
  Actions, no_op, create_only, update_only, delete_only, delete_create, create_delete, actions_of,
  permits, check_drifts, all_no_op, check_resources, plan_changes, validate_plan,
}
use terragrunt_demo.Contract.Resource.{guarded, ⊎-map}
use terragrunt_demo.Contract.Bootstrap.{not-true}
use terragrunt_demo.Contract.Drift.{Drifted, check_drifts-Drifted}
use terragrunt_demo.Contract.Accepted.{
  AllItems, Accepted, Gentle, Checked, none_left, and_then, check_resources-Checked,
}

-- The changes of a saved plan, which is complete and without errors; a plan that cannot be applied
-- changes nothing.
pub record Changes (layer : Layer) (saved : Value) (changes : Items) : Type 0 where
  pub fields : Fields
  pub is : saved ≡ obj fields
  pub version : get fields "format_version" ≡ str "1.2"
  pub no_errors : is_false (get_or fields "errored" (bool false)) ≡ true
  pub not_deferred : truthy (get fields "deferred_changes") ≡ false
  pub drifts : Items
  pub found_drifts : elements (get_or fields "resource_drift" (arr nil)) ≡ ok drifts
  pub drifted : AllItems (Drifted layer) drifts
  pub listed : get fields "resource_changes" ≡ arr changes
  pub applies :
      (is_true (get_or fields "applyable" (bool true)) ≡ true) ⊎ (all_no_op changes ≡ ok true)

applies_or_idle :
    (c : Bool) (r : Result Bool) → (if c then ok true else r) ≡ ok true → (c ≡ true) ⊎ (r ≡ ok true)
applies_or_idle true r h = inl refl
applies_or_idle false r h = inr h

require_list-ok : (v : Value) (xs : Items) → require_list v ≡ ok xs → v ≡ arr xs
require_list-ok v xs h = ground arith

-- A data source that is read or stays as it is, or a change with one of two lists of actions.
pub data ActsBy (one other : Value) (x : Value) : Type 0 where
  reads :
      (r change : Fields) (listed : Value)
      → x ≡ obj r
      → is_text (get r "mode") "data" ≡ true
      → find "change" r ≡ some (obj change)
      → find "actions" change ≡ some listed
      → (py_eq listed (texts ("read" ∷ [])) ≡ true) ⊎ (py_eq listed (texts ("no-op" ∷ [])) ≡ true)
      → ActsBy one other x
  acts :
      (r change : Fields) (listed : Value)
      → x ≡ obj r
      → get r "change" ≡ obj change
      → find "actions" change ≡ some listed
      → (py_eq listed one ≡ true) ⊎ (py_eq listed other ≡ true)
      → ActsBy one other x

-- The two lists of actions that an operation other than `plan` may take.
abbrev pub deed : Operation → Value
deed create = texts ("create" ∷ [])
deed reconcile = texts ("update" ∷ [])
deed teardown = texts ("delete" ∷ [])
deed plan = texts ("no-op" ∷ [])

abbrev pub nothing : Value
nothing = texts ("no-op" ∷ [])

abbrev pub SameName : Actions → Value → Type 0
SameName no_op v = py_eq v (texts ("no-op" ∷ [])) ≡ true
SameName create_only v = py_eq v (texts ("create" ∷ [])) ≡ true
SameName update_only v = py_eq v (texts ("update" ∷ [])) ≡ true
SameName delete_only v = py_eq v (texts ("delete" ∷ [])) ≡ true
SameName delete_create v = py_eq v (texts ("delete" ∷ "create" ∷ [])) ≡ true
SameName create_delete v = py_eq v (texts ("create" ∷ "delete" ∷ [])) ≡ true

actions_of-SameName : (v : Value) (a : Actions) → actions_of v ≡ some a → SameName a v
unfolding actions_of
actions_of-SameName v no_op h = ground arith
actions_of-SameName v create_only h = ground arith
actions_of-SameName v update_only h = ground arith
actions_of-SameName v delete_only h = ground arith
actions_of-SameName v delete_create h = ground arith
actions_of-SameName v create_delete h = ground arith

permitted-deed :
    (operation : Operation) (a : Actions) (v : Value)
    → is_plan operation ≡ false
    → permits operation a ≡ true
    → SameName a v
    → (py_eq v (deed operation) ≡ true) ⊎ (py_eq v nothing ≡ true)
permitted-deed plan a v o p h = cc
permitted-deed create create_only v o p h = inl h
permitted-deed create no_op v o p h = inr h
permitted-deed create _ v o p h = cc
permitted-deed reconcile update_only v o p h = inl h
permitted-deed reconcile no_op v o p h = inr h
permitted-deed reconcile _ v o p h = cc
permitted-deed teardown delete_only v o p h = inl h
permitted-deed teardown no_op v o p h = inr h
permitted-deed teardown _ v o p h = cc

module _ (loads : Value → Result Value) (digest : Value → String) (layer : Layer) where
  pub plan_changes-Changes :
      (saved : Value) (changes : Items)
      → plan_changes loads layer saved ≡ ok changes
      → Changes layer saved changes
  unfolding plan_changes
  plan_changes-Changes saved changes h =
      let (p, is, h1) = returned-bind (require_dict saved) _ h in
      let (version, h2) = require-then (is_text (get p "format_version") "1.2") _ h1 in
      let (correct, h3) = require-then (is_false (get_or p "errored" (bool false))) _ h2 in
      let (whole, h4) = require-then (not (truthy (get p "deferred_changes"))) _ h3 in
      let (drifts, found_drifts, h5) =
        returned-bind (elements (get_or p "resource_drift" (arr nil))) _ h4 in
      let (_, drifted, h6) = returned-bind (check_drifts layer drifts) _ h5 in
      let (found, listed, h7) = returned-bind (require_list (get p "resource_changes")) _ h6 in
      let (idle, is_idle, h8) =
        returned-bind
          (if is_true (get_or p "applyable" (bool true)) then ok true else all_no_op found) _ h7 in
      let (yes_idle, done) = require-then idle _ h8 in
      let e : found ≡ changes = ok-injective done in
      record {
        fields = p;
        is = require_dict-ok saved p is;
        version = is_text-eq (get p "format_version") "1.2" version;
        no_errors = correct;
        not_deferred = not-true _ whole;
        drifts = drifts;
        found_drifts = found_drifts;
        drifted = check_drifts-Drifted layer drifts drifted;
        listed = require_list-ok (get p "resource_changes") found listed ∙ ap arr e;
        applies =
            ⊎-map (λ r. ap all_no_op (sym e) ∙ r)
              (applies_or_idle _ (all_no_op found) (is_idle ∙ ap ok yes_idle));
      }

  -- An accepted plan: every resource is accepted at its own installed address, and where quiescence
  -- is needed it has been observed.
  pub record ValidPlan (operation : Operation) (saved observation : Value) (environment : String)
      : Type 0 where
    pub changes : Items
    pub of_plan : Changes layer saved changes
    pub needs : Bool
    pub checked : Checked loads operation layer needs [] changes
    pub quiet : (needs ≡ false) ⊎ Quiet observation environment
    pub torn : (is_teardown operation ≡ false) ⊎ (needs ≡ true)

  -- A saved plan that `validate_plan` accepts is complete, without errors, and its drifts are of
  -- runtime fields alone. Its elements stand once each at an installed address with its type: a data
  -- source is read or kept, a managed resource is of no protected type, takes actions that the
  -- operation permits, keeps its tags and its installed identity, an update keeps the runtime and
  -- execution fields, a new service has no tasks and no shell, a new task definition no roles and no
  -- secrets. Where quiescence is needed, as for each teardown, it was observed; the answer is the
  -- digest of the saved plan.
  pub validate_plan-ValidPlan :
      (operation : Operation) (saved observation : Value) (environment accepted : String)
      → validate_plan loads digest operation layer saved observation environment ≡ ok accepted
      → ValidPlan operation saved observation environment × (accepted ≡ digest saved)
  unfolding validate_plan
  validate_plan-ValidPlan operation saved observation environment accepted h =
      let (changes, listed, h1) = returned-bind (plan_changes loads layer saved) _ h in
      let (needs, looped, h2) =
        returned-bind (check_resources loads operation layer [] (is_teardown operation) changes) _
          h1 in
      let (_, observed, done) =
        returned-bind (if needs then quiescent observation environment else ok tt) _ h2 in
      let (checked, torn) =
        check_resources-Checked loads operation layer [] (is_teardown operation) needs changes
          looped in
      (
        record {
          changes = changes;
          of_plan = plan_changes-Changes saved changes listed;
          needs = needs;
          checked = checked;
          quiet = ⊎-map (quiescent-Quiet observation environment) (guarded needs observed);
          torn = torn;
        },
        sym (ok-injective done),
      )

  Checked-Gentle :
      {operation : Operation} {needs : Bool} {seen : List String} {xs : Items}
      → needs ≡ false
      → Checked loads operation layer needs seen xs
      → AllItems (Gentle loads) xs
  Checked-Gentle calm none_left = tt
  Checked-Gentle calm (and_then address accepted fresh (inr g) rest) = (g, Checked-Gentle calm rest)
  Checked-Gentle calm (and_then address accepted fresh (inl e) rest) = cc

  -- A plan that may take a running service away is accepted only where nothing runs.
  pub running_is_kept :
      (operation : Operation) (saved observation : Value) (environment accepted : String)
      → validate_plan loads digest operation layer saved observation environment ≡ ok accepted
      → Quiet observation environment
        ⊎ ((changes : Items) × Changes layer saved changes × AllItems (Gentle loads) changes)
  running_is_kept operation saved observation environment accepted h =
      let (v, _) = validate_plan-ValidPlan operation saved observation environment accepted h in
      elim v.quiet [
        | inr quiet ↦ inl quiet
        | inl calm ↦ inr (v.changes, v.of_plan, Checked-Gentle calm v.checked)
      ]

  Accepted-ActsBy :
      {operation : Operation} {address : String} {x : Value}
      → is_plan operation ≡ false
      → Accepted loads operation layer address x
      → ActsBy (deed operation) nothing x
  Accepted-ActsBy {operation} o a = elim a.body [
    | inl source ↦
        reads a.fields source.change source.listed a.is source.is_data source.has_change
          source.has_actions source.only_read
    | inr m ↦ acts a.fields m.change m.listed a.is m.has_change m.has_actions (
        permitted-deed operation m.actions m.listed o m.permitted
          (actions_of-SameName m.listed m.actions m.named))
  ]

  all_act :
      {operation : Operation} {needs : Bool} {seen : List String} {xs : Items}
      → is_plan operation ≡ false
      → Checked loads operation layer needs seen xs
      → AllItems (ActsBy (deed operation) nothing) xs
  all_act o none_left = tt
  all_act o (and_then address accepted fresh g rest) = (Accepted-ActsBy o accepted, all_act o rest)

  -- In an accepted plan of an operation other than plan, a create only creates, a reconcile only
  -- updates and a teardown only deletes managed resources, apart from those that stay as they are;
  -- data sources are read or stay as they are.
  pub operations_are_separate :
      (operation : Operation) (saved observation : Value) (environment accepted : String)
      → is_plan operation ≡ false
      → validate_plan loads digest operation layer saved observation environment ≡ ok accepted
      → (changes : Items) × Changes layer saved changes
        × AllItems (ActsBy (deed operation) nothing) changes
  operations_are_separate operation saved observation environment accepted o h =
      let (v, _) = validate_plan-ValidPlan operation saved observation environment accepted h in
      (v.changes, v.of_plan, all_act o v.checked)

  -- A teardown is accepted only where nothing runs.
  pub teardown-Quiet :
      (saved observation : Value) (environment accepted : String)
      → validate_plan loads digest teardown layer saved observation environment ≡ ok accepted
      → Quiet observation environment
  teardown-Quiet saved observation environment accepted h =
      let (v, _) = validate_plan-ValidPlan teardown saved observation environment accepted h in
      elim v.quiet [ inr quiet ↦ quiet | inl calm ↦ absurd (ground (arith, calm, v.torn)) ]
