-- ===== src/Contract/Plan.antt =====
-- `validate_plan` of scripts/lifecycle/contract.py: the saved Terraform plan, before it is run.
-- `json.loads` and `digest(canonical(value))` are parameters.
use terragrunt_demo.Common.{
  String, Bool, true, false, not, ◌&&◌, ◌||◌, Option, none, some, List, [], ◌∷◌, ◌==◌,
  if◌then◌else◌, any, all, elem, ◌++◌, Result, ok, ◌>>=◌, ◌>>◌, require, or_rejected, startswith,
}
use terragrunt_demo.Json.{
  Value, str, bool, num, obj, arr, null, Fields, end, Items, cons, nil, names, item, find, py_eq,
  is_text,
}
use terragrunt_demo.Dicts.{
  keys, dict_of, require_dict, require_str, require_list, get, get_or, truthy, in_set, find_by,
  elements, any_value, is_null, is_false, is_true, texts,
}
use terragrunt_demo.Contract.Request.{Operation, plan, create, reconcile, teardown, is_teardown}
use terragrunt_demo.Contract.Quiescent.{quiescent}
use terragrunt_demo.Contract.Authorize.{Layer}

-- `RUNTIME_FIELDS.get(kind, ())`
abbrev pub runtime_fields : String → List String
runtime_fields kind =
    if kind == "aws_ecs_service"
    then "task_definition" ∷ "desired_count" ∷ []
    else if kind == "aws_lb_listener"
    then "default_action" ∷ []
    else if kind == "aws_lb_listener_rule"
    then "action" ∷ []
    else []

abbrev pub runtime_kinds : List String
runtime_kinds = "aws_ecs_service" ∷ "aws_lb_listener" ∷ "aws_lb_listener_rule" ∷ []

-- `EXECUTION_FIELDS.get(kind, ())`
abbrev pub execution_fields : String → List String
execution_fields kind =
    if kind == "aws_ecs_service"
    then "cluster" ∷ "launch_type" ∷ "platform_version" ∷ "network_configuration" ∷ "load_balancer"
      ∷ "enable_execute_command" ∷ []
    else if kind == "aws_instance"
    then "ami" ∷ "user_data" ∷ "user_data_base64" ∷ "iam_instance_profile" ∷ "subnet_id"
      ∷ "vpc_security_group_ids" ∷ "key_name" ∷ "metadata_options" ∷ []
    else if kind == "aws_autoscaling_group"
    then "launch_template" ∷ "vpc_zone_identifier" ∷ []
    else []

abbrev pub protected_types : List String
protected_types =
    "aws_iam_" ∷ "aws_kms_" ∷ "aws_secretsmanager_" ∷ "aws_s3_" ∷ "aws_lambda_" ∷ "aws_codebuild_"
    ∷ "aws_ecr_" ∷ "aws_launch_template" ∷ "aws_cloudwatch_event_" ∷ []

-- `kind.startswith(PROTECTED_TYPES)`
unfoldable pub is_protected : String → Bool
is_protected kind = any (startswith kind) protected_types

-- The lists of actions that a plan may hold.
pub data Actions : Type 0 where
  no_op create_only update_only delete_only delete_create create_delete : Actions

-- `actions in (['no-op'], …)`
unfoldable pub actions_of : Value → Option Actions
actions_of v =
    if py_eq v (texts ("no-op" ∷ []))
    then some no_op
    else if py_eq v (texts ("create" ∷ []))
    then some create_only
    else if py_eq v (texts ("update" ∷ []))
    then some update_only
    else if py_eq v (texts ("delete" ∷ []))
    then some delete_only
    else if py_eq v (texts ("delete" ∷ "create" ∷ []))
    then some delete_create
    else if py_eq v (texts ("create" ∷ "delete" ∷ []))
    then some create_delete
    else none

-- `'create' in actions` and `'delete' in actions`
abbrev pub creates : Actions → Bool
creates create_only = true
creates delete_create = true
creates create_delete = true
creates _ = false

abbrev pub deletes : Actions → Bool
deletes delete_only = true
deletes delete_create = true
deletes create_delete = true
deletes _ = false

-- The actions that an operation may take.
abbrev pub permits : Operation → Actions → Bool
permits create create_only = true
permits create no_op = true
permits create _ = false
permits reconcile update_only = true
permits reconcile no_op = true
permits reconcile _ = false
permits teardown delete_only = true
permits teardown no_op = true
permits teardown _ = false
permits plan _ = true

abbrev pub is_no_op : Actions → Bool
is_no_op no_op = true
is_no_op _ = false

abbrev pub is_update : Actions → Bool
is_update update_only = true
is_update _ = false

-- `not after_unknown.get(field) and before.get(field) == after.get(field)`, for each field
unfoldable pub same_fields : Value → Value → Value → List String → Result (Unit {0})
same_fields unknown before after [] = ok tt
same_fields unknown before after (k ∷ ks) = do
  u ← dict_of unknown
  require (not (truthy (get u k)))
  b ← dict_of before
  a ← dict_of after
  require (py_eq (get b k) (get a k))
  same_fields unknown before after ks

-- The two tables of a layer, read by a value.
unfoldable pub member : Layer → Value → Result Value
member layer address = do
  found ← find_by address layer.membership
  ok (elim found [ none ↦ null | some v ↦ v ])

-- The change of a drift: the resource is the installed one, and its runtime fields alone differ.
unfoldable pub check_drift_change : Layer → Value → String → Fields → Result (Unit {0})
check_drift_change layer address kind change = do
  was ← item change "before"
  is ← item change "after"
  before ← dict_of was
  id ← item before "id"
  after ← dict_of is
  id' ← item after "id"
  require (py_eq id id')
  m ← member layer address
  require (py_eq id' m)
  unknown ← dict_of (get_or change "after_unknown" (obj end))
  require (not (any_value truthy unknown))
  require (
      all (λ k. py_eq (get before k) (get after k) || elem k (runtime_fields kind))
        (names before ++ names after))

-- One element of `resource_drift`: a runtime field of an installed resource has changed.
unfoldable pub check_drift : Layer → Value → Result (Unit {0})
check_drift layer drift = do
  d ← dict_of drift
  found ← find_by (get d "address") layer.addresses
  installed ← or_rejected found
  require (py_eq installed (get d "type"))
  known ← in_set (get d "type") runtime_kinds
  require known
  kind ← require_str (get d "type")
  change ← item d "change" >>= dict_of
  check_drift_change layer (get d "address") kind change

unfoldable pub check_drifts : Layer → Items → Result (Unit {0})
check_drifts layer nil = ok tt
check_drifts layer (cons d ds) = do check_drift layer d; check_drifts layer ds

-- `all(x.get('change', {}).get('actions') == ['no-op'] for x in changes)`
unfoldable pub all_no_op : Items → Result Bool
all_no_op nil = ok true
all_no_op (cons x xs) = do
  r ← dict_of x
  c ← dict_of (get_or r "change" (obj end))
  let rest = all_no_op xs
  if py_eq (get c "actions") (texts ("no-op" ∷ [])) then rest else ok false

abbrev pub change_keys : List String
change_keys =
    "actions" ∷ "before" ∷ "after" ∷ "after_unknown" ∷ "before_sensitive" ∷ "after_sensitive" ∷ []

-- `all(not c.get('secrets') for c in containers)`
unfoldable pub no_secrets : Items → Result Bool
no_secrets nil = ok true
no_secrets (cons c cs) = do
  d ← dict_of c
  let rest = no_secrets cs
  if truthy (get d "secrets") then ok false else rest

-- A service is created without tasks and without a shell.
unfoldable pub check_service_bootstrap : Value → Value → Result (Unit {0})
check_service_bootstrap unknown after = do
  u ← dict_of unknown
  require (not (truthy (get u "desired_count")))
  a ← dict_of after
  require (py_eq (get a "desired_count") (num 0))
  require (is_false (get a "enable_execute_command"))
  require (is_text (get a "launch_type") "FARGATE")

module _ (loads : Value → Result Value) where
  -- A task definition is created without roles and without secrets.
  unfoldable pub check_task_bootstrap : Value → Result (Unit {0})
  check_task_bootstrap after = do
    a ← dict_of after
    require (not (truthy (get a "task_role_arn")) && not (truthy (get a "execution_role_arn")))
    containers ← item a "container_definitions" >>= loads >>= elements
    clean ← no_secrets containers
    require clean

  -- The checks of a change that is not a no-op.
  unfoldable pub check_change :
      Layer → Value → String → Actions → Value → Value → Value → Result (Unit {0})
  check_change layer address kind actions before after unknown = do
    if not (is_null before) && not (is_null after)
        then same_fields unknown before after ("tags" ∷ "tags_all" ∷ [])
        else ok tt
    if is_null before
        then ok tt
        else do b ← dict_of before; m ← member layer address; require (py_eq (get b "id") m)
    if is_update actions
        then same_fields unknown before after (runtime_fields kind ++ execution_fields kind)
        else ok tt
    if creates actions && kind == "aws_ecs_service"
        then check_service_bootstrap unknown after
        else ok tt
    if creates actions && kind == "aws_ecs_task_definition"
        then check_task_bootstrap after
        else ok tt

  -- A managed resource: whether its change needs quiescence.
  unfoldable pub check_managed : Operation → Layer → String → Fields → Result Bool
  check_managed operation layer address r = do
    kind ← require_str (get r "type")
    require (not (is_protected kind))
    c ← keys (get r "change") change_keys
    listed ← item c "actions"
    actions ← or_rejected (actions_of listed)
    require (permits operation actions)
    before ← item c "before"
    after ← item c "after"
    unknown ← item c "after_unknown"
    if is_no_op actions
        then ok tt
        else check_change layer (str address) kind actions before after unknown
    ok (elem kind runtime_kinds && (deletes actions || not (is_null before) && creates actions))

  -- A data source is only read.
  unfoldable pub check_source : Fields → Result Bool
  check_source r = do
    c ← item r "change" >>= dict_of
    listed ← item c "actions"
    require (py_eq listed (texts ("read" ∷ [])) || py_eq listed (texts ("no-op" ∷ [])))
    ok false

  -- One element of `resource_changes`: its address, and whether it needs quiescence.
  unfoldable pub check_resource : Operation → Layer → List String → Value → Result (String × Bool)
  check_resource operation layer seen resource = do
    r ← dict_of resource
    address ← require_str (get r "address")
    require (not (elem address seen))
    installed ← or_rejected (find address layer.addresses)
    require (py_eq (get r "type") installed)
    needs ←
        if is_text (get r "mode") "data"
        then check_source r
        else check_managed operation layer address r
    ok (address, needs)

  -- The loop over `resource_changes`, with `seen` and `needs_quiescence`.
  unfoldable pub check_resources : Operation → Layer → List String → Bool → Items → Result Bool
  check_resources operation layer seen needs nil = ok needs
  check_resources operation layer seen needs (cons x xs) = do
    found ← check_resource operation layer seen x
    check_resources operation layer (found.0 ∷ seen) (needs || found.1) xs

  -- The checks before the loop: the changes of a complete plan.
  unfoldable pub plan_changes : Layer → Value → Result Items
  plan_changes layer saved = do
    p ← require_dict saved
    require (is_text (get p "format_version") "1.2")
    require (is_false (get_or p "errored" (bool false)))
    require (not (truthy (get p "deferred_changes")))
    drifts ← elements (get_or p "resource_drift" (arr nil))
    check_drifts layer drifts
    changes ← require_list (get p "resource_changes")
    idle ← if is_true (get_or p "applyable" (bool true)) then ok true else all_no_op changes
    require idle
    ok changes

  unfoldable pub validate_plan :
      (Value → String) → Operation → Layer → Value → Value → String → Result String
  validate_plan digest operation layer saved observation environment = do
    changes ← plan_changes layer saved
    needs ← check_resources operation layer [] (is_teardown operation) changes
    if needs then quiescent observation environment else ok tt
    ok (digest saved)
