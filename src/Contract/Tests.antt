-- ===== src/Contract/Tests.antt =====
-- A teardown that scripts/lifecycle/contract.py authorizes, and the plan that it accepts for it.
use terragrunt_demo.Common.{
  String, ◌≡◌, refl, true, false, [], ◌∷◌, ◌⊎◌, Result, ok, raise, Raised, startswith, endswith,
  contains, is_sha256, is_commit, is_stripped, lowers_to,
}
use terragrunt_demo.Json.{
  Value, str, num, bool, obj, arr, null, Fields, field, end, Items, cons, nil, py_eq,
}
use terragrunt_demo.Dicts.{keys, texts}
use terragrunt_demo.Contract.Request.{
  Request, create, teardown, request, is_operation_id, operation_of, layer_of, high_risk,
  check_parameters,
}
use terragrunt_demo.Contract.Quiescent.{
  quiescent, check_service, check_services, Quiet, quiescent-Quiet,
}
use terragrunt_demo.Contract.Authorize.{
  Layer, authorize, environment_of, is_exact_version, check_binding, check_package, protected_layer,
  check_reference, check_layer, check_bootstrap, check_approval, check_approvals, operator_approval,
  teardown_approval,
}
use terragrunt_demo.Contract.Plan.{
  is_protected, actions_of, member, check_drifts, check_change, check_managed, check_resource,
  check_resources, plan_changes, validate_plan,
}
use terragrunt_demo.Contract.Accepted.{AllItems, Gentle}
use terragrunt_demo.Contract.Teardown.{
  Changes, ActsBy, deed, nothing, ValidPlan, validate_plan-ValidPlan, running_is_kept,
  operations_are_separate, teardown-Quiet,
}
use terragrunt_demo.Contract.Authorized.{Authorized, authorize-Authorized}

abbrev digest : Value → String
digest v = "00000000000000000000000000000000000000000000000000000000000000ff"

abbrev loads : Value → Result Value
loads v = raise Raised.type_error

abbrev revision : String
revision = "aaaaaaaaaaaaaaaaaaaaaaaaaaaaaaaaaaaaaaaaaaaaaaaaaaaaaaaaaaaaaaaa"

abbrev id : String
id = "11111111-1111-4111-8111-111111111111"

abbrev binding : String
binding = "environment-lifecycle/infra-high-risk-dev"

abbrev counts : Value
counts = obj (field "desired" (num 0) (field "running" (num 0) (field "pending" (num 0) end)))

abbrev observation : Value
observation = obj (
    field "environment" (str "dev") (
      field "services"
        (obj (
          field "demo-dev-app-api-blue-svc" counts (
            field "demo-dev-app-api-green-svc" (obj (field "absence" (str "EXACT_ECS_MISSING") end))
              end)))
        (field "tasks" (arr nil) (field "complete" (bool true) end))))

is_quiet : quiescent observation "dev" ≡ ok tt
unfolding quiescent check_services check_service keys py_eq
is_quiet = refl

quiescent-Quiet_example : Quiet observation "dev"
quiescent-Quiet_example = quiescent-Quiet observation "dev" is_quiet

abbrev installed_service : Fields
installed_service = field "id" (str "arn:blue") end

abbrev change : Value
change = obj (
    field "actions" (texts ("delete" ∷ [])) (
      field "before" (obj installed_service) (
        field "after" null (
          field "after_unknown" (obj end)
            (field "before_sensitive" (bool false) (field "after_sensitive" (bool false) end))))))

abbrev resource : Value
resource = obj (
    field "address" (str "aws_ecs_service.blue") (
      field "type" (str "aws_ecs_service")
        (field "mode" (str "managed") (field "change" change end))))

abbrev saved : Value
saved =
    obj
      (field "format_version" (str "1.2") (field "resource_changes" (arr (cons resource nil)) end))

abbrev layer : Layer
layer = record {
  addresses = field "aws_ecs_service.blue" (str "aws_ecs_service") end;
  membership = field "aws_ecs_service.blue" (str "arn:blue") end;
}

accepts : validate_plan loads digest teardown layer saved observation "dev" ≡ ok (digest saved)
unfolding validate_plan plan_changes check_drifts check_resources check_resource check_managed
    check_change actions_of member keys is_protected startswith py_eq quiescent check_services
    check_service
accepts = refl

-- The same plan is no plan of a create.
refuses : validate_plan loads digest create layer saved observation "dev" ≡ raise Raised.rejected
unfolding validate_plan plan_changes check_drifts check_resources check_resource check_managed
    check_change actions_of member keys is_protected startswith py_eq
refuses = refl

validate_plan-ValidPlan_example :
    ValidPlan loads digest layer teardown saved observation "dev" × (digest saved ≡ digest saved)
validate_plan-ValidPlan_example =
    validate_plan-ValidPlan loads digest layer teardown saved observation "dev" (digest saved)
      accepts

running_is_kept_example :
    Quiet observation "dev"
    ⊎ ((changes : Items) × Changes layer saved changes × AllItems (Gentle loads) changes)
running_is_kept_example =
    running_is_kept loads digest layer teardown saved observation "dev" (digest saved) accepts

operations_are_separate_example :
    (changes : Items) × Changes layer saved changes
    × AllItems (ActsBy (deed teardown) nothing) changes
operations_are_separate_example =
    operations_are_separate loads digest layer teardown saved observation "dev" (digest saved) refl
      accepts

teardown-Quiet_example : Quiet observation "dev"
teardown-Quiet_example =
    teardown-Quiet loads digest layer saved observation "dev" (digest saved) accepts

abbrev request_fields : Fields
request_fields = field "operation_id" (str id) (
    field "operation" (str "teardown") (
      field "layer" (str "platform")
        (field "revision" (str revision) (field "parameters" (obj end) end))))

abbrev requested : Request
requested = record {
  fields = request_fields;
  operation_id = id;
  operation = teardown;
  layer = "platform";
  revision = revision;
}

abbrev reference : Value
reference = obj (
    field "bucket" (str "bundles") (
      field "key"
        (str "bundles/sha256/aaaaaaaaaaaaaaaaaaaaaaaaaaaaaaaaaaaaaaaaaaaaaaaaaaaaaaaaaaaaaaaa.json")
        (field "version_id" (str "v7") (
          field "sha256" (str revision) (
            field "binding" (str binding)
              (field "source_commit" (str "bbbbbbbbbbbbbbbbbbbbbbbbbbbbbbbbbbbbbbbb") end))))))

abbrev platform : Value
platform = obj (
    field "root" (str "terraform/modules/target/dev/platform") (
      field "variables"
        (obj (field "account_id" (str "123") (field "region" (str "eu-central-1") end)))
        (field "addresses" (obj layer.addresses) (
          field "membership" (obj layer.membership) (
            field "backend"
              (obj (
                field "bucket" (str "e1-lifecycle-dev-123-eu-central-1") (
                  field "key" (str "e1/lifecycle/dev/platform/terraform.tfstate")
                    (field "region" (str "eu-central-1") end))))
              end)))))

abbrev protected : Value
protected = obj (
    field "binding" (str binding) (
      field "environment" (str "dev") (
        field "account" (str "123") (
          field "region" (str "eu-central-1") (
            field "active_contracts" (texts (revision ∷ [])) (
              field "installations" (obj (field revision reference end)) (
                field "layers" (obj (field "platform" platform end)) (
                  field "bootstrap" (obj end) (
                    field "operation_approvals"
                      (obj (field id (operator_approval digest requested "dev") end))
                      (field "teardown_approvals"
                        (obj (field id (teardown_approval requested "dev") end)) end))))))))))

authorizes :
    authorize digest binding (obj request_fields) protected reference ≡ ok (requested, layer)
unfolding authorize request is_operation_id operation_of layer_of high_risk check_parameters keys
    check_binding check_package protected_layer environment_of is_exact_version check_reference
    check_layer check_bootstrap check_approvals check_approval py_eq contains endswith is_sha256
    is_commit is_stripped lowers_to
authorizes = refl

authorize-Authorized_example : Authorized digest binding (obj request_fields) protected requested
authorize-Authorized_example =
    authorize-Authorized digest binding (obj request_fields) protected reference requested layer
      authorizes
