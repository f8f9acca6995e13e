-- ===== src/DevDown/Tests.antt =====
-- A consent and a review of scripts/lifecycle/dev_down.py.
use Prim.Native.String.{◌++◌}
use terragrunt_demo.Common.{
  ℕ, String, ◌≡◌, refl, ap, true, false, some, [], ◌∷◌, ok, raise, Raised, startswith, ◌>>=◌, arith,
  contains, is_sha256, is_stripped, lowers_to,
}
use terragrunt_demo.Json.{
  Value, str, num, bool, obj, arr, null, Fields, field, end, cons, nil, find, py_eq,
}
use terragrunt_demo.Dicts.{keys, texts, get}
use terragrunt_demo.Ci.FilePath.{split}
use terragrunt_demo.Contract.Request.{
  request, is_operation_id, operation_of, layer_of, high_risk, check_parameters,
}
use terragrunt_demo.Contract.Plan.{is_protected}
use terragrunt_demo.DevDown.Consent.{
  Scope, binding, is_account, is_region, expected_backend, scope_layer, scope_source, scope,
  destroy_ack, sql_loss_ack, is_current, encode_scope, confirm, check_data_consent,
}
use terragrunt_demo.DevDown.Review.{
  review, review_record, unsigned_review, check_current_review, Removal, check_context, check_state,
  is_lineage, is_version, reviewed_changes, review_managed, review_change, review_resource,
  review_resources, review_lines,
}
use terragrunt_demo.DevDown.Consented.{Scoped, Consented, check_data_consent-Consented}
use terragrunt_demo.DevDown.Current.{accepted, check_current_review-review}
use terragrunt_demo.DevDown.Summary.{Reviewed, review-Summary}

abbrev sha : String
sha = "00000000000000000000000000000000000000000000000000000000000000ff"

abbrev digest : Value → String
digest v = sha

abbrev size : String → ℕ
size binary = 4096

abbrev digest_bytes : String → String
digest_bytes binary = sha

abbrev id : String
id = "11111111-1111-4111-8111-111111111111"

abbrev value : Value
value = obj (
    field "operation_id" (str id) (
      field "operation" (str "teardown") (
        field "layer" (str "platform")
          (field "revision" (str sha) (field "parameters" (obj end) end)))))

abbrev platform : Value
platform = obj (
    field "root" (str "terraform/modules/target/dev/platform") (
      field "variables"
        (obj (field "account_id" (str "123456789012") (field "region" (str "eu-central-1") end)))
        (field "addresses" (obj (field "aws_ecs_cluster.main" (str "aws_ecs_cluster") end)) (
          field "membership" (obj (field "aws_ecs_cluster.main" (str "arn:cluster") end))
            (field "backend" (expected_backend "123456789012" "eu-central-1" "platform") end)))))

abbrev reference : Value
reference = obj (
    field "binding" (str binding)
      (field "sha256" (str sha) (field "source_commit" (str "c0ffee") end)))

abbrev selected : Scope
selected = record {
  account = "123456789012";
  region = "eu-central-1";
  operation_id = id;
  layer = "platform";
  revision = sha;
  source_commit = str "c0ffee";
  request_sha256 = sha;
  installed_layer_sha256 = sha;
  root = str "terraform/modules/target/dev/platform";
  backend = expected_backend "123456789012" "eu-central-1" "platform";
  scope_sha256 = sha;
}

abbrev consent : Value
consent = obj (
    field "schema" (str "E15B_DEV_CONSENT_V1") (
      field "scope_sha256" (str sha) (
        field "issued_at" (num 100) (
          field "expires_at" (num 200) (
            field "destroy_ack" (str (destroy_ack selected))
              (field "sql_loss_ack" (str (sql_loss_ack selected)) end))))))

abbrev protected : Fields
protected = field "binding" (str binding) (
    field "environment" (str "dev") (
      field "account" (str "123456789012") (
        field "region" (str "eu-central-1") (
          field "active_contracts" (texts (sha ∷ [])) (
            field "installations" (obj (field sha reference end)) (
              field "layers" (obj (field "platform" platform end)) (
                field "teardown_approvals" (obj (field ("dev-sql-loss/" ++ id) consent end))
                  end)))))))

consents : check_data_consent digest value protected 150 ≡ ok sha
unfolding check_data_consent confirm scope scope_layer scope_source request is_operation_id
    operation_of layer_of high_risk check_parameters keys is_account is_region split py_eq contains
    is_sha256 is_current destroy_ack sql_loss_ack
consents = refl

expired : check_data_consent digest value protected 200 ≡ raise Raised.rejected
unfolding check_data_consent confirm scope scope_layer scope_source request is_operation_id
    operation_of layer_of high_risk check_parameters keys is_account is_region split py_eq contains
    is_sha256 is_current
expired = refl

check_data_consent-Consented_example :
    (s : Scope) × (approvals : Fields) × (scope digest value protected ≡ ok s)
    × Scoped value s
    × (find "teardown_approvals" protected ≡ some (obj approvals))
    × Consented s (get approvals ("dev-sql-loss/" ++ s.operation_id)) 150
check_data_consent-Consented_example =
    check_data_consent-Consented digest value protected 150 sha consents

abbrev cluster_change : Value
cluster_change = obj (
    field "actions" (texts ("delete" ∷ []))
      (field "before" (obj (field "id" (str "arn:cluster") end)) (field "after" null end)))

abbrev saved : Value
saved = obj (
    field "format_version" (str "1.2") (
      field "complete" (bool true) (
        field "errored" (bool false) (
          field "resource_changes"
            (arr (
              cons
                (obj (
                  field "address" (str "aws_ecs_cluster.main") (
                    field "type" (str "aws_ecs_cluster")
                      (field "mode" (str "managed") (field "change" cluster_change end)))))
                nil))
            end))))

abbrev state : Value
state = obj (
    field "lineage" (str "a1-b2")
      (field "serial" (num 7) (field "version_id" (str "v3") (field "sha256" (str sha) end))))

abbrev context_fields : Fields
context_fields =
    (field "schema" (str "E15B_DESTROY_REVIEW_V1") (
      field "scope_sha256" (str sha) (
        field "created_at" (num 100) (
          field "expires_at" (num 200) (
            field "binary_sha256" (str sha) (
              field "json_sha256" (str sha)
                (field "state" state (field "workspace" (str "default") end))))))))

abbrev context : Value
context = obj context_fields

abbrev removal : Removal
removal = record {
  address = "aws_ecs_cluster.main";
  kind = str "aws_ecs_cluster";
  id = str "arn:cluster";
  actions = texts ("delete" ∷ []);
}

reviews :
    review_lines digest size digest_bytes value protected "plan" saved context 150
    ≡ ok (selected, removal ∷ [])
unfolding review_lines check_context check_state is_lineage is_version reviewed_changes
    review_resources review_resource review_change review_managed is_protected startswith scope
    scope_layer scope_source request is_operation_id operation_of layer_of high_risk
    check_parameters keys is_account is_region split py_eq contains is_sha256 is_current is_stripped
    lowers_to
reviews = refl

review-Summary_example :
    Reviewed digest size digest_bytes value protected saved selected (removal ∷ [])
review-Summary_example =
    review-Summary digest size digest_bytes value protected "plan" saved context 150 selected
      (removal ∷ []) reviews

abbrev reviewed : Fields
reviewed = unsigned_review selected context (removal ∷ []) (field "review_sha256" (str sha) end)

returns :
    review digest size digest_bytes value protected "plan" saved context 150 ≡ ok (obj reviewed)
unfolding review review_record
returns =
    ap (λ x. x >>= λ found. ok (review_record digest size digest_bytes found.0 context found.1))
      reviews

same_scope : py_eq (encode_scope selected) (encode_scope selected) ≡ true
unfolding py_eq
same_scope = refl

same_state : py_eq state state ≡ true
unfolding py_eq
same_state = refl

check_current_review-review_example :
    check_current_review digest size digest_bytes reviewed
      (encode_scope selected)
      state
      "plan"
      saved
      180
    ≡ ok accepted
check_current_review-review_example =
    check_current_review-review digest size digest_bytes value protected "plan" saved context_fields
      150 reviewed returns (encode_scope selected) state (encode_scope selected) state 180 100 200
      refl same_scope refl same_state refl refl (omega arith) (omega arith)
