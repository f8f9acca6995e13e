-- ===== src/Mutation/Document.antt =====
-- The ownership document of scripts/environment_mutation.py, at the type that `validate` gives it,
-- and as the dictionary that is stored.
use terragrunt_demo.Common.{ℕ, String, Option, none, some, Result, ok, ◌>>◌, require, elem}
use terragrunt_demo.Json.{Value, null, num, str, obj, Fields, end, field}
use terragrunt_demo.Mutation.Domain.{domains, environments}

pub data State : Type 0 where
  active released : State

-- The invocation that the document names, from generation 1 on.
pub record Lease : Type 0 where
  pub owner : String
  pub operation : String
  pub binding : String
  pub request_sha256 : String

pub record Schedule : Type 0 where
  pub environment : String
  pub generation : ℕ
  pub binding : String
  pub operation : String

-- In generation 0 `owner`, `operation`, `binding` and `request_sha256` are all `None`.
pub record Ownership : Type 0 where
  pub environment : String
  pub domain : String
  pub generation : ℕ
  pub state : State
  pub lease : Option Lease
  pub schedule : Option Schedule

abbrev pub initial_document : String → String → Ownership
initial_document environment selected = record {
  environment = environment;
  domain = selected;
  generation = 0;
  state = released;
  lease = none;
  schedule = none;
}

unfoldable pub initial : String → String → Result Ownership
initial environment selected = do
  require (elem environment environments)
  require (elem selected domains)
  ok (initial_document environment selected)

abbrev pub state_name : State → String
state_name active = "ACTIVE"
state_name released = "RELEASED"

abbrev pub encode_schedule : Option Schedule → Value
encode_schedule none = null
encode_schedule (some s) = obj (
    field "binding" (str s.binding) (
      field "environment" (str s.environment)
        (field "generation" (num s.generation) (field "operation" (str s.operation) end))))

abbrev pub text_of : (Lease → String) → Option Lease → Value
text_of f none = null
text_of f (some l) = str (f l)

-- The dictionary's items, in the order of `sort_keys=True`.
abbrev pub document_fields : Ownership → Fields
document_fields o = field "binding" (text_of (λ l. l.binding) o.lease) (
    field "domain" (str o.domain) (
      field "environment" (str o.environment) (
        field "generation" (num o.generation) (
          field "operation" (text_of (λ l. l.operation) o.lease) (
            field "owner" (text_of (λ l. l.owner) o.lease) (
              field "request_sha256" (text_of (λ l. l.request_sha256) o.lease) (
                field "schedule" (encode_schedule o.schedule) (
                  field "schema" (str "E2_MUTATION_V1")
                    (field "state" (str (state_name o.state)) end)))))))))

unfoldable pub encode : Ownership → Value
encode o = obj (document_fields o)
