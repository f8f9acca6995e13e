-- ===== src/Contract/Request.antt =====
-- `request` of scripts/lifecycle/contract.py: the closed form of a request.
use terragrunt_demo.Common.{
  String, Bool, true, false, not, ◌&&◌, ◌||◌, List, [], ◌∷◌, ◌==◌, leb, if◌then◌else◌, all, elem,
  Result, ok, raise, Raised, ◌>>=◌, ◌>>◌, require, contains, codes, fits, times, is_hex, is_sha256,
  dash,
}
use terragrunt_demo.Json.{Value, str, obj, arr, Fields, names, item}
use terragrunt_demo.Dicts.{keys, require_str, require_dict, in_set, all_values, is_bool, truthy}

pub data Operation : Type 0 where
  plan create reconcile teardown : Operation

pub record Request : Type 0 where
  pub fields : Fields
  pub operation_id : String
  pub operation : Operation
  pub layer : String
  pub revision : String

abbrev pub ordinary : List String
ordinary = "shared" ∷ "secrets" ∷ "global" ∷ "platform" ∷ "edge" ∷ []

-- `LAYERS` and `HIGH_RISK`
abbrev pub high_risk_layers : List String
high_risk_layers = "shared" ∷ "secrets" ∷ "global" ∷ "data" ∷ "platform" ∷ "apps" ∷ "edge" ∷ []

abbrev pub request_keys : List String
request_keys = "operation_id" ∷ "operation" ∷ "layer" ∷ "revision" ∷ "parameters" ∷ []

-- `[0-9a-f]{8}-[0-9a-f]{4}-[1-5][0-9a-f]{3}-[89ab][0-9a-f]{3}-[0-9a-f]{12}`
unfoldable pub is_operation_id : String → Bool
is_operation_id s =
    fits
      (times 8 is_hex (
        dash
        ∷ times 4 is_hex (
            dash
            ∷ (λ c. leb b'1' c && leb c b'5')
            ∷ times 3 is_hex (
                dash
                ∷ (λ c. leb b'8' c && leb c b'9' || leb b'a' c && leb c b'b')
                ∷ times 3 is_hex (dash ∷ times 12 is_hex [])))))
      (codes s)

abbrev pub named_operation : String → Result Operation
named_operation s =
    if s == "plan"
    then ok plan
    else if s == "create"
    then ok create
    else if s == "reconcile"
    then ok reconcile
    else if s == "teardown"
    then ok teardown
    else raise Raised.rejected

-- `require(value['operation'] in OPERATIONS)`, a set: a value that cannot be hashed raises.
unfoldable pub operation_of : Value → Result Operation
operation_of (str s) = named_operation s
operation_of (obj fs) = raise Raised.type_error
operation_of (arr xs) = raise Raised.type_error
operation_of _ = raise Raised.rejected

abbrev pub is_teardown : Operation → Bool
is_teardown teardown = true
is_teardown _ = false

abbrev pub is_plan : Operation → Bool
is_plan plan = true
is_plan _ = false

-- `'/infra-high-risk-' in binding`
unfoldable pub high_risk : String → Bool
high_risk binding = contains "/infra-high-risk-" binding

-- The checks of `value['parameters']`.
unfoldable pub check_parameters : Value → String → Result (Unit {0})
check_parameters parameters layer = do
  ps ← require_dict parameters
  require (all (λ k. elem k ("enable_alarms" ∷ [])) (names ps))
  require (not (truthy (obj ps)) || layer == "data")
  require (all_values is_bool ps)

-- The layer that a binding may change.
unfoldable pub layer_of : String → Value → Result String
layer_of binding v = do
  known ← in_set v (if high_risk binding then high_risk_layers else ordinary)
  require known
  require_str v

unfoldable pub request : String → Value → Result Request
request binding value = do
  fs ← keys value request_keys
  id ← item fs "operation_id" >>= require_str
  require (is_operation_id id)
  operation ← item fs "operation" >>= operation_of
  layer ← item fs "layer" >>= layer_of binding
  require (not (is_teardown operation) || high_risk binding)
  revision ← item fs "revision" >>= require_str
  require (is_sha256 revision)
  parameters ← item fs "parameters"
  check_parameters parameters layer
  ok (record {
    fields = fs;
    operation_id = id;
    operation = operation;
    layer = layer;
    revision = revision;
  })
