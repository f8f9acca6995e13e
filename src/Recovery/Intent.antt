-- ===== src/Recovery/Intent.antt =====
-- What scripts/recovery/journal.py checks without a port: `__init__`, the retained intent of
-- `accept`, `plan`, `validate_effect`; and the checks that it takes from
-- scripts/normal_delivery/delivery.py, those of `read` and `check_effect`.
use Prim.Native.String.{◌++◌}
use terragrunt_demo.Common.{
  String, Bool, true, false, ◌&&◌, Option, none, some, List, [], ◌∷◌, leb, elem, if◌then◌else◌,
  Result, ok, raise, Raised, require, ◌>>=◌, ◌>>◌,
}
use terragrunt_demo.Json.{Value, str, obj, Fields, field, end, item, is_text, in_texts}
use terragrunt_demo.Dicts.{keys, require_dict, is_null, get}
use terragrunt_demo.Recovery.Exact.{exact, same, is_int, plus, is_version}
use terragrunt_demo.Recovery.Ports.{Ports, Observed, observed, malformed, Operation}

-- A journal of one kind in one environment, with the stages of its controller.
pub record Journal : Type 0 where
  pub namespace : String
  pub stages : List String

abbrev pub kinds : List String
kinds = "emergency" ∷ "cleanup" ∷ "assign_eip" ∷ "change_rt" ∷ "disable_sdc" ∷ []

-- `__init__`
unfoldable pub open_journal : String → String → List String → Result Journal
open_journal environment kind stages = do
  require (elem environment ("dev" ∷ "prod" ∷ []))
  require (elem kind kinds)
  ok (record { namespace = environment ++ "/recovery/" ++ kind; stages = stages })

abbrev pub stage_key : Operation → String → String
stage_key op stage = op.operation ++ "/" ++ stage

-- The plan of a stage.
pub record Plan : Type 0 where
  pub token : String
  pub operation_sha256 : String
  pub request : Value

abbrev pub encode_plan : Plan → Value
encode_plan l = obj (
    field "token" (str l.token)
      (field "operation_sha256" (str l.operation_sha256) (field "request" l.request end)))

-- The two times of an intent.
abbrev pub check_window : Value → Value → Result (Unit {0})
check_window started deadline = do
  require (is_int started && is_int deadline)
  expected ← plus started 600
  require (same deadline expected)

abbrev pub body_keys : List String
body_keys = "operation" ∷ "namespace" ∷ "request" ∷ "started" ∷ "deadline" ∷ "domain" ∷ []

-- `type(value) is dict`, where `read` insists on it.
abbrev pub is_object : Bool → Value → Bool
is_object true (obj fs) = true
is_object true _ = false
is_object false v = true

abbrev pub has_state : String → Fields → Bool
has_state state fs = is_text (get fs "state") state

module _ (p : Ports) where
  -- `decode(bytes)`
  unfoldable pub decode : p.Raw → Result Value
  decode raw = require (leb 1 (p.size raw) && leb (p.size raw) 1048576) >> p.loads raw

  -- The value of a stored object.
  unfoldable pub opened : Bool → Observed p.Raw → Result Value
  opened object malformed = raise Raised.rejected
  opened object (observed version_id bytes) = do
    require (is_version version_id)
    value ← decode bytes
    require (p.same_raw (p.canonical value) bytes)
    require (is_object object value)
    ok value

  abbrev pub unpacked : Bool → Option (Observed p.Raw) → Result (Option Value)
  unpacked object none = ok none
  unpacked object (some o) = do value ← opened object o; ok (some value)

  abbrev pub digest : Value → Value
  digest v = str (p.sha (p.canonical v))

  -- The request of a caller, which has no fields.
  unfoldable pub check_request : p.Raw → Result Fields
  check_request raw = decode raw >>= λ v. keys v []

  unfoldable pub plan : Journal → Operation → String → Value → Plan
  plan j op stage request = record {
    token = j.namespace ++ "/" ++ stage_key op stage;
    operation_sha256 = p.sha (p.canonical (obj op.body));
    request = request;
  }

  -- The attempt that a plan goes with.
  unfoldable pub attempt_of : Plan → Value
  attempt_of l =
      obj (field "token" (str l.token) (field "plan_sha256" (digest (encode_plan l)) end))

  -- A new intent, and its record.
  abbrev pub new_body : Journal → String → Fields → Value → Value → Fields → Value
  new_body j operation request started deadline domain = obj (
      field "operation" (str operation) (
        field "namespace" (str j.namespace) (
          field "request" (obj request) (
            field "started" started
              (field "deadline" deadline (field "domain" (obj domain) end))))))

  abbrev pub new_intent : Value → Value
  new_intent body = obj (field "body" body (field "sha256" (digest body) end))

  -- A retained intent, before it is matched with the retry.
  unfoldable pub check_intent : Journal → String → Value → Result Operation
  check_intent j operation retained = do
    fs ← keys retained ("body" ∷ "sha256" ∷ [])
    b ← item fs "body"
    body ← keys b body_keys
    sha ← item fs "sha256"
    exact sha (digest (obj body))
    namespace ← item body "namespace"
    exact namespace (str j.namespace)
    named ← item body "operation"
    exact named (str operation)
    d ← item body "domain"
    domain ← require_dict d
    r ← item body "request"
    request ← require_dict r
    started ← item body "started"
    deadline ← item body "deadline"
    check_window started deadline
    ok (record {
      body = body;
      operation = operation;
      request = request;
      started = started;
      deadline = deadline;
      domain = domain;
    })

  -- The plan and the attempt that stand already, against the plan of this call.
  unfoldable pub check_retained : Plan → Option Value → Option Value → Result (Unit {0})
  check_retained l none none = ok tt
  check_retained l (some saved) none = exact saved (encode_plan l)
  check_retained l none (some attempt) = exact attempt (attempt_of l) >> raise Raised.rejected
  check_retained l (some saved) (some attempt) =
      exact saved (encode_plan l) >> exact attempt (attempt_of l)

  unfoldable pub check_effect : Value → Plan → Result Fields
  check_effect value l = do
    fs ← keys value ("token" ∷ "request_sha256" ∷ "state" ∷ "result" ∷ [])
    exact (get fs "token") (str l.token)
    require (in_texts (get fs "state") ("ABSENT" ∷ "UNKNOWN" ∷ "APPLIED" ∷ []))
    if has_state "APPLIED" fs
        then exact (get fs "request_sha256") (digest l.request)
        else require (is_null (get fs "result") && is_null (get fs "request_sha256"))
    ok fs

  unfoldable pub validate_effect : Value → Plan → Result Fields
  validate_effect value l = do
    fs ← check_effect value l
    if has_state "APPLIED" fs then exact (get fs "result") l.request else ok tt
    ok fs

  -- What a recorded effect settles: an applied one is the answer, an absent one is final.
  unfoldable pub settled : Plan → Option Value → Result (Option Fields)
  settled l none = ok none
  settled l (some value) = do
    fs ← validate_effect value l
    if has_state "APPLIED" fs
        then ok (some fs)
        else if has_state "ABSENT" fs
        then raise Raised.absent
        else ok none
