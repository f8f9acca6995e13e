-- ===== src/Mutation/Validate.antt =====
-- `validate` of scripts/environment_mutation.py.
use Prim.Native.String.{◌++◌}
use terragrunt_demo.Common.{
  ℕ, ◌^◌, String, ◌&&◌, Option, none, some, List, [], ◌∷◌, ◌==◌, if◌then◌else◌, nat_eq, ltb, leb,
  Result, ok, raise, Raised, ◌>>=◌, ◌>>◌, require, startswith, endswith, is_sha256,
}
use terragrunt_demo.Json.{Value, null, num, str, obj, Fields, item, same_keys, is_text, py_eq}
use terragrunt_demo.Mutation.Domain.{domain, identity, schedules}
use terragrunt_demo.Mutation.Document.{
  State, active, released, Lease, Schedule, Ownership, initial, encode,
}

abbrev pub document_keys : List String
document_keys =
    "binding" ∷ "domain" ∷ "environment" ∷ "generation" ∷ "operation" ∷ "owner" ∷ "request_sha256"
    ∷ "schedule" ∷ "schema" ∷ "state" ∷ []

abbrev pub schedule_keys : List String
schedule_keys = "environment" ∷ "generation" ∷ "binding" ∷ "operation" ∷ []

abbrev pub max_generation : ℕ
max_generation = 2 ^ 63

-- `type(n) is int and 0 <= n < 2**63`; `type` tells a Boolean from an integer
abbrev pub generation_of : Value → Result ℕ
generation_of (num n) = require (ltb n max_generation) >> ok n
generation_of _ = raise Raised.rejected

abbrev pub state_of : Value → Result State
state_of (str s) =
    if s == "ACTIVE"
    then ok active
    else if s == "RELEASED"
    then ok released
    else raise Raised.rejected
state_of _ = raise Raised.rejected

-- The layer that `validate` hands to `domain` with the document's own binding.
abbrev pub layer_for : String → String → Option String
layer_for selected binding =
    if selected == "application"
    then (if startswith binding "environment-lifecycle/" then some "apps" else none)
    else some selected

-- A test on a value that is a text; on any other the method is missing.
abbrev pub on_text : Value → Result String
on_text (str s) = ok s
on_text _ = raise Raised.type_error

abbrev pub digest_of : Value → Result String
digest_of (str s) = require (is_sha256 s) >> ok s
digest_of _ = raise Raised.rejected

-- The checks of a document past generation 0.
unfoldable pub validate_lease : Fields → String → String → Result Lease
validate_lease fs environment selected = do
  owner ← identity (← item fs "owner")
  operation ← identity (← item fs "operation")
  binding ← on_text (← item fs "binding")
  found ← domain (str binding) (layer_for selected binding)
  require (found == selected)
  require (endswith binding ("-" ++ environment))
  sha ← digest_of (← item fs "request_sha256")
  ok (record { owner = owner; operation = operation; binding = binding; request_sha256 = sha })

-- `type(n) is int and 0 < n <= bound`
abbrev pub bounded_generation : ℕ → Value → Result ℕ
bounded_generation bound (num n) = require (ltb 0 n && leb n bound) >> ok n
bounded_generation bound _ = raise Raised.rejected

unfoldable pub validate_schedule : Value → ℕ → String → String → Result (Option Schedule)
validate_schedule null generation environment selected = ok none
validate_schedule (obj fs) generation environment selected = do
  require (selected == "application" && same_keys fs schedule_keys)
  require (is_text (← item fs "environment") environment)
  at ← bounded_generation generation (← item fs "generation")
  operation ← identity (← item fs "operation")
  found ← domain (← item fs "binding") none
  binding ← on_text (← item fs "binding")
  require (found == "application" && endswith binding ("-" ++ environment) && schedules binding)
  ok (
      some (record {
        environment = environment;
        generation = at;
        binding = binding;
        operation = operation;
      }))
validate_schedule _ generation environment selected = raise Raised.rejected

-- `value == initial(environment, selected)`
unfoldable pub validate_initial : Fields → String → String → Result (Unit {0})
validate_initial fs environment selected = do
  start ← initial environment selected
  require (py_eq (obj fs) (encode start))

-- Generation 0 is exactly the initial document; a later one names its lease.
unfoldable pub validate_owner : Fields → ℕ → String → String → Result (Option Lease)
validate_owner fs generation environment selected =
    if nat_eq generation 0
    then validate_initial fs environment selected >> ok none
    else do lease ← validate_lease fs environment selected; ok (some lease)

unfoldable pub validate : Value → String → String → Result Ownership
validate (obj fs) environment selected = do
  _ ← initial environment selected
  require (same_keys fs document_keys)
  require (is_text (← item fs "schema") "E2_MUTATION_V1")
  require (is_text (← item fs "environment") environment)
  require (is_text (← item fs "domain") selected)
  generation ← generation_of (← item fs "generation")
  state ← state_of (← item fs "state")
  lease ← validate_owner fs generation environment selected
  schedule ← validate_schedule (← item fs "schedule") generation environment selected
  ok (record {
    environment = environment;
    domain = selected;
    generation = generation;
    state = state;
    lease = lease;
    schedule = schedule;
  })
validate _ environment selected = raise Raised.rejected
