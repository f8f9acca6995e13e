-- ===== src/Ci/Enforce.antt =====
-- `enforce` of .github/scripts/ci/select-checks.py: the selection against the results of the jobs.
use terragrunt_demo.Common.{
  String, Bool, true, false, ◌&&◌, Option, none, some, List, [], ◌∷◌, ◌==◌, Result, ok, raise,
  Raised, ◌>>=◌, ◌>>◌, require,
}
use terragrunt_demo.Json.{Value, bool, Fields, item, same_keys, is_text}
use terragrunt_demo.Dicts.{truthy}

abbrev pub gates : List String
gates = "acceptance" ∷ "app" ∷ "hygiene" ∷ "infra" ∷ []

abbrev pub selection_keys : List String
selection_keys = "acceptance" ∷ "app" ∷ "hygiene" ∷ "infra" ∷ "reason" ∷ "actual_sha" ∷ []

-- A flag of the selection.
abbrev pub bool_of : Value → Result Bool
bool_of (bool b) = ok b
bool_of _ = raise Raised.rejected

abbrev pub expected : Bool → String
expected true = "success"
expected false = "skipped"

abbrev pub is_result : Option String → String → Bool
is_result none s = false
is_result (some r) s = r == s

-- One gate: a selected job succeeded, any other one was skipped.
unfoldable pub check_gate : Fields → (String → Option String) → String → Result (Unit {0})
check_gate selection results gate = do
  flag ← item selection gate >>= bool_of
  require (is_result (results gate) (expected flag))

unfoldable pub check_gates : Fields → (String → Option String) → List String → Result (Unit {0})
check_gates selection results [] = ok tt
check_gates selection results (gate ∷ rest) = do
  check_gate selection results gate
  check_gates selection results rest

unfoldable pub enforce :
    Fields → (String → Option String) → Option String → String → Result (Unit {0})
enforce selection results detection expected_sha = do
  require (is_result detection "success" && same_keys selection selection_keys)
  reason ← item selection "reason"
  require (truthy reason)
  sha ← item selection "actual_sha"
  require (is_text sha expected_sha)
  check_gates selection results gates
