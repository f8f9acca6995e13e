-- ===== src/Mutation/Domain.antt =====
-- The conflict domains of scripts/environment_mutation.py, and its identifiers.
use terragrunt_demo.Common.{
  String, Bool, true, false, ◌||◌, Option, none, some, List, [], ◌∷◌, if◌then◌else◌, elem, Result,
  ok, raise, Raised, ◌>>◌, require, startswith, codes, fits, times, is_hex, dash,
}
use terragrunt_demo.Json.{Value, str}

abbrev pub application_bindings : List String
application_bindings =
    "normal-delivery/deploy-dev" ∷ "normal-delivery/promote-prod"
    ∷ "emergency-recovery/emergency-dev" ∷ "emergency-recovery/emergency-prod"
    ∷ "cleanup-recovery/cleanup-dev" ∷ "cleanup-recovery/cleanup-prod" ∷ []

abbrev pub lifecycle_bindings : List String
lifecycle_bindings =
    "environment-lifecycle/infra-dev" ∷ "environment-lifecycle/infra-prod"
    ∷ "environment-lifecycle/infra-high-risk-dev" ∷ "environment-lifecycle/infra-high-risk-prod"
    ∷ []

abbrev pub layers : List String
layers = "shared" ∷ "secrets" ∷ "global" ∷ "data" ∷ "platform" ∷ "apps" ∷ "edge" ∷ []

abbrev pub domains : List String
domains = "application" ∷ "shared" ∷ "secrets" ∷ []

abbrev pub environments : List String
environments = "dev" ∷ "prod" ∷ []

-- `layer is None`
abbrev pub is_none : Option String → Bool
is_none none = true
is_none (some _) = false

-- `layer in layers`, which `None` never is
abbrev pub in_layers : Option String → Bool
in_layers none = false
in_layers (some layer) = elem layer layers

-- `layer if layer in ("shared", "secrets") else "application"`
abbrev pub separate : Option String → String
separate none = "application"
separate (some layer) = if elem layer ("shared" ∷ "secrets" ∷ []) then layer else "application"

-- The conflict domain of a binding that is a text.
unfoldable pub domain_of : String → Option String → Result String
domain_of binding layer =
    if elem binding application_bindings then require (is_none layer) >> ok "application" else do
      require (elem binding lifecycle_bindings)
      require (in_layers layer)
      ok (separate layer)

unfoldable pub domain : Value → Option String → Result String
domain (str binding) layer = domain_of binding layer
domain _ layer = raise Raised.rejected

-- `[0-9a-f]{8}-[0-9a-f]{4}-[0-9a-f]{4}-[0-9a-f]{4}-[0-9a-f]{12}`
unfoldable pub is_uuid : String → Bool
is_uuid s =
    fits
      (times 8 is_hex (
        dash
        ∷ times 4 is_hex
            (dash ∷ times 4 is_hex (dash ∷ times 4 is_hex (dash ∷ times 12 is_hex [])))))
      (codes s)

unfoldable pub identity : Value → Result String
identity (str s) = require (is_uuid s) >> ok s
identity _ = raise Raised.rejected

-- A binding whose runs schedule a cleanup: the two prefixes of `startswith`.
unfoldable pub schedules : String → Bool
schedules binding =
    startswith binding "normal-delivery/" || startswith binding "emergency-recovery/"

unfoldable pub is_cleanup : String → Bool
is_cleanup binding = startswith binding "cleanup-recovery/"
