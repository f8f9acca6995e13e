-- ===== src/Contract/Authorize.antt =====
-- `authorize` of scripts/lifecycle/contract.py: a request against the protected configuration.
-- `digest` is `digest(canonical(value))`, the SHA-256 of the canonical text.
use Prim.Native.String.{◌++◌}
use terragrunt_demo.Common.{
  String, Bool, false, not, ◌&&◌, ◌||◌, Option, none, some, List, [], ◌∷◌, ◌==◌, if◌then◌else◌, all,
  elem, Result, ok, raise, Raised, ◌>>=◌, ◌>>◌, require, contains, endswith, is_commit, is_stripped,
  lowers_to,
}
use terragrunt_demo.Json.{
  Value, str, obj, arr, Fields, field, end, Items, cons, nil, names, item, py_eq, is_text,
}
use terragrunt_demo.Dicts.{keys, dict_of, require_dict, get}
use terragrunt_demo.Contract.Request.{Request, request, high_risk, is_plan, is_teardown}

-- The protected layer that a request may change, as far as the plan is checked against it: the
-- installed resources with their types, and the identities of those that exist.
pub record Layer : Type 0 where
  pub addresses : Fields
  pub membership : Fields

abbrev pub protected_keys : List String
protected_keys =
    "binding" ∷ "environment" ∷ "account" ∷ "region" ∷ "active_contracts" ∷ "installations"
    ∷ "layers" ∷ "bootstrap" ∷ "operation_approvals" ∷ "teardown_approvals" ∷ []

abbrev pub reference_keys : List String
reference_keys = "bucket" ∷ "key" ∷ "version_id" ∷ "sha256" ∷ "binding" ∷ "source_commit" ∷ []

abbrev pub layer_keys : List String
layer_keys = "root" ∷ "variables" ∷ "addresses" ∷ "membership" ∷ "backend" ∷ []

-- `binding.rsplit('-', 1)[1]`, for the two environments that the next check allows.
unfoldable pub environment_of : String → Result String
environment_of binding =
    if endswith binding "-dev"
    then ok "dev"
    else if endswith binding "-prod"
    then ok "prod"
    else if contains "-" binding
    then raise Raised.rejected
    else raise Raised.index_error

abbrev pub has_item : String → Items → Bool
has_item s nil = false
has_item s (cons v xs) = is_text v s || has_item s xs

-- `text in v`
abbrev pub is_in : String → Value → Result Bool
is_in s (arr xs) = ok (has_item s xs)
is_in s (obj fs) = ok (elem s (names fs))
is_in s (str t) = ok (contains s t)
is_in s _ = raise Raised.type_error

-- A value that `+` joins to a text, or that `re.fullmatch` reads.
abbrev pub text_of : Value → Result String
text_of (str s) = ok s
text_of _ = raise Raised.type_error

-- `type(v) is str and v.strip() == v and bool(v) and v.lower() not in ('null', 'latest')`
unfoldable pub is_exact_version : Value → Bool
is_exact_version (str v) =
    is_stripped v && not (v == "") && not (lowers_to v "null" || lowers_to v "latest")
is_exact_version _ = false

-- The checks of the installed package.
unfoldable pub check_reference : String → String → Fields → Result (Unit {0})
check_reference binding revision reference = do
  require (is_text (← item reference "sha256") revision)
  require (is_text (← item reference "binding") binding)
  require (is_text (← item reference "key") ("bundles/sha256/" ++ revision ++ ".json"))
  require (is_exact_version (← item reference "version_id"))
  commit ← item reference "source_commit" >>= text_of
  require (is_commit commit)

-- The checks of the layer's root, its state, its provider and its tables.
unfoldable pub check_layer : Fields → String → String → Fields → Result Layer
check_layer protected environment layer fs = do
  require (is_text (← item fs "root") ("terraform/modules/target/" ++ environment ++ "/" ++ layer))
  backend ← item fs "backend" >>= λ v. keys v ("bucket" ∷ "key" ∷ "region" ∷ [])
  require (
      is_text (← item backend "key")
        ("e1/lifecycle/" ++ environment ++ "/" ++ layer ++ "/terraform.tfstate"))
  bucket ← item backend "bucket"
  account ← item protected "account" >>= text_of
  region ← item protected "region" >>= text_of
  require (is_text bucket ("e1-lifecycle-" ++ environment ++ "-" ++ account ++ "-" ++ region))
  require (is_text (← item backend "region") region)
  variables ← item fs "variables" >>= dict_of
  require (is_text (get variables "account_id") account && is_text (get variables "region") region)
  addresses ← item fs "addresses" >>= require_dict
  membership ← item fs "membership" >>= require_dict
  require (all (λ k. elem k (names addresses)) (names membership))
  ok (record { addresses = addresses; membership = membership })

-- The configuration is that of the binding, and of its environment.
unfoldable pub check_binding : String → Fields → Result String
check_binding binding p = do
  require (is_text (← item p "binding") binding)
  environment ← environment_of binding
  require (is_text (← item p "environment") environment)
  ok environment

-- The package of the request's revision is active, and it is the one that was read back.
unfoldable pub check_package : String → Fields → Request → Value → Result (Unit {0})
check_package binding p r installed = do
  active ← item p "active_contracts" >>= is_in r.revision
  require active
  installations ← item p "installations" >>= dict_of
  reference ← keys (get installations r.revision) reference_keys
  check_reference binding r.revision reference
  require (py_eq installed (obj reference))

unfoldable pub protected_layer : Fields → String → Request → Result Layer
protected_layer p environment r = do
  layers ← item p "layers" >>= dict_of
  fs ← keys (get layers r.layer) layer_keys
  check_layer p environment r.layer fs

-- The secret that a layer waits for.
abbrev pub prerequisite : String → Option String
prerequisite layer =
    if layer == "data"
    then some "sql_passwords"
    else if layer == "apps"
    then some "connection_string"
    else none

unfoldable pub check_bootstrap : Fields → Option String → Result (Unit {0})
check_bootstrap protected none = ok tt
check_bootstrap protected (some secret) = do
  bootstrap ← item protected "bootstrap" >>= dict_of
  require (is_text (get bootstrap secret) "ADMIN_VERIFIED_READY")

-- One approval: the entry under the operation's identifier is the expected one.
unfoldable pub check_approval : Fields → String → String → Value → Result (Unit {0})
check_approval protected table id expected = do
  approvals ← item protected table >>= dict_of
  require (py_eq (get approvals id) expected)

abbrev pub teardown_approval : Request → String → Value
teardown_approval r environment = obj (
    field "revision" (str r.revision)
      (field "layer" (str r.layer) (field "environment" (str environment) end)))

module _ (digest : Value → String) where
  abbrev pub operator_approval : Request → String → Value
  operator_approval r environment = obj (
      field "request_sha256" (str (digest (obj r.fields)))
        (field "environment" (str environment) end))

  -- The two approvals.
  unfoldable pub check_approvals : String → Fields → String → Request → Result (Unit {0})
  check_approvals binding protected environment r = do
    if high_risk binding && not (is_plan r.operation)
        then check_approval protected "operation_approvals" r.operation_id
            (operator_approval r environment)
        else ok tt
    if is_teardown r.operation
        then check_approval protected "teardown_approvals" r.operation_id
            (teardown_approval r environment)
        else ok tt

  unfoldable pub authorize : String → Value → Value → Value → Result (Request × Layer)
  authorize binding value protected installed = do
    r ← request binding value
    p ← keys protected protected_keys
    environment ← check_binding binding p
    check_package binding p r installed
    layer ← protected_layer p environment r
    check_bootstrap p (prerequisite r.layer)
    check_approvals binding p environment r
    ok (r, layer)
