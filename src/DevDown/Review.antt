-- ===== src/DevDown/Review.antt =====
-- `review` and `check_current_review` of scripts/lifecycle/dev_down.py. The binary plan is a value of
-- a type `Binary` with its size; `digest_bytes` is its SHA-256.
use terragrunt_demo.Common.{
  ℕ, String, Bool, true, false, not, ◌&&◌, ◌||◌, Option, none, some, List, [], ◌∷◌, ◌==◌, leb, ltb,
  if◌then◌else◌, all, elem, length, codes, is_digit, is_sha256, is_stripped, lowers_to, Result, ok,
  raise, Raised, ◌>>=◌, ◌>>◌, require, or_rejected,
}
use terragrunt_demo.Json.{
  Value, str, bool, num, neg, obj, arr, bool_num, Fields, field, end, Items, cons, nil, item, py_eq,
  is_text, without,
}
use terragrunt_demo.Dicts.{
  keys, dict_of, require_dict, require_str, require_list, get, get_or, find_by, truthy, is_true,
  is_false, is_null, texts,
}
use terragrunt_demo.Contract.Plan.{is_protected}
use terragrunt_demo.DevDown.Consent.{
  Scope, encode_scope, is_current, is_letter, destroy_ack, sql_loss_ack, scope,
}

abbrev pub context_keys : List String
context_keys =
    "schema" ∷ "scope_sha256" ∷ "created_at" ∷ "expires_at" ∷ "binary_sha256" ∷ "json_sha256"
    ∷ "state" ∷ "workspace" ∷ []

abbrev pub state_keys : List String
state_keys = "lineage" ∷ "serial" ∷ "version_id" ∷ "sha256" ∷ []

-- `[A-Za-z0-9-]`
abbrev pub is_lineage_char : ℕ → Bool
is_lineage_char c =
    is_letter c || (leb b'A' c && leb c b'Z') || is_digit c || (leb b'-' c && leb c b'-')

unfoldable pub is_lineage : String → Bool
is_lineage s =
    all is_lineage_char (codes s) && leb 1 (length (codes s)) && leb (length (codes s)) 128

-- `type(n) is int and n >= 0`
abbrev pub is_serial : Value → Bool
is_serial (num n) = true
is_serial _ = false

unfoldable pub is_version : Value → Bool
is_version (str v) =
    is_stripped v && not (lowers_to v "" || lowers_to v "latest" || lowers_to v "null")
is_version _ = false

-- `type(id) is str and bool(id)`
abbrev pub is_id : Value → Bool
is_id (str s) = not (s == "")
is_id _ = false

-- The claimed snapshot of the state.
unfoldable pub check_state : Value → Result (Unit {0})
check_state state = do
  fs ← keys state state_keys
  lineage ← item fs "lineage" >>= require_str
  require (is_lineage lineage)
  require (is_serial (← item fs "serial"))
  require (is_version (← item fs "version_id"))
  sha ← item fs "sha256" >>= require_str
  require (is_sha256 sha)

-- The changes of a complete plan.
unfoldable pub reviewed_changes : Value → Result Items
reviewed_changes saved = do
  p ← require_dict saved
  require (
      is_text (get p "format_version") "1.2"
      && is_true (get p "complete")
      && is_false (get p "errored")
      && not (truthy (get p "deferred_changes"))
      && not (truthy (get p "resource_drift")))
  require_list (get_or p "resource_changes" (arr nil))

-- One line of the summary.
pub record Removal : Type 0 where
  pub address : String
  pub kind : Value
  pub id : Value
  pub actions : Value

abbrev pub removes : Value → Bool
removes actions = py_eq actions (texts ("delete" ∷ []))

abbrev pub keeps : Value → Bool
keeps actions = py_eq actions (texts ("no-op" ∷ []))

-- A kind that `startswith` is asked of.
abbrev pub text_of : Value → Result String
text_of (str s) = ok s
text_of _ = raise Raised.type_error

-- A managed resource: it is the installed one, and it is deleted or kept.
unfoldable pub review_managed : Fields → String → Fields → Result Removal
review_managed membership address r = do
  change ← item r "change" >>= dict_of
  actions ← item change "actions"
  require (is_text (get r "mode") "managed")
  kind ← text_of (get r "type")
  require (not (is_protected kind))
  require (removes actions || keeps actions)
  before ← require_dict (get change "before")
  require (py_eq (get before "id") (get membership address) && is_id (get before "id"))
  require (not (removes actions) || is_null (get change "after"))
  ok (record { address = address; kind = str kind; id = get before "id"; actions = actions })

unfoldable pub review_source : Fields → Result (Unit {0})
review_source r = do change ← item r "change" >>= dict_of; require (keeps (← item change "actions"))

-- A data source has no line.
unfoldable pub review_change : Fields → String → Fields → Result (Option Removal)
review_change membership address r =
    if is_text (get r "mode") "data"
    then review_source r >> ok none
    else review_managed membership address r >>= λ line. ok (some line)

-- One round of the loop, with the addresses seen: the address, and its line if it has one.
unfoldable pub review_resource :
    Fields → Fields → List String → Value → Result (String × Option Removal)
review_resource addresses membership seen resource = do
  r ← dict_of resource
  found ← find_by (get r "address") addresses
  installed ← or_rejected found
  address ← require_str (get r "address")
  require (not (elem address seen))
  require (py_eq installed (get r "type"))
  line ← review_change membership address r
  ok (address, line)

abbrev pub with_line : Option Removal → List Removal → List Removal
with_line none lines = lines
with_line (some line) lines = line ∷ lines

-- The summary of the changes.
unfoldable pub review_resources : Fields → Fields → List String → Items → Result (List Removal)
review_resources addresses membership seen nil = ok []
review_resources addresses membership seen (cons x xs) = do
  found ← review_resource addresses membership seen x
  rest ← review_resources addresses membership (found.0 ∷ seen) xs
  ok (with_line found.1 rest)

abbrev pub encode_removals : List Removal → Items
encode_removals [] = nil
encode_removals (l ∷ ls) =
    cons
      (obj (
        field "address" (str l.address)
          (field "type" l.kind (field "id" l.id (field "actions" l.actions end)))))
      (encode_removals ls)

abbrev pub gates : List String
gates =
    "PROTECTED_BINARY_JSON_STATE_ACQUISITION_REQUIRED" ∷ "IMMUTABLE_PLAN_APPROVAL_HANDOFF_REQUIRED"
    ∷ "CURRENT_STATE_RECHECK_AND_SINGLE_USE_CONSUMPTION_REQUIRED"
    ∷ "ECS_CONTROLLER_CLOSURE_REQUIRED" ∷ "NAT_EXECUTOR_AND_ISSUED_EFFECT_SETTLEMENT_REQUIRED" ∷ []

-- The review without its digest: it authorizes nothing.
abbrev pub unsigned_review : Scope → Value → List Removal → Fields → Fields
unsigned_review s context lines rest = field "scope" (encode_scope s) (
    field "context" context (
      field "destructive_changes" (arr (encode_removals lines)) (
        field "expected_acknowledgements"
          (obj (
            field "destroy_ack" (str (destroy_ack s))
              (field "sql_loss_ack" (str (sql_loss_ack s)) end)))
          (field "provenance" (str "UNTRUSTED_LOCAL_ARTIFACTS") (
            field "plan_authenticated" (bool false)
              (field "execution_authorized" (bool false) (field "gates" (texts gates) rest)))))))

-- `v <= now`, for a value that Python compares with an integer.
abbrev pub is_at_most : ℕ → Value → Result Bool
is_at_most now (num n) = ok (leb n now)
is_at_most now (neg n) = ok true
is_at_most now (bool b) = ok (leb (bool_num b) now)
is_at_most now _ = raise Raised.type_error

module _ (digest : Value → String) {Binary : Type 0} (size : Binary → ℕ)
    (digest_bytes : Binary → String) where
  -- The context of a review: its scope, its window, the artifacts and the state that it names.
  unfoldable pub check_context : Scope → Value → Binary → Value → ℕ → Result (Unit {0})
  check_context selected context binary saved now = do
    fs ← keys context context_keys
    require (is_text (← item fs "schema") "E15B_DESTROY_REVIEW_V1")
    require (is_text (← item fs "scope_sha256") selected.scope_sha256)
    created ← item fs "created_at"
    expires ← item fs "expires_at"
    require (is_current created now expires)
    require (ltb 0 (size binary) && leb (size binary) 16777216)
    require (is_text (← item fs "binary_sha256") (digest_bytes binary))
    require (is_text (← item fs "json_sha256") (digest saved))
    require (is_text (← item fs "workspace") "default")
    state ← item fs "state"
    check_state state

  -- `review`, as far as the scope and the summary.
  unfoldable pub review_lines :
      Value → Fields → Binary → Value → Value → ℕ → Result (Scope × List Removal)
  review_lines value protected binary saved context now = do
    selected ← scope digest value protected
    check_context selected context binary saved now
    changes ← reviewed_changes saved
    layers ← item protected "layers" >>= dict_of
    layer ← item layers selected.layer >>= dict_of
    addresses ← item layer "addresses" >>= dict_of
    membership ← item layer "membership" >>= dict_of
    lines ← review_resources addresses membership [] changes
    ok (selected, lines)

  -- The record that `review` returns for its lines.
  unfoldable pub review_record : Scope → Value → List Removal → Value
  review_record s context lines = obj (
      unsigned_review s context lines
        (field "review_sha256" (str (digest (obj (unsigned_review s context lines end)))) end))

  unfoldable pub review : Value → Fields → Binary → Value → Value → ℕ → Result Value
  review value protected binary saved context now = do
    found ← review_lines value protected binary saved context now
    ok (review_record found.0 context found.1)

  unfoldable pub check_current_review : Fields → Value → Value → Binary → Value → ℕ → Result Value
  check_current_review reviewed selected state binary saved now = do
    require
        (is_text (get reviewed "review_sha256") (digest (obj (without "review_sha256" reviewed))))
    require (py_eq (← item reviewed "scope") selected)
    context ← item reviewed "context" >>= dict_of
    require (py_eq (← item context "state") state)
    begun ← item context "created_at" >>= is_at_most now
    require begun
    over ← item context "expires_at" >>= is_at_most now
    require (not over)
    require (is_text (← item context "binary_sha256") (digest_bytes binary))
    require (is_text (← item context "json_sha256") (digest saved))
    ok (
        obj (
          field "local_consistency" (bool true) (
            field "execution_authorized" (bool false)
              (field "state_authenticated" (bool false) end))))
