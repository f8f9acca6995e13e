-- ===== src/DevDown/Consent.antt =====
-- `scope`, `acknowledgements`, `confirm` and `check_data_consent` of scripts/lifecycle/dev_down.py.
-- `digest` is `digest(canonical(value))` of scripts/lifecycle/contract.py.
use Prim.Native.String.{◌++◌}
use terragrunt_demo.Common.{
  ℕ, String, Bool, false, ◌&&◌, List, [], ◌∷◌, leb, ltb, all, elem, codes, fits, times, is_digit,
  Result, ok, ◌>>=◌, ◌>>◌, require,
}
use terragrunt_demo.Json.{Value, str, num, obj, Fields, field, end, item, py_eq, is_text}
use terragrunt_demo.Dicts.{keys, dict_of, require_str, get}
use terragrunt_demo.Ci.FilePath.{Text, split}
use terragrunt_demo.Contract.Request.{Request, request, is_teardown}
use terragrunt_demo.Contract.Authorize.{layer_keys, is_in}

abbrev pub down : List String
down = "edge" ∷ "apps" ∷ "platform" ∷ "data" ∷ "global" ∷ []

abbrev pub binding : String
binding = "environment-lifecycle/infra-high-risk-dev"

abbrev pub policy : String
policy = "TERRAGRUNT_DEMO_DEV_SQL_DISPOSABLE_WITH_EXPLICIT_LOSS_ACK"

-- `[0-9]{12}`
unfoldable pub is_account : String → Bool
is_account s = fits (times 12 is_digit []) (codes s)

abbrev pub is_letter : ℕ → Bool
is_letter c = leb b'a' c && leb c b'z'

abbrev pub is_word : Text → Bool
is_word [] = false
is_word (c ∷ s) = all is_letter (c ∷ s)

-- The parts of a region after the first: words, at least one, and a digit.
abbrev pub are_words : List Text → Bool
are_words [] = false
are_words (last ∷ []) = fits (is_digit ∷ []) last
are_words (word ∷ next ∷ rest) = is_word word && are_words (next ∷ rest)

abbrev pub is_region_parts : List Text → Bool
is_region_parts (country ∷ word ∷ last ∷ rest) =
    fits (times 2 is_letter []) country && are_words (word ∷ last ∷ rest)
is_region_parts _ = false

-- `[a-z]{2}(?:-[a-z]+)+-[0-9]`
unfoldable pub is_region : String → Bool
is_region s = is_region_parts (split b'-' (codes s))

-- What a consent and a review are about.
pub record Scope : Type 0 where
  pub account : String
  pub region : String
  pub operation_id : String
  pub layer : String
  pub revision : String
  pub source_commit : Value
  pub request_sha256 : String
  pub installed_layer_sha256 : String
  pub root : Value
  pub backend : Value
  pub scope_sha256 : String

abbrev pub expected_backend : String → String → String → Value
expected_backend account region layer = obj (
    field "bucket" (str ("e1-lifecycle-dev-" ++ account ++ "-" ++ region)) (
      field "key" (str ("e1/lifecycle/dev/" ++ layer ++ "/terraform.tfstate"))
        (field "region" (str region) end)))

-- The dictionary of a scope without its digest, and with it.
abbrev pub scope_fields : Scope → Fields → Fields
scope_fields s rest = field "application" (str "terragrunt_demo") (
    field "environment" (str "dev") (
      field "account" (str s.account) (
        field "region" (str s.region) (
          field "binding" (str binding) (
            field "operation_id" (str s.operation_id) (
              field "layer" (str s.layer) (
                field "revision" (str s.revision) (
                  field "source_commit" s.source_commit (
                    field "request_sha256" (str s.request_sha256) (
                      field "installed_layer_sha256" (str s.installed_layer_sha256) (
                        field "root" s.root (
                          field "backend" s.backend (
                            field "workspace" (str "default")
                              (field "sql_policy" (str policy) rest))))))))))))))

abbrev pub unsigned_scope : Scope → Value
unsigned_scope s = obj (scope_fields s end)

abbrev pub encode_scope : Scope → Value
encode_scope s = obj (scope_fields s (field "scope_sha256" (str s.scope_sha256) end))

-- The two sentences of a consent.
abbrev pub identity : Scope → String
identity s = s.account ++ " " ++ s.region ++ " " ++ s.operation_id ++ " " ++ s.scope_sha256

unfoldable pub destroy_ack : Scope → String
destroy_ack s = "DESTROY terragrunt_demo DEV " ++ identity s

unfoldable pub sql_loss_ack : Scope → String
sql_loss_ack s = "PERMANENTLY LOSE terragrunt_demo DEV SQL DATA " ++ identity s

abbrev pub consent_keys : List String
consent_keys =
    "schema" ∷ "scope_sha256" ∷ "issued_at" ∷ "expires_at" ∷ "destroy_ack" ∷ "sql_loss_ack" ∷ []

-- `type(a) is int and type(b) is int and 0 <= a <= now < b`
unfoldable pub is_current : Value → ℕ → Value → Bool
is_current (num issued) now (num expires) = leb issued now && ltb now expires
is_current _ now _ = false

module _ (digest : Value → String) where
  abbrev pub sealed : Scope → Scope
  sealed s = record s { scope_sha256 = digest (unsigned_scope s) }

  -- The installed layer of a scope: its root, its state and its provider.
  unfoldable pub scope_layer : String → String → Request → Fields → Result Fields
  scope_layer account region r protected = do
    layers ← item protected "layers" >>= dict_of
    layer ← item layers r.layer >>= λ v. keys v layer_keys
    require (is_text (← item layer "root") ("terraform/modules/target/dev/" ++ r.layer))
    require (py_eq (← item layer "backend") (expected_backend account region r.layer))
    variables ← item layer "variables" >>= dict_of
    require
        (is_text (get variables "account_id") account && is_text (get variables "region") region)
    ok layer

  -- The active installation of a scope's revision: its source commit.
  unfoldable pub scope_source : Request → Fields → Result Value
  scope_source r protected = do
    installations ← item protected "installations" >>= dict_of
    reference ← item installations r.revision >>= dict_of
    require (is_text (← item reference "binding") binding)
    require (is_text (← item reference "sha256") r.revision)
    active ← item protected "active_contracts" >>= is_in r.revision
    require active
    item reference "source_commit"

  unfoldable pub scope : Value → Fields → Result Scope
  scope value protected = do
    r ← request binding value
    require (is_teardown r.operation && elem r.layer down)
    require (is_text (← item protected "binding") binding)
    require (is_text (← item protected "environment") "dev")
    account_value ← item protected "account"
    region_value ← item protected "region"
    account ← require_str account_value
    require (is_account account)
    region ← require_str region_value
    require (is_region region)
    layer ← scope_layer account region r protected
    source_commit ← scope_source r protected
    ok (
        sealed (record {
          account = account;
          region = region;
          operation_id = r.operation_id;
          layer = r.layer;
          revision = r.revision;
          source_commit = source_commit;
          request_sha256 = digest (obj r.fields);
          installed_layer_sha256 = digest (obj layer);
          root = get layer "root";
          backend = get layer "backend";
          scope_sha256 = "";
        }))

  unfoldable pub confirm : Scope → Value → ℕ → Result String
  confirm selected consent now = do
    fs ← keys consent consent_keys
    require (is_text (← item fs "schema") "E15B_DEV_CONSENT_V1")
    require (is_text (← item fs "scope_sha256") selected.scope_sha256)
    issued ← item fs "issued_at"
    expires ← item fs "expires_at"
    require (is_current issued now expires)
    destroys ← item fs "destroy_ack"
    loses ← item fs "sql_loss_ack"
    require (is_text destroys (destroy_ack selected) && is_text loses (sql_loss_ack selected))
    ok (digest consent)

  unfoldable pub check_data_consent : Value → Fields → ℕ → Result String
  check_data_consent value protected now = do
    selected ← scope value protected
    approvals ← item protected "teardown_approvals" >>= dict_of
    confirm selected (get approvals ("dev-sql-loss/" ++ selected.operation_id)) now
