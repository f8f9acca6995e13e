-- ===== src/Qualification/Finalizer.antt =====
-- The ports of scripts/qualification/finalizer.py, and `finalize` with them.
use Prim.Native.String.{◌++◌}
use terragrunt_demo.Common.{
  ℕ, String, Bool, true, false, leb, if◌then◌else◌, Result, raise, Raised, require,
}
use terragrunt_demo.Common.Action.{Action, pure, fail, lift, rescue, ◌>>=◌, ◌>>◌}
use terragrunt_demo.Json.{Value, str, obj, Fields, end, item}
use terragrunt_demo.Dicts.{put_item}
use terragrunt_demo.Qualification.Schema.{validate_value}
use terragrunt_demo.Qualification.Checks.{
  Contracts, Finalizer, at, matches, check_operation, check_result, check_candidate, new_record,
}

-- The exact version of a manifest that was read. An answer that is not a dictionary of these four
-- items, the last of them bytes, is `malformed`.
pub data Receipt (Raw : Type 0) : Type 0 where
  receipt : (bucket key version_id : Value) (bytes : Raw) → Receipt Raw
  malformed : Receipt Raw

-- `Evidence` and `Qualifications`, and what the code uses of `json`, `hashlib` and `re`. A method
-- may raise, and may change the world while it does. `loads` refuses an object with a key twice;
-- `frames` is the number of calls of one function inside each other that Python allows.
pub record Ports : Type 1 where
  pub World : Type 0
  pub Raw : Type 0
  pub operation : Value → Action World Value
  pub build : Value → Action World Value
  pub result : Value → Value → Action World Value
  pub manifest : Value → Value → Value → Action World (Receipt Raw)
  pub create : String → Raw → Action World (Unit {0})
  pub read : String → Action World Raw
  pub size : Raw → ℕ
  pub loads : Raw → Result Value
  pub canonical : Value → Raw
  pub same_raw : Raw → Raw → Bool
  pub sha : Raw → String
  pub fullmatch : String → String → Bool
  pub frames : ℕ

abbrev pub is_conflict : Raised → Bool
is_conflict Raised.file_exists = true
is_conflict _ = false

module _ (p : Ports) (c : Contracts) where
  -- `decode(raw)`
  unfoldable pub decode : p.Raw → Result Value
  decode raw = if leb (p.size raw) 1048576 then p.loads raw else raise Raised.rejected

  -- `_validate(value, schema, definitions)`
  abbrev pub conforms : Fields → Value → Value → Result (Unit {0})
  conforms = validate_value p.fullmatch p.frames

  -- `validate(kind, value)`
  unfoldable pub validate : String → Value → Action p.World (Unit {0})
  validate kind value = do
    schema ← lift (item c.definitions kind)
    lift (conforms c.definitions value schema)

  -- The manifest that was read, against the one that the result names; the bytes are the answer.
  unfoldable pub check_receipt : Value → Receipt p.Raw → Action p.World p.Raw
  check_receipt manifest malformed = fail Raised.rejected
  check_receipt manifest (receipt bucket key version_id bytes) = do
    lift (matches manifest "bucket" bucket)
    lift (matches manifest "key" key)
    lift (matches manifest "version_id" version_id)
    lift (matches manifest "sha256" (str (p.sha bytes)))
    pure bytes

  -- `self.evidence.manifest(manifest['bucket'], manifest['key'], manifest['version_id'])`
  unfoldable pub read_manifest : Value → Action p.World p.Raw
  read_manifest manifest = do
    bucket ← lift (at manifest "bucket")
    key ← lift (at manifest "key")
    version_id ← lift (at manifest "version_id")
    found ← p.manifest bucket key version_id
    check_receipt manifest found

  abbrev pub release_id : Fields → String
  release_id body = "sha256-" ++ p.sha (p.canonical (obj body))

  abbrev pub identified : Fields → Fields
  identified body = put_item "release_id" (str (release_id body)) body

  abbrev pub record_key : Fields → String
  record_key body = "qualifications/demo-api/" ++ release_id body ++ ".json"

  -- The record is created, or stands there already: what is read back counts.
  unfoldable pub persist : Fields → Action p.World Fields
  persist body = do
    validate "qualification" (obj (identified body))
    rescue (p.create (record_key body) (p.canonical (obj (identified body))))
        (λ e. if is_conflict e then pure tt else fail e)
    found ← p.read (record_key body)
    lift (require (p.same_raw found (p.canonical (obj (identified body)))))
    pure (identified body)

  -- From the manifest on.
  unfoldable pub qualify : Finalizer → Value → Value → Value → Action p.World Fields
  qualify self op result manifest = do
    bytes ← read_manifest manifest
    candidate ← lift (decode bytes)
    lift (conforms end candidate c.release_manifest)
    lift (check_candidate self op result candidate)
    body ← lift (new_record self c.runtime op result manifest)
    persist body

  -- `_finalize`
  unfoldable pub finalize_from : Finalizer → Value → Action p.World Fields
  finalize_from self wakeup = do
    validate "wakeup" wakeup
    woken ← lift (at wakeup "operation_id")
    op ← p.operation woken
    validate "operation" op
    lift (check_operation self op wakeup)
    build_id ← lift (at op "build_id")
    build ← p.build build_id
    validate "build" build
    operation_id ← lift (at op "operation_id")
    result ← p.result operation_id build_id
    validate "result" result
    manifest ← lift (check_result self c.required_checks op build result)
    qualify self op result manifest

  unfoldable pub finalize : Finalizer → Value → Action p.World Fields
  finalize self wakeup = rescue (finalize_from self wakeup) (λ _. fail Raised.rejected)

  -- The checks of `validate_eligibility`.
  unfoldable pub eligible : Value → Value → Action p.World Value
  eligible eligibility release = do
    validate "eligibility" eligibility
    lift (matches eligibility "release_id" release)
    pure eligibility

  unfoldable pub validate_eligibility : Value → Value → Action p.World Value
  validate_eligibility eligibility release =
      rescue (eligible eligibility release) (λ _. fail Raised.rejected)
