-- ===== src/Mutation/Store.antt =====
-- `Store` of scripts/environment_mutation.py. S3, `json` and `hashlib` are parameters: `Provider`
-- holds what the code calls. Acknowledgements of writes are not part of it, since the code ignores
-- them: a write gives the world in which it has been tried, whether it took effect or not.
use Prim.Native.String.{◌++◌}
use terragrunt_demo.Common.{
  ℕ, String, Bool, false, not, ◌&&◌, ◌||◌, Option, none, some, ◌==◌, ltb, leb, Result, ok, raise,
  Raised, ◌>>=◌, ◌>>◌, require, lowers_to,
}
use terragrunt_demo.Json.{Value, py_eq}
use terragrunt_demo.Mutation.Document.{Ownership, initial, encode}
use terragrunt_demo.Mutation.Validate.{validate}

-- A stored object as `get_object` returns it; `none` where a response has no such text.
pub record Response (Body : Type 0) : Type 0 where
  pub body : Body
  pub etag : Option String
  pub version_id : Option String

-- The condition of `put_object`: `IfNoneMatch="*"` or `IfMatch=etag`.
pub data Condition : Type 0 where
  if_none_match : Condition
  if_match : String → Condition

pub record Provider : Type 1 where
  pub Body : Type 0
  pub World : Type 0
  pub get_object : World → String → Result (Response Body)
  pub put_object : World → String → Body → Condition → World
  pub size : Body → ℕ
  pub loads : Body → Result Value
  pub canonical : Value → Body
  pub same : Body → Body → Bool
  pub sha256 : Body → String

-- `type(v) is str and v.lower() not in ("", "null", "latest")`
unfoldable pub real_version : Option String → Bool
unfolding lowers_to
real_version none = false
real_version (some v) = not (lowers_to v "" || lowers_to v "null" || lowers_to v "latest")

-- `type(etag) is str and bool(etag)`
abbrev pub etag_of : Option String → Result String
etag_of none = raise Raised.rejected
etag_of (some etag) = require (not (etag == "")) >> ok etag

-- `observed == value`, for two documents
unfoldable pub same_document : Ownership → Ownership → Bool
same_document a b = py_eq (encode a) (encode b)

abbrev pub store_key : String → String → String
store_key environment selected = "arbitration/" ++ environment ++ "/" ++ selected ++ ".json"

abbrev condition_of : Option String → Condition
condition_of none = if_none_match
condition_of (some etag) = if_match etag

module _ (p : Provider) (environment selected : String) where
  -- `Store.read`: the document and its ETag.
  unfoldable pub read : p.World → Result (Ownership × String)
  read w = do
    r ← p.get_object w (store_key environment selected)
    require (ltb 0 (p.size r.body) && leb (p.size r.body) 16384)
    value ← p.loads r.body
    require (p.same (p.canonical value) r.body)
    document ← validate value environment selected
    etag ← etag_of r.etag
    require (real_version r.version_id)
    ok (document, etag)

  -- The one read that settles a write.
  unfoldable pub settle : Ownership → p.World → Result String
  settle value w = do observed ← read w; require (same_document observed.0 value); ok observed.1

  -- `Store.exchange`: the write is tried once, and its answer ignored.
  unfoldable pub exchange : Ownership → Option String → p.World → Result String × p.World
  exchange value etag w = elim (validate (encode value) environment selected) [
    | raise e ↦ (raise e, w)
    | ok _ ↦
        let w' =
          p.put_object w (store_key environment selected) (p.canonical (encode value))
            (condition_of etag) in
        (settle value w', w')
  ]

  -- `Store.initialize`, the administrator's step.
  unfoldable pub initialize : p.World → Result String × p.World
  initialize w = elim (initial environment selected) [
    | raise e ↦ (raise e, w)
    | ok start ↦ exchange start none w
  ]
