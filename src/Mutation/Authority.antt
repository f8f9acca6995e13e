-- ===== src/Mutation/Authority.antt =====
-- `Authority` of scripts/environment_mutation.py: one invocation that owns a conflict domain. The
-- constructor, the admission to the domain, and the terminal record that outlives the invocation.
use Prim.Native.String.{◌++◌}
use terragrunt_demo.Common.{
  ◌+◌, ◌-◌, String, Bool, true, false, not, ◌&&◌, ◌||◌, Option, none, some, List, [], ◌∷◌, ◌==◌,
  ltb, leb, if◌then◌else◌, Result, ok, raise, Raised, ◌>>=◌, ◌>>◌, require, endswith,
}
use terragrunt_demo.Json.{
  Value, num, str, obj, Fields, end, field, item, same_keys, is_text, in_texts, without,
}
use terragrunt_demo.Mutation.Domain.{domain_of, identity, is_cleanup}
use terragrunt_demo.Mutation.Document.{
  State, active, released, Lease, Schedule, Ownership, encode_schedule,
}
use terragrunt_demo.Mutation.Validate.{max_generation}
use terragrunt_demo.Mutation.Store.{Provider, real_version}

pub record Authority : Type 0 where
  pub environment : String
  pub selected : String
  pub binding : String
  pub operation : String
  pub request_sha256 : String
  pub owner : String
  pub cleanup : Option Value
  pub value : Option Ownership
  pub touched : Bool
  pub closed : Bool

-- The lease that the invocation writes when it acquires.
abbrev pub lease_of : Authority → Lease
lease_of a = record {
  owner = a.owner;
  operation = a.operation;
  binding = a.binding;
  request_sha256 = a.request_sha256;
}

abbrev pub is_released : State → Bool
is_released released = true
is_released active = false

-- `prior["binding"] == self.binding and prior["operation"] == self.operation`
abbrev pub same_operation : Option Lease → Authority → Bool
same_operation none a = false
same_operation (some l) a = l.binding == a.binding && l.operation == a.operation

abbrev pub no_cleanup : Option Value → Bool
no_cleanup none = true
no_cleanup (some _) = false

module _ (p : Provider) where
  -- `__init__`, over a store of `environment` and `selected`; `owner` is the new UUID.
  unfoldable pub new :
      String
      → String
      → String
      → Value
      → Value
      → Option String
      → Option Value
      → String
      → Result Authority
  new environment selected binding operation request layer cleanup owner = do
    found ← domain_of binding layer
    require (found == selected && endswith binding ("-" ++ environment))
    op ← identity operation
    ok (record {
      environment = environment;
      selected = selected;
      binding = binding;
      operation = op;
      request_sha256 = p.sha256 (p.canonical request);
      owner = owner;
      cleanup = cleanup;
      value = none;
      touched = false;
      closed = false;
    })

  -- The cleanup that a cleanup invocation was installed with is the schedule of the document, and
  -- no other invocation has one.
  unfoldable pub admit_cleanup : Authority → Option Schedule → Result (Unit {0})
  admit_cleanup a schedule =
      if is_cleanup a.binding
      then elim a.cleanup [
        | none ↦ raise Raised.rejected
        | some c ↦ require (p.same (p.canonical (encode_schedule schedule)) (p.canonical c))
      ]
      else require (no_cleanup a.cleanup)

  -- `acquire`, between its read and its write: the document to write.
  unfoldable pub admit : Authority → Ownership → Result Ownership
  admit a prior = do
    require (is_released prior.state)
    require (not (same_operation prior.lease a))
    admit_cleanup a prior.schedule
    require (ltb prior.generation (max_generation - 1))
    ok (record prior {
      generation = prior.generation + 1;
      state = active;
      lease = some (lease_of a);
      schedule = if is_cleanup a.binding then prior.schedule else none;
    })

abbrev pub terminal_keys : List String
terminal_keys =
    "environment" ∷ "domain" ∷ "binding" ∷ "operation" ∷ "request_sha256" ∷ "generation" ∷ "status"
    ∷ "sha256" ∷ []

abbrev pub terminal_key : Authority → String
terminal_key a =
    "arbitration/" ++ a.environment ++ "/terminals/" ++ a.binding ++ "/" ++ a.operation ++ ".json"

-- `type(n) is int and n > 0`
abbrev pub is_positive : Value → Bool
is_positive (num n) = ltb 0 n
is_positive _ = false

abbrev pub items_of : Value → Result Fields
items_of (obj fs) = ok fs
items_of _ = raise Raised.rejected

module _ (p : Provider) (a : Authority) where
  -- The checks of a terminal record that was read.
  unfoldable pub check_terminal : Value → Option String → Result Value
  check_terminal value version_id = do
    fs ← items_of value
    require (same_keys fs terminal_keys)
    require (is_text (← item fs "sha256") (p.sha256 (p.canonical (obj (without "sha256" fs)))))
    require (is_text (← item fs "environment") a.environment)
    require (is_text (← item fs "domain") a.selected)
    require (is_text (← item fs "binding") a.binding)
    require (is_text (← item fs "operation") a.operation)
    require (is_text (← item fs "request_sha256") a.request_sha256)
    require (is_positive (← item fs "generation"))
    require (in_texts (← item fs "status") ("SUCCESS" ∷ "FAILURE" ∷ []))
    require (real_version version_id)
    ok value

  -- The handler of `retained`: only a missing object means that there is no terminal.
  abbrev pub missing : Raised → Result (Option Value)
  missing (Raised.provider code) =
      if code == "NoSuchKey" || code == "404" then ok none else raise (Raised.provider code)
  missing e = raise e

  -- `retained`: the terminal record of this operation, if it has been written.
  unfoldable pub retained : p.World → Result (Option Value)
  retained w = elim (p.get_object w (terminal_key a)) [
    | raise e ↦ missing e
    | ok r ↦ do
      value ← p.loads r.body
      require (leb (p.size r.body) 4096)
      require (p.same (p.canonical value) r.body)
      checked ← check_terminal value r.version_id
      ok (some checked)
  ]

module _ (p : Provider) where
  -- The terminal record that `finish` writes for a status.
  abbrev pub unsigned_terminal : Ownership → Lease → String → Fields
  unsigned_terminal v l status = field "binding" (str l.binding) (
      field "domain" (str v.domain) (
        field "environment" (str v.environment) (
          field "generation" (num v.generation) (
            field "operation" (str l.operation)
              (field "request_sha256" (str l.request_sha256) (field "status" (str status) end))))))

  unfoldable pub terminal : Ownership → Lease → String → Value
  terminal v l status =
      let fs = unsigned_terminal v l status in
      obj (field "sha256" (str (p.sha256 (p.canonical (obj fs)))) fs)
