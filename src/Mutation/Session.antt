-- ===== src/Mutation/Session.antt =====
-- The methods of `Authority` in scripts/environment_mutation.py that read and write the store. Each
-- holds the invocation's mutex from its first line to its last one, so it is one action on the
-- invocation and the world.
use terragrunt_demo.Common.{
  ℕ, String, Bool, true, false, not, ◌&&◌, ◌||◌, Option, none, some, if◌then◌else◌, Result, ok,
  raise, Raised, require,
}
use terragrunt_demo.Common
use terragrunt_demo.Common.Exec.{Exec, pure, reads, modify, ◌>>=◌, ◌>>◌}
use terragrunt_demo.Json.{Value, py_eq}
use terragrunt_demo.Mutation.Domain.{schedules, is_cleanup}
use terragrunt_demo.Mutation.Document.{released, Lease, Schedule, Ownership}
use terragrunt_demo.Mutation.Store.{Provider, if_none_match, same_document, read, exchange}
use terragrunt_demo.Mutation.Authority.{
  Authority, is_released, admit, terminal_key, retained, terminal,
}

-- What a run of an operation reports.
pub data Status : Type 0 where
  success failure uncertain unknown planned : Status

-- What `execute` returns.
pub data Outcome : Type 0 where
  replayed : Value → Outcome
  unavailable : Outcome
  ran : Status → Outcome

abbrev pub is_success : Status → Bool
is_success success = true
is_success _ = false

-- `self.retained() == terminal`
abbrev pub is_terminal : Value → Option Value → Bool
is_terminal t none = false
is_terminal t (some found) = py_eq found t

-- `status in ("SUCCESS", "FAILURE")`, and the name that is then written
abbrev pub final_name : Option Status → Option String
final_name (some success) = some "SUCCESS"
final_name (some failure) = some "FAILURE"
final_name _ = none

-- `status in ("UNCERTAIN", "UNKNOWN")`
abbrev pub unresolved : Option Status → Bool
unresolved (some uncertain) = true
unresolved (some unknown) = true
unresolved _ = false

-- `self.value is not None and not self.closed`
abbrev pub held : Authority → Result Ownership
held a = elim a.value [
  | none ↦ raise Raised.rejected
  | some v ↦ Common.◌>>◌ (require (not a.closed)) (ok v)
]

-- `self.value[key]` for the keys of the lease; an acquired document has one.
abbrev pub lease_in : Ownership → Result Lease
lease_in v = elim v.lease [ none ↦ raise Raised.type_error | some l ↦ ok l ]

abbrev pub proof_of : Ownership → Lease → Schedule
proof_of v l = record {
  environment = v.environment;
  generation = v.generation;
  binding = l.binding;
  operation = l.operation;
}

pub record Session (World : Type 0) : Type 0 where
  pub authority : Authority
  pub world : World

-- The document of a release; a cleanup that succeeded takes its schedule away.
abbrev pub released_document : String → Bool → Ownership → Ownership
released_document binding successful mine = record mine {
  state = released;
  schedule = if is_cleanup binding && successful then none else mine.schedule;
}

module _ (p : Provider) where
  -- `self.store.read()`
  abbrev read_own : Session p.World → Result (Ownership × String)
  read_own s = read p s.authority.environment s.authority.selected s.world

  -- `self.store.exchange(value, etag)`
  unfoldable pub exchange_own : Ownership → String → Exec (Session p.World) String
  exchange_own value etag s =
      let (r, w) =
        exchange p s.authority.environment s.authority.selected value (some etag) s.world in
      (r, record s { world = w })

  -- `self.value = value`
  abbrev pub keep_value : Ownership → Session p.World → Session p.World
  keep_value v s = record s { authority = record s.authority { value = some v } }

  -- `_check`, as far as the document that was read.
  abbrev pub current : Ownership → Ownership × String → Result String
  current mine (observed, etag) =
      Common.◌>>◌ (require (same_document observed mine && not (is_released observed.state)))
        (ok etag)

  -- `_check`: the stored document is the one that this invocation wrote, and ACTIVE. The ETag.
  unfoldable pub check : Session p.World → Result String
  check s = Common.◌>>=◌ (held s.authority) (λ mine. Common.◌>>=◌ (read_own s) (current mine))

  -- `acquire`, the first time.
  unfoldable pub acquire_first : Exec (Session p.World) (Unit {0})
  acquire_first = do
    reads (λ s. require (not s.authority.closed))
    prior ← reads read_own
    value ← reads (λ s. admit p s.authority prior.0)
    _ ← exchange_own value prior.1
    modify (keep_value value)

  -- `acquire`, by what the invocation already holds: a second call only checks.
  unfoldable pub acquire_with : Option Ownership → Exec (Session p.World) (Unit {0})
  acquire_with (some _) = do _ ← reads check; pure tt
  acquire_with none = acquire_first

  unfoldable pub acquire : Exec (Session p.World) (Unit {0})
  unfolding acquire_with
  acquire s = acquire_with s.authority.value s

  -- `call`: the invocation owns the domain, then `function` runs, and it counts as touched even if
  -- `function` raises.
  unfoldable pub call : {A : Type 0} → Exec p.World A → Exec (Session p.World) A
  call function = do
    _ ← reads check
    modify (λ s. record s { authority = record s.authority { touched = true } })
    λ s. let (r, w) = function s.world in (r, record s { world = w })

  -- `if value != self.value`: write the document that carries the proof.
  unfoldable pub write_schedule : Ownership → Ownership → String → Exec (Session p.World) (Unit {0})
  write_schedule mine value etag =
      if same_document value mine
      then pure tt
      else do _ ← exchange_own value etag; modify (keep_value value)

  -- `schedule`: the document carries the proof that a cleanup is scheduled for this generation.
  unfoldable pub schedule : Exec (Session p.World) Schedule
  schedule = do
    etag ← reads check
    reads (λ s. require (schedules s.authority.binding))
    mine ← reads (λ s. held s.authority)
    lease ← reads (λ _. lease_in mine)
    write_schedule mine (record mine { schedule = some (proof_of mine lease) }) etag
    pure (proof_of mine lease)

  -- The terminal record of `finish`, written once and read back.
  unfoldable pub write_terminal : Ownership → Option String → Exec (Session p.World) (Unit {0})
  write_terminal mine none = pure tt
  write_terminal mine (some name) = do
    lease ← reads (λ _. lease_in mine)
    modify (λ s. record s {
      world =
          p.put_object s.world (terminal_key s.authority) (p.canonical (terminal p mine lease name))
            if_none_match;
    })
    found ← reads (λ s. retained p s.authority s.world)
    reads (λ _. require (is_terminal (terminal p mine lease name) found))

  -- `finish`, once it releases.
  unfoldable pub release : Bool → Option Status → Exec (Session p.World) (Unit {0})
  release successful status = do
    etag ← reads check
    mine ← reads (λ s. held s.authority)
    write_terminal mine (final_name status)
    binding ← reads (λ s. ok s.authority.binding)
    _ ← exchange_own (released_document binding successful mine) etag
    modify (λ s. record s { authority = record s.authority { closed = true } })

  -- `finish`: ownership is kept after a call that may have had an effect and is not a success.
  unfoldable pub finish : Bool → Option Status → Exec (Session p.World) (Unit {0})
  finish successful status s =
      if unresolved status || (s.authority.touched && not successful)
      then pure tt s
      else release successful status s

  -- After the admission: the body, then `finish` with its status.
  unfoldable pub admitted :
      Exec (Session p.World) (Option Status) → Result (Unit {0}) → Exec (Session p.World) Outcome
  admitted body (raise e) = pure unavailable
  admitted body (ok _) = do
    answer ← body
    status ← reads (λ _. Common.or_rejected answer)
    finish (is_success status) (some status)
    pure (ran status)

  -- `execute`: one attempt at admission, then the body, whose outcome decides the release. A `body`
  -- gives `none` where its result is no dictionary with one of the five statuses.
  unfoldable pub execute : Exec (Session p.World) (Option Status) → Exec (Session p.World) Outcome
  execute body s = elim (retained p s.authority s.world) [
    | raise e ↦ (ok unavailable, s)
    | ok (some t) ↦ (ok (replayed t), s)
    | ok none ↦ let (r, s') = acquire s in admitted body r s'
  ]
