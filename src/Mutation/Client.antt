-- ===== src/Mutation/Client.antt =====
-- `Client` of scripts/environment_mutation.py, with `cleanup_transformer`, `scheduled_target` and
-- `mutation_deadline`: the calls of an AWS client go through the invocation that owns the domain.
-- `ascii` is `canonical(…).decode("ascii").strip()`, from the canonical bytes on.
use Prim.Native.String.{◌++◌}
use terragrunt_demo.Common.{
  ℕ, String, Bool, true, false, not, ◌&&◌, ◌||◌, Option, none, some, List, [], ◌∷◌, ◌==◌, ltb,
  if◌then◌else◌, all, elem, Result, ok, raise, Raised, require, startswith,
}
use terragrunt_demo.Common
use terragrunt_demo.Common.Exec.{Exec, pure, reads, ◌>>=◌}
use terragrunt_demo.Json.{Value, str, obj, arr, Fields, field, end, cons, nil, names, is_text}
use terragrunt_demo.Dicts.{dict_of, get}
use terragrunt_demo.Mutation.Document.{Schedule, encode_schedule}
use terragrunt_demo.Mutation.Store.{Provider}
use terragrunt_demo.Mutation.Authority.{Authority}
use terragrunt_demo.Mutation.Session.{Session, call, schedule}

-- The keys of `MUTATIONS`.
pub data Service : Type 0 where
  ecs elbv2 events : Service

abbrev pub mutations : Service → List String
mutations ecs = "register_task_definition" ∷ "update_service" ∷ []
mutations elbv2 = "modify_listener" ∷ "modify_rule" ∷ []
mutations events = "put_rule" ∷ "put_targets" ∷ "remove_targets" ∷ "delete_rule" ∷ []

abbrev pub service_of : String → Result Service
service_of name =
    if name == "ecs"
    then ok ecs
    else if name == "elbv2"
    then ok elbv2
    else if name == "events"
    then ok events
    else raise Raised.rejected

-- A client over an invocation; `none` where the deadline is not an integer.
pub record Client : Type 0 where
  pub service : Service
  pub deadline : Option ℕ

-- `__init__`
unfoldable pub new_client : String → Authority → Option ℕ → Result Client
new_client name authority deadline = Common.◌>>=◌ (service_of name) (λ service.
    Common.◌>>◌ (require (authority.selected == "application"))
      (ok (record { service = service; deadline = deadline })))

-- `d[k] = v`
abbrev pub put : String → Value → Fields → Fields
put k v end = field k v end
put k v (field j w fs) = let rest = put k v fs in if j == k then field j v fs else field j w rest

-- `__getattr__`, as far as the choice: a mutation of the service, or a call that only reads.
unfoldable pub is_mutation : Client → String → Result Bool
is_mutation c name =
    if elem name (mutations c.service)
    then ok true
    else Common.◌>>◌
        (require (startswith name "describe_" || startswith name "list_" || startswith name "get_"))
        (ok false)

-- `self.service == "events" and name in ("put_rule", "put_targets")`
abbrev pub is_scheduling : Service → String → Bool
is_scheduling events name = name == "put_rule" || name == "put_targets"
is_scheduling _ name = false

-- The one target of a call of `put_targets`.
abbrev pub one_target : Value → Result Fields
one_target (arr (cons target nil)) = dict_of target
one_target _ = raise Raised.rejected

-- `mutation_deadline`, over clients and other ports, which are `none`.
unfoldable pub mutation_deadline : Option ℕ → List (Option Client) → Result (List (Option Client))
mutation_deadline deadline [] = ok []
mutation_deadline deadline (none ∷ clients) =
    Common.◌>>=◌ (mutation_deadline deadline clients) (λ rest. ok (none ∷ rest))
mutation_deadline none (some c ∷ clients) = raise Raised.rejected
mutation_deadline (some d) (some c ∷ clients) =
    Common.◌>>=◌ (mutation_deadline (some d) clients)
      (λ rest. ok (some (record c { deadline = some d }) ∷ rest))

module _ (p : Provider) (ascii : p.Body → String) where
  abbrev pub template : Schedule → String
  template proof =
      "{\"source\":\"aws.events\",\"detail-type\":\"Scheduled Event\",\"id\":<id>,"
      ++ "\"account\":<account>,\"region\":<region>,\"resources\":<resources>,\"e2\":"
      ++ ascii (p.canonical (encode_schedule (some proof)))
      ++ "}"

  -- `cleanup_transformer`
  unfoldable pub cleanup_transformer : Schedule → Value
  cleanup_transformer proof = obj (
      field "InputPathsMap"
        (obj (
          field "id" (str "$.id") (
            field "account" (str "$.account")
              (field "region" (str "$.region") (field "resources" (str "$.resources") end)))))
        (field "InputTemplate" (str (template proof)) end))

  -- `scheduled_target`, by the invocation of the client; `none` for a port that is no client.
  unfoldable pub scheduled_target : Option Authority → Fields → Result Fields
  scheduled_target none target = ok target
  scheduled_target (some authority) target = elim authority.value [
    | none ↦ raise Raised.type_error
    | some v ↦ elim v.schedule [
      | none ↦ raise Raised.rejected
      | some proof ↦ ok (put "InputTransformer" (cleanup_transformer proof) target)
    ]
  ]

  -- The target with the transformer that carries the schedule's proof.
  unfoldable pub with_transformer : Schedule → Fields → Result Fields
  with_transformer proof kwargs = Common.◌>>=◌ (one_target (get kwargs "Targets")) (λ target.
      Common.◌>>◌
        (require (
          is_text (get target "Id") "scale-down"
          && all (λ k. elem k ("Id" ∷ "Arn" ∷ [])) (names target)))
        (ok (
          put "Targets"
            (arr (cons (obj (put "InputTransformer" (cleanup_transformer proof) target)) nil))
            kwargs)))

  -- The arguments of a call that needs a schedule, once its proof is in the document.
  abbrev pub scheduled_arguments : String → Fields → Schedule → Result Fields
  scheduled_arguments name kwargs proof =
      if name == "put_targets" then with_transformer proof kwargs else ok kwargs

  unfoldable pub prepare_schedule : String → Fields → Exec (Session p.World) Fields
  prepare_schedule name kwargs = do
    proof ← schedule p
    reads (λ _. scheduled_arguments name kwargs proof)

  -- The arguments that are sent: those of `put_targets` get the transformer.
  unfoldable pub prepare : Client → String → Fields → Exec (Session p.World) Fields
  prepare c name kwargs =
      if is_scheduling c.service name then prepare_schedule name kwargs else pure kwargs

  -- `send`: the deadline is looked at last. The clock gives whole seconds; a time is before a whole
  -- second exactly if its whole part is.
  unfoldable pub send :
      {A : Type 0} → Client → (p.World → ℕ) → (Fields → Exec p.World A) → Fields → Exec p.World A
  send c clock function kwargs w = elim c.deadline [
    | none ↦ (raise Raised.rejected, w)
    | some d ↦ if ltb (clock w) d then function kwargs w else (raise Raised.rejected, w)
  ]

  -- `invoke`
  unfoldable pub invoke :
      {A : Type 0}
      → Client
      → (p.World → ℕ)
      → String
      → (Fields → Exec p.World A)
      → Fields
      → Exec (Session p.World) A
  invoke c clock name function kwargs = do
    prepared ← prepare c name kwargs
    call p (send c clock function prepared)
