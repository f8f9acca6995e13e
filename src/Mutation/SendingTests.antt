-- ===== src/Mutation/SendingTests.antt =====
-- Calls through `Client` of scripts/environment_mutation.py, on the storage of the other tests.
use terragrunt_demo.Common.{
  ℕ, String, ◌≡◌, refl, none, some, ◌⊎◌, ok, raise, Raised, startswith, endswith, is_sha256,
}
use terragrunt_demo.Common.Exec.{Exec}
use terragrunt_demo.Json.{Value, str, obj, arr, Fields, field, end, cons, nil, py_eq}
use terragrunt_demo.Mutation.Domain.{is_uuid, identity, domain, domain_of, schedules}
use terragrunt_demo.Mutation.Document.{initial, encode}
use terragrunt_demo.Mutation.Validate.{validate, validate_owner, validate_lease, validate_schedule}
use terragrunt_demo.Mutation.Store.{real_version, same_document, read, exchange, settle}
use terragrunt_demo.Mutation.Session.{check, call, schedule, write_schedule, exchange_own}
use terragrunt_demo.Mutation.Client.{
  Service, Client, send, prepare, prepare_schedule, with_transformer, cleanup_transformer, invoke,
  is_mutation,
}
use terragrunt_demo.Mutation.Sending.{Sent, invoke-Sent}
use terragrunt_demo.Mutation.Tests.{Objects, memory, stored, owning}

abbrev ascii : Value → String
ascii v = "{}"

abbrev client : Service → Client
client service = record { service = service; deadline = some 100 }

abbrev clock : Objects → ℕ
clock w = 60

-- A call that keeps its arguments in the storage.
abbrev keep : Fields → Exec Objects (Unit {0})
keep kwargs w =
    (ok tt, stored w "kept" (record { body = obj kwargs; etag = none; version_id = none }))

abbrev targets : Fields
targets =
    field "Targets"
      (arr (cons (obj (field "Id" (str "scale-down") (field "Arn" (str "arn:lambda") end))) nil))
      end

-- The call of the owner runs.
sends :
    (invoke memory ascii (client Service.ecs) clock "update_service" keep targets owning).0 ≡ ok tt
unfolding invoke prepare call send check read same_document validate validate_owner validate_lease
    validate_schedule encode py_eq real_version startswith endswith identity is_uuid domain
    domain_of is_sha256 initial
sends = refl

-- After the deadline it does not.
late :
    (invoke memory ascii (client Service.ecs) (λ _. 100) "update_service" keep targets owning).0
    ≡ raise Raised.rejected
unfolding invoke prepare call send check read same_document validate validate_owner validate_lease
    validate_schedule encode py_eq real_version startswith endswith identity is_uuid domain
    domain_of is_sha256 initial
late = refl

-- A target is scheduled with the proof of the owner's generation.
puts_target :
    (invoke memory ascii (client Service.events) clock "put_targets" keep targets owning).0 ≡ ok tt
unfolding invoke prepare prepare_schedule with_transformer cleanup_transformer call send schedule
    write_schedule exchange_own exchange settle check read same_document validate validate_owner
    validate_lease validate_schedule encode py_eq real_version startswith endswith identity is_uuid
    domain domain_of is_sha256 initial schedules
puts_target = refl

refused : is_mutation (client Service.ecs) "delete_service" ≡ raise Raised.rejected
unfolding is_mutation startswith
refused = refl

invoke-Sent_example :
    ((invoke memory ascii (client Service.ecs) clock "update_service" keep targets owning).1.world
      ≡ (prepare memory ascii (client Service.ecs) "update_service" targets owning).1.world)
    ⊎ ((prepared : Fields) × ((prepare memory ascii
            (client Service.ecs)
            "update_service"
            targets
            owning).0
          ≡ ok prepared)
        × Sent memory ascii
            (client Service.ecs)
            clock
            keep
            prepared
            (prepare memory ascii (client Service.ecs) "update_service" targets owning).1
            (invoke memory ascii (client Service.ecs) clock "update_service" keep targets owning))
invoke-Sent_example =
    invoke-Sent memory ascii (client Service.ecs) clock "update_service" keep targets owning
