-- ===== src/Mutation/Tests.antt =====
-- A storage that keeps JSON values, and runs of scripts/environment_mutation.py on it.
use Prim.Native.String.{◌++◌}
use terragrunt_demo.Common.{
  ℕ, String, ◌≡◌, refl, true, false, Option, none, some, [], ◌∷◌, In, ◌==◌, if◌then◌else◌, ok,
  raise, Raised, arith, is_sha256, startswith, endswith, Result, ◌≤◌, ◌≢◌, eq_iff, ap,
}
use terragrunt_demo.Json.{Value, str, py_eq}
use terragrunt_demo.Mutation.Domain.{is_uuid, identity, domain, domain_of, is_cleanup}
use terragrunt_demo.Mutation.Document.{active, Lease, Ownership, initial_document, initial, encode}
use terragrunt_demo.Mutation.Validate.{
  validate, validate_owner, validate_initial, validate_lease, validate_schedule,
}
use terragrunt_demo.Mutation.Validity.{IsLease, IsOwned, IsValid, validate-IsValid}
use terragrunt_demo.Mutation.Roundtrip.{validate-encode}
use terragrunt_demo.Mutation.Store.{
  Response, Condition, if_none_match, if_match, Provider, real_version, same_document, read, settle,
  exchange, initialize, store_key,
}
use terragrunt_demo.Mutation.Authority.{
  Authority, lease_of, new, admit, admit_cleanup, retained, check_terminal, terminal,
}
use terragrunt_demo.Mutation.Admission.{new-IsLease, admit-IsValid}
use terragrunt_demo.Mutation.Session.{
  Session, success, uncertain, check, acquire, acquire_first, acquire_with, exchange_own, call,
  finish, release, write_terminal,
}
use terragrunt_demo.Mutation.Holding.{IsOwner, checks_exclude}
use terragrunt_demo.Mutation.Acquire.{
  Acquired, acquire-Acquired, acquire_fails, Released, release-Released,
}
use terragrunt_demo.Mutation.Protocol.{
  System, Write, Reach, Step, Quiet, Sends, generation_has_one_owner, ownership_stays,
}

abbrev pub Objects : Type 0
Objects = String → Option (Response Value)

abbrev pub stored : Objects → String → Response Value → Objects
stored w key r k = if k == key then some r else w k

-- The ETag grows by one letter with each write of a key.
abbrev conditional_put : Objects → String → Value → Condition → Option (Response Value) → Objects
conditional_put w key body if_none_match none =
    stored w key (record { body = body; etag = some "e"; version_id = some "v" })
conditional_put w key body if_none_match (some r) = w
conditional_put w key body (if_match etag) none = w
conditional_put w key body (if_match etag) (some r) = elim r.etag [
  | none ↦ w
  | some current ↦
      if current == etag
      then stored w key
          (record { body = body; etag = some (current ++ "e"); version_id = some "v" })
      else w
]

abbrev not_found : Option (Response Value) → Result (Response Value)
not_found none = raise (Raised.provider "NoSuchKey")
not_found (some r) = ok r

abbrev pub memory : Provider
memory = record {
  Body = Value;
  World = Objects;
  get_object = λ w key. not_found (w key);
  put_object = λ w key body condition. conditional_put w key body condition (w key);
  size = λ _. 512;
  loads = λ v. ok v;
  canonical = λ v. v;
  same = py_eq;
  sha256 = λ _. "00000000000000000000000000000000000000000000000000000000000000ff";
}

abbrev empty : Objects
empty k = none

abbrev alice : String
alice = "11111111-1111-4111-8111-111111111111"

abbrev bob : String
bob = "22222222-2222-4222-8222-222222222222"

abbrev operation : String
operation = "33333333-3333-4333-8333-333333333333"

abbrev digest : String
digest = "00000000000000000000000000000000000000000000000000000000000000ff"

abbrev lease : Lease
lease = record {
  owner = alice;
  operation = operation;
  binding = "normal-delivery/deploy-dev";
  request_sha256 = digest;
}

lease-IsLease : IsLease "dev" "application" lease
unfolding is_uuid domain_of startswith endswith is_sha256
lease-IsLease = record {
  owner = refl;
  operation = refl;
  in_domain = refl;
  in_environment = refl;
  request = refl;
}

abbrev pub held : Ownership
held = record {
  environment = "dev";
  domain = "application";
  generation = 1;
  state = active;
  lease = some lease;
  schedule = none;
}

held-IsValid : IsValid "dev" "application" held
held-IsValid = record {
  known_environment = refl;
  known_domain = refl;
  same_environment = refl;
  same_domain = refl;
  below = omega arith;
  owned = IsOwned.leased lease refl (omega arith) lease-IsLease;
  scheduled = λ s e. absurd (ground arith);
}

validate-encode_example : validate (encode held) "dev" "application" ≡ ok held
validate-encode_example = validate-encode "dev" "application" held held-IsValid

validate-IsValid_example : IsValid "dev" "application" held
validate-IsValid_example =
    validate-IsValid (encode held) "dev" "application" held
      (validate-encode "dev" "application" held held-IsValid)

abbrev request : Value
request = str "release"

abbrev invocation : String → Authority
invocation owner = record {
  environment = "dev";
  selected = "application";
  binding = "normal-delivery/deploy-dev";
  operation = operation;
  request_sha256 = digest;
  owner = owner;
  cleanup = none;
  value = none;
  touched = false;
  closed = false;
}

new_deploy :
    new memory "dev" "application" "normal-delivery/deploy-dev"
      (str operation)
      request
      none
      none
      alice
    ≡ ok (invocation alice)
unfolding new domain_of endswith identity is_uuid
new_deploy = refl

abbrev start : Objects
start = (initialize memory "dev" "application" empty).1

read-start : read memory "dev" "application" start ≡ ok (initial_document "dev" "application", "e")
unfolding read initialize initial exchange settle validate validate_owner validate_initial
    validate_schedule encode py_eq real_version
read-start = refl

new-IsLease_example : IsLease "dev" "application" (lease_of (invocation alice))
unfolding is_sha256 is_uuid
new-IsLease_example =
    new-IsLease memory (λ _. refl) "dev" "application" "normal-delivery/deploy-dev" (str operation)
      request none none alice (invocation alice) refl new_deploy

initial-IsValid : IsValid "dev" "application" (initial_document "dev" "application")
initial-IsValid = record {
  known_environment = refl;
  known_domain = refl;
  same_environment = refl;
  same_domain = refl;
  below = omega arith;
  owned = IsOwned.fresh refl refl refl;
  scheduled = λ s e. absurd (ground arith);
}

admits_alice : admit memory (invocation alice) (initial_document "dev" "application") ≡ ok held
unfolding admit admit_cleanup is_cleanup startswith
admits_alice = refl

admit-IsValid_example : IsValid "dev" "application" held
admit-IsValid_example =
    admit-IsValid memory (invocation alice) (initial_document "dev" "application") held
      lease-IsLease initial-IsValid admits_alice

abbrev session : String → Session Objects
session owner = record { authority = invocation owner; world = start }

acquires : (acquire memory (session alice)).0 ≡ ok tt
unfolding acquire acquire_first acquire_with exchange_own read initialize initial exchange settle
    same_document validate validate_owner validate_initial validate_lease validate_schedule encode
    py_eq real_version admit admit_cleanup is_cleanup startswith endswith identity is_uuid domain
    domain_of is_sha256
acquires = refl

acquire-Acquired_example : Acquired memory (session alice) (acquire memory (session alice)).1
acquire-Acquired_example = acquire-Acquired memory (session alice) refl acquires

abbrev pub owning : Session Objects
owning = record {
  authority = record (invocation alice) { value = some held };
  world =
      stored start (store_key "dev" "application")
        (record { body = encode held; etag = some "ee"; version_id = some "v" });
}

checks : check memory owning ≡ ok "ee"
unfolding check read same_document validate validate_owner validate_lease validate_schedule encode
    py_eq real_version startswith endswith identity is_uuid domain domain_of is_sha256 initial
checks = refl

alice-IsOwner : IsOwner owning.authority
alice-IsOwner v e = ground arith

checks_exclude_example : owning.authority.owner ≡ alice
checks_exclude_example =
    checks_exclude memory owning.authority owning.authority owning.world "ee" "ee" refl refl checks
      checks alice-IsOwner alice-IsOwner

finishes_uncertain : finish memory false (some uncertain) owning ≡ (ok tt, owning)
unfolding finish
finishes_uncertain = refl

releases : (release memory true (some success) owning).0 ≡ ok tt
unfolding release write_terminal exchange_own check read settle exchange same_document validate
    validate_owner validate_lease validate_schedule encode py_eq real_version startswith endswith
    identity is_uuid domain domain_of is_sha256 retained check_terminal terminal is_cleanup
    initialize initial validate_initial
releases = refl

release-Released_example :
    Released memory true held owning (release memory true (some success) owning).1
release-Released_example = release-Released memory true (some success) owning held refl releases

abbrev erase : Objects → Result (Unit {0}) × Objects
erase w = (ok tt, empty)

refuses_bob : call memory erase (session bob) ≡ (raise Raised.rejected, session bob)
unfolding call check
refuses_bob = refl

acquire_fails_example :
    (acquire memory (record { authority = invocation bob; world = owning.world })).1.authority
    ≡ invocation bob
unfolding acquire acquire_first acquire_with exchange_own read initialize initial exchange settle
    same_document validate validate_owner validate_initial validate_lease validate_schedule encode
    py_eq real_version admit admit_cleanup is_cleanup startswith endswith identity is_uuid domain
    domain_of is_sha256
acquire_fails_example =
    acquire_fails memory (record { authority = invocation bob; world = owning.world })
      Raised.rejected refl refl

abbrev ended : Session Objects
ended = record {
  authority = record (invocation alice) { value = some held; closed = true };
  world = start;
}

refuses_ended : check memory ended ≡ raise Raised.rejected
unfolding check
refuses_ended = refl

-- The first acquisition, as a write in flight that is applied.
nothing-In {ℓ} : {A : Type ℓ} {x : A} → ¬ (In x [])
nothing-In m = elim m [ ]

abbrev acquisition : Write
acquisition = record { expected = initial_document "dev" "application"; next = held }

abbrev before_send : System
before_send = record { object = initial_document "dev" "application"; inflight = [] }

abbrev in_flight : System
in_flight = record { object = initial_document "dev" "application"; inflight = acquisition ∷ [] }

abbrev applied_once : System
applied_once = record { object = held; inflight = acquisition ∷ [] }

alice-Sends : Sends memory {Tag = Ownership} (λ o. o) (invocation alice) acquisition
alice-Sends = Sends.acquiring (initial_document "dev" "application") held admits_alice

nobody_owns : IsOwner (invocation alice)
nobody_owns v e = cc

runs : Reach memory {Tag = Ownership} (λ o. o) before_send applied_once
runs =
    Reach.more
      (Reach.more Reach.start
        (Step.send before_send (invocation alice) acquisition nobody_owns alice-Sends))
      (Step.apply in_flight acquisition In.here refl)

generation_has_one_owner_example : (◌≤◌ 0 1) × (◌≡◌ {A = ℕ} 1 0 → held.lease ≡ none)
generation_has_one_owner_example =
    generation_has_one_owner memory (λ o. o) (λ x y e. e) (λ w m. absurd (nothing-In m)) runs

-- Bob's stale acquisition arrives while Alice owns the domain.
abbrev held_by_bob : Ownership
held_by_bob = record held { lease = some (lease_of (record (invocation bob) { operation = bob })) }

abbrev late : Write
late = record { expected = initial_document "dev" "application"; next = held_by_bob }

abbrev disturbed : System
disturbed = record { object = held; inflight = late ∷ [] }

bob-Sends :
    Sends memory {Tag = Ownership} (λ o. o) (record (invocation bob) { operation = bob }) late
unfolding admit admit_cleanup is_cleanup startswith
bob-Sends = Sends.acquiring (initial_document "dev" "application") held_by_bob refl

differ : lease_of (record (invocation bob) { operation = bob }) ≢ lease
differ e = ground (arith, eq_iff bob alice, ap (λ (l : Lease). l.owner) e)

ownership_stays_example : disturbed.object ≡ held
ownership_stays_example =
    ownership_stays memory (λ o. o) (λ x y e. e) held lease refl refl refl
      (λ w m. absurd (nothing-In m))
      (Quiet.sent (record (invocation bob) { operation = bob }) late Quiet.start (λ v e. cc)
        (λ e. differ e) bob-Sends)
