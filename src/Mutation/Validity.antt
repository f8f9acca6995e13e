-- ===== src/Mutation/Validity.antt =====
-- What `validate` of scripts/environment_mutation.py guarantees of a document, and that it accepts
-- every document that has it.
use Prim.Native.String.{◌++◌}
use terragrunt_demo.Common.{
  ℕ, ◌≤◌, ◌<◌, String, ◌≡◌, refl, true, none, some, Option, elem, ok, require, endswith, is_sha256,
  arith, eq_iff, returned-bind, require-then, ok-injective, Option-cases, inl, inr, ◌∙◌, ap,
  require-ok, &&-true,
}
use mathlib.Core.Path.{subst}
use terragrunt_demo.Json.{
  Value, num, str, obj, Fields, find, py_eq, py_eq_fields, find-py_eq_fields, py_eq-str, py_eq-null,
  item-then,
}
use terragrunt_demo.Mutation.Domain.{
  domains, environments, domain, domain_of, is_uuid, identity, schedules,
}
use terragrunt_demo.Mutation.Document.{
  State, released, Lease, Schedule, Ownership, initial, initial_document, document_fields, encode,
}
use terragrunt_demo.Mutation.Validate.{
  max_generation, layer_for, validate_lease, validate_schedule, validate_owner, validate_initial,
  validate, state_of, generation_of,
}

pub record IsLease (environment selected : String) (l : Lease) : Type 0 where
  pub owner : is_uuid l.owner ≡ true
  pub operation : is_uuid l.operation ≡ true
  pub in_domain : domain_of l.binding (layer_for selected l.binding) ≡ ok selected
  pub in_environment : endswith l.binding ("-" ++ environment) ≡ true
  pub request : is_sha256 l.request_sha256 ≡ true

pub record IsSchedule (environment selected : String) (bound : ℕ) (s : Schedule) : Type 0 where
  pub in_application : selected ≡ "application"
  pub same_environment : s.environment ≡ environment
  pub positive : 0 < s.generation
  pub bounded : s.generation ≤ bound
  pub operation : is_uuid s.operation ≡ true
  pub in_domain : domain_of s.binding none ≡ ok "application"
  pub in_environment : endswith s.binding ("-" ++ environment) ≡ true
  pub scheduling : schedules s.binding ≡ true

-- Generation 0 is the initial document; any later generation names a lease.
pub data IsOwned (environment selected : String) (o : Ownership) : Type 0 where
  fresh :
      elem environment environments ≡ true
      → elem selected domains ≡ true
      → o ≡ initial_document environment selected
      → IsOwned environment selected o
  leased :
      (l : Lease)
      → o.lease ≡ some l
      → 0 < o.generation
      → IsLease environment selected l
      → IsOwned environment selected o

pub identity-ok : (v : Value) (s : String) → identity v ≡ ok s → (v ≡ str s) × (is_uuid s ≡ true)
unfolding identity
identity-ok v s h = ground arith

validate_lease-IsLease :
    (fs : Fields) (environment selected : String) (l : Lease)
    → validate_lease fs environment selected ≡ ok l
    → IsLease environment selected l
unfolding validate_lease domain identity
validate_lease-IsLease fs environment selected l h = grind (arith, eq_iff)

validate_schedule-IsSchedule :
    (v : Value) (bound : ℕ) (environment selected : String) (s : Schedule)
    → validate_schedule v bound environment selected ≡ ok (some s)
    → IsSchedule environment selected bound s
unfolding validate_schedule domain identity
validate_schedule-IsSchedule (obj fs) bound environment selected s h = grind (arith, eq_iff)
validate_schedule-IsSchedule _ bound environment selected s h = grind arith

-- The parts of a document that `validate` accepts.
pub record IsValid (environment selected : String) (o : Ownership) : Type 0 where
  pub known_environment : elem environment environments ≡ true
  pub known_domain : elem selected domains ≡ true
  pub same_environment : o.environment ≡ environment
  pub same_domain : o.domain ≡ selected
  pub below : o.generation < max_generation
  pub owned : IsOwned environment selected o
  pub scheduled :
      (s : Schedule) → o.schedule ≡ some s → IsSchedule environment selected o.generation s

-- A document of generation 0 has the parts of the initial one.
fresh_state :
    (fs : Fields) (environment selected : String) (v : Value) (s : State)
    → py_eq_fields fs (document_fields (initial_document environment selected)) ≡ true
    → find "state" fs ≡ some v
    → state_of v ≡ ok s
    → s ≡ released
fresh_state fs environment selected v s e h t =
    let (w, found, same) =
      find-py_eq_fields "state" fs (document_fields (initial_document environment selected)) v e
        h in
    let released_name : v ≡ str "RELEASED" = ground (arith, py_eq-str v "RELEASED") in
    let t' : state_of (str "RELEASED") ≡ ok s = rw released_name at t in cc t'

fresh_schedule :
    (fs : Fields) (environment selected : String) (v : Value) (n : ℕ) (s : Option Schedule)
    → py_eq_fields fs (document_fields (initial_document environment selected)) ≡ true
    → find "schedule" fs ≡ some v
    → validate_schedule v n environment selected ≡ ok s
    → s ≡ none
unfolding validate_schedule
fresh_schedule fs environment selected v n s e h t =
    let (w, found, same) =
      find-py_eq_fields "schedule" fs (document_fields (initial_document environment selected)) v e
        h in
    ground (arith, py_eq-null v)

initial-ok :
    (environment selected : String) (o : Ownership)
    → initial environment selected ≡ ok o
    → (elem environment environments ≡ true)
      × (elem selected domains ≡ true)
      × (o ≡ initial_document environment selected)
unfolding initial
initial-ok environment selected o h =
    let (known, rest) = require-then (elem environment environments) _ h in
    let (one, done) = require-then (elem selected domains) _ rest in (known, one, cc done)

validate_initial-ok :
    (fs : Fields) (environment selected : String)
    → validate_initial fs environment selected ≡ ok tt
    → (elem environment environments ≡ true)
      × (elem selected domains ≡ true)
      × (py_eq_fields fs (document_fields (initial_document environment selected)) ≡ true)
unfolding validate_initial py_eq encode
validate_initial-ok fs environment selected h =
    let (start, made, same) = returned-bind (initial environment selected) _ h in
    let (known, one, e) = initial-ok environment selected start made in
    let same' : require (py_eq (obj fs) (encode (initial_document environment selected))) ≡ ok tt =
      rw e at same in
    (known, one, (&&-true _ _ (require-ok _ same')).1)

-- The two answers of `validate_owner`.
owner_fresh :
    (fs : Fields) (n : ℕ) (environment selected : String)
    → validate_owner fs n environment selected ≡ ok none
    → (n ≡ 0) × (validate_initial fs environment selected ≡ ok tt)
unfolding validate_owner
owner_fresh fs n environment selected h = ground arith

owner_leased :
    (fs : Fields) (n : ℕ) (environment selected : String) (l : Lease)
    → validate_owner fs n environment selected ≡ ok (some l)
    → (0 < n) × IsLease environment selected l
unfolding validate_owner
owner_leased fs n environment selected l h =
    ground (arith, validate_lease-IsLease fs environment selected l)

-- What stands in an accepted dictionary at the keys that the document is read from.
record Parts (fs : Fields) (environment selected : String) (o : Ownership) : Type 0 where
  generation_at : (v : Value) × (generation_of v ≡ ok o.generation)
  state_at : (v : Value) × (find "state" fs ≡ some v) × (state_of v ≡ ok o.state)
  schedule_at :
      (v : Value) × (find "schedule" fs ≡ some v)
      × (validate_schedule v o.generation environment selected ≡ ok o.schedule)
  owner_at : validate_owner fs o.generation environment selected ≡ ok o.lease
  known : elem environment environments ≡ true
  one : elem selected domains ≡ true
  environment_at : o.environment ≡ environment
  domain_at : o.domain ≡ selected

validate-Parts :
    (fs : Fields) (environment selected : String) (o : Ownership)
    → validate (obj fs) environment selected ≡ ok o
    → Parts fs environment selected o
unfolding validate
validate-Parts fs environment selected o h =
    let (start, made, h0) = returned-bind (initial environment selected) _ h in
    let (known, one, _) = initial-ok environment selected start made in
    let (keys, h1) = require-then _ _ h0 in
    let (schema, f1, h2) = item-then fs "schema" _ h1 in
    let (e1, h3) = require-then _ _ h2 in
    let (at_env, f2, h4) = item-then fs "environment" _ h3 in
    let (e2, h5) = require-then _ _ h4 in
    let (at_dom, f3, h6) = item-then fs "domain" _ h5 in
    let (e3, h7) = require-then _ _ h6 in
    let (at_gen, f4, h8) = item-then fs "generation" _ h7 in
    let (n, g, h9) = returned-bind (generation_of at_gen) _ h8 in
    let (at_state, f5, h10) = item-then fs "state" _ h9 in
    let (st, s, h11) = returned-bind (state_of at_state) _ h10 in
    let (l, w, h12) = returned-bind (validate_owner fs n environment selected) _ h11 in
    let (at_sch, f6, h13) = item-then fs "schedule" _ h12 in
    let (sch, c, done) = returned-bind (validate_schedule at_sch n environment selected) _ h13 in
    subst (Parts fs environment selected) (ok-injective done) (record {
      generation_at = (at_gen, g);
      state_at = (at_state, f5, s);
      schedule_at = (at_sch, f6, c);
      owner_at = w;
      known = known;
      one = one;
      environment_at = refl;
      domain_at = refl;
    })

generation-below : (v : Value) (n : ℕ) → generation_of v ≡ ok n → n < max_generation
generation-below (num m) n h = ground arith
generation-below _ n h = cc

Parts-IsOwned :
    (fs : Fields) (environment selected : String) (o : Ownership)
    → Parts fs environment selected o
    → IsOwned environment selected o
Parts-IsOwned fs environment selected o p = elim (Option-cases o.lease) [
  | inl e ↦
      let (zero_generation, start) =
        owner_fresh fs o.generation environment selected (p.owner_at ∙ ap ok e) in
      let (known, one, same) = validate_initial-ok fs environment selected start in
      let stopped =
        fresh_state fs environment selected p.state_at.0 o.state same p.state_at.1 p.state_at.2 in
      let unscheduled =
        fresh_schedule fs environment selected p.schedule_at.0 o.generation o.schedule same
          p.schedule_at.1 p.schedule_at.2 in
      IsOwned.fresh known one (ground (arith, p.environment_at, p.domain_at))
  | inr (l, e) ↦
      let (late, good) =
        owner_leased fs o.generation environment selected l (p.owner_at ∙ ap ok e) in
      IsOwned.leased l e late good
]

-- `validate` returns only documents with these properties.
pub validate-IsValid :
    (v : Value) (environment selected : String) (o : Ownership)
    → validate v environment selected ≡ ok o
    → IsValid environment selected o
unfolding validate
validate-IsValid (obj fs) environment selected o h =
    let p = validate-Parts fs environment selected o h in
    record {
      known_environment = p.known;
      known_domain = p.one;
      same_environment = p.environment_at;
      same_domain = p.domain_at;
      below = generation-below p.generation_at.0 o.generation p.generation_at.1;
      owned = Parts-IsOwned fs environment selected o p;
      scheduled = λ s e.
          validate_schedule-IsSchedule p.schedule_at.0 o.generation environment selected s
            (p.schedule_at.2 ∙ ap ok e);
    }
validate-IsValid _ environment selected o h = cc
