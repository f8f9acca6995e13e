-- ===== src/Mutation/Holding.antt =====
-- What the methods of `Authority` in scripts/environment_mutation.py guarantee, whatever the
-- storage does.
use terragrunt_demo.Common.{
  String, ◌≡◌, refl, ◌∙◌, true, false, ◌&&◌, Option, none, some, not, arith, eq_iff, ok,
  require-then, returned-bind, &&-true, nat_eq, ◌==◌,
}
use terragrunt_demo.Json.{py_eq}
use terragrunt_demo.Mutation.Document.{
  State, active, released, Lease, Schedule, Ownership, encode, encode_schedule, text_of, state_name,
}
use terragrunt_demo.Mutation.Store.{Provider, read, same_document}
use terragrunt_demo.Mutation.Authority.{Authority, lease_of, is_released}
use terragrunt_demo.Mutation.Session.{Session, held, check}

same_lease :
    (x y : Option Lease)
    → py_eq (text_of (λ l. l.owner) x) (text_of (λ l. l.owner) y) ≡ true
    → py_eq (text_of (λ l. l.operation) x) (text_of (λ l. l.operation) y) ≡ true
    → py_eq (text_of (λ l. l.binding) x) (text_of (λ l. l.binding) y) ≡ true
    → py_eq (text_of (λ l. l.request_sha256) x) (text_of (λ l. l.request_sha256) y) ≡ true
    → x ≡ y
unfolding py_eq
same_lease none none a b c d = refl
same_lease none (some y) a b c d = cc
same_lease (some x) none a b c d = cc
same_lease (some x) (some y) a b c d = ground (
  arith,
  eq_iff x.owner y.owner,
  eq_iff x.operation y.operation,
  eq_iff x.binding y.binding,
  eq_iff x.request_sha256 y.request_sha256,
)

same_schedule :
    (x y : Option Schedule) → py_eq (encode_schedule x) (encode_schedule y) ≡ true → x ≡ y
unfolding py_eq
same_schedule none none h = refl
same_schedule none (some y) h = cc
same_schedule (some x) none h = cc
same_schedule (some x) (some y) h = ground (
  arith,
  eq_iff x.environment y.environment,
  eq_iff x.operation y.operation,
  eq_iff x.binding y.binding,
)

same_state : (x y : State) → (state_name x == state_name y) ≡ true → x ≡ y
same_state active active h = refl
same_state active released h = cc
same_state released active h = cc
same_state released released h = refl

-- Two documents that Python finds equal are equal.
pub same_document-eq : (x y : Ownership) → same_document x y ≡ true → x ≡ y
unfolding same_document encode py_eq
same_document-eq x y h =
    let (binding, h1) = &&-true _ _ h in
    let (domain, h2) = &&-true (x.domain == y.domain) _ h1 in
    let (environment, h3) = &&-true (x.environment == y.environment) _ h2 in
    let (generation, h4) = &&-true (nat_eq x.generation y.generation) _ h3 in
    let (operation, h5) = &&-true _ _ h4 in
    let (owner, h6) = &&-true _ _ h5 in
    let (request, h7) = &&-true _ _ h6 in
    let (schedule, h8) = &&-true _ _ h7 in
    let (state, _) = &&-true (state_name x.state == state_name y.state) _ h8 in
    let lease = same_lease x.lease y.lease owner operation binding request in
    let schedules = same_schedule x.schedule y.schedule schedule in
    let states = same_state x.state y.state state in
    let domains = (eq_iff x.domain y.domain).0 domain in
    let environments = (eq_iff x.environment y.environment).0 environment in
    let generations : x.generation ≡ y.generation = ground (arith, generation) in
    cc (lease, schedules, states, domains, environments, generations)

held-ok : (a : Authority) (v : Ownership) → held a ≡ ok v → (a.value ≡ some v) × (a.closed ≡ false)
held-ok a v h = ground arith

not_released : (s : State) → not (is_released s) ≡ true → s ≡ active
not_released active h = refl
not_released released h = cc

-- An invocation that owns a document owns it by its own lease.
abbrev pub IsOwner : Authority → Type 0
IsOwner a = (v : Ownership) → a.value ≡ some v → v.lease ≡ some (lease_of a)

module _ (p : Provider) where
  -- What a passed `_check` says of the invocation and of the stored document.
  pub record Holds (s : Session p.World) (etag : String) : Type 0 where
    pub mine : Ownership
    pub kept : s.authority.value ≡ some mine
    pub is_open : s.authority.closed ≡ false
    pub stored : read p s.authority.environment s.authority.selected s.world ≡ ok (mine, etag)
    pub is_active : mine.state ≡ active

  pub check-Holds : (s : Session p.World) (etag : String) → check p s ≡ ok etag → Holds s etag
  unfolding check
  check-Holds s etag h =
      let (mine, kept, h1) = returned-bind (held s.authority) _ h in
      let ((observed, tag), stored, h2) =
        returned-bind (read p s.authority.environment s.authority.selected s.world) _ h1 in
      let (passed, done) =
        require-then (same_document observed mine && not (is_released observed.state)) _ h2 in
      let (same, running) = &&-true (same_document observed mine) _ passed in
      let e = same_document-eq observed mine same in
      let (value_kept, opened) = held-ok s.authority mine kept in
      record {
        mine = mine;
        kept = value_kept;
        is_open = opened;
        stored = stored ∙ cc (e, done);
        is_active = not_released mine.state (rw (← e) running);
      }

  -- Two invocations whose checks pass on one stored document are the same owner.
  pub checks_exclude :
      (a b : Authority) (w : p.World) (e f : String)
      → a.environment ≡ b.environment
      → a.selected ≡ b.selected
      → check p (record { authority = a; world = w }) ≡ ok e
      → check p (record { authority = b; world = w }) ≡ ok f
      → IsOwner a
      → IsOwner b
      → a.owner ≡ b.owner
  checks_exclude a b w e f env sel ha hb own_a own_b =
      let x = check-Holds (record { authority = a; world = w }) e ha in
      let y = check-Holds (record { authority = b; world = w }) f hb in
      let same : read p a.environment a.selected w ≡ read p b.environment b.selected w =
        rw (env, sel) in
      let one : x.mine ≡ y.mine = cc (x.stored, y.stored, same) in
      cc (own_a x.mine x.kept, own_b y.mine y.kept, one)
