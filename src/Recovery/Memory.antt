-- ===== src/Recovery/Memory.antt =====
-- A storage in memory and a runtime that remembers what it was told, for the tests of
-- scripts/recovery.
use terragrunt_demo.Common.{
  ℕ, ◌+◌, String, ◌≡◌, ap, ◌∙◌, Option, none, some, ok, raise, Raised, Option-cases, Bool-cases,
  inl, inr, arith, eq_iff, ◌==◌, ok-injective,
}
use terragrunt_demo.Json.{Value, str, num, obj, null, Fields, field, end, find}
use terragrunt_demo.Dicts.{put_item, find-put_item}
use terragrunt_demo.Recovery.Exact.{same}
use terragrunt_demo.Recovery.Ports.{Ports, Observed, observed}
use terragrunt_demo.Recovery.Stable.{Immutable}

-- The stored objects, the requests by their tokens, and the clock.
pub record Memory : Type 0 where
  pub store : Fields
  pub done : Fields
  pub clock : ℕ

abbrev pub sha : String
sha = "00000000000000000000000000000000000000000000000000000000000000ff"

abbrev pub stored : Option Value → Option (Observed Value)
stored none = none
stored (some v) = some (observed (str "v1") v)

-- A write where an object stands already changes nothing.
abbrev pub keep : Option Value → String → Value → Fields → Fields
keep none k v fs = put_item k v fs
keep (some w) k v fs = fs

abbrev pub effect_of : String → Option Value → Value
effect_of token none = obj (
    field "token" (str token)
      (field "request_sha256" null (field "state" (str "UNKNOWN") (field "result" null end))))
effect_of token (some request) = obj (
    field "token" (str token) (
      field "request_sha256" (str sha)
        (field "state" (str "APPLIED") (field "result" request end))))

abbrev pub memory_ports : Ports
memory_ports = record {
  World = Memory;
  Raw = Value;
  read_record = λ k w. (ok (stored (find k w.store)), w);
  create = λ k v w. (ok tt, record w { store = keep (find k w.store) k v w.store });
  now = λ w. (ok (num w.clock), record w { clock = w.clock + 1 });
  effect = λ token deadline w. (ok (effect_of token (find token w.done)), w);
  mutate = λ stage token request deadline w.
      (raise Raised.timeout, record w { done = put_item token request w.done });
  size = λ v. 1;
  loads = λ v. ok v;
  canonical = λ v. v;
  same_raw = λ a b. same a b;
  sha = λ v. sha;
}

abbrev StoredAs : Memory → String → Observed Value → Type 0
StoredAs w k o = stored (find k w.store) ≡ some o

kept :
    (j k : String) (v : Value) (fs : Fields) (o : Observed Value)
    → stored (find k fs) ≡ some o
    → stored (find k (keep (find j fs) j v fs)) ≡ some o
kept j k v fs o h = elim (Option-cases (find j fs)) [
  | inl none_yet ↦ elim (Bool-cases (j == k)) [
    | inl same_key ↦ ground (arith, eq_iff j k)
    | inr other ↦ rw none_yet (ap stored (find-put_item k j v fs ∙ rw other) ∙ h)
  ]
  | inr (w, there) ↦ rw there h
]

pub memory_laws : Immutable memory_ports
memory_laws = record {
  Holds = StoredAs;
  read_finds = λ w k o h. ok-injective h;
  read_sees = λ w k o h gone. cc (h, ok-injective gone);
  read_same = λ w k o o' h again. cc (h, ok-injective again);
  read_leaves = λ key w k o h. h;
  create_leaves = λ key v w k o h. kept key k v w.store o h;
  now_leaves = λ w k o h. h;
  effect_leaves = λ token deadline w k o h. h;
  mutate_leaves = λ stage token request deadline w k o h. h;
}

pub memory-Holds :
    (w : Memory) (k : String) (o : Observed Value)
    → stored (find k w.store) ≡ some o
    → memory_laws.Holds w k o
unfolding memory_laws
memory-Holds w k o h = h
