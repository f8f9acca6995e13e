-- ===== src/Recovery/Stable.antt =====
-- What the methods of the journal of scripts/recovery/journal.py keep while nothing is dispatched.
-- `Immutable` states what delivery.py documents of its records: an object that stands keeps
-- standing, and a read of it does not report its absence.
use terragrunt_demo.Common.{String, ◌≡◌, refl, Bool, true, false, none, some, List, [], ◌∷◌, ok}
use terragrunt_demo.Common.Action.{Action}
use terragrunt_demo.Common.Action.Keeps.{
  Keeps, Keeps-pure, Keeps-if, Keeps-bind, Keeps-then, keeps_rules,
}
use terragrunt_demo.Json.{Value, Fields}
use terragrunt_demo.Recovery.Ports.{Ports, Observed, Operation, State, port}
use terragrunt_demo.Recovery.Intent.{Journal, Plan}
use terragrunt_demo.Recovery.Journal.{
  read, put, occupied, any_attempt, attempted, create_intent, accept, bounded, no_effect_yet,
  recorded, observe, resolve,
}

-- What a call leaves as it is.
abbrev pub LeavesBy : {W A O : Type 0} → (W → String → O → Type 0) → Action W A → Type 0
LeavesBy {W} {A} {O} Holds m = (w : W) (k : String) (o : O) → Holds w k o → Holds (m w).1 k o

pub record Immutable (p : Ports) : Type 1 where
  pub Holds : p.World → String → Observed p.Raw → Type 0
  pub read_finds :
      (w : p.World) (k : String) (o : Observed p.Raw)
      → (p.read_record k w).0 ≡ ok (some o)
      → Holds (p.read_record k w).1 k o
  pub read_sees :
      (w : p.World) (k : String) (o : Observed p.Raw)
      → Holds w k o
      → ¬ ((p.read_record k w).0 ≡ ok none)
  pub read_same :
      (w : p.World) (k : String) (o o' : Observed p.Raw)
      → Holds w k o
      → (p.read_record k w).0 ≡ ok (some o')
      → o' ≡ o
  pub read_leaves : (key : String) → LeavesBy Holds (p.read_record key)
  pub create_leaves : (key : String) (raw : p.Raw) → LeavesBy Holds (p.create key raw)
  pub now_leaves : LeavesBy Holds p.now
  pub effect_leaves : (token : String) (deadline : Value) → LeavesBy Holds (p.effect token deadline)
  pub mutate_leaves :
      (stage token : String) (request deadline : Value)
      → LeavesBy Holds (p.mutate stage token request deadline)

module _ (p : Ports) (laws : Immutable p) where
  abbrev pub Leaves : {A : Type 0} → Action p.World A → Type 0
  Leaves m = LeavesBy laws.Holds m

  abbrev pub Grows : p.World → p.World → Type 0
  Grows v w = (k : String) (o : Observed p.Raw) → laws.Holds v k o → laws.Holds w k o

  abbrev pub Stands : p.World → String → Type 0
  Stands w k = (o : Observed p.Raw) × laws.Holds w k o

-- A predicate that only gains by objects, as long as nothing is dispatched and the run's own
-- variables stay.
pub record IsStable (p : Ports) (laws : Immutable p) (P : State p → Type 0) : Type 0 where
  pub step :
      (s t : State p)
      → t.calls ≡ s.calls
      → t.preparing ≡ s.preparing
      → t.accepted ≡ s.accepted
      → Grows p laws s.world t.world
      → P s
      → P t

module _ (p : Ports) (j : Journal) (laws : Immutable p) {P : State p → Type 0}
    (stable : IsStable p laws P) where
  pub port-Keeps : {A : Type 0} (m : Action p.World A) → Leaves p laws m → Keeps P (port p m)
  unfolding port
  port-Keeps m leaves = record { at = λ s h. stable.step s _ refl refl refl (leaves s.world) h }

  pub read-Keeps : (key : String) (object : Bool) → Keeps P (read p j key object)
  unfolding read
  read-Keeps key object = search (keeps_rules, port-Keeps, laws.read_leaves)

  pub put-Keeps : (key : String) (value : Value) → Keeps P (put p j key value)
  unfolding put
  put-Keeps key value = search (keeps_rules, port-Keeps, laws.create_leaves, read-Keeps)

  pub occupied-Keeps : (key : String) → Keeps P (occupied p j key)
  unfolding occupied
  occupied-Keeps key = search (keeps_rules, read-Keeps)

  any_attempt-Keeps :
      (operation : String) (stages : List String) → Keeps P (any_attempt p j operation stages)
  unfolding any_attempt
  any_attempt-Keeps operation [] = Keeps-pure false
  any_attempt-Keeps operation (stage ∷ stages) =
      Keeps-bind _ _ (occupied-Keeps _)
        (λ found. Keeps-if found _ _ (Keeps-pure true) (any_attempt-Keeps operation stages))

  pub attempted-Keeps : (operation : String) → Keeps P (attempted p j operation)
  unfolding attempted
  attempted-Keeps operation = search (keeps_rules, any_attempt-Keeps)

  pub accept-Keeps :
      (operation : String) (request : Fields) (prepare : Action p.World Fields)
      → Leaves p laws prepare
      → Keeps P (accept p j operation request prepare)
  unfolding accept create_intent
  accept-Keeps operation request prepare leaves =
      search
        (keeps_rules, read-Keeps, attempted-Keeps, put-Keeps, port-Keeps, laws.now_leaves, leaves)
        depth 12

  pub bounded-Keeps : (op : Operation) → Keeps P (bounded p j op)
  unfolding bounded
  bounded-Keeps op = search (keeps_rules, port-Keeps, laws.now_leaves)

  pub no_effect_yet-Keeps :
      (key : String) (suffixes : List String) → Keeps P (no_effect_yet p j key suffixes)
  unfolding no_effect_yet
  no_effect_yet-Keeps key [] = Keeps-pure tt
  no_effect_yet-Keeps key (suffix ∷ suffixes) =
      Keeps-bind _ _ (read-Keeps _ _)
        (λ found. Keeps-then _ _ (search keeps_rules) (no_effect_yet-Keeps key suffixes))

  recorded-Keeps :
      (key : String) (l : Plan) (suffixes : List String) → Keeps P (recorded p j key l suffixes)
  unfolding recorded
  recorded-Keeps key l [] = Keeps-pure none
  recorded-Keeps key l (suffix ∷ suffixes) =
      Keeps-bind _ _ (search (keeps_rules, read-Keeps))
        (λ found. search (keeps_rules, recorded-Keeps key l suffixes))

  pub resolve-Keeps : (key : String) (l : Plan) → Keeps P (resolve p j key l)
  unfolding resolve observe
  resolve-Keeps key l =
      search
        (
          keeps_rules, recorded-Keeps, port-Keeps, put-Keeps, laws.now_leaves, laws.effect_leaves,
          laws.read_leaves,
        )
        depth 14
