-- ===== src/Recovery/Ports.antt =====
-- The adapters that scripts/recovery/ports.py and scripts/normal_delivery/delivery.py ask for, and
-- the state of a run of the journal.
use terragrunt_demo.Common.{ℕ, String, Bool, Option, List, ◌∷◌, Result}
use terragrunt_demo.Common.Action.{Action}
use terragrunt_demo.Json.{Value, Fields}

-- A stored object as `Records.read` returns it. An answer without exactly these two keys is
-- `malformed`.
pub data Observed (Raw : Type 0) : Type 0 where
  observed : (version_id : Value) (bytes : Raw) → Observed Raw
  malformed : Observed Raw

-- `Records` and `Effects`, and what the code uses of `json` and `hashlib`. A method may raise, and
-- may change the world while it does. `loads` refuses an object with a key twice.
pub record Ports : Type 1 where
  pub World : Type 0
  pub Raw : Type 0
  pub read_record : String → Action World (Option (Observed Raw))
  pub create : String → Raw → Action World (Unit {0})
  pub now : Action World Value
  pub effect : String → Value → Action World Value
  pub mutate : String → String → Value → Value → Action World (Unit {0})
  pub size : Raw → ℕ
  pub loads : Raw → Result Value
  pub canonical : Value → Raw
  pub same_raw : Raw → Raw → Bool
  pub sha : Raw → String

-- An accepted operation: the body of its intent, and what the code takes from it.
pub record Operation : Type 0 where
  pub body : Fields
  pub operation : String
  pub request : Fields
  pub started : Value
  pub deadline : Value
  pub domain : Fields

-- A call of `Effects.mutate`.
pub record Call : Type 0 where
  pub stage : String
  pub token : String
  pub request : Value
  pub deadline : Value

module _ (p : Ports) where
  -- A domain of the journal: what `execute` calls of it.
  pub record Domain : Type 0 where
    pub prepare : Action p.World Fields
    pub validate : Fields → Result (Unit {0})
    pub actions : Fields → Result Fields
    pub guard : Operation → String → Fields → Action p.World (Unit {0})
    pub final : Operation → Fields → Action p.World Value

  -- The state of a run: the journal's `preparing`, the variables of `execute` that its handlers
  -- read, and the calls of `mutate` so far, the last one first, which no code reads.
  pub record State : Type 0 where
    pub world : p.World
    pub preparing : Option String
    pub accepted : Bool
    pub reconciled : Bool
    pub calls : List Call

  -- A call of a port.
  unfoldable pub port : {A : Type 0} → Action p.World A → Action (State) A
  port m s = let (r, w) = m s.world in (r, record s { world = w })

  -- The one call that changes a resource.
  unfoldable pub dispatch : Call → Action (State) (Unit {0})
  dispatch c s =
      let (r, w) = p.mutate c.stage c.token c.request c.deadline s.world in
      (r, record s { world = w; calls = c ∷ s.calls })
