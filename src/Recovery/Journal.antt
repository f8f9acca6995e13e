-- ===== src/Recovery/Journal.antt =====
-- The methods of `Journal` in scripts/recovery/journal.py that use its ports, up to `effect`, with
-- `read` and `put`, which it takes from scripts/normal_delivery/delivery.py.
use Prim.Native.String.{◌++◌}
use terragrunt_demo.Common.{
  String, Bool, true, false, not, ◌&&◌, Option, none, some, List, [], ◌∷◌, if◌then◌else◌, Raised,
  require,
}
use terragrunt_demo.Common.Action.{Action, pure, fail, lift, modify, rescue, choose, ◌>>=◌, ◌>>◌}
use terragrunt_demo.Json.{Value, obj, Fields}
use terragrunt_demo.Mutation.Domain.{is_uuid}
use terragrunt_demo.Recovery.Exact.{exact, is_int, int_le, plus}
use terragrunt_demo.Recovery.Ports.{Ports, Operation, State, port, dispatch}
use terragrunt_demo.Recovery.Intent.{
  Journal, stage_key, Plan, encode_plan, attempt_of, unpacked, plan, new_body, new_intent,
  check_intent, check_retained, validate_effect, settled, has_state,
}

abbrev pub is_absent : Raised → Bool
is_absent Raised.absent = true
is_absent _ = false

module _ (p : Ports) (j : Journal) where
  abbrev pub path : String → String
  path key = j.namespace ++ "/" ++ key

  -- `read(key, object)`
  unfoldable pub read : String → Bool → Action (State p) (Option Value)
  read key object =
      rescue (do o ← port p (p.read_record (path key)); lift (unpacked p object o))
        (λ _. fail (Raised.journal key))

  -- `put(key, value)`: the write is tried once, and the object that stands there afterwards counts.
  unfoldable pub put : String → Value → Action (State p) Value
  put key value = do
    rescue (port p (p.create (path key) (p.canonical value))) (λ _. pure tt)
    found ← read key false
    choose found (fail (Raised.journal key)) (λ v. do lift (exact v value); pure v)

  -- Whether a record stands at the key; one that cannot be read counts as there.
  unfoldable pub occupied : String → Action (State p) Bool
  occupied key =
      rescue (do found ← read key true; choose found (pure false) (λ _. pure true)) (λ _. pure true)

  -- The loop of `attempted`.
  unfoldable pub any_attempt : String → List String → Action (State p) Bool
  any_attempt operation [] = pure false
  any_attempt operation (stage ∷ stages) = do
    found ← occupied (operation ++ "/" ++ stage ++ "/attempt")
    if found then pure true else any_attempt operation stages

  unfoldable pub attempted : String → Action (State p) Bool
  attempted operation = if is_uuid operation then any_attempt operation j.stages else pure false

  -- The first intent of an operation.
  unfoldable pub create_intent : String → Fields → Action p.World Fields → Action (State p) Value
  create_intent operation request prepare = do
    before ← attempted operation
    if before then fail (Raised.uncertain "") else pure tt
    now ← port p p.now
    lift (require (is_int now))
    deadline ← lift (plus now 600)
    domain ← port p prepare
    put (operation ++ "/intent") (new_intent p (new_body p j operation request now deadline domain))

  unfoldable pub accept : String → Fields → Action p.World Fields → Action (State p) Operation
  accept operation request prepare = do
    found ← read (operation ++ "/intent") true
    retained ← choose found (create_intent operation request prepare) pure
    op ←
        rescue (lift (check_intent p j operation retained))
          (λ _. fail (Raised.journal (operation ++ "/intent")))
    lift (exact (obj op.request) (obj request))
    pure op

  unfoldable pub bounded : Operation → Action (State p) (Unit {0})
  bounded op = do
    now ← port p p.now
    lift (require (is_int now && int_le op.started now && not (int_le op.deadline now)))

  -- `for suffix in ('observed', 'reconciled')`, before the first attempt.
  unfoldable pub no_effect_yet : String → List String → Action (State p) (Unit {0})
  no_effect_yet key [] = pure tt
  no_effect_yet key (suffix ∷ suffixes) = do
    found ← read (key ++ "/" ++ suffix) true
    choose found (pure tt) (λ _. fail (Raised.journal key))
    no_effect_yet key suffixes

  abbrev pub set_preparing : Option String → Action (State p) (Unit {0})
  set_preparing stage = modify λ s. record s { preparing = stage }

  -- The one attempt of a stage: plan and attempt are stored, the guards run before and after that,
  -- and an exception of the call itself is ignored.
  unfoldable pub start :
      Operation → String → Plan → Action p.World (Unit {0}) → Action (State p) (Unit {0})
  start op stage l guard = do
    no_effect_yet (stage_key op stage) ("observed" ∷ "reconciled" ∷ [])
    put (stage_key op stage ++ "/plan") (encode_plan l) >>= λ _. pure tt
    bounded op
    port p guard
    put (stage_key op stage ++ "/attempt") (attempt_of p l) >>= λ _. pure tt
    set_preparing (some stage)
    bounded op
    port p guard
    bounded op
    set_preparing none
    rescue
        (dispatch p
          (record { stage = stage; token = l.token; request = l.request; deadline = op.deadline }))
        (λ _. pure tt)

  -- `for suffix in ('reconciled', 'observed')`: the answer of the recorded effects.
  unfoldable pub recorded : String → Plan → List String → Action (State p) (Option Fields)
  recorded key l [] = pure none
  recorded key l (suffix ∷ suffixes) = do
    found ←
        rescue (do value ← read (key ++ "/" ++ suffix) true; lift (settled p l value))
          (λ e. if is_absent e then fail e else pure none)
    choose found (recorded key l suffixes) (λ fs. pure (some fs))

  -- The effect as the runtime observes it now, and its record.
  unfoldable pub observe : String → Plan → Action (State p) Fields
  observe key l =
      rescue
        (do
          now ← port p p.now
          deadline ← lift (plus now 30)
          value ← port p (p.effect l.token deadline)
          fs ← lift (validate_effect p value l)
          if has_state "UNKNOWN" fs then fail (Raised.uncertain "") else pure tt
          before ← port p (p.read_record (path (key ++ "/observed")))
          put (key ++ "/" ++ choose_suffix before) value >>= λ _. pure tt
          if has_state "ABSENT" fs then fail Raised.absent else pure fs)
        (λ e. if is_absent e then fail e else fail (Raised.uncertain ""))
    where
      choose_suffix : {A : Type 0} → Option A → String
      choose_suffix none = "observed"
      choose_suffix (some o) = "reconciled"

  unfoldable pub resolve : String → Plan → Action (State p) Fields
  resolve key l = do
    found ← recorded key l ("reconciled" ∷ "observed" ∷ [])
    choose found (observe key l) pure

  -- `effect(op, stage, request, mutate, guard)`, where a guard is there exactly if `mutate` is.
  unfoldable pub effect :
      Operation
      → String
      → Value
      → Option (Action p.World (Unit {0}))
      → Action (State p) (Option Fields)
  effect op stage request guard =
      let key = stage_key op stage in
      let l = plan p j op stage request in
      do
        saved ← read (key ++ "/plan") true
        attempt ← read (key ++ "/attempt") true
        rescue (lift (check_retained p l saved attempt)) (λ _. fail (Raised.journal key))
        choose attempt
            (choose guard (pure none)
              (λ g. do start op stage l g; fs ← resolve key l; pure (some fs)))
            (λ _. do fs ← resolve key l; pure (some fs))
