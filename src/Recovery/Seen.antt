-- ===== src/Recovery/Seen.antt =====
-- Where the intent of scripts/recovery/journal.py comes from: a read of its record by the run.
use Prim.Native.String.{◌++◌}
use terragrunt_demo.Common.{
  String, ◌≡◌, refl, ap, ◌∙◌, Bool, true, false, Option, none, some, ok, Raised,
}
use terragrunt_demo.Common.Action.{Action, pure, fail, lift, choose, ◌>>◌}
use terragrunt_demo.Common.Action.Keeps.{
  Any, Reaches, Reaches-bind, Reaches-Any, Reaches-from, Reaches-pure, Reaches-fail, Reaches-ok,
  Reaches-then, Reaches-weak, Reaches-rescue, Keeps-lift,
}
use terragrunt_demo.Json.{Value, Fields}
use terragrunt_demo.Recovery.Exact.{exact}
use terragrunt_demo.Recovery.Ports.{Ports, Observed, State}
use terragrunt_demo.Recovery.Intent.{Journal, opened, check_intent}
use terragrunt_demo.Recovery.Journal.{path, read, put, create_intent, accept}
use terragrunt_demo.Recovery.Entries.{read-opened}

module _ (p : Ports) (j : Journal) where
  -- The storage answered a read of the key with an object of this value.
  pub record Seen (key : String) (v : Value) : Type 0 where
    pub before : p.World
    pub object : Observed p.Raw
    pub answered : (p.read_record (path p j key) before).0 ≡ ok (some object)
    pub holds : opened p false object ≡ ok v

  abbrev Found : String → Option Value → Type 0
  Found key found = (v : Value) → found ≡ some v → Seen key v

  read-Seen :
      (key : String) (object : Bool)
      → Reaches Any (read p j key object) (λ found s. Found key found) Any
  read-Seen key object =
      Reaches-then
        (Reaches-ok (read p j key object) (record { at = λ s h. tt })
          λ s found h r v is.
            let (o, e, f) = read-opened p j key object s v (r ∙ ap ok is) in
            record { before = s.world; object = o; answered = e; holds = f })
        (λ a s h. h.1) (λ s h. h)

  put-Seen :
      (key : String) (value : Value) → Reaches Any (put p j key value) (λ v s. Seen key v) Any
  unfolding put
  put-Seen key value =
      Reaches-bind _ _ (Reaches-Any _)
        λ u. Reaches-bind _ _ (read-Seen key false) λ found. checked found
    where
      checked :
          (found : Option Value)
          → Reaches
              (λ (s : State p). Found key found)
              (choose found (fail (Raised.journal key)) (λ v. do lift (exact v value); pure v))
              (λ v (s : State p). Seen key v)
              Any
      checked none = Reaches-from (λ s h. tt) (Reaches-fail _ (λ s h. h))
      checked (some v) =
          Reaches-from (λ s h. h v refl)
            (Reaches-bind _ _ (Reaches-weak _ (Keeps-lift _) (λ a s h. h) (λ s h. tt))
              λ u. Reaches-pure v (λ s h. h))

  create-Seen :
      (operation : String) (request : Fields) (prepare : Action p.World Fields)
      → Reaches Any
          (create_intent p j operation request prepare)
          (λ v s. Seen (operation ++ "/intent") v)
          Any
  unfolding create_intent
  create-Seen operation request prepare = Reaches-bind _ _ (Reaches-Any _) λ before.
      Reaches-bind _ _ (Reaches-Any _) λ u. Reaches-bind _ _ (Reaches-Any _) λ now.
        Reaches-bind _ _ (Reaches-Any _) λ i.
          Reaches-bind _ _ (Reaches-Any _)
            λ deadline. Reaches-bind _ _ (Reaches-Any _) λ domain. put-Seen _ _

  chosen :
      (operation : String) (request : Fields) (prepare : Action p.World Fields)
      (found : Option Value)
      → Reaches
          (λ s. Found (operation ++ "/intent") found)
          (choose found (create_intent p j operation request prepare) pure)
          (λ v s. Seen (operation ++ "/intent") v)
          Any
  chosen operation request prepare none =
      Reaches-from (λ s h. tt) (create-Seen operation request prepare)
  chosen operation request prepare (some v) = Reaches-pure v (λ s h. h v refl)

  -- An accepted operation is that of the intent which the storage answered with.
  pub accept-Seen :
      (operation : String) (request : Fields) (prepare : Action p.World Fields)
      → Reaches Any
          (accept p j operation request prepare)
          (λ op s.
            (v : Value) × Seen (operation ++ "/intent") v × (check_intent p j operation v ≡ ok op))
          Any
  unfolding accept
  accept-Seen operation request prepare = Reaches-bind _ _ (read-Seen _ true) λ found.
      Reaches-bind _ _ (chosen operation request prepare found) λ v.
        Reaches-bind _ _ (Reaches-rescue (check_intent p j operation v) _ (λ s h. tt)) λ op.
          Reaches-bind _ _ (Reaches-weak _ (Keeps-lift _) (λ u s h. h) (λ s h. tt))
            λ u. Reaches-pure op (λ s h. (v, h.0, h.1))
