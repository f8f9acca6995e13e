-- ===== src/Recovery/Retry.antt =====
-- A retry of an operation of scripts/recovery/journal.py works on the intent that the first run put
-- down, whatever its own caller and its own controller say.
use Prim.Native.String.{◌++◌}
use terragrunt_demo.Common.{
  String, ◌≡◌, refl, ap, ◌∙◌, sym, true, false, Option, none, some, ok, raise≢ok, Result-cases,
  Option-cases, inl, inr, ok-injective,
}
use terragrunt_demo.Common.Action.{Action, pure, fail, lift, rescue, choose, ◌>>=◌, returned}
use terragrunt_demo.Common.Action.Keeps.{
  Reaches-returned, Any, Reaches, Reaches-bind, Reaches-Any, Reaches-from, Reaches-pure,
  Reaches-weak, Reaches-rescue, Keeps-lift,
}
use terragrunt_demo.Json.{Value, Fields, obj}
use terragrunt_demo.Recovery.Exact.{exact}
use terragrunt_demo.Recovery.Ports.{Ports, Operation, State}
use terragrunt_demo.Recovery.Intent.{Journal, opened, check_intent}
use terragrunt_demo.Recovery.Journal.{read, create_intent, accept}
use terragrunt_demo.Recovery.Stable.{Immutable, Grows}
use terragrunt_demo.Recovery.Reads.{read-none}
use terragrunt_demo.Recovery.Entries.{read-opened, Entry, read-Entry, put-Entry}

module _ (p : Ports) (j : Journal) where
  -- A retry that finds an intent: its own `prepare` is not run, and nothing is written.
  accept-some :
      (operation : String) (request : Fields) (prepare : Action p.World Fields) (t : State p)
      (v : Value) (op : Operation)
      → (read p j (operation ++ "/intent") true t).0 ≡ ok (some v)
      → (accept p j operation request prepare t).0 ≡ ok op
      → (check_intent p j operation v ≡ ok op)
        × ((accept p j operation request prepare t).1
            ≡ (read p j (operation ++ "/intent") true t).1)
  unfolding accept ◌>>=◌ rescue lift pure fail
  accept-some operation request prepare t v op found h =
      elim (Result-cases (check_intent p j operation v)) [
        | inl (op', e) ↦ elim (Result-cases (exact (obj op'.request) (obj request))) [
          | inl (u, f) ↦ (e ∙ (rw (found, e, f) at h), rw (found, e, f))
          | inr (x, f) ↦ absurd (raise≢ok (rw (found, e, f) at h))
        ]
        | inr (x, e) ↦ absurd (raise≢ok (rw (found, e) at h))
      ]

  module _ (laws : Immutable p) where
    -- The accepted operation is that of the stored intent.
    abbrev pub Kept : String → Operation → State p → Type 0
    Kept operation op s =
        (v : Value) × Entry p j laws (operation ++ "/intent") v s
        × (check_intent p j operation v ≡ ok op)

    found_at :
        (operation : String) (request : Fields) (prepare : Action p.World Fields) (t : State p)
        (op : Operation)
        → (accept p j operation request prepare t).0 ≡ ok op
        → (found : Option Value) × ((read p j (operation ++ "/intent") true t).0 ≡ ok found)
    unfolding accept
    found_at operation request prepare t op h =
        let (found, r, _, _) = returned _ _ t h in (found, r)

    create-Entry :
        (operation : String) (request : Fields) (prepare : Action p.World Fields)
        → Reaches Any
            (create_intent p j operation request prepare)
            (λ v s. Entry p j laws (operation ++ "/intent") v s)
            Any
    unfolding create_intent
    create-Entry operation request prepare = Reaches-bind _ _ (Reaches-Any _) λ before.
        Reaches-bind _ _ (Reaches-Any _) λ u. Reaches-bind _ _ (Reaches-Any _) λ now.
          Reaches-bind _ _ (Reaches-Any _) λ i.
            Reaches-bind _ _ (Reaches-Any _)
              λ deadline. Reaches-bind _ _ (Reaches-Any _) λ domain. put-Entry p j laws _ _

    chosen :
        (operation : String) (request : Fields) (prepare : Action p.World Fields)
        (found : Option Value)
        → Reaches
            (λ s. (v : Value) → found ≡ some v → Entry p j laws (operation ++ "/intent") v s)
            (choose found (create_intent p j operation request prepare) pure)
            (λ v s. Entry p j laws (operation ++ "/intent") v s)
            Any
    chosen operation request prepare none =
        Reaches-from (λ s h. tt) (create-Entry operation request prepare)
    chosen operation request prepare (some v) = Reaches-pure v (λ s h. h v refl)

    accept-Kept :
        (operation : String) (request : Fields) (prepare : Action p.World Fields)
        → Reaches Any (accept p j operation request prepare) (λ op s. Kept operation op s) Any
    unfolding accept
    accept-Kept operation request prepare = Reaches-bind _ _ (read-Entry p j laws _ true) λ found.
        Reaches-bind _ _ (chosen operation request prepare found) λ v.
          Reaches-bind _ _ (Reaches-rescue (check_intent p j operation v) _ (λ s h. tt)) λ op.
            Reaches-bind _ _ (Reaches-weak _ (Keeps-lift _) (λ u s h. h) (λ s h. tt))
              λ u. Reaches-pure op (λ s h. (v, h.0, h.1))

    -- Once an operation was accepted, every later acceptance of it gives the same operation, whatever
    -- the caller asks for and the controller would prepare, and does nothing but read the intent.
    pub accept-retry :
        (operation : String) (request request' : Fields) (prepare prepare' : Action p.World Fields)
        (s t : State p) (op op' : Operation)
        → (accept p j operation request prepare s).0 ≡ ok op
        → Grows p laws (accept p j operation request prepare s).1.world t.world
        → (accept p j operation request' prepare' t).0 ≡ ok op'
        → (op' ≡ op)
          × ((accept p j operation request' prepare' t).1
              ≡ (read p j (operation ++ "/intent") true t).1)
    accept-retry operation request request' prepare prepare' s t op op' first grows again =
        let (v, (o, holds, is), checked) =
          Reaches-returned (accept-Kept operation request prepare) s op tt first in
        let there = grows _ o holds in
        let (found, r) = found_at operation request' prepare' t op' again in
        elim (Option-cases found) [
          | inl gone ↦
              absurd (laws.read_sees t.world _ o there (read-none p j _ true t (r ∙ ap ok gone)))
          | inr (w, some_w) ↦
              let (o', e', is') = read-opened p j _ true t w (r ∙ ap ok some_w) in
              let same = laws.read_same t.world _ o o' there e' in
              let (checked', state) =
                accept-some operation request' prepare' t w op' (r ∙ ap ok some_w) again in
              let e : w ≡ v = ok-injective (sym is' ∙ ap (opened p false) same ∙ is) in
              (ok-injective (sym checked' ∙ ap (check_intent p j operation) e ∙ checked), state)
        ]
