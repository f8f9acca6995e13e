-- ===== src/Recovery/Once.antt =====
-- No change of a resource is dispatched twice by scripts/recovery/journal.py.
use Prim.Native.String.{◌++◌}
use mathlib.Core.Path.{subst}
use terragrunt_demo.Common.{
  String, ◌≡◌, ◌≢◌, refl, sym, Option, none, some, List, [], ◌∷◌, All, Result, ok, Result-cases,
  inl, inr,
}
use terragrunt_demo.Common.Action.{Action, pure, modify, rescue, handle, ◌>>=◌}
use terragrunt_demo.Common.Action.Keeps.{
  Reaches, Keeps, Reaches-bind, Reaches-weak, Reaches-then, Reaches-ok, Reaches-same, Keeps-modify,
  Keeps-pure, keeps_rules,
}
use terragrunt_demo.Json.{Value}
use terragrunt_demo.Recovery.Ports.{Ports, Operation, Call, State, dispatch}
use terragrunt_demo.Recovery.Intent.{Journal, Plan, stage_key}
use terragrunt_demo.Recovery.Journal.{path, put, start}
use terragrunt_demo.Recovery.Stable.{
  Immutable, Stands, Grows, IsStable, Leaves, port-Keeps, put-Keeps, bounded-Keeps,
  no_effect_yet-Keeps,
}
use terragrunt_demo.Recovery.Reads.{put-Stands}

-- The path of the attempt that a token goes with.
abbrev pub attempt_path : String → String
attempt_path token = token ++ "/attempt"

-- The calls have other tokens.
abbrev pub Others : String → List Call → Type 0
Others token cs = All (λ c. c.token ≢ token) cs

abbrev pub Distinct : List Call → Type 0
Distinct [] = Unit
Distinct (c ∷ cs) = Others c.token cs × Distinct cs

module _ (p : Ports) (laws : Immutable p) where
  abbrev pub Recorded : p.World → List Call → Type 0
  Recorded w cs = All (λ c. Stands p laws w (attempt_path c.token)) cs

  -- Each call has its attempt on record, and no two calls have one token.
  pub record Once (s : State p) : Type 0 where
    pub recorded : Recorded s.world s.calls
    pub distinct : Distinct s.calls

  -- Before the one attempt of a token, and when it is on record.
  pub record Fresh (token : String) (s : State p) : Type 0 where
    pub once : Once s
    pub others : Others token s.calls

  pub record Ready (token : String) (s : State p) : Type 0 where
    pub fresh : Fresh token s
    pub stands : Stands p laws s.world (attempt_path token)

  Recorded-Grows :
      (v w : p.World) (cs : List Call) → Grows p laws v w → Recorded v cs → Recorded w cs
  Recorded-Grows v w [] grows h = tt
  Recorded-Grows v w (c ∷ cs) grows h = ((h.0.0, grows _ _ h.0.1), Recorded-Grows v w cs grows h.1)

  pub Once-Grows :
      (s t : State p) → t.calls ≡ s.calls → Grows p laws s.world t.world → Once s → Once t
  Once-Grows s t same grows h = record {
    recorded =
        subst (Recorded t.world) (sym same)
          (Recorded-Grows s.world t.world s.calls grows h.recorded);
    distinct = subst Distinct (sym same) h.distinct;
  }

  Fresh-Grows :
      (token : String) (s t : State p)
      → t.calls ≡ s.calls
      → Grows p laws s.world t.world
      → Fresh token s
      → Fresh token t
  Fresh-Grows token s t same grows h = record {
    once = Once-Grows s t same grows h.once;
    others = subst (Others token) (sym same) h.others;
  }

  Ready-Grows :
      (token : String) (s t : State p)
      → t.calls ≡ s.calls
      → Grows p laws s.world t.world
      → Ready token s
      → Ready token t
  Ready-Grows token s t same grows h = record {
    fresh = Fresh-Grows token s t same grows h.fresh;
    stands = (h.stands.0, grows _ _ h.stands.1);
  }

  pub Once-IsStable : IsStable p laws Once
  Once-IsStable = record { step = λ s t same _ _ grows h. Once-Grows s t same grows h }

  Fresh-IsStable : (token : String) → IsStable p laws (Fresh token)
  Fresh-IsStable token = record {
    step = λ s t same _ _ grows h. Fresh-Grows token s t same grows h;
  }

  Ready-IsStable : (token : String) → IsStable p laws (Ready token)
  Ready-IsStable token = record {
    step = λ s t same _ _ grows h. Ready-Grows token s t same grows h;
  }

  -- A token whose attempt does not stand was not dispatched.
  pub unrecorded :
      (w : p.World) (token : String) (cs : List Call)
      → ¬ (Stands p laws w (attempt_path token))
      → Recorded w cs
      → Others token cs
  unrecorded w token [] n h = tt
  unrecorded w token (c ∷ cs) n h =
      (λ e. n (subst (λ t. Stands p laws w (attempt_path t)) e h.0), unrecorded w token cs n h.1)

  after :
      (c : Call) (w : p.World) (s : State p)
      → Grows p laws s.world w
      → Ready c.token s
      → Once (record s { world = w; calls = c ∷ s.calls })
  after c w s grows h = record {
    recorded = (
      (h.stands.0, grows _ _ h.stands.1),
      Recorded-Grows s.world w s.calls grows h.fresh.once.recorded,
    );
    distinct = (h.fresh.others, h.fresh.once.distinct);
  }

  -- The call itself, whose exception is ignored.
  send : Call → Action (State p) (Unit {0})
  send c = rescue (dispatch p c) (λ _. pure tt)

  send-Once : (c : Call) → Reaches (Ready c.token) (send c) (λ _. Once) Once
  unfolding send dispatch rescue pure
  send-Once c = Reaches-same (send c) λ s h.
      let (r, w) = p.mutate c.stage c.token c.request c.deadline s.world in
      split r w s (laws.mutate_leaves c.stage c.token c.request c.deadline s.world) h
    where
      split :
          (r : Result (Unit {0})) (w : p.World) (s : State p)
          → Grows p laws s.world w
          → Ready c.token s
          → Once (handle r (λ _. pure tt) (record s { world = w; calls = c ∷ s.calls })).1
      split r w s grows h = elim (Result-cases r) [
        | inl (a, e) ↦ rw e (after c w s grows h)
        | inr (x, e) ↦ rw e (after c w s grows h)
      ]

  module _ (j : Journal) where
    -- Steps before the attempt is on record, and after that.
    before :
        (token : String) {A : Type 0} (m : Action (State p) A)
        → Keeps (Fresh token) m
        → Reaches (Fresh token) m (λ _. Fresh token) Once
    before token m k = Reaches-weak m k (λ a s h. h) (λ s h. h.once)

    ready :
        (token : String) {A : Type 0} (m : Action (State p) A)
        → Keeps (Ready token) m
        → Reaches (Ready token) m (λ _. Ready token) Once
    ready token m k = Reaches-weak m k (λ a s h. h) (λ s h. h.fresh.once)

    put-Ready :
        (token key : String) (v : Value)
        → attempt_path token ≡ path p j key
        → Reaches (Fresh token) (put p j key v >>= λ _. pure tt) (λ _. Ready token) Once
    put-Ready token key v same =
        Reaches-bind _ _ (Reaches-at (put-Keeps p j laws (Fresh-IsStable token) key v))
          (λ u. Reaches-weak (pure tt) (Keeps-pure tt) (λ a s h. h) (λ s h. h.fresh.once))
      where
        found :
            (s : State p) (u : Value)
            → (put p j key v s).0 ≡ ok u
            → Stands p laws (put p j key v s).1.world (attempt_path token)
        found s u h =
            subst (Stands p laws (put p j key v s).1.world) (sym same)
              (put-Stands p j laws key v s u h)

        Reaches-at :
            Keeps (Fresh token) (put p j key v)
            → Reaches (Fresh token) (put p j key v) (λ _. Ready token) Once
        Reaches-at k =
            Reaches-then (Reaches-ok (put p j key v) k (λ s a h e. found s a e))
              (λ a s h. record { fresh = h.0; stands = h.1 }) (λ s h. h.once)

    pub start-Once :
        (op : Operation) (stage : String) (l : Plan) (guard : Action p.World (Unit {0}))
        → Leaves p laws guard
        → attempt_path l.token ≡ path p j (stage_key op stage ++ "/attempt")
        → Reaches (Fresh l.token) (start p j op stage l guard) (λ _. Once) Once
    unfolding start send
    start-Once op stage l guard leaves same =
        let fresh = Fresh-IsStable l.token in
        let stands = Ready-IsStable l.token in
        let quiet = λ (s : Option String).
          ready l.token (modify λ t. record t { preparing = s })
            (Keeps-modify _ (λ t h. Ready-Grows l.token t _ refl (λ k o x. x) h)) in
        Reaches-bind _ _ (before l.token _ (no_effect_yet-Keeps p j laws fresh _ _)) λ _.
          Reaches-bind _ _ (before l.token _ (search (keeps_rules, put-Keeps p j laws fresh))) λ _.
            Reaches-bind _ _ (before l.token _ (bounded-Keeps p j laws fresh op)) λ _.
              Reaches-bind _ _ (before l.token _ (port-Keeps p j laws fresh guard leaves)) λ _.
                Reaches-bind _ _ (put-Ready l.token _ _ same) λ _.
                  Reaches-bind _ _ (quiet (some stage)) λ _.
                    Reaches-bind _ _ (ready l.token _ (bounded-Keeps p j laws stands op)) λ _.
                      Reaches-bind _ _ (ready l.token _ (port-Keeps p j laws stands guard leaves))
                        λ _.
                          Reaches-bind _ _ (ready l.token _ (bounded-Keeps p j laws stands op))
                            λ _. Reaches-bind _ _ (quiet none) λ _. send-Once _
