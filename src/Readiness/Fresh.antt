-- ===== src/Readiness/Fresh.antt =====
-- What `verify` of scripts/nat/reliability.py accepts, and how long it may sleep.
use terragrunt_demo.Common.{
  ℕ, zero, suc, ◌+◌, ◌-◌, ◌*◌, ◌/◌, ◌<◌, ◌≤◌, String, ◌≡◌, refl, ◌∙◌, inl, inr, arith, Bool-cases,
  Result-cases, leb, nat_eq, Result, ok, raise,
}
use terragrunt_demo.Common.Exec.{Exec, continue, pure, reads, ◌>>=◌, ◌>>◌}
use terragrunt_demo.Json.{Fields}
use terragrunt_demo.Readiness.Observed.{Ports, Evidence, second}
use terragrunt_demo.Readiness.Assess.{
  is_caught, min, assess, in_time, resolved_instance, attempt, wait, retry, loop, verify,
}

-- A step that returned: its first part did, and the rest gave the result.
bind-ok :
    {S A B : Type 0} (step : Exec S A) (rest : A → Exec S B) (s : S) {b : B}
    → ((step >>= rest) s).0 ≡ ok b
    → (a : A) × ((step s).0 ≡ ok a) × ((rest a (step s).1).0 ≡ ok b)
bind-ok step rest s h = elim (Result-cases (step s).0) [
  | inl (a, e) ↦ (a, e, ground (arith, e))
  | inr (x, e) ↦ absurd (ground (arith, e))
]

module _ (ports : Ports) where
  open ports use {World, now}

  -- Evidence of one attempt: the resolver named the expected instance, the evidence is that of an
  -- assessment, and after it the clock still stood before the deadline.
  pub record Fresh (deadline : ℕ) (expected : String) (evidence : Evidence) : Type 0 where
    pub before : World
    pub state : Fields
    pub resolved : (ports.resolve before).0 ≡ ok state
    pub named : resolved_instance ports state expected ≡ ok tt
    pub during : World
    pub seconds : ℕ
    pub assessed : (assess ports state seconds during).0 ≡ ok evidence
    pub in_budget : (now (assess ports state seconds during).1).0 < deadline

  before_deadline : (d : ℕ) (v : World) → (in_time ports d v).0 ≡ ok tt → (now v).0 < d
  unfolding in_time
  before_deadline d v h = ground arith

  attempt-Fresh :
      (deadline : ℕ) (expected : String) (w : World) (evidence : Evidence)
      → (attempt ports deadline expected w).0 ≡ ok evidence
      → Fresh deadline expected evidence
  unfolding attempt
  attempt-Fresh deadline expected w evidence h =
      let (_, _, h1) = bind-ok (in_time ports deadline) _ w h in
      let w1 = (in_time ports deadline w).1 in
      let (state, resolved, h2) = bind-ok ports.resolve _ w1 h1 in
      let w2 = (ports.resolve w1).1 in
      let (_, _, h3) = bind-ok (in_time ports deadline) _ w2 h2 in
      let w3 = (in_time ports deadline w2).1 in
      let (_, named, h4) = bind-ok (reads (λ _. resolved_instance ports state expected)) _ w3 h3 in
      let t = (now w3).0 in
      let w4 = (now w3).1 in
      let (found, assessed, h5) = bind-ok (assess ports state (t / second)) _ w4 h4 in
      let w5 = (assess ports state (t / second) w4).1 in
      let (_, timely, done) = bind-ok (in_time ports deadline) _ w5 h5 in
      record {
        before = w1;
        state = state;
        resolved = resolved;
        named = named;
        during = w4;
        seconds = t / second;
        assessed = assessed ∙ done;
        in_budget = before_deadline deadline w5 timely;
      }

  loop-Fresh :
      (left deadline : ℕ) (expected : String) (w : World) (evidence : Evidence)
      → (loop ports left deadline expected w).0 ≡ ok evidence
      → Fresh deadline expected evidence
  unfolding loop retry
  loop-Fresh zero deadline expected w evidence h = cc
  loop-Fresh (suc left) deadline expected w evidence h =
      let out = attempt ports deadline expected w in
      elim (Result-cases out.0) [
        | inl (found, e) ↦ attempt-Fresh deadline expected w evidence (ground (arith, e))
        | inr (x, e) ↦ elim (Bool-cases (is_caught x)) [
          | inr passed ↦ absurd (ground (arith, e))
          | inl caught ↦ elim (Bool-cases (nat_eq left 0)) [
            | inl last ↦ absurd (ground (arith, e))
            | inr more ↦ elim (Bool-cases (leb deadline (now out.1).0)) [
              | inl late ↦ absurd (ground (arith, e))
              | inr early ↦
                  loop-Fresh left deadline expected (wait ports deadline (now out.1).1) evidence
                    (ground (arith, e))
            ]
          ]
        ]
      ]

  -- Evidence that `verify` returns is that of an assessment of the expected instance, finished less
  -- than 120 seconds after the start.
  pub verify-Fresh :
      (expected : String) (w : World) (evidence : Evidence)
      → (verify ports expected w).0 ≡ ok evidence
      → Fresh ((now w).0 + 120 * second) expected evidence
  unfolding verify
  verify-Fresh expected w evidence h =
      loop-Fresh 12 ((now w).0 + 120 * second) expected (now w).1 evidence h

  -- What is relied on of the ports: only a pause adds to the time slept, by what it is asked for.
  pub record Still (slept : World → ℕ) : Type 0 where
    pub clock : (w : World) → slept (now w).1 ≡ slept w
    pub resolver : (w : World) → slept (ports.resolve w).1 ≡ slept w
    pub tables : (id : String) (w : World) → slept (ports.describe_route_tables id w).1 ≡ slept w
    pub instances : (id : String) (w : World) → slept (ports.describe_instances id w).1 ≡ slept w
    pub console : (id : String) (w : World) → slept (ports.get_console_output id w).1 ≡ slept w
    pub pauses : (n : ℕ) (w : World) → slept (ports.pause n w) ≡ slept w + n

  module _ (slept : World → ℕ) (still : Still slept) where
    -- A step without a pause.
    abbrev Keeps : {A : Type 0} → Exec World A → Type 0
    Keeps step = (w : World) → slept (step w).1 ≡ slept w

    continue-Keeps :
        {A B : Type 0} (r : Result A) (rest : A → Exec World B)
        → ((a : A) → Keeps (rest a))
        → (w : World) → slept (continue r rest w).1 ≡ slept w
    continue-Keeps (ok a) rest h w = h a w
    continue-Keeps (raise x) rest h w = refl

    bind-Keeps :
        {A B : Type 0} (step : Exec World A) (rest : A → Exec World B)
        → Keeps step
        → ((a : A) → Keeps (rest a))
        → Keeps (step >>= rest)
    bind-Keeps step rest k h w = continue-Keeps (step w).0 rest h (step w).1 ∙ k w

    in_time-Keeps : (d : ℕ) → Keeps (in_time ports d)
    unfolding in_time
    in_time-Keeps d w = still.clock w

    assess-Keeps : (state : Fields) (seconds : ℕ) → Keeps (assess ports state seconds)
    unfolding assess
    assess-Keeps state seconds =
        bind-Keeps (reads _) _ (λ w. refl)
          (λ m.
            bind-Keeps (ports.describe_route_tables m.route_table) _ (still.tables m.route_table)
              (λ tables.
                bind-Keeps (reads _) _ (λ w. refl)
                  (λ _.
                    bind-Keeps (ports.describe_instances m.instance) _ (still.instances m.instance)
                      (λ reservations.
                        bind-Keeps (reads _) _ (λ w. refl)
                          (λ launched.
                            bind-Keeps (ports.get_console_output m.instance) _
                              (still.console m.instance)
                              (λ c. bind-Keeps (reads _) _ (λ w. refl) (λ _ w. refl)))))))

    measured-Keeps :
        (d seconds : ℕ) (state : Fields)
        → Keeps (assess ports state seconds >>= λ evidence. in_time ports d >> pure evidence)
    measured-Keeps d seconds state =
        bind-Keeps (assess ports state seconds) (λ evidence. in_time ports d >> pure evidence)
          (assess-Keeps state seconds)
          (λ evidence.
            bind-Keeps (in_time ports d) (λ _. pure evidence) (in_time-Keeps d) (λ _ w. refl))

    attempt-Keeps : (d : ℕ) (expected : String) → Keeps (attempt ports d expected)
    unfolding attempt
    attempt-Keeps d expected = bind-Keeps {B = Evidence} (in_time ports d) _ (in_time-Keeps d) (λ _.
        bind-Keeps {B = Evidence} ports.resolve _ still.resolver (λ state.
          bind-Keeps {B = Evidence} (in_time ports d) _ (in_time-Keeps d) (λ _.
            bind-Keeps {B = Evidence} (reads _) _ (λ w. refl)
              (λ _ w. measured-Keeps d ((now w).0 / second) state (now w).1 ∙ still.clock w))))

    wait-le : (d : ℕ) (w : World) → slept (wait ports d w) ≤ slept w + 10 * second
    unfolding wait
    wait-le d w =
        let t = (now w).0 in
        ground (arith, still.clock w, still.pauses (min (10 * second) (d - t)) (now w).1)

    loop-le :
        (left d : ℕ) (expected : String) (w : World)
        → slept (loop ports left d expected w).1 ≤ slept w + (left - 1) * (10 * second)
    unfolding loop retry
    loop-le zero d expected w = omega arith
    loop-le (suc left) d expected w =
        let out = attempt ports d expected w in
        let kept = attempt-Keeps d expected w in
        elim (Result-cases out.0) [
          | inl (found, e) ↦ ground (arith, e, kept)
          | inr (x, e) ↦ elim (Bool-cases (is_caught x)) [
            | inr passed ↦ ground (arith, e, kept)
            | inl caught ↦ elim (Bool-cases (nat_eq left 0)) [
              | inl last ↦ ground (arith, e, kept)
              | inr more ↦ elim (Bool-cases (leb d (now out.1).0)) [
                | inl late ↦ ground (arith, e, kept, still.clock out.1)
                | inr early ↦ ground (
                  arith,
                  e,
                  kept,
                  still.clock out.1,
                  wait-le d (now out.1).1,
                  loop-le left d expected (wait ports d (now out.1).1),
                )
              ]
            ]
          ]
        ]

    -- `verify` sleeps for 110 seconds at most.
    pub verify_sleeps :
        (expected : String) (w : World) → slept (verify ports expected w).1 ≤ slept w + 110 * second
    unfolding verify
    verify_sleeps expected w =
        let start = (now w).1 in
        omega (arith, still.clock w, loop-le 12 ((now w).0 + 120 * second) expected start)
