-- ===== src/Readiness/Assess.antt =====
-- `assess` and `verify` of scripts/nat/reliability.py: one reading, and the loop that repeats it.
use terragrunt_demo.Common.{
  ℕ, zero, suc, ◌+◌, ◌-◌, ◌*◌, ◌/◌, String, Bool, true, false, if◌then◌else◌, ltb, leb, nat_eq,
  Result, ok, raise, Raised, require,
}
use terragrunt_demo.Common
use terragrunt_demo.Common.Exec.{Exec, pure, reads, ◌>>=◌, ◌>>◌}
use terragrunt_demo.Json.{Fields, item, is_text}
use terragrunt_demo.Dicts.{dict_of}
use terragrunt_demo.Readiness.Observed.{
  Ports, Evidence, second, read_state, check_table, check_instance, check_console,
}

-- What `verify` catches; other errors, such as those of the AWS calls, pass through.
abbrev pub is_caught : Raised → Bool
is_caught Raised.rejected = true
is_caught Raised.key_error = true
is_caught Raised.type_error = true
is_caught Raised.index_error = true
is_caught Raised.unicode_error = true
is_caught _ = false

abbrev pub min : ℕ → ℕ → ℕ
min a b = if leb a b then a else b

module _ (ports : Ports) where
  -- `now` is in whole seconds.
  unfoldable pub assess : Fields → ℕ → Exec ports.World Evidence
  assess state now = do
    m ← reads (λ _. read_state state)
    tables ← ports.describe_route_tables m.route_table
    reads (λ _. check_table m tables)
    reservations ← ports.describe_instances m.instance
    launched ← reads (λ _. check_instance m reservations)
    console ← ports.get_console_output m.instance
    reads (λ _. check_console m launched now console)
    pure (record { membership = m.fields; observed_at = now })

  abbrev pub tick : Exec ports.World ℕ
  tick w = let (t, w') = ports.now w in (ok t, w')

  -- `require(now() < deadline)`
  unfoldable pub in_time : ℕ → Exec ports.World (Unit {0})
  in_time deadline = do t ← tick; reads (λ _. require (ltb t deadline))

  -- The instance that the resolver names.
  abbrev pub resolved_instance : Fields → String → Result (Unit {0})
  resolved_instance state expected = Common.◌>>=◌ (item state "membership") (λ v.
      Common.◌>>=◌ (dict_of v)
        (λ m. Common.◌>>=◌ (item m "instance") (λ i. require (is_text i expected))))

  -- The body of the `try`.
  unfoldable pub attempt : ℕ → String → Exec ports.World Evidence
  attempt deadline expected = do
    in_time deadline
    state ← ports.resolve
    in_time deadline
    reads (λ _. resolved_instance state expected)
    t ← tick
    evidence ← assess state (t / second)
    in_time deadline
    pure evidence

  -- The pause before another attempt: ten seconds, or what is left.
  unfoldable pub wait : ℕ → ports.World → ports.World
  wait deadline w = let (t, w') = ports.now w in ports.pause (min (10 * second) (deadline - t)) w'

  -- The handler, with the attempts that are left and the rest of the loop.
  unfoldable pub retry :
      ℕ
      → ℕ
      → Exec ports.World Evidence
      → Result Evidence × ports.World
      → Result Evidence × ports.World
  retry left deadline again (ok evidence, w) = (ok evidence, w)
  retry left deadline again (raise x, w) =
      if is_caught x
      then if nat_eq left 0
        then (raise Raised.rejected, w)
        else if leb deadline (ports.now w).0
        then (raise Raised.rejected, (ports.now w).1)
        else again (wait deadline (ports.now w).1)
      else (raise x, w)

  -- The loop, by the attempts that are left.
  unfoldable pub loop : ℕ → ℕ → String → Exec ports.World Evidence
  loop zero deadline expected w = (raise Raised.rejected, w)
  loop (suc left) deadline expected w =
      retry left deadline (loop left deadline expected) (attempt deadline expected w)

  -- `verify`
  unfoldable pub verify : String → Exec ports.World Evidence
  verify expected w = let (t, w') = ports.now w in loop 12 (t + 120 * second) expected w'
