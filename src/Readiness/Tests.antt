-- ===== src/Readiness/Tests.antt =====
-- A NAT instance that becomes ready after fifteen seconds, through scripts/nat/reliability.py.
use terragrunt_demo.Common.{
  ℕ, ◌+◌, ◌*◌, ◌≤◌, ◌≡◌, refl, ap, true, false, some, [], ◌∷◌, ltb, if◌then◌else◌, Result, ok,
  raise, Raised, contains,
}
use terragrunt_demo.Json.{str, bool, obj, Fields, field, end, py_eq}
use terragrunt_demo.Ci.FilePath.{split}
use terragrunt_demo.Readiness.Observed.{
  Ports, Evidence, second, read_state, check_table, check_instance, check_console, marker, markers,
}
use terragrunt_demo.Readiness.Assess.{assess, in_time, attempt, wait, retry, loop, verify}
use terragrunt_demo.Readiness.Fresh.{Fresh, verify-Fresh, Still, verify_sleeps}

pub record Moment : Type 0 where
  pub clock : ℕ
  pub slept : ℕ

abbrev membership : Fields
membership = field "eni" (str "eni-1") (
    field "route_table" (str "rtb-1")
      (field "vpc" (str "vpc-1") (field "instance" (str "i-0123456789") end)))

abbrev observed : Fields
observed =
    field "association_eni" (str "eni-1")
      (field "default_route_eni" (str "eni-1") (field "source_dest_check" (bool false) end))

abbrev state : Fields
state =
    field "membership" (obj membership)
      (field "observed" (obj observed) (field "route_exists" (bool true) end))

abbrev ports : Ports
ports = record {
  World = Moment;
  now = λ w. (w.clock, w);
  pause = λ n w. record { clock = w.clock + n; slept = w.slept + n };
  resolve = λ w. (if ltb w.clock (1015 * second) then raise Raised.rejected else ok state, w);
  describe_route_tables = λ _ w. (
    ok (
        record {
          vpc_id = "vpc-1";
          route_table_id = "rtb-1";
          routes =
              record {
                destination_cidr_block = some "0.0.0.0/0";
                network_interface_id = some "eni-1";
                state = some "active";
              }
              ∷ [];
        }
        ∷ []),
    w,
  );
  describe_instances = λ _ w. (
    ok (
        (record {
          instance_id = "i-0123456789";
          state = "running";
          launch_time = some (990 * second);
        }
          ∷ [])
        ∷ []),
    w,
  );
  get_console_output = λ _ w. (
    ok (record {
      instance_id = some "i-0123456789";
      output = some "boot\nE13_NAT_BOOTSTRAP_V1 i-0123456789 1001 CONFIGURED\n";
      timestamp = some (1002 * second);
    }),
    w,
  );
}

abbrev start : Moment
start = record { clock = 1000 * second; slept = 0 }

abbrev evidence : Evidence
evidence = record { membership = membership; observed_at = 1020 }

verifies :
    verify ports "i-0123456789" start
    ≡ (ok evidence, record { clock = 1020 * second; slept = 20 * second })
unfolding verify loop retry attempt in_time wait assess read_state check_table check_instance
    check_console markers marker split contains py_eq
verifies = refl

-- Another instance than the expected one is never accepted: the loop ends after 110 seconds.
gives_up :
    verify ports "i-9999999999" start
    ≡ (raise Raised.rejected, record { clock = 1110 * second; slept = 110 * second })
unfolding verify loop retry attempt in_time wait assess read_state check_table check_instance
    check_console markers marker split contains py_eq
gives_up = refl

accepted : (verify ports "i-0123456789" start).0 ≡ ok evidence
accepted = ap (λ (out : Result Evidence × Moment). out.0) verifies

verify-Fresh_example : Fresh ports (1120 * second) "i-0123456789" evidence
verify-Fresh_example = verify-Fresh ports "i-0123456789" start evidence accepted

ports-Still : Still ports (λ w. w.slept)
ports-Still = record {
  clock = λ w. refl;
  resolver = λ w. refl;
  tables = λ id w. refl;
  instances = λ id w. refl;
  console = λ id w. refl;
  pauses = λ n w. refl;
}

verify_sleeps_example : (verify ports "i-9999999999" start).1.slept ≤ start.slept + 110 * second
verify_sleeps_example = verify_sleeps ports (λ w. w.slept) ports-Still "i-9999999999" start
