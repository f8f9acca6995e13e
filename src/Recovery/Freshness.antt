-- ===== src/Recovery/Freshness.antt =====
-- The time of an observation, as scripts/recovery/nat.py and scripts/recovery/application.py check it.
use terragrunt_demo.Common.{require}
use terragrunt_demo.Common.Action.{Action, lift, ◌>>=◌, ◌>>◌}
use terragrunt_demo.Json.{Value}
use terragrunt_demo.Recovery.Exact.{is_int, le}
use terragrunt_demo.Recovery.Ports.{Ports}

module _ (p : Ports) where
  -- The observation is from the time of this call.
  unfoldable pub check_time : Value → Value → Action p.World (Unit {0})
  check_time now at = do
    lift (require (is_int at))
    begun ← lift (le now at)
    lift (require begun)
    later ← p.now
    over ← lift (le at later)
    lift (require over)
