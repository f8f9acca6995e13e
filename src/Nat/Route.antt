-- ===== src/Nat/Route.antt =====
-- `lambda_handler` of terraform/infra/global/modules/nat/lambda/change_rt.py.
use terragrunt_demo.Common.{
  String, Bool, false, ◌||◌, Option, none, some, ◌==◌, if◌then◌else◌, Result, ok, raise, Raised,
}
use terragrunt_demo.Common.Exec.{Exec, pure, reads, ◌>>=◌}
use terragrunt_demo.Nat.Instance.{
  Detail, Instance, Aws, is_not_running, by_zone, is_foreign, first, resolve, describe,
}

-- The environment variables that the module reads.
pub record Settings : Type 0 where
  pub route_table_a_id : Option String
  pub route_table_b_id : Option String
  pub subnet_a_id : Option String
  pub subnet_b_id : Option String
  pub asg_prefix : String

-- The errors of `replace_route` that mean that there is no route yet.
abbrev pub is_missing : Raised → Bool
is_missing (Raised.provider code) =
    code == "InvalidRoute.NotFound" || code == "InvalidParameterValue"
is_missing _ = false

-- The error of `create_route` that another writer was faster.
abbrev pub is_duplicate : Raised → Bool
is_duplicate (Raised.provider code) = code == "RouteAlreadyExists"
is_duplicate _ = false

module _ (aws : Aws) where
  open aws use {World}

  -- The handler of the second `try`.
  unfoldable pub after_create : Option String → String → Result (Unit {0}) → Exec World (Unit {0})
  after_create table eni (ok _) w = (ok tt, w)
  after_create table eni (raise x) w =
      if is_duplicate x then aws.replace_route table eni w else (raise x, w)

  unfoldable pub create : Option String → String → Exec World (Unit {0})
  create table eni w = let (r, w') = aws.create_route table eni w in after_create table eni r w'

  -- The handler of the first `try`.
  unfoldable pub after_replace : Option String → String → Result (Unit {0}) → Exec World (Unit {0})
  after_replace table eni (ok _) w = (ok tt, w)
  after_replace table eni (raise x) w = if is_missing x then create table eni w else (raise x, w)

  -- `_upsert_default_route`
  unfoldable pub upsert_default_route : Option String → String → Exec World (Unit {0})
  upsert_default_route table eni w =
      let (r, w') = aws.replace_route table eni w in after_replace table eni r w'

  module _ (e : Settings) where
    abbrev pub route_table : Instance → Option (Option String)
    route_table i =
        by_zone e.subnet_a_id e.subnet_b_id e.route_table_a_id e.route_table_b_id i.subnet_id

    unfoldable pub update : Option (Option String) → String → Exec World (Unit {0})
    update none eni = pure tt
    update (some table) eni = upsert_default_route table eni

    -- From the description of the instance on.
    unfoldable pub process : String → Exec World (Unit {0})
    process id = do
      i ← reads (describe aws id)
      eni ← reads (λ _. first i.network_interfaces)
      update (route_table i) eni

    unfoldable pub handle : Detail → Option String → Exec World (Unit {0})
    handle d none = pure tt
    handle d (some id) =
        if is_foreign e.asg_prefix d.auto_scaling_group_name then pure tt else process id

    unfoldable pub resolved : Detail → Exec World (Unit {0})
    resolved d = do id ← reads (resolve aws d); handle d id

    unfoldable pub lambda_handler : Detail → Exec World (Unit {0})
    lambda_handler d = if is_not_running d.state then pure tt else resolved d
