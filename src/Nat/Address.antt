-- ===== src/Nat/Address.antt =====
-- `lambda_handler` of terraform/infra/global/modules/nat/lambda/assign_eip.py.
use terragrunt_demo.Common.{String, Option, none, some, if◌then◌else◌}
use terragrunt_demo.Common.Exec.{Exec, pure, reads, ◌>>=◌}
use terragrunt_demo.Nat.Instance.{
  Detail, Instance, Aws, is_not_running, by_zone, is_foreign, first, resolve, describe,
}

-- The environment variables that the module reads.
pub record Settings : Type 0 where
  pub subnet_a_id : Option String
  pub subnet_b_id : Option String
  pub eip_a_allocation_id : Option String
  pub eip_b_allocation_id : Option String
  pub asg_prefix : String

module _ (aws : Aws) (e : Settings) where
  open aws use {World}

  abbrev pub allocation : Instance → Option (Option String)
  allocation i =
      by_zone e.subnet_a_id e.subnet_b_id e.eip_a_allocation_id e.eip_b_allocation_id i.subnet_id

  unfoldable pub associate : Option (Option String) → String → Exec World (Unit {0})
  associate none eni = pure tt
  associate (some allocation_id) eni = aws.associate_address allocation_id eni

  -- From the description of the instance on.
  unfoldable pub assign : String → Exec World (Unit {0})
  assign id = do
    i ← reads (describe aws id)
    eni ← reads (λ _. first i.network_interfaces)
    associate (allocation i) eni

  unfoldable pub handle : Detail → Option String → Exec World (Unit {0})
  handle d none = pure tt
  handle d (some id) =
      if is_not_running d.state
      then pure tt
      else if is_foreign e.asg_prefix d.auto_scaling_group_name
      then pure tt
      else assign id

  unfoldable pub lambda_handler : Detail → Exec World (Unit {0})
  lambda_handler d = do id ← reads (resolve aws d); handle d id
