-- ===== src/Nat/Tests.antt =====
-- Runs of the lambdas of terraform/infra/global/modules/nat/lambda on a small network.
use terragrunt_demo.Common.{
  String, ◌≡◌, refl, Bool, true, false, Option, none, some, [], ◌∷◌, ◌⊎◌, Result, ok, raise, Raised,
  startswith,
}
use terragrunt_demo.Nat.Instance.{
  Detail, Instance, Aws, selected, is_foreign, instance_id_from_asg, resolve, describe,
}
use terragrunt_demo.Nat.Address
use terragrunt_demo.Nat.Route
use terragrunt_demo.Nat.SourceCheck
use terragrunt_demo.Nat.Zones.{Routed, change_route-Routed, Assigned, assign_address-Assigned}
use terragrunt_demo.Nat.Upsert.{SetsRoutes, upsert_routes}
use terragrunt_demo.Nat.Allowed.{Waited, Disabled, disable_source_check-Disabled}

-- One route table, whose default route may be missing, one address, and one instance's check.
pub record Network : Type 0 where
  pub default_route : Option String
  pub address : Option String
  pub checks_source : Bool

abbrev replaced : String → Option String → Network → Result (Unit {0}) × Network
replaced eni none w = (raise (Raised.provider "InvalidRoute.NotFound"), w)
replaced eni (some old) w = (ok tt, record w { default_route = some eni })

abbrev created : String → Option String → Network → Result (Unit {0}) × Network
created eni none w = (ok tt, record w { default_route = some eni })
created eni (some old) w = (raise (Raised.provider "RouteAlreadyExists"), w)

abbrev instance_a : Instance
instance_a = record {
  subnet_id = some "subnet-a";
  network_interfaces = "eni-1" ∷ [];
  tags = ("aws:autoscaling:groupName", "nat-a") ∷ [];
}

abbrev network : Aws
network = record {
  World = Network;
  describe_auto_scaling_groups = λ _ _. ok (
      (record {
        instance_id = some "i-1";
        lifecycle_state = some "InService";
        health_status = some "Healthy";
      }
        ∷ [])
      ∷ []);
  describe_instances = λ _ _. ok ((instance_a ∷ []) ∷ []);
  associate_address = λ _ eni w. (ok tt, record w { address = some eni });
  replace_route = λ _ eni w. replaced eni w.default_route w;
  create_route = λ _ eni w. created eni w.default_route w;
  disable_source_check = λ _ w. (ok tt, record w { checks_source = false });
  sleep = λ _ w. (ok tt, w);
}

abbrev fresh : Network
fresh = record { default_route = none; address = none; checks_source = true }

-- An event that names only the group.
abbrev launch : Detail
launch = record {
  instance_id = none;
  ec2_instance_id = none;
  auto_scaling_group_name = some "nat-a";
  state = none;
}

abbrev routes : Route.Settings
routes = record {
  route_table_a_id = some "rtb-a";
  route_table_b_id = some "rtb-b";
  subnet_a_id = some "subnet-a";
  subnet_b_id = some "subnet-b";
  asg_prefix = "nat-";
}

abbrev addresses : Address.Settings
addresses = record {
  subnet_a_id = some "subnet-a";
  subnet_b_id = some "subnet-b";
  eip_a_allocation_id = some "eip-a";
  eip_b_allocation_id = some "eip-b";
  asg_prefix = "nat-";
}

creates_route :
    Route.lambda_handler network routes launch fresh
    ≡ (ok tt, record fresh { default_route = some "eni-1" })
unfolding Route.lambda_handler Route.resolved Route.handle Route.process Route.update
    Route.upsert_default_route Route.after_replace Route.create Route.after_create resolve describe
    instance_id_from_asg selected is_foreign startswith
creates_route = refl

assigns :
    Address.lambda_handler network addresses launch fresh
    ≡ (ok tt, record fresh { address = some "eni-1" })
unfolding Address.lambda_handler Address.handle Address.assign Address.associate resolve describe
    instance_id_from_asg selected is_foreign startswith
assigns = refl

abbrev unnamed : Detail
unnamed = record launch { instance_id = some "i-1"; auto_scaling_group_name = none }

disables :
    SourceCheck.lambda_handler network "nat-" unnamed fresh
    ≡ (ok tt, record fresh { checks_source = false })
unfolding SourceCheck.lambda_handler SourceCheck.resolved SourceCheck.handle SourceCheck.group_of
    SourceCheck.retry_tag SourceCheck.get_asg_tag SourceCheck.is_allowed resolve describe startswith
disables = refl

change_route-Routed_example :
    ((Route.lambda_handler network routes launch fresh).1 ≡ fresh)
    ⊎ Routed network fresh routes launch (Route.lambda_handler network routes launch fresh)
change_route-Routed_example = change_route-Routed network fresh routes launch

assign_address-Assigned_example :
    ((Address.lambda_handler network addresses launch fresh).1 ≡ fresh)
    ⊎ Assigned network fresh addresses launch
        (Address.lambda_handler network addresses launch fresh)
assign_address-Assigned_example = assign_address-Assigned network fresh addresses launch

disable_source_check-Disabled_example :
    Waited network "nat-" unnamed fresh (SourceCheck.lambda_handler network "nat-" unnamed fresh)
    ⊎ Disabled network "nat-" unnamed fresh
        (SourceCheck.lambda_handler network "nat-" unnamed fresh)
disable_source_check-Disabled_example = disable_source_check-Disabled network "nat-" unnamed fresh

network-SetsRoutes : SetsRoutes network (λ w _. w.default_route)
network-SetsRoutes = record {
  replaced = λ table eni w h. replaced_route eni w.default_route w h;
  created = λ table eni w h. created_route eni w.default_route w h;
}
  where
    replaced_route :
        (eni : String) (old : Option String) (w : Network)
        → (replaced eni old w).0 ≡ ok tt
        → (replaced eni old w).1.default_route ≡ some eni
    replaced_route eni none w h = cc
    replaced_route eni (some old) w h = refl

    created_route :
        (eni : String) (old : Option String) (w : Network)
        → (created eni old w).0 ≡ ok tt
        → (created eni old w).1.default_route ≡ some eni
    created_route eni none w h = refl
    created_route eni (some old) w h = cc

upserts : (Route.upsert_default_route network (some "rtb-a") "eni-1" fresh).0 ≡ ok tt
unfolding Route.upsert_default_route Route.after_replace Route.create Route.after_create
upserts = refl

upsert_routes_example :
    (Route.upsert_default_route network (some "rtb-a") "eni-1" fresh).1.default_route ≡ some "eni-1"
upsert_routes_example =
    upsert_routes network (λ w _. w.default_route) (some "rtb-a") "eni-1" fresh network-SetsRoutes
      upserts
