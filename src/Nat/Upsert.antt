-- ===== src/Nat/Upsert.antt =====
-- What the default route is after change_rt.py of terraform/infra/global/modules/nat/lambda.
use terragrunt_demo.Common.{String, ◌≡◌, Option, some, arith, ok}
use terragrunt_demo.Nat.Instance.{Aws}
use terragrunt_demo.Nat.Route

-- What is relied on of EC2: a call that returns has set the table's default route.
pub record SetsRoutes (aws : Aws) (route : aws.World → Option String → Option String) : Type 0 where
  pub replaced :
      (table : Option String) (eni : String) (w : aws.World)
      → (aws.replace_route table eni w).0 ≡ ok tt
      → route (aws.replace_route table eni w).1 table ≡ some eni
  pub created :
      (table : Option String) (eni : String) (w : aws.World)
      → (aws.create_route table eni w).0 ≡ ok tt
      → route (aws.create_route table eni w).1 table ≡ some eni

module _ (aws : Aws) (route : aws.World → Option String → Option String) where
  create_routes :
      (table : Option String) (eni : String) (w : aws.World)
      → SetsRoutes aws route
      → (Route.create aws table eni w).0 ≡ ok tt
      → route (Route.create aws table eni w).1 table ≡ some eni
  unfolding Route.create Route.after_create
  create_routes table eni w s h =
      let w' = (aws.create_route table eni w).1 in
      ground (arith, s.created table eni w, s.replaced table eni w')

  -- When the upsert returns, whether it replaced the route, created it, or lost a race and replaced
  -- it, the table's default route goes to the interface.
  pub upsert_routes :
      (table : Option String) (eni : String) (w : aws.World)
      → SetsRoutes aws route
      → (Route.upsert_default_route aws table eni w).0 ≡ ok tt
      → route (Route.upsert_default_route aws table eni w).1 table ≡ some eni
  unfolding Route.upsert_default_route Route.after_replace
  upsert_routes table eni w s h =
      let w' = (aws.replace_route table eni w).1 in
      ground (arith, s.replaced table eni w, create_routes table eni w' s)
