-- ===== src/Nat/SourceCheck.antt =====
-- `lambda_handler` of terraform/infra/global/modules/nat/lambda/disable_sdc.py.
use terragrunt_demo.Common.{
  String, Bool, true, false, Option, none, some, List, [], ◌∷◌, ◌==◌, if◌then◌else◌, ok, raise,
  nonempty, startswith,
}
use terragrunt_demo.Common.Exec.{Exec, pure, reads, ◌>>=◌, ◌>>◌}
use terragrunt_demo.Nat.Instance.{Detail, Aws, is_not_running, resolve, describe}

-- `next((t['Value'] for t in tags if t['Key'] == …), None)`
abbrev pub tag : List (String × String) → Option String
tag [] = none
tag ((key, value) ∷ tags) =
    let rest = tag tags in if key == "aws:autoscaling:groupName" then some value else rest

-- Whether the group may be changed: with no prefix configured every instance may be, and otherwise
-- the group's name must be known and carry the prefix.
unfoldable pub is_allowed : String → Option String → Bool
is_allowed prefix asg = elim (nonempty (some prefix)) [
  | none ↦ true
  | some p ↦ elim (nonempty asg) [ none ↦ false | some name ↦ startswith name p ]
]

module _ (aws : Aws) where
  open aws use {World}

  -- `get_asg_tag`: an error counts as no tag.
  unfoldable pub get_asg_tag : String → World → Option String
  get_asg_tag id w = elim (describe aws id w) [ raise x ↦ none | ok i ↦ tag i.tags ]

  -- The second look for the tag, after five seconds.
  unfoldable pub retry_tag : String → Option String → Exec World (Option String)
  retry_tag id (some name) = pure (some name)
  retry_tag id none = do aws.sleep 5; reads (λ w. ok (get_asg_tag id w))

  -- The group that the instance belongs to, by the event or by the instance's tag.
  unfoldable pub group_of : String → Option String → Exec World (Option String)
  group_of id (some name) w = (ok (some name), w)
  group_of id none w = retry_tag id (nonempty (get_asg_tag id w)) w

  unfoldable pub handle : String → Detail → Option String → Exec World (Unit {0})
  handle prefix d none = pure tt
  handle prefix d (some id) = do
    asg ← group_of id (nonempty d.auto_scaling_group_name)
    if is_allowed prefix asg then aws.disable_source_check id else pure tt

  unfoldable pub resolved : String → Detail → Exec World (Unit {0})
  resolved prefix d = do id ← reads (resolve aws d); handle prefix d id

  unfoldable pub lambda_handler : String → Detail → Exec World (Unit {0})
  lambda_handler prefix d = if is_not_running d.state then pure tt else resolved prefix d
