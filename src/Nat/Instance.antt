-- ===== src/Nat/Instance.antt =====
-- What assign_eip.py, change_rt.py and disable_sdc.py of terraform/infra/global/modules/nat/lambda
-- share: the event, the instance that it is about, and the AWS calls, which are a parameter.
use terragrunt_demo.Common.{
  ℕ, String, Bool, true, false, not, ◌&&◌, Option, none, some, List, [], ◌∷◌, ◌==◌, if◌then◌else◌,
  Result, ok, raise, Raised, ◌>>=◌, head?, select, nonempty, startswith,
}
use terragrunt_demo.Common.Exec.{Exec}

-- `event['detail']`
pub record Detail : Type 0 where
  pub instance_id : Option String
  pub ec2_instance_id : Option String
  pub auto_scaling_group_name : Option String
  pub state : Option String

-- An instance of an Auto Scaling group.
pub record Member : Type 0 where
  pub instance_id : Option String
  pub lifecycle_state : Option String
  pub health_status : Option String

-- An instance, as `describe_instances` returns it: its interfaces by their identifiers.
pub record Instance : Type 0 where
  pub subnet_id : Option String
  pub network_interfaces : List String
  pub tags : List (String × String)

-- The calls of the clients `autoscaling` and `ec2`, and `time.sleep`. The two lists of lists are the
-- groups with their instances and the reservations with theirs.
pub record Aws : Type 1 where
  pub World : Type 0
  pub describe_auto_scaling_groups : World → String → Result (List (List Member))
  pub describe_instances : World → String → Result (List (List Instance))
  pub associate_address : Option String → String → Exec World (Unit {0})
  pub replace_route : Option String → String → Exec World (Unit {0})
  pub create_route : Option String → String → Exec World (Unit {0})
  pub disable_source_check : String → Exec World (Unit {0})
  pub sleep : ℕ → Exec World (Unit {0})

-- `_extract_instance_id`
abbrev pub extract_instance_id : Detail → Option String
extract_instance_id d = elim (nonempty d.instance_id) [
  | some id ↦ some id
  | none ↦ d.ec2_instance_id
]

abbrev pub is_text : Option String → String → Bool
is_text none t = false
is_text (some s) t = s == t

abbrev pub is_preferred : Member → Bool
is_preferred m = is_text m.lifecycle_state "InService" && is_text m.health_status "Healthy"

-- `(preferred or instances or [None])[0]`
abbrev pub first_of : List Member → List Member → Option Member
first_of (m ∷ preferred) members = some m
first_of [] members = head? members

unfoldable pub selected : List Member → Option String
selected members = elim (first_of (select is_preferred members) members) [
  | none ↦ none
  | some m ↦ m.instance_id
]

-- `state and state != 'running'`
abbrev pub is_not_running : Option String → Bool
is_not_running state = elim (nonempty state) [ none ↦ false | some s ↦ not (s == "running") ]

-- `x == y`, for texts that may be `None`
abbrev pub same : Option String → Option String → Bool
same none none = true
same none (some t) = false
same (some s) none = false
same (some s) (some t) = s == t

-- `x[0]`
abbrev pub first {ℓ} : {A : Type ℓ} → List A → Result A
first [] = raise Raised.index_error
first (x ∷ xs) = ok x

-- The choice by zone: `none` for an instance of another subnet.
abbrev pub by_zone : (subnet_a subnet_b for_a for_b subnet : Option String) → Option (Option String)
by_zone subnet_a subnet_b for_a for_b subnet =
    if same subnet subnet_a then some for_a else if same subnet subnet_b then some for_b else none

-- `ASG_PREFIX and asg_name and not asg_name.startswith(ASG_PREFIX)`
unfoldable pub is_foreign : String → Option String → Bool
is_foreign prefix asg = elim (nonempty asg) [
  | none ↦ false
  | some name ↦ not (prefix == "") && not (startswith name prefix)
]

module _ (aws : Aws) where
  open aws use {World}

  abbrev pub first_group : List (List Member) → Option String
  first_group [] = none
  first_group (members ∷ groups) = selected members

  -- `_instance_id_from_asg`
  unfoldable pub instance_id_from_asg : Option String → World → Result (Option String)
  instance_id_from_asg asg w = elim (nonempty asg) [
    | none ↦ ok none
    | some name ↦ aws.describe_auto_scaling_groups w name >>= λ groups. ok (first_group groups)
  ]

  -- The event's instance, or one of its group; `none` where neither is known.
  unfoldable pub resolve : Detail → World → Result (Option String)
  resolve d w = elim (nonempty (extract_instance_id d)) [
    | some id ↦ ok (some id)
    | none ↦ instance_id_from_asg d.auto_scaling_group_name w >>= λ found. ok (nonempty found)
  ]

  -- `resp['Reservations'][0]['Instances'][0]`
  unfoldable pub describe : String → World → Result Instance
  describe id w = aws.describe_instances w id >>= first >>= first
