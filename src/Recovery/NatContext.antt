-- ===== src/Recovery/NatContext.antt =====
-- What `Nat.context` and `Nat.validate` of scripts/recovery/nat.py check of a membership and of the
-- resources that were observed for it.
use terragrunt_demo.Common.{
  String, Bool, true, false, List, [], ◌∷◌, ◌++◌, Result, ok, ◌>>=◌, ◌>>◌, require,
}
use terragrunt_demo.Json.{Value, str, obj, arr, Fields, field, end, cons, nil, item, is_text}
use terragrunt_demo.Dicts.{keys, get, is_null, is_bool, is_true}
use terragrunt_demo.Recovery.Exact.{exact, is_some_text, is_digest, is_positive}

abbrev pub spec_keys : List String
spec_keys =
    "ami" ∷ "launch_template" ∷ "launch_template_version" ∷ "user_data_sha256" ∷ "instance_profile"
    ∷ "role" ∷ "security_groups" ∷ "http_tokens" ∷ "associate_public_ip" ∷ "delete_on_termination"
    ∷ "instance_type" ∷ "tags" ∷ []

-- The keys of a membership whose values are names.
abbrev pub name_keys : List String
name_keys = "vpc" ∷ "subnet" ∷ "az" ∷ "asg" ∷ "instance" ∷ "eni" ∷ "eip" ∷ "route_table" ∷ []

abbrev pub membership_keys : List String
membership_keys = "environment" ∷ (name_keys ++ ("spec" ∷ []))

abbrev pub observed_keys : List String
observed_keys =
    membership_keys
    ++ ("lifecycle" ∷ "health" ∷ "eni_instance" ∷ "route_vpc" ∷ "eip_environment"
        ∷ "association_eni" ∷ "default_route_eni" ∷ "source_dest_check" ∷ [])

-- Each of the keys has a text that is not empty.
unfoldable pub check_texts : Fields → List String → Result (Unit {0})
check_texts fs [] = ok tt
check_texts fs (k ∷ ks) = do v ← item fs k; require (is_some_text v); check_texts fs ks

-- `exact(o[key], m[key])` for each of the keys
unfoldable pub check_same : Fields → Fields → List String → Result (Unit {0})
check_same o m [] = ok tt
check_same o m (k ∷ ks) = do a ← item o k; b ← item m k; exact a b; check_same o m ks

-- A list of one item.
abbrev pub is_single : Value → Bool
is_single (arr (cons x nil)) = true
is_single _ = false

-- A dictionary whose `Role` is `nat`.
abbrev pub is_nat_role : Value → Bool
is_nat_role (obj fs) = is_text (get fs "Role") "nat"
is_nat_role _ = false

-- `v is None or type(v) is str`
abbrev pub is_option_text : Value → Bool
is_option_text (str s) = true
is_option_text v = is_null v

unfoldable pub check_spec : Value → Result (Unit {0})
check_spec value = do
  spec ← keys value spec_keys
  require (is_text (← item spec "http_tokens") "required")
  require (is_text (← item spec "instance_type") "t3.micro")
  require (is_true (← item spec "associate_public_ip"))
  require (is_true (← item spec "delete_on_termination"))
  require (is_positive (← item spec "launch_template_version"))
  require (is_digest (← item spec "user_data_sha256"))
  check_texts spec ("ami" ∷ "launch_template" ∷ "instance_profile" ∷ "role" ∷ [])
  require (is_single (← item spec "security_groups"))
  require (is_nat_role (← item spec "tags"))

unfoldable pub check_membership : String → Value → Result Fields
check_membership environment value = do
  m ← keys value membership_keys
  e ← item m "environment"
  exact e (str environment)
  check_texts m name_keys
  spec ← item m "spec"
  check_spec spec
  ok m

-- The observation agrees with the membership, and the instance is in service.
unfoldable pub check_observed : String → Fields → Value → Result Fields
check_observed environment m value = do
  o ← keys value observed_keys
  require (is_option_text (← item o "association_eni"))
  require (is_option_text (← item o "default_route_eni"))
  require (is_bool (← item o "source_dest_check"))
  check_same o m membership_keys
  require (is_text (← item o "lifecycle") "InService")
  require (is_text (← item o "health") "Healthy")
  eni_instance ← item o "eni_instance"
  exact eni_instance (get m "instance")
  route_vpc ← item o "route_vpc"
  exact route_vpc (get m "vpc")
  owner ← item o "eip_environment"
  exact owner (str environment)
  ok o

abbrev pub state_of : Fields → Value
state_of o = obj (
    field "association_eni" (get o "association_eni") (
      field "default_route_eni" (get o "default_route_eni")
        (field "source_dest_check" (get o "source_dest_check") end)))

-- What `context` returns of a checked answer.
unfoldable pub check_answer : String → Fields → Result Fields
check_answer environment value = do
  route_exists ← item value "route_exists"
  require (is_bool route_exists)
  membership ← item value "membership"
  m ← check_membership environment membership
  observed ← item value "observed"
  o ← check_observed environment m observed
  ok (
      field "membership" (obj m)
        (field "route_exists" route_exists (field "state" (state_of o) end)))

-- `validate`
unfoldable pub validate : String → Fields → Result (Unit {0})
validate environment value = do
  fs ← keys (obj value) ("membership" ∷ "route_exists" ∷ "state" ∷ [])
  membership ← item fs "membership"
  m ← keys membership membership_keys
  e ← item m "environment"
  exact e (str environment)
  require (is_bool (← item fs "route_exists"))
