-- ===== src/Recovery/NatActions.antt =====
-- The actions of `Nat` in scripts/recovery/nat.py, their requests, and what shows that they are done.
use terragrunt_demo.Common.{String, true, false, if◌then◌else◌, Result, ok, ◌>>=◌, ◌>>◌}
use terragrunt_demo.Json.{Value, str, bool, obj, Fields, field, end, item}
use terragrunt_demo.Dicts.{dict_of, is_true, get}
use terragrunt_demo.Recovery.Exact.{exact}

-- The three actions.
pub data NatAction : Type 0 where
  assign_eip change_rt disable_sdc : NatAction

abbrev pub name_of : NatAction → String
name_of assign_eip = "assign_eip"
name_of change_rt = "change_rt"
name_of disable_sdc = "disable_sdc"

-- The request of an action, for a membership.
unfoldable pub request_of : NatAction → Fields → Fields → Result Fields
request_of assign_eip m value = do
  eip ← item m "eip"
  eni ← item m "eni"
  ok (
      field "AllocationId" eip
        (field "NetworkInterfaceId" eni (field "AllowReassociation" (bool true) end)))
request_of change_rt m value = do
  table ← item m "route_table"
  eni ← item m "eni"
  exists ← item value "route_exists"
  ok (
      field "RouteTableId" table (
        field "DestinationCidrBlock" (str "0.0.0.0/0") (
          field "NetworkInterfaceId" eni (
            field "action" (str (if is_true exists then "replace_route" else "create_route"))
              end))))
request_of disable_sdc m value = do
  instance_id ← item m "instance"
  ok (
      field "InstanceId" instance_id
        (field "SourceDestCheck" (obj (field "Value" (bool false) end)) end))

-- `actions`
unfoldable pub actions : NatAction → Fields → Result Fields
actions action value = do
  m ← item value "membership" >>= dict_of
  request ← request_of action m value
  ok (field (name_of action) (obj request) end)

-- Where the final state shows the action, and what it shows.
abbrev pub shown_at : NatAction → String
shown_at assign_eip = "association_eni"
shown_at change_rt = "default_route_eni"
shown_at disable_sdc = "source_dest_check"

abbrev pub shown : NatAction → Fields → Value
shown assign_eip m = get m "eni"
shown change_rt m = get m "eni"
shown disable_sdc m = bool false

-- The checks of `final`: the membership is the accepted one, and the state shows the action.
unfoldable pub check_final : NatAction → Fields → Fields → Result (Unit {0})
check_final action current accepted = do
  membership ← item current "membership"
  before ← item accepted "membership"
  exact membership before
  m ← dict_of membership
  state ← item current "state" >>= dict_of
  found ← item state (shown_at action)
  exact found (shown action m)
