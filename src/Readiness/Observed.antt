-- ===== src/Readiness/Observed.antt =====
-- The checks of `assess` in scripts/nat/reliability.py: the route, the instance and its console.
-- Times are microseconds, in which `datetime` counts.
use terragrunt_demo.Common.{
  ℕ, ◌+◌, ◌-◌, ◌*◌, String, Bool, false, not, ◌&&◌, ◌||◌, Option, none, some, List, [], ◌∷◌, ◌++◌,
  ◌==◌, nat_eq, leb, if◌then◌else◌, all, length, select, codes, is_digit, is_hex, contains, Result,
  ok, raise, Raised, ◌>>=◌, ◌>>◌, require, or_rejected,
}
use terragrunt_demo.Common.Exec.{Exec}
use terragrunt_demo.Json.{Value, Fields, item, py_eq, is_text}
use terragrunt_demo.Dicts.{dict_of, truthy, is_false}
use terragrunt_demo.Ci.FilePath.{Text, split, same_text, is}

pub record Route : Type 0 where
  pub destination_cidr_block : Option String
  pub network_interface_id : Option String
  pub state : Option String

pub record RouteTable : Type 0 where
  pub vpc_id : String
  pub route_table_id : String
  pub routes : List Route

-- `none` where a value is not a `datetime`.
pub record Instance : Type 0 where
  pub instance_id : String
  pub state : String
  pub launch_time : Option ℕ

pub record Console : Type 0 where
  pub instance_id : Option String
  pub output : Option String
  pub timestamp : Option ℕ

-- The EC2 client, the resolver of the protected membership, the clock and `pause`.
pub record Ports : Type 1 where
  pub World : Type 0
  pub now : World → ℕ × World
  pub pause : ℕ → World → World
  pub resolve : Exec World Fields
  pub describe_route_tables : String → Exec World (List RouteTable)
  pub describe_instances : String → Exec World (List (List Instance))
  pub get_console_output : String → Exec World Console

pub record Evidence : Type 0 where
  pub membership : Fields
  pub observed_at : ℕ

abbrev pub second : ℕ
second = 1000000

-- What `state` says, with the text values that the calls are made with.
pub record Membership : Type 0 where
  pub fields : Fields
  pub instance : String
  pub route_table : String
  pub vpc : Value
  pub eni : Value

abbrev pub text_of : Value → Result String
text_of (Value.str s) = ok s
text_of _ = raise Raised.type_error

-- The first check: the address and the default route belong to the interface.
unfoldable pub read_state : Fields → Result Membership
read_state state = do
  m ← item state "membership" >>= dict_of
  o ← item state "observed" >>= dict_of
  association ← item o "association_eni"
  eni ← item m "eni"
  default_route ← item o "default_route_eni"
  source_check ← item o "source_dest_check"
  route_exists ← item state "route_exists"
  require (
      py_eq association eni
      && py_eq default_route eni
      && is_false source_check
      && truthy route_exists)
  table ← item m "route_table" >>= text_of
  vpc ← item m "vpc"
  instance ← item m "instance" >>= text_of
  ok (record { fields = m; instance = instance; route_table = table; vpc = vpc; eni = eni })

abbrev pub is_option : Option String → String → Bool
is_option none t = false
is_option (some s) t = s == t

abbrev pub eni_is : Option String → Value → Bool
eni_is none v = false
eni_is (some s) v = is_text v s

-- One active default route, to the interface.
abbrev pub check_routes : Membership → List Route → Bool
check_routes m (r ∷ []) = eni_is r.network_interface_id m.eni && is_option r.state "active"
check_routes m _ = false

unfoldable pub check_table : Membership → List RouteTable → Result (Unit {0})
check_table m (table ∷ []) = require (
    is_text m.vpc table.vpc_id
    && table.route_table_id == m.route_table
    && check_routes m (select (λ r. is_option r.destination_cidr_block "0.0.0.0/0") table.routes))
check_table m _ = raise Raised.rejected

abbrev pub first {ℓ} : {A : Type ℓ} → List A → Result A
first [] = raise Raised.index_error
first (x ∷ xs) = ok x

-- The running instance's launch time.
unfoldable pub check_instance : Membership → List (List Instance) → Result ℕ
check_instance m reservations = do
  i ← first reservations >>= first
  require (i.instance_id == m.instance && i.state == "running")
  or_rejected i.launch_time

-- `[0-9a-f]{8,17}` and `[0-9]{1,12}`
abbrev pub is_id : Text → Bool
is_id s = all is_hex s && leb 8 (length s) && leb (length s) 17

abbrev pub is_number : Text → Bool
is_number s = all is_digit s && leb 1 (length s) && leb (length s) 12

-- `int(digits)`
abbrev pub number_from : ℕ → Text → ℕ
number_from n [] = n
number_from n (c ∷ s) = number_from (n * 10 + (c - b'0')) s

abbrev pub after : Text → Text → Option Text
after [] s = some s
after (p ∷ ps) [] = none
after (p ∷ ps) (c ∷ s) = if nat_eq p c then after ps s else none

-- `CONFIGURED\r?`
abbrev pub is_last : Text → Bool
is_last s = is s "CONFIGURED" || is s "CONFIGURED\r"

abbrev pub marker_of : List Text → Option (Text × ℕ)
marker_of (id ∷ digits ∷ last ∷ []) =
    if is_id id && is_number digits && is_last last then some (id, number_from 0 digits) else none
marker_of _ = none

-- `E13_NAT_BOOTSTRAP_V1 i-[0-9a-f]{8,17} [0-9]{1,12} CONFIGURED\r?`, on one line
unfoldable pub marker : Text → Option (Text × ℕ)
marker line = elim (after (codes "E13_NAT_BOOTSTRAP_V1 i-") line) [
  | none ↦ none
  | some rest ↦ marker_of (split b' ' rest)
]

abbrev pub with_marker : Option (Text × ℕ) → List (Text × ℕ) → List (Text × ℕ)
with_marker none found = found
with_marker (some m) found = m ∷ found

-- `re.findall` over the lines
unfoldable pub markers : List Text → List (Text × ℕ)
markers [] = []
markers (line ∷ lines) = with_marker (marker line) (markers lines)

-- The one marker of the console is the instance's own, between its launch and the console's time.
abbrev pub check_markers : Membership → ℕ → ℕ → List (Text × ℕ) → Bool
check_markers m launched stamp ((id, seconds) ∷ []) =
    same_text (codes "i-" ++ id) (codes m.instance)
    && leb launched (seconds * second)
    && leb (seconds * second) stamp
check_markers m launched stamp _ = false

unfoldable pub check_console : Membership → ℕ → ℕ → Console → Result (Unit {0})
check_console m launched now c = do
  raw ← or_rejected c.output
  require (is_option c.instance_id m.instance && leb (length (codes raw)) 200000)
  stamp ← or_rejected c.timestamp
  require (leb launched stamp && leb stamp (now * second))
  require (not (contains "�" raw))
  require (
      check_markers m launched stamp (markers (split 10 (codes raw)))
      && not (contains "E13_NAT_BOOTSTRAP_FAILED" raw))
