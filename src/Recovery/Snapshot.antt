-- ===== src/Recovery/Snapshot.antt =====
-- What `Application` of scripts/recovery/application.py checks of its configuration and of a snapshot
-- of the services and routes, and how it reads the two.
use terragrunt_demo.Common.{
  String, Bool, false, not, ◌||◌, List, [], ◌∷◌, ◌==◌, leb, if◌then◌else◌, Result, ok, raise,
  Raised, ◌>>=◌, ◌>>◌, require, or_key_error,
}
use terragrunt_demo.Json.{Value, str, num, obj, arr, Fields, field, end, cons, nil, item, py_eq}
use terragrunt_demo.Dicts.{keys, dict_of, require_list, get, find_by, is_bool, has_key, put_item}
use terragrunt_demo.Recovery.Exact.{exact, is_some_text}
use terragrunt_demo.Recovery.NatContext.{check_texts, check_same}

-- `colors[v]`
abbrev pub item_by : Fields → Value → Result Value
item_by fs v = find_by v fs >>= or_key_error

abbrev pub dict_at : Fields → String → Result Fields
dict_at fs k = item fs k >>= dict_of

-- `d[a][v]`, both dictionaries
abbrev pub dict_by : Fields → Value → Result Fields
dict_by fs v = item_by fs v >>= dict_of

abbrev pub colors : List String
colors = "blue" ∷ "green" ∷ []

abbrev pub position_keys : List String
position_keys =
    "roles" ∷ "secret_arn" ∷ "kms_key_arn" ∷ "log_group" ∷ "cluster" ∷ "service" ∷ "subnets"
    ∷ "security_groups" ∷ "target_group" ∷ "listener" ∷ "candidate_rule" ∷ []

-- The resources of one color.
unfoldable pub check_position : Value → Result Fields
check_position value = do
  m ← keys value position_keys
  check_texts m ("cluster" ∷ "service" ∷ "listener" ∷ "candidate_rule" ∷ "target_group" ∷ [])
  ok m

unfoldable pub check_config : String → Value → Result Fields
check_config environment value = do
  c ← keys value ("environment" ∷ "colors" ∷ "cleanup_rule" ∷ "history" ∷ [])
  e ← item c "environment"
  exact e (str environment)
  positions ← item c "colors" >>= λ v. keys v colors
  keys (get c "history") colors >>= λ _. ok tt
  b ← item positions "blue" >>= check_position
  g ← item positions "green" >>= check_position
  check_same b g ("cluster" ∷ "listener" ∷ "candidate_rule" ∷ [])
  require (not (py_eq (get b "service") (get g "service")))
  require (not (py_eq (get b "target_group") (get g "target_group")))
  require (is_some_text (← item c "cleanup_rule"))
  ok c

abbrev pub service_keys : List String
service_keys =
    "cluster" ∷ "service" ∷ "revision" ∷ "desired" ∷ "running" ∷ "pending" ∷ "stable" ∷ "targets"
    ∷ "task" ∷ "settings" ∷ []

-- `type(v) is int and 0 <= v <= 100`
abbrev pub is_count : Value → Bool
is_count (num n) = leb n 100
is_count _ = false

-- One service of a snapshot, against its position.
unfoldable pub check_service : Fields → Value → Result Fields
check_service m value = do
  svc ← keys value service_keys
  check_same svc m ("cluster" ∷ "service" ∷ [])
  require (is_count (get svc "desired"))
  require (is_count (get svc "running"))
  require (is_count (get svc "pending"))
  require (is_bool (get svc "stable"))
  require_list (get svc "targets") >>= λ _. ok tt
  ok svc

-- A single target, which is one of the two groups.
unfoldable pub check_targets : Value → Value → Value → Result (Unit {0})
check_targets blue green (arr (cons x nil)) = require (py_eq x blue || py_eq x green)
check_targets blue green _ = raise Raised.rejected

abbrev pub snapshot_keys : List String
snapshot_keys =
    "environment" ∷ "operation" ∷ "observed_at" ∷ "listener" ∷ "rule" ∷ "normal_targets"
    ∷ "candidate_targets" ∷ "services" ∷ []

-- A snapshot as far as its time, and the rest.
unfoldable pub check_origin : String → String → Value → Result Fields
check_origin environment operation value = do
  s ← keys value snapshot_keys
  e ← item s "environment"
  exact e (str environment)
  o ← item s "operation"
  exact o (str operation)
  ok s

unfoldable pub check_snapshot : Fields → Fields → Result (Unit {0})
check_snapshot config s = do
  positions ← dict_at config "colors"
  b ← dict_at positions "blue"
  g ← dict_at positions "green"
  listener ← item s "listener"
  exact listener (get b "listener")
  rule ← item s "rule"
  exact rule (get b "candidate_rule")
  services ← item s "services" >>= λ v. keys v colors
  item services "blue" >>= check_service b >>= λ _. ok tt
  item services "green" >>= check_service g >>= λ _. ok tt
  check_targets (get b "target_group") (get g "target_group") (get s "normal_targets")
  check_targets (get b "target_group") (get g "target_group") (get s "candidate_targets")

abbrev pub other_color : String → String
other_color color = if color == "blue" then "green" else "blue"

-- `next(c for c in colors if …)`, for a snapshot whose one normal target is that of a color.
abbrev pub active_color : Value → Value → Value → Result String
active_color blue green (arr (cons x nil)) =
    if py_eq blue x
    then ok "blue"
    else if py_eq green x
    then ok "green"
    else raise Raised.index_error
active_color blue green _ = raise Raised.index_error

-- The active color and the other one, which the candidate rule points to.
unfoldable pub inactive : Fields → Fields → Result (String × String)
inactive config s = do
  positions ← dict_at config "colors"
  b ← dict_at positions "blue"
  g ← dict_at positions "green"
  active ← active_color (get b "target_group") (get g "target_group") (get s "normal_targets")
  m ← dict_at positions (other_color active)
  targets ← item s "candidate_targets"
  exact targets (arr (cons (get m "target_group") nil))
  ok (active, other_color active)

-- The routes as the effects so far have left them.
unfoldable pub topology : Fields → Fields → Fields → Result (Unit {0})
topology value s effects = do
  config ← dict_at value "config"
  positions ← dict_at config "colors"
  active ← item value "active"
  color ← item value "color"
  n ← dict_by positions (if has_key "switch" effects then color else active)
  c ← dict_by positions (if has_key "candidate" effects then active else color)
  normal ← item s "normal_targets"
  exact normal (arr (cons (get n "target_group") nil))
  candidate ← item s "candidate_targets"
  exact candidate (arr (cons (get c "target_group") nil))

-- `{k: d[k] for k in ks}`
abbrev pub project : List String → Fields → Fields
project [] fs = end
project (k ∷ ks) fs = field k (get fs k) (project ks fs)

-- `evidence`
unfoldable pub evidence : Fields → Result Fields
evidence s = do
  services ← dict_at s "services"
  b ← dict_at services "blue"
  g ← dict_at services "green"
  let counts = "cluster" ∷ "service" ∷ "desired" ∷ "running" ∷ "pending" ∷ []
  ok (
      put_item "services"
        (obj (field "blue" (obj (project counts b)) (field "green" (obj (project counts g)) end)))
        (project
          ("environment" ∷ "operation" ∷ "observed_at" ∷ "listener" ∷ "rule" ∷ "normal_targets"
            ∷ "candidate_targets" ∷ [])
          s))
