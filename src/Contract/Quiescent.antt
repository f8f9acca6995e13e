-- ===== src/Contract/Quiescent.antt =====
-- `quiescent` of scripts/lifecycle/contract.py: what must be observed before running services are
-- taken away, and what a passed check means.
use Prim.Native.String.{◌++◌}
use terragrunt_demo.Common.{
  String, In, ◌≡◌, ap, ◌∙◌, require-ok, true, some, List, [], ◌∷◌, inl, inr, ◌==◌, arith,
  Bool-cases, if◌then◌else◌, Result, ok, ◌>>=◌, ◌>>◌, require, require-then, returned-bind, &&-true,
}
use terragrunt_demo.Json.{
  Value, str, num, bool, obj, arr, Fields, field, end, nil, same_keys, find, py_eq, item, item-then,
  is_text,
}
use terragrunt_demo.Dicts.{
  keys, keys-ok, item_of, same_keys-find, is_true-eq, is_text-eq, no_items, require_dict,
  require_dict-ok, is_true, is_int_zero, all_values,
}

abbrev pub observation_keys : List String
observation_keys = "environment" ∷ "services" ∷ "tasks" ∷ "complete" ∷ []

abbrev pub service_name : String → String → String
service_name environment color = "demo-" ++ environment ++ "-app-api-" ++ color ++ "-svc"

abbrev pub expected_services : String → List String
expected_services environment =
    service_name environment "blue" ∷ service_name environment "green" ∷ []

-- `{'absence': 'EXACT_ECS_MISSING'}`
abbrev pub absent : Value
absent = obj (field "absence" (str "EXACT_ECS_MISSING") end)

abbrev pub count_keys : List String
count_keys = "desired" ∷ "running" ∷ "pending" ∷ []

-- One service: it is missing, or all its counts are 0.
unfoldable pub check_service : Value → Result (Unit {0})
check_service service =
    if py_eq service absent
    then ok tt
    else do fs ← keys service count_keys; require (all_values is_int_zero fs)

-- `for service in observation['services'].values()`
unfoldable pub check_services : Fields → Result (Unit {0})
check_services end = ok tt
check_services (field name service fs) = do check_service service; check_services fs

unfoldable pub quiescent : Value → String → Result (Unit {0})
quiescent observation environment = do
  fs ← keys observation observation_keys
  observed ← item fs "environment"
  require (is_text observed environment)
  complete ← item fs "complete"
  require (is_true complete)
  services ← item fs "services" >>= require_dict
  require (same_keys services (expected_services environment))
  tasks ← item fs "tasks"
  require (py_eq tasks (arr nil))
  check_services services

-- A service that does not exist, or wants and runs no task.
pub data Idle (service : Value) : Type 0 where
  missing : py_eq service absent ≡ true → Idle service
  stopped :
      (counts : Fields)
      → service ≡ obj counts
      → find "desired" counts ≡ some (num 0)
      → find "running" counts ≡ some (num 0)
      → find "pending" counts ≡ some (num 0)
      → Idle service

-- A service that the observation lists and that is idle.
abbrev pub IdleAt : Fields → String → Type 0
IdleAt services name = (service : Value) × (find name services ≡ some service) × Idle service

-- An environment in which nothing runs.
pub record Quiet (observation : Value) (environment : String) : Type 0 where
  pub observed : Fields
  pub services : Fields
  pub shape : observation ≡ obj observed
  pub same_environment : find "environment" observed ≡ some (str environment)
  pub is_complete : find "complete" observed ≡ some (bool true)
  pub no_tasks : find "tasks" observed ≡ some (arr nil)
  pub listed : find "services" observed ≡ some (obj services)
  pub blue : IdleAt services (service_name environment "blue")
  pub green : IdleAt services (service_name environment "green")

find_zero :
    (k : String) (fs : Fields) (v : Value)
    → all_values is_int_zero fs ≡ true
    → find k fs ≡ some v
    → v ≡ num 0
find_zero k end v h found = cc
find_zero k (field j w fs) v h found =
    let (first, rest) = &&-true (is_int_zero w) (all_values is_int_zero fs) h in
    elim (Bool-cases (j == k)) [
      | inl same ↦ ground arith
      | inr other ↦ find_zero k fs v rest (ground arith)
    ]

counted :
    (k : String) (fs : Fields)
    → same_keys fs count_keys ≡ true
    → In k count_keys
    → all_values is_int_zero fs ≡ true
    → find k fs ≡ some (num 0)
counted k fs same m zeros =
    let (v, found) = same_keys-find fs count_keys k same m in
    found ∙ ap some (find_zero k fs v zeros found)

check_service-Idle : (service : Value) → check_service service ≡ ok tt → Idle service
unfolding check_service
check_service-Idle service h = elim (Bool-cases (py_eq service absent)) [
  | inl gone ↦ missing gone
  | inr there ↦
      let (fs, shape, h1) = returned-bind (keys service count_keys) _ (rw there at h) in
      let zeros = require-ok (all_values is_int_zero fs) h1 in
      let (is, same) = keys-ok service count_keys fs shape in
      stopped fs is (counted "desired" fs same In.here zeros)
        (counted "running" fs same (In.there In.here) zeros)
        (counted "pending" fs same (In.there (In.there In.here)) zeros)
]

check_services-Idle :
    (fs : Fields) (k : String) (v : Value) → check_services fs ≡ ok tt → find k fs ≡ some v → Idle v
unfolding check_services
check_services-Idle end k v h found = cc
check_services-Idle (field j w fs) k v h found =
    let (_, first, rest) = returned-bind (check_service w) _ h in
    elim (Bool-cases (j == k)) [
      | inl same ↦ let e : w ≡ v = ground arith in check_service-Idle v (rw (← e) first)
      | inr other ↦ check_services-Idle fs k v rest (ground arith)
    ]

-- A passed check has observed a quiet environment.
pub quiescent-Quiet :
    (observation : Value) (environment : String)
    → quiescent observation environment ≡ ok tt
    → Quiet observation environment
unfolding quiescent
quiescent-Quiet observation environment h =
    let (fs, shape, h1) = returned-bind (keys observation observation_keys) _ h in
    let (env, at_env, h2) = item-then fs "environment" _ h1 in
    let (same_env, h3) = require-then (is_text env environment) _ h2 in
    let (complete, at_complete, h4) = item-then fs "complete" _ h3 in
    let (whole, h5) = require-then (is_true complete) _ h4 in
    let (listing, services, at_services, is_dict, h6) = item_of fs "services" require_dict _ h5 in
    let (both, h7) = require-then (same_keys services (expected_services environment)) _ h6 in
    let (tasks, at_tasks, h8) = item-then fs "tasks" _ h7 in
    let (none_run, idle) = require-then (py_eq tasks (arr nil)) _ h8 in
    let (b, at_blue) = same_keys-find services (expected_services environment) _ both In.here in
    let (g, at_green) =
      same_keys-find services (expected_services environment) _ both (In.there In.here) in
    record {
      observed = fs;
      services = services;
      shape = (keys-ok observation observation_keys fs shape).0;
      same_environment = at_env ∙ ap some (is_text-eq env environment same_env);
      is_complete = at_complete ∙ ap some (is_true-eq complete whole);
      no_tasks = at_tasks ∙ ap some (no_items tasks none_run);
      listed = at_services ∙ ap some (require_dict-ok listing services is_dict);
      blue = (b, at_blue, check_services-Idle services _ b idle at_blue);
      green = (g, at_green, check_services-Idle services _ g idle at_green);
    }
