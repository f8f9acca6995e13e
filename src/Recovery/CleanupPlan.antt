-- ===== src/Recovery/CleanupPlan.antt =====
-- The checks of `Cleanup` in scripts/recovery/application.py that need no port, and its actions.
use terragrunt_demo.Common.{
  String, not, ◌&&◌, ◌||◌, ◌==◌, [], ◌∷◌, if◌then◌else◌, Result, ok, ◌>>=◌, ◌>>◌, require,
}
use terragrunt_demo.Json.{
  Value, str, num, obj, arr, Fields, field, end, cons, nil, item, py_eq, in_texts,
}
use terragrunt_demo.Dicts.{keys, get, truthy, is_int_zero}
use terragrunt_demo.Recovery.Exact.{exact, is_positive}
use terragrunt_demo.Recovery.Snapshot.{colors, dict_at, dict_by, inactive, topology}

-- The service of a color, as the snapshot shows it.
abbrev pub service_of : Fields → Value → Result Fields
service_of s color = dict_at s "services" >>= λ services. dict_by services color

-- `safe`: the routes are as they were, and the active service runs.
unfoldable pub safe : Fields → Fields → Result (Unit {0})
safe value s = do
  topology value s end
  active ← item value "active"
  svc ← service_of s active
  require (is_positive (get svc "desired") && is_positive (get svc "running"))

-- `validate`
unfoldable pub validate : Fields → Result (Unit {0})
validate value = do
  fs ← keys (obj value) ("config" ∷ "active" ∷ "color" ∷ "initial" ∷ [])
  active ← item fs "active"
  color ← item fs "color"
  require (in_texts active colors && in_texts color colors && not (py_eq active color))

-- The first action, for a service that still has tasks.
abbrev pub scale_zero : Fields → Fields → Fields → Fields
scale_zero m svc rest =
    if truthy (get svc "desired") || truthy (get svc "running")
    then field "scale_zero"
        (obj (
          field "cluster" (get m "cluster")
            (field "service" (get m "service") (field "desiredCount" (num 0) end))))
        rest
    else rest

unfoldable pub actions : Fields → Result Fields
actions value = do
  config ← dict_at value "config"
  positions ← dict_at config "colors"
  color ← item value "color"
  m ← dict_by positions color
  initial ← dict_at value "initial"
  svc ← service_of initial color
  rule ← item config "cleanup_rule"
  ok (
      scale_zero m svc (
        field "remove_target"
          (obj (field "Rule" rule (field "Ids" (arr (cons (str "scale-down") nil)) end)))
          (field "delete_rule" (obj (field "Name" rule end)) end)))

-- The service of a color is as it was at first.
abbrev pub as_before : Fields → Fields → String → Result (Unit {0})
as_before s initial color = do
  now ← service_of s (str color)
  before ← service_of initial (str color)
  exact (obj now) (obj before)

-- No task of the inactive color is wanted.
abbrev pub is_scaled : Fields → Fields → Result (Unit {0})
is_scaled value s = do
  color ← item value "color"
  svc ← service_of s color
  require (is_int_zero (get svc "desired"))

-- `guard`, for a fresh snapshot
unfoldable pub check_guard : Fields → String → Fields → Result (Unit {0})
check_guard value stage s = do
  safe value s
  initial ← dict_at value "initial"
  if stage == "scale_zero"
      then as_before s initial "blue" >> as_before s initial "green"
      else is_scaled value s

-- What `prepare` returns for its configuration and its snapshot.
unfoldable pub prepared : Fields → Fields → Result Fields
prepared config s = do
  roles ← inactive config s
  let value =
      field "config" (obj config)
        (field "active" (str roles.0) (field "color" (str roles.1) (field "initial" (obj s) end)))
  safe value s
  ok value
