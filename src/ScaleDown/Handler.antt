-- ===== src/ScaleDown/Handler.antt =====
-- `lambda_handler` of terraform/infra/apps/fargate/lambda/scale_down_old_color.py. The AWS clients
-- are a parameter; what the functions only log is left out.
use terragrunt_demo.Common.{
  ℕ, String, Bool, true, ◌&&◌, ◌||◌, Option, none, some, List, [], ◌∷◌, ◌==◌, nat_eq, if◌then◌else◌,
  Result, ok, raise, Raised, head?, nonempty,
}
use terragrunt_demo.Common.Exec.{Exec, pure, reads, ◌>>=◌, ◌>>◌}

-- A default action of a listener, as `describe_listeners` returns it. The outer `Option` of
-- `forward_config` is the key `ForwardConfig`, the inner one its `TargetGroups`, whose elements may
-- lack their `TargetGroupArn`.
pub record Action : Type 0 where
  pub target_group_arn : Option String
  pub forward_config : Option (Option (List (Option String)))

pub record Listener : Type 0 where
  pub default_actions : Option (List Action)

-- A service, as `describe_services` returns it.
pub record Service : Type 0 where
  pub service_name : String
  pub desired_count : Option ℕ
  pub running_count : Option ℕ

-- The calls of the clients `elbv2`, `ecs` and `events`. A call that writes may raise after its
-- effect.
pub record Aws : Type 1 where
  pub World : Type 0
  pub describe_listeners : World → String → Result (List Listener)
  pub describe_services : World → String → List String → Result (List Service)
  pub update_service : String → String → ℕ → Exec World (Unit {0})
  pub remove_targets : String → List String → Exec World (Unit {0})
  pub delete_rule : String → Exec World (Unit {0})

-- The environment variables that the module reads.
pub record Settings : Type 0 where
  pub cluster : String
  pub service_blue : String
  pub service_green : String
  pub listener_arn : String
  pub tg_blue_arn : String
  pub tg_green_arn : String
  pub event_rule_name : Option String

-- The answers of the handler, by their `status`.
pub data Answer : Type 0 where
  no_default_tg unknown_default_tg inactive_service_not_found already_zero : Answer
  active_not_healthy : Answer
  scaled_down : String → String → Answer

-- Case 2 of `_get_default_tg_arn`: the first target group of a `ForwardConfig`.
abbrev pub first_group : Option (Option (List (Option String))) → Option String
first_group (some (some (t ∷ ts))) = t
first_group _ = none

abbrev pub action_tg : Action → Option String
action_tg a = elim (nonempty a.target_group_arn) [
  | some arn ↦ some arn
  | none ↦ first_group a.forward_config
]

-- `listener.get("DefaultActions", [])`, and its first element if there is one.
abbrev pub default_action : Listener → Option Action
default_action l = elim l.default_actions [ none ↦ none | some actions ↦ head? actions ]

abbrev pub listener_tg : Listener → Option String
listener_tg l = elim (default_action l) [ none ↦ none | some a ↦ action_tg a ]

-- `resp["Listeners"][0]`
abbrev pub first_listener : List Listener → Result Listener
first_listener [] = raise Raised.index_error
first_listener (l ∷ ls) = ok l

-- The services by their colour: the active one and the inactive one.
unfoldable pub colors : Settings → String → Option (String × String)
colors e tg =
    if tg == e.tg_blue_arn
    then some (e.service_blue, e.service_green)
    else if tg == e.tg_green_arn
    then some (e.service_green, e.service_blue)
    else none

-- `services_by_name.get(name)`: of two services with one name the dictionary keeps the last.
abbrev pub by_name : List Service → String → Option Service
by_name [] name = none
by_name (s ∷ ss) name = elim (by_name ss name) [
  | some later ↦ some later
  | none ↦ if s.service_name == name then some s else none
]

-- `count or 0`, with 0 for a count that the service lacks.
abbrev pub count_or_zero : Option ℕ → ℕ
count_or_zero none = 0
count_or_zero (some n) = n

-- `(desired or 0) == 0 and (running or 0) == 0`
abbrev pub is_zero : Service → Bool
is_zero s = nat_eq (count_or_zero s.desired_count) 0 && nat_eq (count_or_zero s.running_count) 0

-- `(desired or 0) == 0 or (running or 0) == 0`, where both counts of a missing service are `None`.
abbrev pub is_unhealthy : Option Service → Bool
is_unhealthy none = true
is_unhealthy (some s) =
    nat_eq (count_or_zero s.desired_count) 0 || nat_eq (count_or_zero s.running_count) 0

-- What the handler decides on the two descriptions that it reads.
pub data Decision : Type 0 where
  refuse : Answer → Decision
  only_cleanup : Decision
  scale : String → String → Decision

module _ (active inactive : String) (services : List Service) where
  unfoldable pub decide : Decision
  decide = elim (by_name services inactive) [
    | none ↦ refuse inactive_service_not_found
    | some old ↦
        if is_zero old
        then only_cleanup
        else if is_unhealthy (by_name services active)
        then refuse active_not_healthy
        else scale active inactive
  ]

module _ (aws : Aws) (e : Settings) where
  open aws use {World}

  unfoldable pub get_default_tg_arn : World → Result (Option String)
  get_default_tg_arn w = elim (aws.describe_listeners w e.listener_arn) [
    | raise x ↦ raise x
    | ok listeners ↦ elim (first_listener listeners) [
      | raise x ↦ raise x
      | ok listener ↦ ok (listener_tg listener)
    ]
  ]

  -- `try: … except Exception`: only the effect is kept.
  abbrev pub best_effort : Exec World (Unit {0}) → Exec World (Unit {0})
  best_effort step w = (ok tt, (step w).1)

  abbrev pub remove_rule : String → Exec World (Unit {0})
  remove_rule rule = do
    best_effort (aws.remove_targets rule ("scale-down" ∷ []))
    best_effort (aws.delete_rule rule)

  -- `_cleanup_event_rule`
  unfoldable pub cleanup_event_rule : Exec World (Unit {0})
  cleanup_event_rule w = elim (nonempty e.event_rule_name) [
    | none ↦ (ok tt, w)
    | some rule ↦ remove_rule rule w
  ]

  -- The rest of the handler, once the decision is taken.
  unfoldable pub perform : Decision → Exec World Answer
  perform (refuse answer) = pure answer
  perform only_cleanup = do cleanup_event_rule; pure already_zero
  perform (scale active inactive) = do
    aws.update_service e.cluster inactive 0
    cleanup_event_rule
    pure (scaled_down active inactive)

  -- From the two service names on.
  unfoldable pub switch : Option (String × String) → Exec World Answer
  switch none = pure unknown_default_tg
  switch (some (active, inactive)) = do
    services ←
        reads (λ w. aws.describe_services w e.cluster (e.service_blue ∷ e.service_green ∷ []))
    perform (decide active inactive services)

  abbrev pub by_target : Option String → Exec World Answer
  by_target none = pure no_default_tg
  by_target (some tg) = switch (colors e tg)

  unfoldable pub lambda_handler : Exec World Answer
  lambda_handler = do tg ← reads get_default_tg_arn; by_target (nonempty tg)
