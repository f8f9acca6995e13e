-- ===== src/ScaleDown/Tests.antt =====
-- Runs of terraform/infra/apps/fargate/lambda/scale_down_old_color.py on a small cluster.
use terragrunt_demo.Common.{
  ℕ, String, ◌≡◌, refl, Bool, true, false, none, some, [], ◌∷◌, ◌==◌, if◌then◌else◌, ok,
}
use terragrunt_demo.ScaleDown.Handler.{
  Service, Aws, Settings, already_zero, scaled_down, active_not_healthy, colors, decide,
  get_default_tg_arn, cleanup_event_rule, perform, switch, lambda_handler,
}
use terragrunt_demo.ScaleDown.Safety.{Effect, lambda_handler-Effect}

-- Two services, and the rule.
pub record Cluster : Type 0 where
  pub blue : ℕ
  pub green : ℕ
  pub has_rule : Bool
  pub forwards_to : String

abbrev service : String → ℕ → Service
service name n = record { service_name = name; desired_count = some n; running_count = some n }

abbrev scaled_to : Cluster → String → ℕ → Cluster
scaled_to w name n = if name == "api-blue" then record w { blue = n } else record w { green = n }

abbrev cluster : Aws
cluster = record {
  World = Cluster;
  describe_listeners = λ w _. ok (
      record {
        default_actions =
            some (record { target_group_arn = some w.forwards_to; forward_config = none } ∷ []);
      }
      ∷ []);
  describe_services = λ w _ _. ok (service "api-blue" w.blue ∷ service "api-green" w.green ∷ []);
  update_service = λ _ name n w. (ok tt, scaled_to w name n);
  remove_targets = λ _ _ w. (ok tt, w);
  delete_rule = λ _ w. (ok tt, record w { has_rule = false });
}

abbrev settings : Settings
settings = record {
  cluster = "demo";
  service_blue = "api-blue";
  service_green = "api-green";
  listener_arn = "listener";
  tg_blue_arn = "tg-blue";
  tg_green_arn = "tg-green";
  event_rule_name = some "scale-down-rule";
}

abbrev switched : Cluster
switched = record { blue = 2; green = 2; has_rule = true; forwards_to = "tg-green" }

scales_blue :
    lambda_handler cluster settings switched
    ≡ (ok (scaled_down "api-green" "api-blue"), record switched { blue = 0; has_rule = false })
unfolding lambda_handler switch perform decide colors cleanup_event_rule get_default_tg_arn
scales_blue = refl

again : (lambda_handler cluster settings (record switched { blue = 0 })).0 ≡ ok already_zero
unfolding lambda_handler switch perform decide colors cleanup_event_rule get_default_tg_arn
again = refl

refuses :
    lambda_handler cluster settings (record switched { green = 0 })
    ≡ (ok active_not_healthy, record switched { green = 0 })
unfolding lambda_handler switch perform decide colors cleanup_event_rule get_default_tg_arn
refuses = refl

lambda_handler-Effect_example :
    Effect cluster settings switched (lambda_handler cluster settings switched)
lambda_handler-Effect_example = lambda_handler-Effect cluster settings switched
