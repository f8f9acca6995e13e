-- ===== src/ScaleDown/Safety.antt =====
-- What `lambda_handler` of terraform/infra/apps/fargate/lambda/scale_down_old_color.py may do to the
-- services and to the rule, whatever the AWS calls answer.
use mathlib.Core.Path.{subst⁻¹}
use terragrunt_demo.Common.{
  ◌<◌, ◌≡◌, refl, String, false, some, List, [], ◌∷◌, ◌==◌, eq_iff, arith, inl, inr, ◌⊎◌,
  Bool-cases, Option-cases, Result-cases, Result, ok, raise, Raised, nonempty, nonempty-some,
}
use terragrunt_demo.ScaleDown.Handler.{
  Service, Aws, Settings, Answer, inactive_service_not_found, active_not_healthy, already_zero,
  scaled_down, colors, by_name, count_or_zero, is_zero, is_unhealthy, Decision, refuse,
  only_cleanup, scale, decide, get_default_tg_arn, cleanup_event_rule, perform, switch,
  lambda_handler,
}

-- The listener forwards to one colour, `active` is its service and `inactive` the other one.
pub data Opposite (e : Settings) (tg active inactive : String) : Type 0 where
  blue_live :
      tg ≡ e.tg_blue_arn
      → active ≡ e.service_blue
      → inactive ≡ e.service_green
      → Opposite e tg active inactive
  green_live :
      tg ≡ e.tg_green_arn
      → active ≡ e.service_green
      → inactive ≡ e.service_blue
      → Opposite e tg active inactive

pub colors-Opposite :
    (e : Settings) (tg active inactive : String)
    → colors e tg ≡ some (active, inactive)
    → Opposite e tg active inactive
unfolding colors
colors-Opposite e tg active inactive h = elim (Bool-cases (tg == e.tg_blue_arn)) [
  | inl blue ↦ blue_live ((eq_iff tg e.tg_blue_arn).0 blue) (ground arith) (ground arith)
  | inr other ↦ elim (Bool-cases (tg == e.tg_green_arn)) [
    | inl green ↦ green_live ((eq_iff tg e.tg_green_arn).0 green) (ground arith) (ground arith)
    | inr neither ↦ absurd (ground arith)
  ]
]

-- What the decision to scale down rests on.
pub record Healthy (services : List Service) (active inactive : String) : Type 0 where
  pub live : Service
  pub found : by_name services active ≡ some live
  pub desired : 0 < count_or_zero live.desired_count
  pub running : 0 < count_or_zero live.running_count
  pub old : Service
  pub old_found : by_name services inactive ≡ some old
  pub old_live : is_zero old ≡ false

-- What the decision to remove only the rule rests on.
pub record AtZero (services : List Service) (inactive : String) : Type 0 where
  pub old : Service
  pub found : by_name services inactive ≡ some old
  pub desired : count_or_zero old.desired_count ≡ 0
  pub running : count_or_zero old.running_count ≡ 0

-- What a decision rests on.
abbrev pub Justified : String → String → List Service → Decision → Type 0
Justified active inactive services (refuse answer) = Unit {0}
Justified active inactive services only_cleanup = AtZero services inactive
Justified active inactive services (scale a i) =
    (a ≡ active) × (i ≡ inactive) × Healthy services active inactive

decide-Justified :
    (active inactive : String) (services : List Service)
    → Justified active inactive services (decide active inactive services)
unfolding decide
decide-Justified active inactive services =
    let justify = λ (d : Decision) (e : decide active inactive services ≡ d).
      subst⁻¹ (Justified active inactive services) e in
    elim (Option-cases (by_name services inactive)) [
      | inl missing ↦ justify (refuse inactive_service_not_found) (ground arith) tt
      | inr (old, found) ↦ elim (Bool-cases (is_zero old)) [
        | inl zero_old ↦
            justify only_cleanup (ground arith)
              (record { old = old; found = found; desired = ground arith; running = ground arith })
        | inr more ↦ elim (Option-cases (by_name services active)) [
          | inl gone ↦ justify (refuse active_not_healthy) (ground arith) tt
          | inr (live, seen) ↦ elim (Bool-cases (is_unhealthy (some live))) [
            | inl sick ↦ justify (refuse active_not_healthy) (ground arith) tt
            | inr well ↦ justify (scale active inactive) (ground arith) (
              refl,
              refl,
              record {
                live = live;
                found = seen;
                desired = ground arith;
                running = ground arith;
                old = old;
                old_found = found;
                old_live = more;
              },
            )
          ]
        ]
      ]
    ]

module _ (aws : Aws) (e : Settings) (w : aws.World) where
  -- What the handler read: the listener's target group, and the two services.
  pub record Seen (active inactive : String) (services : List Service) : Type 0 where
    pub tg : String
    pub forwards : get_default_tg_arn aws e w ≡ ok (some tg)
    pub opposite : Opposite e tg active inactive
    pub described :
        aws.describe_services w e.cluster (e.service_blue ∷ e.service_green ∷ []) ≡ ok services

  -- A run that only removed the rule.
  pub record Cleaned (out : Result Answer × aws.World) : Type 0 where
    pub active : String
    pub inactive : String
    pub services : List Service
    pub seen : Seen active inactive services
    pub at_zero : AtZero services inactive
    pub answer : out.0 ≡ ok already_zero
    pub world : out.1 ≡ (cleanup_event_rule aws e w).1

  -- A run that sent the one update. If the call raised, the handler raised with it and kept the rule,
  -- so that it is run again.
  pub record Scaled (out : Result Answer × aws.World) : Type 0 where
    pub active : String
    pub inactive : String
    pub services : List Service
    pub seen : Seen active inactive services
    pub healthy : Healthy services active inactive
    pub result :
        ((x : Raised) × (out ≡ (raise x, (aws.update_service e.cluster inactive 0 w).1)))
        ⊎ (out ≡ (
          ok (scaled_down active inactive),
          (cleanup_event_rule aws e (aws.update_service e.cluster inactive 0 w).1).1,
        ))

  cleanup_returns : (v : aws.World) → (cleanup_event_rule aws e v).0 ≡ ok tt
  unfolding cleanup_event_rule
  cleanup_returns v = ground arith

  abbrev pub Effect : Result Answer × aws.World → Type 0
  Effect out = (out.1 ≡ w) ⊎ (Cleaned out ⊎ Scaled out)

  perform-Effect :
      (active inactive : String) (services : List Service) (d : Decision)
      → Seen active inactive services
      → Justified active inactive services d
      → Effect (perform aws e d w)
  unfolding perform
  perform-Effect active inactive services (refuse answer) seen j = inl refl
  perform-Effect active inactive services only_cleanup seen j = inr (
      inl (record {
        active = active;
        inactive = inactive;
        services = services;
        seen = seen;
        at_zero = j;
        answer = ground (arith, cleanup_returns w);
        world = ground (arith, cleanup_returns w);
      }))
  perform-Effect active inactive services (scale a i) seen (same_a, same_i, healthy) = inr (
      inr (record {
        active = active;
        inactive = inactive;
        services = services;
        seen = seen;
        healthy = healthy;
        result = elim (Result-cases (aws.update_service e.cluster inactive 0 w).0) [
          | inl (_, sent) ↦
              let after = (aws.update_service e.cluster inactive 0 w).1 in
              inr (ground (arith, cleanup_returns after))
          | inr (x, failed) ↦ inl (x, ground arith)
        ];
      }))

  -- A run that changes anything has removed the rule because the old service was at zero, or has
  -- sent one update: of the old service, to zero, with the live one wanted and running.
  pub lambda_handler-Effect : Effect (lambda_handler aws e w)
  unfolding lambda_handler switch
  lambda_handler-Effect = elim (Result-cases (get_default_tg_arn aws e w)) [
    | inr (x, failed) ↦ inl (ground arith)
    | inl (tg, read) ↦ elim (Option-cases (nonempty tg)) [
      | inl no_tg ↦ inl (ground arith)
      | inr (arn, has) ↦ elim (Option-cases (colors e arn)) [
        | inl unknown ↦ inl (ground arith)
        | inr ((active, inactive), known) ↦
            elim (Result-cases
              (aws.describe_services w e.cluster (e.service_blue ∷ e.service_green ∷ []))) [
                | inr (x, failed) ↦ inl (ground arith)
                | inl (services, described) ↦ subst⁻¹ Effect (ground arith) (
                    perform-Effect active inactive services (decide active inactive services)
                      (record {
                        tg = arn;
                        forwards = rw (← nonempty-some tg arn has) read;
                        opposite = colors-Opposite e arn active inactive known;
                        described = described;
                      })
                      (decide-Justified active inactive services))
              ]
      ]
    ]
  ]
