-- ===== src/Nat/Zones.antt =====
-- What change_rt.py and assign_eip.py of terraform/infra/global/modules/nat/lambda may change, and
-- for which instance.
use terragrunt_demo.Common.{
  String, ◌≡◌, refl, ap, ◌∙◌, true, false, Option, none, some, ◌⊎◌, inl, inr, ◌==◌, eq_iff, arith,
  Bool-cases, Option-cases, Result-cases, Result, ok, nonempty, startswith,
}
use terragrunt_demo.Common.Exec.{Exec}
use terragrunt_demo.Nat.Instance.{
  Detail, Instance, Aws, is_not_running, same, by_zone, is_foreign, first, resolve, describe,
}
use terragrunt_demo.Nat.Address
use terragrunt_demo.Nat.Route

-- An instance stands in one of the two zones, and `chosen` is what is configured for that zone.
pub data InZone (subnet_a subnet_b for_a for_b subnet chosen : Option String) : Type 0 where
  zone_a : subnet ≡ subnet_a → chosen ≡ for_a → InZone subnet_a subnet_b for_a for_b subnet chosen
  zone_b : subnet ≡ subnet_b → chosen ≡ for_b → InZone subnet_a subnet_b for_a for_b subnet chosen

same-eq : (x y : Option String) → same x y ≡ true → x ≡ y
same-eq none none h = refl
same-eq none (some t) h = cc
same-eq (some s) none h = cc
same-eq (some s) (some t) h = ap some ((eq_iff s t).0 h)

pub by_zone-InZone :
    (subnet_a subnet_b for_a for_b subnet chosen : Option String)
    → by_zone subnet_a subnet_b for_a for_b subnet ≡ some chosen
    → InZone subnet_a subnet_b for_a for_b subnet chosen
by_zone-InZone subnet_a subnet_b for_a for_b subnet chosen h =
    elim (Bool-cases (same subnet subnet_a)) [
      | inl a ↦ zone_a (same-eq subnet subnet_a a) (ground arith)
      | inr other ↦ elim (Bool-cases (same subnet subnet_b)) [
        | inl b ↦ zone_b (same-eq subnet subnet_b b) (ground arith)
        | inr neither ↦ absurd (ground arith)
      ]
    ]

-- The event does not say that the instance is in another state than running.
abbrev pub MayRun : Detail → Type 0
MayRun d = (nonempty d.state ≡ none) ⊎ (d.state ≡ some "running")

-- The event does not say that the instance belongs to a group without the prefix.
abbrev pub MayBelong : String → Detail → Type 0
MayBelong prefix d =
    (nonempty d.auto_scaling_group_name ≡ none)
    ⊎ ((prefix ≡ "")
        ⊎ ((name : String) × (nonempty d.auto_scaling_group_name ≡ some name)
            × (startswith name prefix ≡ true)))

pub running-MayRun : (d : Detail) → is_not_running d.state ≡ false → MayRun d
running-MayRun d h = elim (Option-cases d.state) [
  | inl missing ↦ inl (ground arith)
  | inr (s, found) ↦ elim (Bool-cases (s == "")) [
    | inl empty ↦ inl (ground arith)
    | inr text ↦ elim (Bool-cases (s == "running")) [
      | inl running ↦ inr (found ∙ ap some ((eq_iff s "running").0 running))
      | inr other ↦ absurd (ground arith)
    ]
  ]
]

not_foreign :
    (prefix : String) (d : Detail)
    → is_foreign prefix d.auto_scaling_group_name ≡ false
    → MayBelong prefix d
unfolding is_foreign
not_foreign prefix d h = elim (Option-cases (nonempty d.auto_scaling_group_name)) [
  | inl missing ↦ inl missing
  | inr (name, found) ↦ elim (Bool-cases (prefix == "")) [
    | inl any ↦ inr (inl ((eq_iff prefix "").0 any))
    | inr some_prefix ↦ inr (inr (name, found, ground arith))
  ]
]

module _ (aws : Aws) (w : aws.World) where
  -- The instance was described, it stands in a zone, and the action was taken for that zone.
  pub record Reached (choose : Instance → Option (Option String))
      (act : Option String → String → Exec aws.World (Unit {0})) (id : String)
      (out : Result (Unit {0}) × aws.World) : Type 0 where
    pub instance : Instance
    pub eni : String
    pub chosen : Option String
    pub described : describe aws id w ≡ ok instance
    pub interface : first instance.network_interfaces ≡ ok eni
    pub choice : choose instance ≡ some chosen
    pub effect : out ≡ act chosen eni w

  process-Reached :
      (e : Route.Settings) (id : String)
      → ((Route.process aws e id w).1 ≡ w)
        ⊎ Reached
            (Route.route_table aws e)
            (Route.upsert_default_route aws)
            id
            (Route.process aws e id w)
  unfolding Route.process Route.update
  process-Reached e id = elim (Result-cases (describe aws id w)) [
    | inr (x, failed) ↦ inl (ground arith)
    | inl (i, described) ↦ elim (Result-cases (first i.network_interfaces)) [
      | inr (x, failed) ↦ inl (ground arith)
      | inl (eni, interface) ↦ elim (Option-cases (Route.route_table aws e i)) [
        | inl elsewhere ↦ inl (ground arith)
        | inr (table, choice) ↦ inr (record {
          instance = i;
          eni = eni;
          chosen = table;
          described = described;
          interface = interface;
          choice = choice;
          effect = ground arith;
        })
      ]
    ]
  ]

  assign-Reached :
      (e : Address.Settings) (id : String)
      → ((Address.assign aws e id w).1 ≡ w)
        ⊎ Reached (Address.allocation aws e) aws.associate_address id (Address.assign aws e id w)
  unfolding Address.assign Address.associate
  assign-Reached e id = elim (Result-cases (describe aws id w)) [
    | inr (x, failed) ↦ inl (ground arith)
    | inl (i, described) ↦ elim (Result-cases (first i.network_interfaces)) [
      | inr (x, failed) ↦ inl (ground arith)
      | inl (eni, interface) ↦ elim (Option-cases (Address.allocation aws e i)) [
        | inl elsewhere ↦ inl (ground arith)
        | inr (allocation, choice) ↦ inr (record {
          instance = i;
          eni = eni;
          chosen = allocation;
          described = described;
          interface = interface;
          choice = choice;
          effect = ground arith;
        })
      ]
    ]
  ]

  -- A run that took its action: the event allows it, and the action is that of the zone in which the
  -- event's instance stands.
  pub record Acted (prefix : String) (subnet_a subnet_b for_a for_b : Option String)
      (act : Option String → String → Exec aws.World (Unit {0})) (d : Detail)
      (out : Result (Unit {0}) × aws.World) : Type 0 where
    pub id : String
    pub of_event : resolve aws d w ≡ ok (some id)
    pub runs : MayRun d
    pub belongs : MayBelong prefix d
    pub instance : Instance
    pub described : describe aws id w ≡ ok instance
    pub eni : String
    pub interface : first instance.network_interfaces ≡ ok eni
    pub chosen : Option String
    pub zone : InZone subnet_a subnet_b for_a for_b instance.subnet_id chosen
    pub effect : out ≡ act chosen eni w

  module _ (e : Route.Settings) where
    abbrev pub Routed : Detail → Result (Unit {0}) × aws.World → Type 0
    Routed =
        Acted e.asg_prefix e.subnet_a_id e.subnet_b_id e.route_table_a_id e.route_table_b_id
          (Route.upsert_default_route aws)

    -- A run of change_rt.py changes nothing, or points the default route of the instance's own zone
    -- to the instance's interface.
    pub change_route-Routed :
        (d : Detail)
        → ((Route.lambda_handler aws e d w).1 ≡ w) ⊎ Routed d (Route.lambda_handler aws e d w)
    unfolding Route.lambda_handler Route.resolved Route.handle
    change_route-Routed d = elim (Bool-cases (is_not_running d.state)) [
      | inl stopped ↦ inl (ground arith)
      | inr running ↦ elim (Result-cases (resolve aws d w)) [
        | inr (x, failed) ↦ inl (ground arith)
        | inl (found, resolved) ↦ elim (Option-cases found) [
          | inl missing ↦ inl (ground arith)
          | inr (id, known) ↦
              elim (Bool-cases (is_foreign e.asg_prefix d.auto_scaling_group_name)) [
                | inl foreign ↦ inl (ground arith)
                | inr own ↦ elim (process-Reached e id) [
                  | inl kept ↦ inl (ground arith)
                  | inr r ↦ inr (record {
                    id = id;
                    of_event = resolved ∙ ap ok known;
                    runs = running-MayRun d running;
                    belongs = not_foreign e.asg_prefix d own;
                    instance = r.instance;
                    described = r.described;
                    eni = r.eni;
                    interface = r.interface;
                    chosen = r.chosen;
                    zone = by_zone-InZone _ _ _ _ _ _ r.choice;
                    effect = ground (arith, r.effect);
                  })
                ]
              ]
        ]
      ]
    ]

  module _ (e : Address.Settings) where
    abbrev pub Assigned : Detail → Result (Unit {0}) × aws.World → Type 0
    Assigned =
        Acted e.asg_prefix e.subnet_a_id e.subnet_b_id e.eip_a_allocation_id e.eip_b_allocation_id
          aws.associate_address

    -- A run of assign_eip.py changes nothing, or gives the address of the instance's own zone to the
    -- instance's interface.
    pub assign_address-Assigned :
        (d : Detail)
        → ((Address.lambda_handler aws e d w).1 ≡ w) ⊎ Assigned d (Address.lambda_handler aws e d w)
    unfolding Address.lambda_handler Address.handle
    assign_address-Assigned d = elim (Result-cases (resolve aws d w)) [
      | inr (x, failed) ↦ inl (ground arith)
      | inl (found, resolved) ↦ elim (Option-cases found) [
        | inl missing ↦ inl (ground arith)
        | inr (id, known) ↦ elim (Bool-cases (is_not_running d.state)) [
          | inl stopped ↦ inl (ground arith)
          | inr running ↦ elim (Bool-cases (is_foreign e.asg_prefix d.auto_scaling_group_name)) [
            | inl foreign ↦ inl (ground arith)
            | inr own ↦ elim (assign-Reached e id) [
              | inl kept ↦ inl (ground arith)
              | inr r ↦ inr (record {
                id = id;
                of_event = resolved ∙ ap ok known;
                runs = running-MayRun d running;
                belongs = not_foreign e.asg_prefix d own;
                instance = r.instance;
                described = r.described;
                eni = r.eni;
                interface = r.interface;
                chosen = r.chosen;
                zone = by_zone-InZone _ _ _ _ _ _ r.choice;
                effect = ground (arith, r.effect);
              })
            ]
          ]
        ]
      ]
    ]
