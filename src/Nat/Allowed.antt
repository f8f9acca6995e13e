-- ===== src/Nat/Allowed.antt =====
-- Which instances disable_sdc.py of terraform/infra/global/modules/nat/lambda changes.
use mathlib.Core.Path.{subst⁻¹}
use terragrunt_demo.Common.{
  String, ◌≡◌, refl, ap, ◌∙◌, true, false, Option, none, some, ◌⊎◌, inl, inr, ◌==◌, eq_iff, arith,
  Bool-cases, Option-cases, Result-cases, Result, ok, raise, Raised, nonempty, nonempty-some,
  startswith,
}
use terragrunt_demo.Nat.Instance.{Detail, Aws, is_not_running, resolve}
use terragrunt_demo.Nat.SourceCheck
use terragrunt_demo.Nat.Zones.{MayRun, running-MayRun}

module _ (aws : Aws) (prefix : String) (d : Detail) (w : aws.World) where
  -- How the name of the instance's group is known, at the moment of the change.
  pub data GroupOf (id : String) : String → aws.World → Type 0 where
    by_event : {name : String} → nonempty d.auto_scaling_group_name ≡ some name → GroupOf id name w
    by_tag : {name : String} → SourceCheck.get_asg_tag aws id w ≡ some name → GroupOf id name w
    by_later_tag :
        {name : String}
        → SourceCheck.get_asg_tag aws id (aws.sleep 5 w).1 ≡ some name
        → GroupOf id name (aws.sleep 5 w).1

  -- A run that disabled the source check.
  pub record Disabled (out : Result (Unit {0}) × aws.World) : Type 0 where
    pub id : String
    pub of_event : resolve aws d w ≡ ok (some id)
    pub runs : MayRun d
    pub moment : aws.World
    pub allowed :
        (prefix ≡ "") ⊎ ((name : String) × GroupOf id name moment × (startswith name prefix ≡ true))
    pub effect : out ≡ aws.disable_source_check id moment

  -- A run that changed nothing, apart from the wait.
  abbrev pub Waited : Result (Unit {0}) × aws.World → Type 0
  Waited out = (out.1 ≡ w) ⊎ (out.1 ≡ (aws.sleep 5 w).1)

  -- The lookup of the group: what it found, and when.
  record Looked (id : String) (r : Result (Option String) × aws.World) : Type 0 where
    name : Option String
    moment : aws.World
    came : r ≡ (ok name, moment)
    when : (moment ≡ w) ⊎ (moment ≡ (aws.sleep 5 w).1)
    known : (n : String) → nonempty name ≡ some n → GroupOf id n moment

  allowed-prefix :
      (name : Option String)
      → SourceCheck.is_allowed prefix name ≡ true
      → (prefix ≡ "") ⊎ ((n : String) × (nonempty name ≡ some n) × (startswith n prefix ≡ true))
  unfolding SourceCheck.is_allowed
  allowed-prefix name h = elim (Bool-cases (prefix == "")) [
    | inl any ↦ inl ((eq_iff prefix "").0 any)
    | inr given ↦ elim (Option-cases (nonempty name)) [
      | inl missing ↦ absurd (ground arith)
      | inr (n, found) ↦ inr (n, found, ground arith)
    ]
  ]

  -- The lookup never writes; it raises only if the wait does.
  group_of-Looked :
      (id : String)
      → Looked id (SourceCheck.group_of aws id (nonempty d.auto_scaling_group_name) w)
        ⊎ ((x : Raised) × (SourceCheck.group_of aws id (nonempty d.auto_scaling_group_name) w
              ≡ (raise x, (aws.sleep 5 w).1)))
  unfolding SourceCheck.group_of SourceCheck.retry_tag
  group_of-Looked id = elim (Option-cases (nonempty d.auto_scaling_group_name)) [
    | inr (name, found) ↦ inl (record {
      name = some name;
      moment = w;
      when = inl refl;
      came = ground arith;
      known = λ n h. by_event (found ∙ nonempty-some (some name) n h);
    })
    | inl missing ↦ elim (Option-cases (nonempty (SourceCheck.get_asg_tag aws id w))) [
      | inr (name, found) ↦ inl (record {
        name = some name;
        moment = w;
        when = inl refl;
        came = ground arith;
        known = λ n h. by_tag (nonempty-some _ name found ∙ nonempty-some (some name) n h);
      })
      | inl untagged ↦ elim (Result-cases (aws.sleep 5 w).0) [
        | inr (x, failed) ↦ inr (x, ground arith)
        | inl (_, slept) ↦ inl (record {
          name = SourceCheck.get_asg_tag aws id (aws.sleep 5 w).1;
          moment = (aws.sleep 5 w).1;
          when = inr refl;
          came = ground arith;
          known = λ n h. by_later_tag (nonempty-some _ n h);
        })
      ]
    ]
  ]

  handle-Disabled :
      (id : String)
      → resolve aws d w ≡ ok (some id)
      → MayRun d
      → Waited (SourceCheck.handle aws prefix d (some id) w)
        ⊎ Disabled (SourceCheck.handle aws prefix d (some id) w)
  unfolding SourceCheck.handle
  handle-Disabled id of_event runs = elim (group_of-Looked id) [
    | inr (x, failed) ↦ inl (inr (ground arith))
    | inl l ↦ elim (Bool-cases (SourceCheck.is_allowed prefix l.name)) [
      | inl allowed ↦ inr (record {
        id = id;
        of_event = of_event;
        runs = runs;
        moment = l.moment;
        allowed = elim (allowed-prefix l.name allowed) [
          | inl any ↦ inl any
          | inr (n, named, starts) ↦ inr (n, l.known n named, starts)
        ];
        effect = ground (arith, l.came);
      })
      | inr refused ↦ elim l.when [
        | inl now ↦ inl (inl (ground (arith, l.came)))
        | inr later ↦ inl (inr (ground (arith, l.came)))
      ]
    ]
  ]

  -- A run of disable_sdc.py changes nothing, apart from the wait for a tag, or it disables the source
  -- check of the event's instance, whose group is known to carry the configured prefix, if there is
  -- one.
  pub disable_source_check-Disabled :
      Waited (SourceCheck.lambda_handler aws prefix d w)
      ⊎ Disabled (SourceCheck.lambda_handler aws prefix d w)
  unfolding SourceCheck.lambda_handler SourceCheck.resolved SourceCheck.handle
  disable_source_check-Disabled = elim (Bool-cases (is_not_running d.state)) [
    | inl stopped ↦ inl (inl (ground arith))
    | inr running ↦ elim (Result-cases (resolve aws d w)) [
      | inr (x, failed) ↦ inl (inl (ground arith))
      | inl (found, resolved) ↦ elim (Option-cases found) [
        | inl missing ↦ inl (inl (nothing_done running (resolved ∙ ap ok missing)))
        | inr (id, known) ↦
            let of_event = resolved ∙ ap ok known in
            subst⁻¹ (λ x. Waited x ⊎ Disabled x) (handles id running of_event)
              (handle-Disabled id of_event (running-MayRun d running))
      ]
    ]
  ]
    where
      nothing_done :
          is_not_running d.state ≡ false
          → resolve aws d w ≡ ok none
          → (SourceCheck.lambda_handler aws prefix d w).1 ≡ w
      nothing_done running missing = ground arith

      handles :
          (id : String)
          → is_not_running d.state ≡ false
          → resolve aws d w ≡ ok (some id)
          → SourceCheck.lambda_handler aws prefix d w ≡ SourceCheck.handle aws prefix d (some id) w
      handles id running found = ground arith
