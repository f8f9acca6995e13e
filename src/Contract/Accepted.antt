-- ===== src/Contract/Accepted.antt =====
-- What `validate_plan` of scripts/lifecycle/contract.py guarantees of a plan that it accepts.
use mathlib.Core.Path.{subst}
use terragrunt_demo.Common.{
  String, ◌≡◌, refl, ◌∙◌, sym, Bool, true, false, not, ◌&&◌, ◌||◌, some, List, ◌∷◌, ◌⊎◌, inl, inr,
  elem, arith, Bool-cases, if◌then◌else◌, Result, ok, or_rejected, ok-injective, require-then,
  returned-bind,
}
use terragrunt_demo.Json.{Value, str, obj, Fields, Items, cons, nil, find, py_eq, is_text}
use terragrunt_demo.Dicts.{dict_of, dict_of-ok, require_str, require_str-ok, get, is_null}
use terragrunt_demo.Contract.Request.{Operation}
use terragrunt_demo.Contract.Authorize.{Layer}
use terragrunt_demo.Contract.Plan.{
  Actions, actions_of, creates, deletes, runtime_kinds, check_managed, check_source, check_resource,
  check_resources,
}
use terragrunt_demo.Contract.Resource.{Managed, check_managed-Managed, Source, check_source-Source}
use terragrunt_demo.Contract.Bootstrap.{or_rejected-ok, not-true}

-- A predicate on each element of a JSON list.
abbrev pub AllItems : (Value → Type 0) → Items → Type 0
AllItems P nil = Unit
AllItems P (cons x xs) = P x × AllItems P xs

module _ (loads : Value → Result Value) where
  -- A resource of an accepted plan: its address is installed with its type, and it is a data source
  -- or a managed resource whose change passed.
  pub record Accepted (operation : Operation) (layer : Layer) (address : String) (x : Value)
      : Type 0 where
    pub fields : Fields
    pub is : x ≡ obj fields
    pub has_address : get fields "address" ≡ str address
    pub kind : Value
    pub installed : find address layer.addresses ≡ some kind
    pub same_kind : py_eq (get fields "type") kind ≡ true
    pub body : Source loads fields ⊎ Managed loads operation layer address fields

  -- A resource whose change takes no running service away.
  pub data Gentle (x : Value) : Type 0 where
    source : (r : Fields) → x ≡ obj r → is_text (get r "mode") "data" ≡ true → Gentle x
    other_kind :
        (r : Fields) (kind : String)
        → x ≡ obj r
        → get r "type" ≡ str kind
        → elem kind runtime_kinds ≡ false
        → Gentle x
    spared :
        (r change : Fields) (listed before : Value) (actions : Actions)
        → x ≡ obj r
        → get r "change" ≡ obj change
        → find "actions" change ≡ some listed
        → actions_of listed ≡ some actions
        → find "before" change ≡ some before
        → deletes actions ≡ false
        → (is_null before ≡ true) ⊎ (creates actions ≡ false)
        → Gentle x

  -- The resources of an accepted plan, with the addresses seen before: each is accepted, no address
  -- stands twice, and unless quiescence is needed each is gentle.
  pub data Checked (operation : Operation) (layer : Layer) (needs : Bool)
      : List String → Items → Type 0 where
    none_left : {seen : List String} → Checked operation layer needs seen nil
    and_then :
        {seen : List String} {x : Value} {xs : Items} (address : String)
        → Accepted operation layer address x
        → elem address seen ≡ false
        → (needs ≡ true) ⊎ Gentle x
        → Checked operation layer needs (address ∷ seen) xs
        → Checked operation layer needs seen (cons x xs)

  gentle_split :
      (kind before creating deleting : Bool)
      → (kind && (deleting || not before && creating)) ≡ false
      → (kind ≡ false) ⊎ ((deleting ≡ false) × ((before ≡ true) ⊎ (creating ≡ false)))
  gentle_split false before creating deleting h = inl refl
  gentle_split true true creating false h = inr (refl, inl refl)
  gentle_split true false false false h = inr (refl, inr refl)
  gentle_split true false true false h = cc
  gentle_split true before creating true h = cc

  module _ (operation : Operation) (layer : Layer) where
    Managed-Gentle :
        (x : Value) (address : String) (r : Fields)
        → x ≡ obj r
        → (m : Managed loads operation layer address r)
        → (elem m.kind runtime_kinds
            && (deletes m.actions || not (is_null m.before) && creates m.actions))
          ≡ false
        → Gentle x
    Managed-Gentle x address r is m h =
        elim (gentle_split (elem m.kind runtime_kinds) (is_null m.before) (creates m.actions)
          (deletes m.actions) h) [
            | inl other ↦ other_kind r m.kind is m.has_kind other
            | inr (kept, fresh) ↦
                spared r m.change m.listed m.before m.actions is m.has_change m.has_actions m.named
                  m.has_before kept fresh
          ]

    resource_body :
        (x : Value) (a : String) (r : Fields) (n : Bool)
        → x ≡ obj r
        → (if is_text (get r "mode") "data"
            then check_source loads r
            else check_managed loads operation layer a r)
          ≡ ok n
        → (Source loads r ⊎ Managed loads operation layer a r) × ((n ≡ true) ⊎ Gentle x)
    resource_body x a r n is h = elim (Bool-cases (is_text (get r "mode") "data")) [
      | inl data_source ↦ (
        inl (check_source-Source loads r n data_source (rw data_source at h)),
        inr (source r is data_source),
      )
      | inr managed ↦
          let (m, e) = check_managed-Managed loads operation layer a r n (rw managed at h) in
          (
            inr m,
            elim (Bool-cases n) [
              | inl needed ↦ inl needed
              | inr calm ↦ inr (Managed-Gentle x a r is m (sym e ∙ calm))
            ],
          )
    ]

    carried :
        (one before needs : Bool) {G : Type 0}
        → (one ≡ true) ⊎ G
        → ((before || one) ≡ false) ⊎ (needs ≡ true)
        → (needs ≡ true) ⊎ G
    carried one before needs (inr g) k = inr g
    carried true before needs (inl e) (inr k) = inl k
    carried true true needs (inl e) (inl k) = cc
    carried true false needs (inl e) (inl k) = cc
    carried false before needs (inl e) k = cc

    carried_flag :
        (before one needs : Bool)
        → ((before || one) ≡ false) ⊎ (needs ≡ true)
        → (before ≡ false) ⊎ (needs ≡ true)
    carried_flag before one needs k = ground arith

    -- One round of the loop.
    check_resource-Accepted :
        (seen : List String) (x : Value) (address : String) (needs : Bool)
        → check_resource loads operation layer seen x ≡ ok (address, needs)
        → Accepted operation layer address x
          × (elem address seen ≡ false)
          × ((needs ≡ true) ⊎ Gentle x)
    unfolding check_resource
    check_resource-Accepted seen x address needs h =
        let (r, is_dict, h1) = returned-bind (dict_of x) _ h in
        let (a, has_address, h2) = returned-bind (require_str (get r "address")) _ h1 in
        let (fresh, h3) = require-then (not (elem a seen)) _ h2 in
        let (kind, installed, h4) = returned-bind (or_rejected (find a layer.addresses)) _ h3 in
        let (same, h5) = require-then (py_eq (get r "type") kind) _ h4 in
        let (n, body, done) =
          returned-bind
            (if is_text (get r "mode") "data"
              then check_source loads r
              else check_managed loads operation layer a r)
            _ h5 in
        let is = dict_of-ok x r is_dict in
        let (what, gentle) = resource_body x a r n is body in
        subst
          (λ (p : String × Bool).
            Accepted operation layer p.0 x × (elem p.0 seen ≡ false) × ((p.1 ≡ true) ⊎ Gentle x))
          (ok-injective done)
          (
            record {
              fields = r;
              is = is;
              has_address = require_str-ok (get r "address") a has_address;
              kind = kind;
              installed = or_rejected-ok (find a layer.addresses) kind installed;
              same_kind = same;
              body = what;
            },
            not-true _ fresh,
            gentle,
          )

    -- A flag that was set stays set.
    pub check_resources-Checked :
        (seen : List String) (before needs : Bool) (xs : Items)
        → check_resources loads operation layer seen before xs ≡ ok needs
        → Checked operation layer needs seen xs × ((before ≡ false) ⊎ (needs ≡ true))
    unfolding check_resources
    check_resources-Checked seen before needs nil h = (none_left, ground (arith, ok-injective h))
    check_resources-Checked seen before needs (cons x xs) h =
        let ((address, one), first, rest) =
          returned-bind (check_resource loads operation layer seen x) _ h in
        let (accepted, fresh, gentle) = check_resource-Accepted seen x address one first in
        let (others, kept) =
          check_resources-Checked (address ∷ seen) (before || one) needs xs rest in
        (
          and_then address accepted fresh (carried one before needs gentle kept) others,
          carried_flag before one needs kept,
        )
