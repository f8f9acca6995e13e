-- ===== src/Contract/Resource.antt =====
-- What a passed check of scripts/lifecycle/contract.py says of one element of `resource_changes`.
use terragrunt_demo.Common.{
  String, ◌≡◌, ◌∙◌, ap, refl, sym, Bool, true, false, not, ◌&&◌, ◌||◌, some, List, [], ◌∷◌, ◌++◌,
  ◌==◌, ◌⊎◌, inl, inr, All, elem, arith, Bool-cases, if◌then◌else◌, ok, Result, ◌>>=◌, ◌>>◌,
  require, or_rejected, ok-injective, require-ok, require-then, returned-bind,
}
use terragrunt_demo.Json.{Value, str, obj, Fields, find, py_eq, is_text, same_keys, item-then}
use terragrunt_demo.Dicts.{
  keys, dict_of, dict_of-ok, require_str, require_str-ok, get, truthy, is_null, keys-ok, texts,
  item_of,
}
use terragrunt_demo.Contract.Request.{Operation}
use terragrunt_demo.Contract.Authorize.{Layer}
use terragrunt_demo.Contract.Plan.{
  Actions, actions_of, creates, deletes, permits, is_no_op, is_update, same_fields, member,
  change_keys, check_change, check_managed, is_protected, runtime_fields, execution_fields,
  runtime_kinds, check_source,
}
use terragrunt_demo.Contract.Bootstrap.{
  Inert, check_service_bootstrap-Inert, Roleless, check_task_bootstrap-Roleless, or_rejected-ok,
  not-true,
}

-- A field that the plan knows and leaves as it is.
pub record FieldKept (unknown before after : Value) (k : String) : Type 0 where
  pub unknowns : Fields
  pub olds : Fields
  pub news : Fields
  pub was : before ≡ obj olds
  pub becomes : after ≡ obj news
  pub marks : unknown ≡ obj unknowns
  pub known : truthy (get unknowns k) ≡ false
  pub same : py_eq (get olds k) (get news k) ≡ true

same_fields-FieldKept :
    (unknown before after : Value) (ks : List String)
    → same_fields unknown before after ks ≡ ok tt
    → All (FieldKept unknown before after) ks
unfolding same_fields
same_fields-FieldKept unknown before after [] h = tt
same_fields-FieldKept unknown before after (k ∷ ks) h =
    let (u, marks, h1) = returned-bind (dict_of unknown) _ h in
    let (known, h2) = require-then (not (truthy (get u k))) _ h1 in
    let (b, was, h3) = returned-bind (dict_of before) _ h2 in
    let (a, becomes, h4) = returned-bind (dict_of after) _ h3 in
    let (same, rest) = require-then (py_eq (get b k) (get a k)) _ h4 in
    (
      record {
        unknowns = u;
        olds = b;
        news = a;
        was = dict_of-ok before b was;
        becomes = dict_of-ok after a becomes;
        marks = dict_of-ok unknown u marks;
        known = not-true _ known;
        same = same;
      },
      same_fields-FieldKept unknown before after ks rest,
    )

-- The resource that the plan replaces or removes is the installed one.
pub record Belongs (layer : Layer) (address before : Value) : Type 0 where
  pub old : Fields
  pub was : before ≡ obj old
  pub id : Value
  pub installed : member layer address ≡ ok id
  pub same : py_eq (get old "id") id ≡ true

-- A change that passed.
pub record Changed (loads : Value → Result Value) (layer : Layer) (address : String) (kind : String)
    (actions : Actions) (before after unknown : Value) : Type 0 where
  pub tags :
      (is_null before ≡ true)
      ⊎ ((is_null after ≡ true) ⊎ All (FieldKept unknown before after) ("tags" ∷ "tags_all" ∷ []))
  pub belongs : (is_null before ≡ true) ⊎ Belongs layer (str address) before
  pub updated :
      (is_update actions ≡ false)
      ⊎ All (FieldKept unknown before after) (runtime_fields kind ++ execution_fields kind)
  pub created : ((creates actions && kind == "aws_ecs_service") ≡ false) ⊎ Inert unknown after
  pub defined :
      ((creates actions && kind == "aws_ecs_task_definition") ≡ false) ⊎ Roleless loads after

-- A step under a condition.
pub guarded :
    (c : Bool) {r : Result (Unit {0})}
    → (if c then r else ok tt) ≡ ok tt
    → (c ≡ false) ⊎ (r ≡ ok tt)
guarded true h = inr h
guarded false h = inl refl

excused :
    (c : Bool) {r : Result (Unit {0})} → (if c then ok tt else r) ≡ ok tt → (c ≡ true) ⊎ (r ≡ ok tt)
excused true h = inl refl
excused false h = inr h

pub then_step : {r k : Result (Unit {0})} → (r >> k) ≡ ok tt → (r ≡ ok tt) × (k ≡ ok tt)
then_step {r} {k} h = let (_, first, rest) = returned-bind r (λ _. k) h in (first, rest)

pub ⊎-map : {A B C : Type 0} → (B → C) → A ⊎ B → A ⊎ C
⊎-map f (inl a) = inl a
⊎-map f (inr b) = inr (f b)

dict_of-Belongs :
    (layer : Layer) (address before : Value)
    → (do b ← dict_of before; m ← member layer address; require (py_eq (get b "id") m)) ≡ ok tt
    → Belongs layer address before
dict_of-Belongs layer address before h =
    let (b, was, h1) = returned-bind (dict_of before) _ h in
    let (m, installed, h2) = returned-bind (member layer address) _ h1 in
    record {
      old = b;
      was = dict_of-ok before b was;
      id = m;
      installed = installed;
      same = require-ok _ h2;
    }

tags_known :
    (before after : Value) {K : Type 0}
    → ((not (is_null before) && not (is_null after)) ≡ false) ⊎ K
    → (is_null before ≡ true) ⊎ ((is_null after ≡ true) ⊎ K)
tags_known before after (inr k) = inr (inr k)
tags_known before after (inl e) = elim (Bool-cases (is_null before)) [
  | inl gone ↦ inl gone
  | inr there ↦ inr (inl (ground arith))
]

module _ (loads : Value → Result Value) where
  check_change-Changed :
      (layer : Layer) (address kind : String) (actions : Actions) (before after unknown : Value)
      → check_change loads layer (str address) kind actions before after unknown ≡ ok tt
      → Changed loads layer address kind actions before after unknown
  unfolding check_change
  check_change-Changed layer address kind actions before after unknown h =
      let (tags, h1) = then_step h in
      let (belongs, h2) = then_step h1 in
      let (updated, h3) = then_step h2 in
      let (created, defined) = then_step h3 in
      record {
        tags = tags_known before after (
            ⊎-map (same_fields-FieldKept unknown before after ("tags" ∷ "tags_all" ∷ []))
              (guarded _ tags));
        belongs = ⊎-map (dict_of-Belongs layer (str address) before) (excused _ belongs);
        updated = ⊎-map (same_fields-FieldKept unknown before after _) (guarded _ updated);
        created = ⊎-map (check_service_bootstrap-Inert unknown after) (guarded _ created);
        defined = ⊎-map (check_task_bootstrap-Roleless loads after) (guarded _ defined);
      }

  -- A managed resource that passed.
  pub record Managed (operation : Operation) (layer : Layer) (address : String) (r : Fields)
      : Type 0 where
    pub kind : String
    pub has_kind : get r "type" ≡ str kind
    pub unprotected : is_protected kind ≡ false
    pub change : Fields
    pub has_change : get r "change" ≡ obj change
    pub closed : same_keys change change_keys ≡ true
    pub listed : Value
    pub actions : Actions
    pub has_actions : find "actions" change ≡ some listed
    pub named : actions_of listed ≡ some actions
    pub permitted : permits operation actions ≡ true
    pub before : Value
    pub after : Value
    pub unknown : Value
    pub has_before : find "before" change ≡ some before
    pub has_after : find "after" change ≡ some after
    pub has_unknown : find "after_unknown" change ≡ some unknown
    pub changed :
        (is_no_op actions ≡ true) ⊎ Changed loads layer address kind actions before after unknown

  pub check_managed-Managed :
      (operation : Operation) (layer : Layer) (address : String) (r : Fields) (needs : Bool)
      → check_managed loads operation layer address r ≡ ok needs
      → (m : Managed operation layer address r) × (needs ≡ (
          elem m.kind runtime_kinds
          && (deletes m.actions || not (is_null m.before) && creates m.actions)))
  unfolding check_managed
  check_managed-Managed operation layer address r needs h =
      let (kind, has_kind, h1) = returned-bind (require_str (get r "type")) _ h in
      let (free, h2) = require-then (not (is_protected kind)) _ h1 in
      let (change, has_change, h3) = returned-bind (keys (get r "change") change_keys) _ h2 in
      let (listed, has_actions, h4) = item-then change "actions" _ h3 in
      let (actions, named, h5) = returned-bind (or_rejected (actions_of listed)) _ h4 in
      let (permitted, h6) = require-then (permits operation actions) _ h5 in
      let (before, has_before, h7) = item-then change "before" _ h6 in
      let (after, has_after, h8) = item-then change "after" _ h7 in
      let (unknown, has_unknown, h9) = item-then change "after_unknown" _ h8 in
      let (_, checked, done) =
        returned-bind
          (if is_no_op actions
            then ok tt
            else check_change loads layer (str address) kind actions before after unknown)
          _ h9 in
      (
        record {
          kind = kind;
          has_kind = require_str-ok (get r "type") kind has_kind;
          unprotected = not-true _ free;
          change = change;
          has_change = (keys-ok (get r "change") change_keys change has_change).0;
          closed = (keys-ok (get r "change") change_keys change has_change).1;
          listed = listed;
          actions = actions;
          has_actions = has_actions;
          named = or_rejected-ok (actions_of listed) actions named;
          permitted = permitted;
          before = before;
          after = after;
          unknown = unknown;
          has_before = has_before;
          has_after = has_after;
          has_unknown = has_unknown;
          changed =
              ⊎-map (check_change-Changed layer address kind actions before after unknown)
                (excused (is_no_op actions) checked);
        },
        sym (ok-injective done),
      )

  -- A data source that is only read, or stays as it is.
  pub record Source (r : Fields) : Type 0 where
    pub is_data : is_text (get r "mode") "data" ≡ true
    pub change : Fields
    pub has_change : find "change" r ≡ some (obj change)
    pub listed : Value
    pub has_actions : find "actions" change ≡ some listed
    pub only_read :
        (py_eq listed (texts ("read" ∷ [])) ≡ true) ⊎ (py_eq listed (texts ("no-op" ∷ [])) ≡ true)

  pub check_source-Source :
      (r : Fields) (needs : Bool)
      → is_text (get r "mode") "data" ≡ true
      → check_source loads r ≡ ok needs
      → Source r
  unfolding check_source
  check_source-Source r needs is_data h =
      let (v, change, at, is_dict, h1) = item_of r "change" dict_of _ h in
      let (listed, has_actions, h2) = item-then change "actions" _ h1 in
      let (read, _) =
        require-then (py_eq listed (texts ("read" ∷ [])) || py_eq listed (texts ("no-op" ∷ []))) _
          h2 in
      record {
        is_data = is_data;
        change = change;
        has_change = at ∙ ap some (dict_of-ok v change is_dict);
        listed = listed;
        has_actions = has_actions;
        only_read = one_of _ _ read;
      }
    where
      one_of : (a b : Bool) → (a || b) ≡ true → (a ≡ true) ⊎ (b ≡ true)
      one_of true b h = inl refl
      one_of false b h = inr h
