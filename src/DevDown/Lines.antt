-- ===== src/DevDown/Lines.antt =====
-- What an accepted review in scripts/lifecycle/dev_down.py has found in the plan: its changes, and
-- what one line of the summary says.
use mathlib.Core.Path.{subst}
use terragrunt_demo.Common.{
  String, ◌≡◌, refl, ap, ◌∙◌, Bool, true, false, not, ◌&&◌, ◌||◌, ◌⊎◌, inl, inr, some, arith, ok,
  ok-injective, require-ok, require-then, returned-bind, &&-true,
}
use terragrunt_demo.Json.{
  Value, str, obj, arr, null, Fields, Items, nil, find, item-then, py_eq, is_text,
}
use terragrunt_demo.Dicts.{
  dict_of, dict_of-ok, require_dict, require_dict-ok, get, is_null, item_of, get_or, truthy,
  is_true, is_false, require_list,
}
use terragrunt_demo.Contract.Plan.{is_protected}
use terragrunt_demo.Contract.Bootstrap.{not-true}
use terragrunt_demo.DevDown.Review.{
  Removal, removes, keeps, is_id, text_of, review_managed, review_source, reviewed_changes,
}

-- A complete plan without errors, without deferred changes and without drift, and its changes.
pub record Whole (saved : Value) (changes : Items) : Type 0 where
  pub plan : Fields
  pub is : saved ≡ obj plan
  pub version : is_text (get plan "format_version") "1.2" ≡ true
  pub complete : is_true (get plan "complete") ≡ true
  pub no_errors : is_false (get plan "errored") ≡ true
  pub not_deferred : truthy (get plan "deferred_changes") ≡ false
  pub no_drift : truthy (get plan "resource_drift") ≡ false
  pub listed : get_or plan "resource_changes" (arr nil) ≡ arr changes

require_list-ok : (v : Value) (xs : Items) → require_list v ≡ ok xs → v ≡ arr xs
require_list-ok v xs h = ground arith

pub reviewed_changes-Whole :
    (saved : Value) (changes : Items) → reviewed_changes saved ≡ ok changes → Whole saved changes
unfolding reviewed_changes
reviewed_changes-Whole saved changes h =
    let (plan, is, h1) = returned-bind (require_dict saved) _ h in
    let (whole, h2) = require-then _ _ h1 in
    let (r1, no_drift) = &&-true _ (not (truthy (get plan "resource_drift"))) whole in
    let (r2, whole_plan) = &&-true _ (not (truthy (get plan "deferred_changes"))) r1 in
    let (r3, no_errors) = &&-true _ (is_false (get plan "errored")) r2 in
    let (version, complete) =
      &&-true (is_text (get plan "format_version") "1.2") (is_true (get plan "complete")) r3 in
    record {
      plan = plan;
      is = require_dict-ok saved plan is;
      version = version;
      complete = complete;
      no_errors = no_errors;
      not_deferred = not-true _ whole_plan;
      no_drift = not-true _ no_drift;
      listed = require_list-ok _ changes h2;
    }

-- A line says of a managed resource what the plan does to it: it is deleted or it stays, it is not a
-- protected one, and it is the one that is installed at its address.
pub record Line (membership r : Fields) (address : String) (line : Removal) : Type 0 where
  pub kind : String
  pub has_kind : get r "type" ≡ str kind
  pub kind_of : line.kind ≡ str kind
  pub unprotected : is_protected kind ≡ false
  pub change : Fields
  pub has_change : find "change" r ≡ some (obj change)
  pub has_actions : find "actions" change ≡ some line.actions
  pub deed : (removes line.actions ≡ true) ⊎ (keeps line.actions ≡ true)
  pub before : Fields
  pub has_before : get change "before" ≡ obj before
  pub id_of : line.id ≡ get before "id"
  pub installed : py_eq line.id (get membership address) ≡ true
  pub named_id : is_id line.id ≡ true
  pub gone : (removes line.actions ≡ false) ⊎ (get change "after" ≡ null)
  pub at_address : line.address ≡ address

-- The resource stands in the layer's table of installed addresses, with its own type.
pub record Installed (addresses r : Fields) (address : String) : Type 0 where
  pub kind : Value
  pub at_address : find address addresses ≡ some kind
  pub same_kind : py_eq kind (get r "type") ≡ true

-- A data source stays as it is.
pub record Kept (r : Fields) : Type 0 where
  pub is_data : is_text (get r "mode") "data" ≡ true
  pub change : Fields
  pub has_change : find "change" r ≡ some (obj change)
  pub actions : Value
  pub has_actions : find "actions" change ≡ some actions
  pub idle : keeps actions ≡ true

or-cases : (a b : Bool) → (a || b) ≡ true → (a ≡ true) ⊎ (b ≡ true)
or-cases true b h = inl refl
or-cases false b h = inr h

text_of-ok : (v : Value) (s : String) → text_of v ≡ ok s → v ≡ str s
text_of-ok v s h = ground arith

gone_after :
    (removed : Bool) (after : Value)
    → (not removed || is_null after) ≡ true
    → (removed ≡ false) ⊎ (after ≡ null)
gone_after false after h = inl refl
gone_after true null h = inr refl
gone_after true _ h = cc

pub review_source-Kept :
    (r : Fields) {u : Unit {0}}
    → is_text (get r "mode") "data" ≡ true
    → review_source r ≡ ok u
    → Kept r
unfolding review_source
review_source-Kept r is_data h =
    let (v, change, at, is_dict, h1) = item_of r "change" dict_of _ h in
    let (actions, has_actions, h2) = item-then change "actions" _ h1 in
    record {
      is_data = is_data;
      change = change;
      has_change = at ∙ ap some (dict_of-ok v change is_dict);
      actions = actions;
      has_actions = has_actions;
      idle = require-ok _ h2;
    }

pub review_managed-Line :
    (membership : Fields) (address : String) (r : Fields) (line : Removal)
    → review_managed membership address r ≡ ok line
    → (is_text (get r "mode") "managed" ≡ true) × Line membership r address line
unfolding review_managed
review_managed-Line membership address r line h =
    let (v, change, at_change, is_dict, h1) = item_of r "change" dict_of _ h in
    let (actions, at_actions, h2) = item-then change "actions" _ h1 in
    let (mode, h3) = require-then (is_text (get r "mode") "managed") _ h2 in
    let (kind, has_kind, h4) = returned-bind (text_of (get r "type")) _ h3 in
    let (free, h5) = require-then (not (is_protected kind)) _ h4 in
    let (deed, h6) = require-then (removes actions || keeps actions) _ h5 in
    let (before, has_before, h7) = returned-bind (require_dict (get change "before")) _ h6 in
    let (same, h8) =
      require-then (py_eq (get before "id") (get membership address) && is_id (get before "id")) _
        h7 in
    let (_, last) = require-then (not (removes actions) || is_null (get change "after")) _ h8 in
    let (installed, named) = &&-true (py_eq (get before "id") (get membership address)) _ same in
    let (removed, _) = require-then (not (removes actions) || is_null (get change "after")) _ h8 in
    (
      mode,
      subst (Line membership r address) (ok-injective last) (record {
        kind = kind;
        kind_of = refl;
        has_kind = text_of-ok (get r "type") kind has_kind;
        unprotected = not-true _ free;
        change = change;
        has_change = at_change ∙ ap some (dict_of-ok v change is_dict);
        has_actions = at_actions;
        deed = or-cases _ _ deed;
        before = before;
        has_before = require_dict-ok (get change "before") before has_before;
        id_of = refl;
        installed = installed;
        named_id = named;
        gone = gone_after _ _ removed;
        at_address = refl;
      }),
    )
