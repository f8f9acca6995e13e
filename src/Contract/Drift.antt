-- ===== src/Contract/Drift.antt =====
-- What a passed check of scripts/lifecycle/contract.py says of the drift of a saved plan.
use terragrunt_demo.Common.{
  String, ◌≡◌, true, false, not, ◌||◌, ◌∙◌, ap, some, all, elem, ◌++◌, ok, or_rejected, require-ok,
  require-then, returned-bind,
}
use terragrunt_demo.Json.{
  Value, str, obj, Fields, Items, end, cons, nil, names, find, py_eq, item-then,
}
use terragrunt_demo.Dicts.{
  dict_of, dict_of-ok, require_str, require_str-ok, get, get_or, find_by, in_set, any_value, truthy,
  item_of,
}
use terragrunt_demo.Contract.Authorize.{Layer}
use terragrunt_demo.Contract.Plan.{
  member, runtime_fields, runtime_kinds, check_drift, check_drift_change, check_drifts,
}
use terragrunt_demo.Contract.Bootstrap.{or_rejected-ok, not-true}
use terragrunt_demo.Contract.Accepted.{AllItems}

-- A change of the installed resource that a running environment makes: it differs in runtime fields.
pub record Moved (layer : Layer) (address : Value) (kind : String) (change : Fields) : Type 0 where
  pub before : Fields
  pub after : Fields
  pub was : find "before" change ≡ some (obj before)
  pub becomes : find "after" change ≡ some (obj after)
  pub old_id : Value
  pub had_id : find "id" before ≡ some old_id
  pub id : Value
  pub has_id : find "id" after ≡ some id
  pub kept_id : py_eq old_id id ≡ true
  pub own : Value
  pub member_id : member layer address ≡ ok own
  pub same_id : py_eq id own ≡ true
  pub unknown : Fields
  pub unknowns : dict_of (get_or change "after_unknown" (obj end)) ≡ ok unknown
  pub all_known : any_value truthy unknown ≡ false
  pub runtime_only :
      all
        (λ k. py_eq (get before k) (get after k) || elem k (runtime_fields kind))
        (names before ++ names after)
      ≡ true

check_drift_change-Moved :
    (layer : Layer) (address : Value) (kind : String) (change : Fields)
    → check_drift_change layer address kind change ≡ ok tt
    → Moved layer address kind change
unfolding check_drift_change
check_drift_change-Moved layer address kind change h =
    let (was, at_was, h1) = item-then change "before" _ h in
    let (becomes, at_becomes, h2) = item-then change "after" _ h1 in
    let (before, is_before, h3) = returned-bind (dict_of was) _ h2 in
    let (old_id, had_id, h4) = item-then before "id" _ h3 in
    let (after, is_after, h5) = returned-bind (dict_of becomes) _ h4 in
    let (id, has_id, h6) = item-then after "id" _ h5 in
    let (kept_id, h7) = require-then (py_eq old_id id) _ h6 in
    let (own, member_id, h8) = returned-bind (member layer address) _ h7 in
    let (same_id, h9) = require-then (py_eq id own) _ h8 in
    let (unknown, unknowns, h10) =
      returned-bind (dict_of (get_or change "after_unknown" (obj end))) _ h9 in
    let (all_known, h11) = require-then (not (any_value truthy unknown)) _ h10 in
    record {
      before = before;
      after = after;
      was = at_was ∙ ap some (dict_of-ok was before is_before);
      becomes = at_becomes ∙ ap some (dict_of-ok becomes after is_after);
      old_id = old_id;
      had_id = had_id;
      id = id;
      has_id = has_id;
      kept_id = kept_id;
      own = own;
      member_id = member_id;
      same_id = same_id;
      unknown = unknown;
      unknowns = unknowns;
      all_known = not-true _ all_known;
      runtime_only = require-ok _ h11;
    }

-- A drift of an installed resource that runs something.
pub record Drifted (layer : Layer) (x : Value) : Type 0 where
  pub fields : Fields
  pub is : x ≡ obj fields
  pub installed : Value
  pub at_address : find_by (get fields "address") layer.addresses ≡ ok (some installed)
  pub same_kind : py_eq installed (get fields "type") ≡ true
  pub kind : String
  pub has_kind : get fields "type" ≡ str kind
  pub runs : in_set (get fields "type") runtime_kinds ≡ ok true
  pub change : Fields
  pub has_change : find "change" fields ≡ some (obj change)
  pub moved : Moved layer (get fields "address") kind change

check_drift-Drifted : (layer : Layer) (x : Value) → check_drift layer x ≡ ok tt → Drifted layer x
unfolding check_drift
check_drift-Drifted layer x h =
    let (d, is, h1) = returned-bind (dict_of x) _ h in
    let (found, at, h2) = returned-bind (find_by (get d "address") layer.addresses) _ h1 in
    let (installed, there, h3) = returned-bind (or_rejected found) _ h2 in
    let (same_kind, h4) = require-then (py_eq installed (get d "type")) _ h3 in
    let (known, runs, h5) = returned-bind (in_set (get d "type") runtime_kinds) _ h4 in
    let (yes_known, h6) = require-then known _ h5 in
    let (kind, has_kind, h7) = returned-bind (require_str (get d "type")) _ h6 in
    let (v, change, at_change, is_change, h8) = item_of d "change" dict_of _ h7 in
    record {
      fields = d;
      is = dict_of-ok x d is;
      installed = installed;
      at_address = at ∙ ap ok (or_rejected-ok found installed there);
      same_kind = same_kind;
      kind = kind;
      has_kind = require_str-ok (get d "type") kind has_kind;
      runs = runs ∙ ap ok yes_known;
      change = change;
      has_change = at_change ∙ ap some (dict_of-ok v change is_change);
      moved = check_drift_change-Moved layer (get d "address") kind change h8;
    }

pub check_drifts-Drifted :
    (layer : Layer) (xs : Items) → check_drifts layer xs ≡ ok tt → AllItems (Drifted layer) xs
unfolding check_drifts
check_drifts-Drifted layer nil h = tt
check_drifts-Drifted layer (cons x xs) h =
    let (_, one, rest) = returned-bind (check_drift layer x) _ h in
    (check_drift-Drifted layer x one, check_drifts-Drifted layer xs rest)
