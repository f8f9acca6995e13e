-- ===== src/DevDown/Summary.antt =====
-- What the summary of an accepted review in scripts/lifecycle/dev_down.py holds.
use mathlib.Core.Path.{subst}
use terragrunt_demo.Common.{
  ℕ, String, ◌≡◌, ap, ◌∙◌, sym, true, false, not, inl, inr, Option, none, some, List, [], ◌∷◌, elem,
  Bool-cases, ok, or_rejected, ok-injective, require-then, returned-bind,
}
use terragrunt_demo.Json.{Value, str, obj, Fields, Items, cons, nil, find, py_eq, is_text}
use terragrunt_demo.Dicts.{dict_of, dict_of-ok, require_str, require_str-ok, get, find_by, item_of}
use terragrunt_demo.Contract.Bootstrap.{not-true, or_rejected-ok}
use terragrunt_demo.DevDown.Consented.{Scoped, scope-Scoped}
use terragrunt_demo.DevDown.Consent.{Scope, scope}
use terragrunt_demo.DevDown.Review.{
  Removal, review_managed, review_source, review_change, review_resource, with_line,
  review_resources, reviewed_changes, check_context, review_lines,
}
use terragrunt_demo.DevDown.Lines.{
  Line, Installed, Kept, Whole, reviewed_changes-Whole, review_managed-Line, review_source-Kept,
}

-- The lines of a summary: each managed resource of the plan has one, in the plan's order, and the
-- data sources, which are not even read, have none. No address stands twice.
pub data Summary (addresses membership : Fields) : List String → Items → List Removal → Type 0 where
  done : {seen : List String} → Summary addresses membership seen nil []
  source :
      {seen : List String} {xs : Items} {lines : List Removal} (r : Fields) (address : String)
      → get r "address" ≡ str address
      → elem address seen ≡ false
      → Installed addresses r address
      → Kept r
      → Summary addresses membership (address ∷ seen) xs lines
      → Summary addresses membership seen (cons (obj r) xs) lines
  managed :
      {seen : List String} {xs : Items} {lines : List Removal} {line : Removal} (r : Fields)
      (address : String)
      → get r "address" ≡ str address
      → elem address seen ≡ false
      → Installed addresses r address
      → is_text (get r "mode") "managed" ≡ true
      → Line membership r address line
      → Summary addresses membership (address ∷ seen) xs lines
      → Summary addresses membership seen (cons (obj r) xs) (line ∷ lines)

-- One round of the loop, before the rest of the plan.
data Round (addresses membership : Fields) (seen : List String) (x : Value)
    : String → Option Removal → Type 0 where
  read_only :
      (r : Fields) (address : String)
      → x ≡ obj r
      → get r "address" ≡ str address
      → elem address seen ≡ false
      → Installed addresses r address
      → Kept r
      → Round addresses membership seen x address none
  changed :
      (r : Fields) (address : String) (line : Removal)
      → x ≡ obj r
      → get r "address" ≡ str address
      → elem address seen ≡ false
      → Installed addresses r address
      → is_text (get r "mode") "managed" ≡ true
      → Line membership r address line
      → Round addresses membership seen x address (some line)

review_change-Round :
    (addresses membership : Fields) (seen : List String) (x : Value) (r : Fields) (address : String)
    (line : Option Removal)
    → x ≡ obj r
    → get r "address" ≡ str address
    → elem address seen ≡ false
    → Installed addresses r address
    → review_change membership address r ≡ ok line
    → Round addresses membership seen x address line
unfolding review_change
review_change-Round addresses membership seen x r address line is has fresh stands h =
    elim (Bool-cases (is_text (get r "mode") "data")) [
      | inl data_source ↦
          let (_, reviewed, last) =
            returned-bind (review_source r) (λ _. ok none) (rw data_source at h) in
          subst (Round addresses membership seen x address) (ok-injective last)
            (read_only r address is has fresh stands (review_source-Kept r data_source reviewed))
      | inr other ↦
          let (found, reviewed, last) =
            returned-bind (review_managed membership address r) (λ l. ok (some l))
              (rw other at h) in
          let (mode, l) = review_managed-Line membership address r found reviewed in
          subst (Round addresses membership seen x address) (ok-injective last)
            (changed r address found is has fresh stands mode l)
    ]

review_resource-Round :
    (addresses membership : Fields) (seen : List String) (x : Value)
    (found : String × Option Removal)
    → review_resource addresses membership seen x ≡ ok found
    → Round addresses membership seen x found.0 found.1
unfolding review_resource
review_resource-Round addresses membership seen x found h =
    let (r, is_dict, h1) = returned-bind (dict_of x) _ h in
    let (o, looked, h2) = returned-bind (find_by (get r "address") addresses) _ h1 in
    let (installed, found_it, h3) = returned-bind (or_rejected o) _ h2 in
    let (address, at, h4) = returned-bind (require_str (get r "address")) _ h3 in
    let (fresh, h5) = require-then (not (elem address seen)) _ h4 in
    let (same, h6) = require-then (py_eq installed (get r "type")) _ h5 in
    let (line, body, last) = returned-bind (review_change membership address r) _ h6 in
    let named = require_str-ok (get r "address") address at in
    subst (λ (p : String × Option Removal). Round addresses membership seen x p.0 p.1)
      (ok-injective last)
      (review_change-Round addresses membership seen x r address line (dict_of-ok x r is_dict) named
        (not-true _ fresh)
        (record {
          kind = installed;
          at_address =
              ok-injective (sym (ap (λ v. find_by v addresses) named) ∙ looked)
              ∙ or_rejected-ok o installed found_it;
          same_kind = same;
        })
        body)

Round-Summary :
    {addresses membership : Fields} {seen : List String} {x : Value} {xs : Items}
    {lines : List Removal} {address : String} {line : Option Removal}
    → Round addresses membership seen x address line
    → Summary addresses membership (address ∷ seen) xs lines
    → Summary addresses membership seen (cons x xs) (with_line line lines)
Round-Summary {addresses} {membership} {seen} {x} {xs} {lines}
      (read_only r address is has fresh stands mode) s =
    subst (λ y. Summary addresses membership seen (cons y xs) lines) (sym is)
      (source r address has fresh stands mode s)
Round-Summary {addresses} {membership} {seen} {x} {xs} {lines}
      (changed r address line is has fresh stands mode l) s =
    subst (λ y. Summary addresses membership seen (cons y xs) (line ∷ lines)) (sym is)
      (managed r address has fresh stands mode l s)

review_resources-Summary :
    (addresses membership : Fields) (seen : List String) (xs : Items) (lines : List Removal)
    → review_resources addresses membership seen xs ≡ ok lines
    → Summary addresses membership seen xs lines
unfolding review_resources
review_resources-Summary addresses membership seen nil lines h =
    subst (Summary addresses membership seen nil) (ok-injective h) done
review_resources-Summary addresses membership seen (cons x xs) lines h =
    let (found, one, h1) = returned-bind (review_resource addresses membership seen x) _ h in
    let (rest, others, last) =
      returned-bind (review_resources addresses membership (found.0 ∷ seen) xs) _ h1 in
    subst (Summary addresses membership seen (cons x xs)) (ok-injective last) (
      Round-Summary (review_resource-Round addresses membership seen x found one)
        (review_resources-Summary addresses membership (found.0 ∷ seen) xs rest others))

module _ (digest : Value → String) {Binary : Type 0} (size : Binary → ℕ)
    (digest_bytes : Binary → String) where
  -- The reviewed layer: that of the request, with the tables that the protected configuration has for
  -- it.
  pub record Reviewed (value : Value) (protected : Fields) (saved : Value) (s : Scope)
      (lines : List Removal) : Type 0 where
    pub scoped : Scoped value s
    pub layers : Fields
    pub has_layers : find "layers" protected ≡ some (obj layers)
    pub layer : Fields
    pub has_layer : find s.layer layers ≡ some (obj layer)
    pub addresses : Fields
    pub has_addresses : find "addresses" layer ≡ some (obj addresses)
    pub membership : Fields
    pub has_membership : find "membership" layer ≡ some (obj membership)
    pub changes : Items
    pub whole : Whole saved changes
    pub summary : Summary addresses membership [] changes lines

  -- The summary of an accepted review is of a complete plan without errors, deferred changes and
  -- drift, and of the request's own layer: each element of the plan stands once at an installed
  -- address with its type; a data source stays as it is and has no line, and each managed resource
  -- has one line with its type, which says that it is deleted or kept, is not protected and is the
  -- installed one at its address. There is no other line.
  pub review-Summary :
      (value : Value) (protected : Fields) (binary : Binary) (saved context : Value) (now : ℕ)
      (s : Scope) (lines : List Removal)
      → review_lines digest size digest_bytes value protected binary saved context now
        ≡ ok (s, lines)
      → Reviewed value protected saved s lines
  unfolding review_lines
  review-Summary value protected binary saved context now s lines h =
      let (t, scoped, h1) = returned-bind (scope digest value protected) _ h in
      let (_, _, h2) =
        returned-bind (check_context digest size digest_bytes t context binary saved now) _ h1 in
      let (changes, listed, h3) = returned-bind (reviewed_changes saved) _ h2 in
      let (v, layers, at_layers, is_layers, h4) = item_of protected "layers" dict_of _ h3 in
      let (w, layer, at_layer, is_layer, h5) = item_of layers t.layer dict_of _ h4 in
      let (x, addresses, at_addresses, are_addresses, h6) =
        item_of layer "addresses" dict_of _ h5 in
      let (y, membership, at_members, are_members, h7) = item_of layer "membership" dict_of _ h6 in
      let (found, reviewed, last) =
        returned-bind (review_resources addresses membership [] changes) _ h7 in
      subst (λ (p : Scope × List Removal). Reviewed value protected saved p.0 p.1)
        (ok-injective last)
        (record {
          scoped = scope-Scoped digest value protected t scoped;
          layers = layers;
          has_layers = at_layers ∙ ap some (dict_of-ok v layers is_layers);
          layer = layer;
          has_layer = at_layer ∙ ap some (dict_of-ok w layer is_layer);
          addresses = addresses;
          has_addresses = at_addresses ∙ ap some (dict_of-ok x addresses are_addresses);
          membership = membership;
          has_membership = at_members ∙ ap some (dict_of-ok y membership are_members);
          changes = changes;
          whole = reviewed_changes-Whole saved changes listed;
          summary = review_resources-Summary addresses membership [] changes found reviewed;
        })
