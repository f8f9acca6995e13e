-- ===== src/DevDown/Current.antt =====
-- `check_current_review` of scripts/lifecycle/dev_down.py on a review that `review` returned.
use mathlib.Core.Path.{subst}
use terragrunt_demo.Common.{
  ℕ, ◌≤◌, ◌<◌, String, ◌≡◌, refl, ap, ◌∙◌, sym, true, false, some, List, [], ◌==◌, leb, eq_iff,
  arith, ok, ok-injective, require-then, returned-bind,
}
use terragrunt_demo.Json.{
  Value, str, num, bool, obj, Fields, field, end, find, item, item-then, py_eq, is_text,
}
use terragrunt_demo.Dicts.{keys, keys-ok, is_text-eq, item_of, dict_of}
use terragrunt_demo.DevDown.Consent.{Scope, scope, encode_scope}
use terragrunt_demo.DevDown.Review.{
  Removal, unsigned_review, check_context, context_keys, reviewed_changes, review_resources,
  review_record, review_lines, review, check_current_review,
}

abbrev pub accepted : Value
accepted = obj (
    field "local_consistency" (bool true)
      (field "execution_authorized" (bool false) (field "state_authenticated" (bool false) end)))

abbrev fields_of : Value → Fields
fields_of (obj fs) = fs
fields_of _ = end

eq_refl : (s : String) → (s == s) ≡ true
eq_refl s = (eq_iff s s).1 refl

item-found : (fs : Fields) (k : String) (v : Value) → find k fs ≡ some v → item fs k ≡ ok v
item-found fs k v h = ground arith

module _ (digest : Value → String) {Binary : Type 0} (size : Binary → ℕ)
    (digest_bytes : Binary → String) where
  -- What a context says of the two artifacts that it was checked with.
  artifacts :
      (s : Scope) (fs : Fields) (binary : Binary) (saved : Value) (now : ℕ)
      → check_context digest size digest_bytes s (obj fs) binary saved now ≡ ok tt
      → (find "binary_sha256" fs ≡ some (str (digest_bytes binary)))
        × (find "json_sha256" fs ≡ some (str (digest saved)))
  unfolding check_context keys
  artifacts s fs binary saved now h =
      let (gs, is, h1) = returned-bind (keys (obj fs) context_keys) _ h in
      let e : gs ≡ fs = ap (λ v. fields_of v) (sym (keys-ok (obj fs) context_keys gs is).0) in
      let (_, _, h2) = item-then gs "schema" _ h1 in
      let (_, h3) = require-then _ _ h2 in
      let (_, _, h4) = item-then gs "scope_sha256" _ h3 in
      let (_, h5) = require-then _ _ h4 in
      let (_, _, h6) = item-then gs "created_at" _ h5 in
      let (_, _, h7) = item-then gs "expires_at" _ h6 in
      let (_, h8) = require-then _ _ h7 in
      let (_, h9) = require-then _ _ h8 in
      let (b, at_b, h10) = item-then gs "binary_sha256" _ h9 in
      let (same_b, h11) = require-then (is_text b (digest_bytes binary)) _ h10 in
      let (j, at_j, h12) = item-then gs "json_sha256" _ h11 in
      let (same_j, _) = require-then (is_text j (digest saved)) _ h12 in
      (
        ap (find "binary_sha256") (sym e) ∙ at_b ∙ ap some (is_text-eq b _ same_b),
        ap (find "json_sha256") (sym e) ∙ at_j ∙ ap some (is_text-eq j _ same_j),
      )

  recorded :
      (s : Scope) (fs : Fields) (lines : List Removal) (binary : Binary)
      (saved selected state claimed : Value) (later created expires : ℕ)
      → (find "binary_sha256" fs ≡ some (str (digest_bytes binary)))
      → (find "json_sha256" fs ≡ some (str (digest saved)))
      → py_eq (encode_scope s) selected ≡ true
      → find "state" fs ≡ some claimed
      → py_eq claimed state ≡ true
      → find "created_at" fs ≡ some (num created)
      → find "expires_at" fs ≡ some (num expires)
      → leb created later ≡ true
      → leb expires later ≡ false
      → check_current_review digest size digest_bytes
          (unsigned_review s
            (obj fs)
            lines
            (field "review_sha256" (str (digest (obj (unsigned_review s (obj fs) lines end)))) end))
          selected
          state
          binary
          saved
          later
        ≡ ok accepted
  unfolding check_current_review
  recorded s fs lines binary saved selected state claimed later created expires b j scopes at_state
        states at_c at_e begun over =
      simp (
        item-found fs "binary_sha256" _ b,
        item-found fs "json_sha256" _ j,
        item-found fs "state" _ at_state,
        item-found fs "created_at" _ at_c,
        item-found fs "expires_at" _ at_e,
        scopes,
        states,
        begun,
        over,
        eq_refl,
      )

  recorded_context :
      (value : Value) (protected : Fields) (binary : Binary) (saved context : Value) (now : ℕ)
      (result : Value)
      → review digest size digest_bytes value protected binary saved context now ≡ ok result
      → (s : Scope) × (lines : List Removal) × (check_context digest size digest_bytes s context
            binary saved now
          ≡ ok tt)
        × (result ≡ review_record digest size digest_bytes s context lines)
  unfolding review review_lines
  recorded_context value protected binary saved context now result h =
      let (found, lines_of, last) =
        returned-bind
          (review_lines digest size digest_bytes value protected binary saved context now) _ h in
      let (s, _, h1) = returned-bind (scope digest value protected) _ lines_of in
      let (_, checked, h2) =
        returned-bind (check_context digest size digest_bytes s context binary saved now) _ h1 in
      let (changes, _, h3) = returned-bind (reviewed_changes saved) _ h2 in
      let (_, layers, _, _, h4) = item_of protected "layers" dict_of _ h3 in
      let (_, layer, _, _, h5) = item_of layers s.layer dict_of _ h4 in
      let (_, addresses, _, _, h6) = item_of layer "addresses" dict_of _ h5 in
      let (_, membership, _, _, h7) = item_of layer "membership" dict_of _ h6 in
      let (lines, _, done) =
        returned-bind (review_resources addresses membership [] changes) _ h7 in
      (
        s,
        lines,
        checked,
        sym (ok-injective last)
            ∙ ap
                (λ (p : Scope × List Removal).
                  review_record digest size digest_bytes p.0 context p.1)
                (sym (ok-injective done)),
      )

  -- A review that was returned passes check_current_review with the same binary and plan and with an
  -- equal scope and state, whenever its window is open. The result authorizes no execution.
  pub check_current_review-review :
      (value : Value) (protected : Fields) (binary : Binary) (saved : Value) (fs : Fields) (now : ℕ)
      (result : Fields)
      → review digest size digest_bytes value protected binary saved (obj fs) now ≡ ok (obj result)
      → (selected state reviewed claimed : Value) (later created expires : ℕ)
      → find "scope" result ≡ some reviewed
      → py_eq reviewed selected ≡ true
      → find "state" fs ≡ some claimed
      → py_eq claimed state ≡ true
      → find "created_at" fs ≡ some (num created)
      → find "expires_at" fs ≡ some (num expires)
      → created ≤ later
      → later < expires
      → check_current_review digest size digest_bytes result selected state binary saved later
        ≡ ok accepted
  unfolding review_record
  check_current_review-review value protected binary saved fs now result h selected state reviewed
        claimed later created expires at_scope scopes at_state states at_c at_e begun left =
      let (s, lines, checked, is) =
        recorded_context value protected binary saved (obj fs) now (obj result) h in
      let (b, j) = artifacts s fs binary saved now checked in
      let e : fields_of (review_record digest size digest_bytes s (obj fs) lines) ≡ result =
        ap fields_of (sym is) in
      let r : encode_scope s ≡ reviewed = cc in
      subst
        (λ (x : Fields).
          check_current_review digest size digest_bytes x selected state binary saved later
          ≡ ok accepted)
        e
        (recorded s fs lines binary saved selected state claimed later created expires b j
          (ap (λ v. py_eq v selected) r ∙ scopes) at_state states at_c at_e (ground arith)
          (ground arith))
