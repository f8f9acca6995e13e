-- ===== src/DevDown/Consented.antt =====
-- What a passed consent of scripts/lifecycle/dev_down.py stands for.
use Prim.Native.String.{◌++◌}
use mathlib.Core.Path.{subst}
use terragrunt_demo.Common.{
  ℕ, ◌≤◌, ◌<◌, String, ◌≡◌, refl, ap, ◌∙◌, true, ◌&&◌, some, In, elem, elem-In, arith, ok,
  ok-injective, require-then, returned-bind, &&-true,
}
use terragrunt_demo.Json.{Value, str, num, obj, Fields, find, item-then, is_text}
use terragrunt_demo.Dicts.{
  keys, keys-ok, dict_of, dict_of-ok, get, item_of, is_text-eq, require_str,
}
use terragrunt_demo.Contract.Request.{Request, request, is_teardown}
use terragrunt_demo.Contract.Authorized.{Requested, request-Requested}
use terragrunt_demo.DevDown.Consent.{
  Scope, down, binding, is_account, is_region, scope, scope_layer, scope_source, consent_keys,
  is_current, destroy_ack, sql_loss_ack, confirm, check_data_consent,
}

-- A scope is that of a closed teardown request for one of the layers of dev.
pub record Scoped (value : Value) (s : Scope) : Type 0 where
  pub of_request : Request
  pub requested : Requested binding value of_request
  pub tears : is_teardown of_request.operation ≡ true
  pub in_down : In s.layer down
  pub same_layer : s.layer ≡ of_request.layer
  pub same_operation : s.operation_id ≡ of_request.operation_id

-- The consent to the loss: it was given for this scope, with both sentences, and it is current.
pub record Consented (s : Scope) (consent : Value) (now : ℕ) : Type 0 where
  pub fields : Fields
  pub is : consent ≡ obj fields
  pub same_scope : find "scope_sha256" fields ≡ some (str s.scope_sha256)
  pub issued : ℕ
  pub expires : ℕ
  pub issued_at : find "issued_at" fields ≡ some (num issued)
  pub expires_at : find "expires_at" fields ≡ some (num expires)
  pub begun : issued ≤ now
  pub not_over : now < expires
  pub destroys : find "destroy_ack" fields ≡ some (str (destroy_ack s))
  pub loses : find "sql_loss_ack" fields ≡ some (str (sql_loss_ack s))

current :
    (a b : Value) (now : ℕ)
    → is_current a now b ≡ true
    → (i : ℕ) × (e : ℕ) × (a ≡ num i) × (b ≡ num e) × (i ≤ now) × (now < e)
unfolding is_current
current (num i) (num e) now h = (i, e, refl, refl, ground arith, ground arith)
current (num i) _ now h = cc
current _ b now h = cc

module _ (digest : Value → String) where
  pub scope-Scoped :
      (value : Value) (protected : Fields) (s : Scope)
      → scope digest value protected ≡ ok s
      → Scoped value s
  unfolding scope
  scope-Scoped value protected s h =
      let (r, requested, h1) = returned-bind (request binding value) _ h in
      let (tears, h2) = require-then (is_teardown r.operation && elem r.layer down) _ h1 in
      let (tearing, listed) = &&-true (is_teardown r.operation) (elem r.layer down) tears in
      let (b, _, h3) = item-then protected "binding" _ h2 in
      let (_, h4) = require-then (is_text b binding) _ h3 in
      let (e, _, h5) = item-then protected "environment" _ h4 in
      let (_, h6) = require-then (is_text e "dev") _ h5 in
      let (a, _, h7) = item-then protected "account" _ h6 in
      let (g, _, h8) = item-then protected "region" _ h7 in
      let (account, _, h9) = returned-bind (require_str a) _ h8 in
      let (_, h10) = require-then (is_account account) _ h9 in
      let (region, _, h11) = returned-bind (require_str g) _ h10 in
      let (_, h12) = require-then (is_region region) _ h11 in
      let (layer, _, h13) = returned-bind (scope_layer digest account region r protected) _ h12 in
      let (source, _, done) = returned-bind (scope_source digest r protected) _ h13 in
      subst (Scoped value) (ok-injective done) (record {
        of_request = r;
        requested = request-Requested binding value r requested;
        tears = tearing;
        in_down = elem-In r.layer down listed;
        same_layer = refl;
        same_operation = refl;
      })

  confirm-Consented :
      (s : Scope) (consent : Value) (now : ℕ) (proof : String)
      → confirm digest s consent now ≡ ok proof
      → Consented s consent now
  unfolding confirm
  confirm-Consented s consent now proof h =
      let (fs, is, h1) = returned-bind (keys consent consent_keys) _ h in
      let (schema, _, h2) = item-then fs "schema" _ h1 in
      let (_, h3) = require-then (is_text schema "E15B_DEV_CONSENT_V1") _ h2 in
      let (sha, at_sha, h4) = item-then fs "scope_sha256" _ h3 in
      let (same, h5) = require-then (is_text sha s.scope_sha256) _ h4 in
      let (a, at_a, h6) = item-then fs "issued_at" _ h5 in
      let (b, at_b, h7) = item-then fs "expires_at" _ h6 in
      let (window, h8) = require-then (is_current a now b) _ h7 in
      let (d, at_d, h9) = item-then fs "destroy_ack" _ h8 in
      let (l, at_l, h10) = item-then fs "sql_loss_ack" _ h9 in
      let (acks, _) =
        require-then (is_text d (destroy_ack s) && is_text l (sql_loss_ack s)) _ h10 in
      let (destroys, loses) = &&-true (is_text d (destroy_ack s)) _ acks in
      let (i, e, is_i, is_e, begun, left) = current a b now window in
      record {
        fields = fs;
        is = (keys-ok consent consent_keys fs is).0;
        same_scope = at_sha ∙ ap some (is_text-eq sha s.scope_sha256 same);
        issued = i;
        expires = e;
        issued_at = at_a ∙ ap some is_i;
        expires_at = at_b ∙ ap some is_e;
        begun = begun;
        not_over = left;
        destroys = at_d ∙ ap some (is_text-eq d (destroy_ack s) destroys);
        loses = at_l ∙ ap some (is_text-eq l (sql_loss_ack s) loses);
      }

  -- A passed check of the consent has found, under the operation's own name, a current consent with
  -- both sentences for the scope of this very request, which tears down one of the layers of dev.
  pub check_data_consent-Consented :
      (value : Value) (protected : Fields) (now : ℕ) (proof : String)
      → check_data_consent digest value protected now ≡ ok proof
      → (s : Scope) × (approvals : Fields) × (scope digest value protected ≡ ok s)
        × Scoped value s
        × (find "teardown_approvals" protected ≡ some (obj approvals))
        × Consented s (get approvals ("dev-sql-loss/" ++ s.operation_id)) now
  unfolding check_data_consent
  check_data_consent-Consented value protected now proof h =
      let (s, scoped, h1) = returned-bind (scope digest value protected) _ h in
      let (v, approvals, at, is_dict, confirmed) =
        item_of protected "teardown_approvals" dict_of _ h1 in
      (
        s,
        approvals,
        scoped,
        scope-Scoped value protected s scoped,
        at ∙ ap some (dict_of-ok v approvals is_dict),
        confirm-Consented s _ now proof confirmed,
      )
