-- ===== src/Contract/Authorized.antt =====
-- What `authorize` of scripts/lifecycle/contract.py has checked when it returns.
use mathlib.Core.Path.{subst}
use terragrunt_demo.Common.{
  String, List, [], ◌∷◌, all, ◌==◌, arith, eq_iff, ◌≡◌, refl, ap, ◌∙◌, sym, Bool, true, false, not,
  ◌&&◌, ◌||◌, some, ◌⊎◌, inl, inr, elem, if◌then◌else◌, ok, ok-injective, require-ok, require-then,
  returned-bind, is_sha256,
}
use terragrunt_demo.Json.{
  Value, str, obj, Fields, find, names, same_keys, py_eq, item-then, is_text,
}
use terragrunt_demo.Dicts.{
  keys, keys-ok, all_values, is_bool, truthy, require_dict, require_dict-ok, dict_of, dict_of-ok,
  require_str, require_str-ok, get, in_set, item_of, is_text-eq,
}
use terragrunt_demo.Contract.Request.{
  Operation, plan, create, reconcile, teardown, Request, request, request_keys, is_operation_id,
  operation_of, layer_of, high_risk, high_risk_layers, ordinary, is_teardown, is_plan,
  check_parameters,
}
use terragrunt_demo.Contract.Authorize.{
  Layer, authorize, protected_keys, environment_of, check_binding, check_package, protected_layer,
  check_bootstrap, prerequisite, check_approvals, check_approval, operator_approval,
  teardown_approval,
}
use terragrunt_demo.Contract.Resource.{guarded, then_step, ⊎-map}

abbrev pub operation_name : Operation → String
operation_name plan = "plan"
operation_name create = "create"
operation_name reconcile = "reconcile"
operation_name teardown = "teardown"

-- The parameters of a request: alarms on or off, for the data layer alone.
pub record Parameters (fields : Fields) (layer : String) : Type 0 where
  pub given : Fields
  pub found : find "parameters" fields ≡ some (obj given)
  pub known : all (λ k. k == "enable_alarms") (names given) ≡ true
  pub flags : all_values is_bool given ≡ true
  pub of_data : (truthy (obj given) ≡ false) ⊎ (layer ≡ "data")

-- A request in its closed form, allowed for its binding.
pub record Requested (binding : String) (value : Value) (r : Request) : Type 0 where
  pub is : value ≡ obj r.fields
  pub closed :
      same_keys r.fields ("operation_id" ∷ "operation" ∷ "layer" ∷ "revision" ∷ "parameters" ∷ [])
      ≡ true
  pub has_operation : find "operation" r.fields ≡ some (str (operation_name r.operation))
  pub parameters : Parameters r.fields r.layer
  pub has_id : find "operation_id" r.fields ≡ some (str r.operation_id)
  pub has_layer : find "layer" r.fields ≡ some (str r.layer)
  pub has_revision : find "revision" r.fields ≡ some (str r.revision)
  pub exact : is_sha256 r.revision ≡ true
  pub in_layers : elem r.layer (if high_risk binding then high_risk_layers else ordinary) ≡ true
  pub torn_only_at_risk : (is_teardown r.operation ≡ false) ⊎ (high_risk binding ≡ true)

layer_of-ok :
    (binding : String) (v : Value) (layer : String)
    → layer_of binding v ≡ ok layer
    → (v ≡ str layer)
      × (elem layer (if high_risk binding then high_risk_layers else ordinary) ≡ true)
unfolding layer_of
layer_of-ok binding v layer h =
    let (known, found, h1) =
      returned-bind (in_set v (if high_risk binding then high_risk_layers else ordinary)) _ h in
    let (yes_known, h2) = require-then known _ h1 in
    let e = require_str-ok v layer h2 in
    (
      e,
      ok-injective (
            sym (ap (λ u. in_set u (if high_risk binding then high_risk_layers else ordinary)) e)
            ∙ found)
          ∙ yes_known,
    )

operation_of-name : (v : Value) (o : Operation) → operation_of v ≡ ok o → v ≡ str (operation_name o)
unfolding operation_of
operation_of-name (str s) o h =
    ground (arith, eq_iff s "plan", eq_iff s "create", eq_iff s "reconcile", eq_iff s "teardown")
operation_of-name _ o h = cc

either_not : (a b : Bool) → (not a || b) ≡ true → (a ≡ false) ⊎ (b ≡ true)
either_not true b h = inr h
either_not false b h = inl refl

all_one :
    (k : String) (ks : List String)
    → all (λ j. elem j (k ∷ [])) ks ≡ true
    → all (λ j. j == k) ks ≡ true
all_one k [] h = refl
all_one k (j ∷ ks) h = ground (arith, all_one k ks)

check_parameters-Parameters :
    (fs : Fields) (v : Value) (layer : String)
    → find "parameters" fs ≡ some v
    → check_parameters v layer ≡ ok tt
    → Parameters fs layer
unfolding check_parameters
check_parameters-Parameters fs v layer found h =
    let (given, is, h1) = returned-bind (require_dict v) _ h in
    let (known, h2) = require-then (all (λ k. elem k ("enable_alarms" ∷ [])) (names given)) _ h1 in
    let (of_data, h3) = require-then (not (truthy (obj given)) || layer == "data") _ h2 in
    record {
      given = given;
      found = found ∙ ap some (require_dict-ok v given is);
      known = all_one "enable_alarms" (names given) known;
      flags = require-ok _ h3;
      of_data = ⊎-map (λ e. (eq_iff layer "data").0 e) (either_not _ _ of_data);
    }

pub request-Requested :
    (binding : String) (value : Value) (r : Request)
    → request binding value ≡ ok r
    → Requested binding value r
unfolding request
request-Requested binding value r h =
    let (fs, is, h1) = returned-bind (keys value request_keys) _ h in
    let (v, id, at_id, id_text, h2) = item_of fs "operation_id" require_str _ h1 in
    let (_, h3) = require-then (is_operation_id id) _ h2 in
    let (o, operation, at_operation, named, h4) = item_of fs "operation" operation_of _ h3 in
    let (l, layer, at_layer, layer_text, h5) = item_of fs "layer" (layer_of binding) _ h4 in
    let (risk, h6) = require-then (not (is_teardown operation) || high_risk binding) _ h5 in
    let (w, revision, at_revision, revision_text, h7) = item_of fs "revision" require_str _ h6 in
    let (exact, h8) = require-then (is_sha256 revision) _ h7 in
    let (parameters, at_parameters, h9) = item-then fs "parameters" _ h8 in
    let (_, checked, done) = returned-bind (check_parameters parameters layer) _ h9 in
    let (layer_is, known) = layer_of-ok binding l layer layer_text in
    subst (Requested binding value) (ok-injective done) (record {
      is = (keys-ok value request_keys fs is).0;
      closed = (keys-ok value request_keys fs is).1;
      has_operation = at_operation ∙ ap some (operation_of-name o operation named);
      parameters = check_parameters-Parameters fs parameters layer at_parameters checked;
      has_id = at_id ∙ ap some (require_str-ok v id id_text);
      has_layer = at_layer ∙ ap some layer_is;
      has_revision = at_revision ∙ ap some (require_str-ok w revision revision_text);
      exact = exact;
      in_layers = known;
      torn_only_at_risk = either_not _ _ risk;
    })

-- The entry of an approval table under an identifier is the expected one.
pub record Approved (p : Fields) (table id : String) (expected : Value) : Type 0 where
  pub approvals : Fields
  pub listed : find table p ≡ some (obj approvals)
  pub same : py_eq (get approvals id) expected ≡ true

check_approval-Approved :
    (p : Fields) (table id : String) (expected : Value)
    → check_approval p table id expected ≡ ok tt
    → Approved p table id expected
unfolding check_approval
check_approval-Approved p table id expected h =
    let (v, approvals, at_table, is_dict, h1) = item_of p table dict_of _ h in
    record {
      approvals = approvals;
      listed = at_table ∙ ap some (dict_of-ok v approvals is_dict);
      same = require-ok _ h1;
    }

-- A configuration of the binding and of its environment.
record Bound (binding : String) (p : Fields) (environment : String) : Type 0 where
  same_binding : find "binding" p ≡ some (str binding)
  of_binding : environment_of binding ≡ ok environment
  same_environment : find "environment" p ≡ some (str environment)

check_binding-Bound :
    (binding : String) (p : Fields) (environment : String)
    → check_binding binding p ≡ ok environment
    → Bound binding p environment
unfolding check_binding
check_binding-Bound binding p environment h =
    let (b, at_binding, h1) = item-then p "binding" _ h in
    let (same_b, h2) = require-then (is_text b binding) _ h1 in
    let (name, named, h3) = returned-bind (environment_of binding) _ h2 in
    let (e, at_env, h4) = item-then p "environment" _ h3 in
    let (same_e, done) = require-then (is_text e name) _ h4 in
    subst (Bound binding p) (ok-injective done) (record {
      same_binding = at_binding ∙ ap some (is_text-eq b binding same_b);
      of_binding = named;
      same_environment = at_env ∙ ap some (is_text-eq e name same_e);
    })

module _ (digest : Value → String) where
  check_approvals-Approved :
      (binding : String) (p : Fields) (environment : String) (r : Request)
      → check_approvals digest binding p environment r ≡ ok tt
      → (((high_risk binding && not (is_plan r.operation)) ≡ false)
          ⊎ Approved p "operation_approvals" r.operation_id
              (operator_approval digest r environment))
        × ((is_teardown r.operation ≡ false)
            ⊎ Approved p "teardown_approvals" r.operation_id (teardown_approval r environment))
  unfolding check_approvals
  check_approvals-Approved binding p environment r h =
      let (operator, torn) = then_step h in
      (
        ⊎-map (check_approval-Approved p _ _ _) (guarded _ operator),
        ⊎-map (check_approval-Approved p _ _ _) (guarded _ torn),
      )

  -- A request that is authorized.
  pub record Authorized (binding : String) (value protected : Value) (r : Request) : Type 0 where
    pub requested : Requested binding value r
    pub configuration : Fields
    pub is : protected ≡ obj configuration
    pub closed : same_keys configuration protected_keys ≡ true
    pub same_binding : find "binding" configuration ≡ some (str binding)
    pub environment : String
    pub of_binding : environment_of binding ≡ ok environment
    pub same_environment : find "environment" configuration ≡ some (str environment)
    pub operator :
        ((high_risk binding && not (is_plan r.operation)) ≡ false)
        ⊎ Approved configuration "operation_approvals" r.operation_id
            (operator_approval digest r environment)
    pub torn :
        (is_teardown r.operation ≡ false)
        ⊎ Approved configuration "teardown_approvals" r.operation_id
            (teardown_approval r environment)

  -- What `authorize` returns is a request with exactly the five keys, read as the operation, the layer
  -- and the revision that they name, for the binding's own environment under a closed protected
  -- configuration, with the approvals that its operation needs, each bound to this request.
  pub authorize-Authorized :
      (binding : String) (value protected installed : Value) (r : Request) (layer : Layer)
      → authorize digest binding value protected installed ≡ ok (r, layer)
      → Authorized binding value protected r
  unfolding authorize
  authorize-Authorized binding value protected installed r layer h =
      let (s, requested, h1) = returned-bind (request binding value) _ h in
      let (p, is, h2) = returned-bind (keys protected protected_keys) _ h1 in
      let (environment, bound, h3) = returned-bind (check_binding binding p) _ h2 in
      let (_, _, h4) = returned-bind (check_package binding p s installed) _ h3 in
      let (found, _, h5) = returned-bind (protected_layer p environment s) _ h4 in
      let (_, _, h6) = returned-bind (check_bootstrap p (prerequisite s.layer)) _ h5 in
      let (_, approved, done) =
        returned-bind (check_approvals digest binding p environment s) _ h6 in
      let b = check_binding-Bound binding p environment bound in
      let (operator, torn) = check_approvals-Approved binding p environment s approved in
      subst (λ (x : Request × Layer). Authorized binding value protected x.0) (ok-injective done)
        (record {
          requested = request-Requested binding value s requested;
          configuration = p;
          is = (keys-ok protected protected_keys p is).0;
          closed = (keys-ok protected protected_keys p is).1;
          same_binding = b.same_binding;
          environment = environment;
          of_binding = b.of_binding;
          same_environment = b.same_environment;
          operator = operator;
          torn = torn;
        })
