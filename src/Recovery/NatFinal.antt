-- ===== src/Recovery/NatFinal.antt =====
-- What a SUCCESS of the controller of scripts/recovery/nat.py stands for.
use Prim.Native.String.{◌++◌}
use mathlib.Core.Path.{subst}
use terragrunt_demo.Common.{
  String, ◌≡◌, refl, ap, ◌∙◌, sym, true, some, [], ◌∷◌, ok, ok-injective, returned-bind, require-ok,
  require-then, arith, eq_iff,
}
use terragrunt_demo.Common.Action.{Action, returned}
use terragrunt_demo.Common.Action.Keeps.{
  Any, Reaches, Reaches-bind, Reaches-Any, Reaches-then, Reaches-pure, Reaches-lift,
  Reaches-returned,
}
use terragrunt_demo.Json.{Value, str, obj, Fields, find, item-then}
use terragrunt_demo.Dicts.{dict_of, dict_of-ok, require_dict, require_dict-ok, keys, get, item_of}
use terragrunt_demo.Recovery.Exact.{same}
use terragrunt_demo.Recovery.Ports.{Ports, Operation, State}
use terragrunt_demo.Recovery.Intent.{Journal, body_keys, check_window, check_intent}
use terragrunt_demo.Recovery.Seen.{Seen}
use terragrunt_demo.Recovery.Run.{run}
use terragrunt_demo.Recovery.NatActions.{
  NatAction, actions, shown_at, shown, check_final, request_of,
}
use terragrunt_demo.Recovery.NatControl.{final, controller}
use terragrunt_demo.Recovery.Receipts.{NoRepeat, IsReceipt, AllApplied}
use terragrunt_demo.Recovery.Answers.{Answer, receipt, absent, failed, uncertain, run-Answer}

-- A state that shows the action, for a membership that is the accepted one.
pub record InPlace (action : NatAction) (accepted current : Fields) : Type 0 where
  pub m : Fields
  pub membership : find "membership" current ≡ some (obj m)
  pub before : Value
  pub was : find "membership" accepted ≡ some before
  pub unchanged : same (obj m) before ≡ true
  pub state : Fields
  pub observed : find "state" current ≡ some (obj state)
  pub found : Value
  pub there : find (shown_at action) state ≡ some found
  pub shows : same found (shown action m) ≡ true

check_final-InPlace :
    (action : NatAction) (current accepted : Fields)
    → check_final action current accepted ≡ ok tt
    → InPlace action accepted current
unfolding check_final
check_final-InPlace action current accepted h =
    let (membership, at, h1) = item-then current "membership" _ h in
    let (before, was, h2) = item-then accepted "membership" _ h1 in
    let (unchanged, h3) = require-then (same membership before) _ h2 in
    let (m, is_dict, h4) = returned-bind (dict_of membership) _ h3 in
    let (v, state, at_state, is_state, h5) = item_of current "state" dict_of _ h4 in
    let (found, there, h6) = item-then state (shown_at action) _ h5 in
    let e = dict_of-ok membership m is_dict in
    record {
      m = m;
      membership = at ∙ ap some e;
      before = before;
      was = was;
      unchanged = ap (λ x. same x before) (sym e) ∙ unchanged;
      state = state;
      observed = at_state ∙ ap some (dict_of-ok v state is_state);
      found = found;
      there = there;
      shows = require-ok _ h6;
    }

pub actions-NoRepeat :
    (action : NatAction) (v acts : Fields) → actions action v ≡ ok acts → NoRepeat acts
unfolding actions
actions-NoRepeat action v acts h =
    let (_, m, _, _, h1) = item_of v "membership" dict_of _ h in
    let (request, _, h2) = returned-bind (request_of action m v) _ h1 in
    subst NoRepeat (ok-injective h2) (refl, tt)

-- The domain of an accepted operation is the one in the body of its intent.
check_intent-domain :
    (p : Ports) (j : Journal) (operation : String) (v : Value) (op : Operation)
    → check_intent p j operation v ≡ ok op
    → find "domain" op.body ≡ some (obj op.domain)
unfolding check_intent
check_intent-domain p j operation v op h =
    let (fs, _, h1) = returned-bind (keys v ("body" ∷ "sha256" ∷ [])) _ h in
    let (b, _, h2) = item-then fs "body" _ h1 in
    let (body, _, h3) = returned-bind (keys b body_keys) _ h2 in
    let (sha, _, h4) = item-then fs "sha256" _ h3 in
    let (_, h5) = require-then _ _ h4 in
    let (namespace, _, h6) = item-then body "namespace" _ h5 in
    let (_, h7) = require-then _ _ h6 in
    let (named, _, h8) = item-then body "operation" _ h7 in
    let (_, h9) = require-then _ _ h8 in
    let (d, at_domain, h10) = item-then body "domain" _ h9 in
    let (domain, is_domain, h11) = returned-bind (require_dict d) _ h10 in
    let (r, _, h12) = item-then body "request" _ h11 in
    let (request, _, h13) = returned-bind (require_dict r) _ h12 in
    let (started, _, h14) = item-then body "started" _ h13 in
    let (deadline, _, h15) = item-then body "deadline" _ h14 in
    let (_, _, done) = returned-bind (check_window started deadline) _ h15 in
    subst (λ (o : Operation). find "domain" o.body ≡ some (obj o.domain)) (ok-injective done)
      (at_domain ∙ ap some (require_dict-ok d domain is_domain))

module _ (p : Ports) (observe : String → Value → Action p.World Value) (environment : String)
    (action : NatAction) where
  final-InPlace :
      (op : Operation) (effects : Fields)
      → Reaches Any
          (final p observe environment action op effects)
          (λ v w. (current : Fields) × (v ≡ obj current) × InPlace action op.domain current)
          Any
  unfolding final
  final-InPlace op effects = Reaches-bind _ _ (Reaches-Any _) λ current.
      Reaches-bind _ _
        (Reaches-then (Reaches-lift (check_final action current op.domain)) (λ u w h. h.1)
          (λ w h. h))
        λ u.
          Reaches-pure (obj current)
            (λ w h. (current, refl, check_final-InPlace action current op.domain h))

  -- The accepted operation was carried out: its one request was applied, and a later observation of
  -- the accepted membership shows it.
  pub record Done (j : Journal) (operation : String) (result : Fields) : Type 0 where
    pub op : Operation
    pub retained : Value
    pub seen : Seen p j (operation ++ "/intent") retained
    pub accepted : check_intent p j operation retained ≡ ok op
    pub says_operation : find "operation" result ≡ some (str op.operation)
    pub says_intent : find "intent_sha256" result ≡ some (str (p.sha (p.canonical (obj op.body))))
    pub own_domain : find "domain" op.body ≡ some (obj op.domain)
    pub acts : Fields
    pub of_action : actions action op.domain ≡ ok acts
    pub effects : Fields
    pub says_effects : find "effects" result ≡ some (obj effects)
    pub applied : AllApplied p j op acts effects
    pub current : Fields
    pub final_state : find "final" result ≡ some (obj current)
    pub in_place : InPlace action op.domain current

  receipt-Done :
      (j : Journal) (operation : String) (result : Fields)
      → IsReceipt p j (controller p observe environment action) operation result
      → Done j operation result
  receipt-Done j operation result r =
      let (current, e, placed) =
        Reaches-returned (final-InPlace r.op r.acted) r.begun r.final tt r.proved in
      record {
        op = r.op;
        retained = r.retained;
        seen = r.seen;
        accepted = r.accepted;
        says_operation = ap (find "operation") r.is;
        says_intent = ap (find "intent_sha256") r.is;
        own_domain = check_intent-domain p j operation r.retained r.op r.accepted;
        acts = r.actions;
        of_action = r.of_domain;
        effects = r.effects;
        says_effects = ap (find "effects") r.is;
        applied = r.applied;
        current = current;
        final_state = ap (find "final") r.is ∙ ap some e;
        in_place = placed;
      }

  -- A run of the NAT controller that reports SUCCESS is of an operation whose intent the storage
  -- answered with and whose digest the receipt names; the effects in the receipt show its one request
  -- applied for the membership of that intent, and the final state in the receipt, of the same
  -- membership, shows the address, the route or the disabled check in place.
  pub run-Done :
      (j : Journal) (operation : String) (raw : p.Raw) (s : State p) (result : Fields)
      → (run p j operation raw (controller p observe environment action) s).0 ≡ ok result
      → get result "status" ≡ str "SUCCESS"
      → Done j operation result
  run-Done j operation raw s result h success =
      let (x, returned, answer) =
        run-Answer p j (controller p observe environment action)
          (λ v acts e. actions-NoRepeat action v acts e) operation raw s in
      let e : x ≡ result = ok-injective (sym returned ∙ h) in
      by_answer (subst (Answer p j (controller p observe environment action) operation) e answer)
    where
      failure : ¬ (str "FAILURE" ≡ str "SUCCESS")
      failure e = ground (arith, eq_iff "FAILURE" "SUCCESS")

      unclear : ¬ (str "UNCERTAIN" ≡ str "SUCCESS")
      unclear e = ground (arith, eq_iff "UNCERTAIN" "SUCCESS")

      by_answer :
          Answer p j (controller p observe environment action) operation result
          → Done j operation result
      by_answer (receipt r) = receipt-Done j operation result r
      by_answer (absent e) = absurd (failure (sym (ap (λ x. get x "status") e) ∙ success))
      by_answer (failed e) = absurd (failure (sym (ap (λ x. get x "status") e) ∙ success))
      by_answer (uncertain e) = absurd (unclear (sym (ap (λ x. get x "status") e) ∙ success))
