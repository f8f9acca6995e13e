-- ===== src/Ci/Honest.antt =====
-- What a passed enforcement of .github/scripts/ci/select-checks.py means.
use terragrunt_demo.Common.{
  String, ◌≡◌, refl, ap, ◌∙◌, Bool, true, false, ◌&&◌, Option, none, some, List, [], ◌∷◌,
  if◌then◌else◌, All, arith, eq_iff, eq_refl, ok, require-ok, require-then, returned-bind, &&-true,
  ◌↔◌,
}
use terragrunt_demo.Json.{Value, str, bool, Fields, find, item-then, same_keys, is_text}
use terragrunt_demo.Dicts.{truthy, item_of, is_text-eq}
use terragrunt_demo.Ci.Enforce.{
  gates, selection_keys, bool_of, expected, is_result, check_gate, check_gates, enforce,
}

-- A gate's job has done what was selected: it succeeded, or it was skipped as it should.
pub record Done (selection : Fields) (results : String → Option String) (gate : String)
    : Type 0 where
  pub flag : Bool
  pub selected : find gate selection ≡ some (bool flag)
  pub result : results gate ≡ some (if flag then "success" else "skipped")

-- The jobs of a run have done what was selected for its commit.
pub record Honest (selection : Fields) (results : String → Option String)
    (detection : Option String) (sha : String) : Type 0 where
  pub detected : detection ≡ some "success"
  pub closed :
      same_keys selection
        ("acceptance" ∷ "app" ∷ "hygiene" ∷ "infra" ∷ "reason" ∷ "actual_sha" ∷ [])
      ≡ true
  pub reason : Value
  pub has_reason : find "reason" selection ≡ some reason
  pub given : truthy reason ≡ true
  pub same_sha : find "actual_sha" selection ≡ some (str sha)
  pub acceptance : Done selection results "acceptance"
  pub app : Done selection results "app"
  pub hygiene : Done selection results "hygiene"
  pub infra : Done selection results "infra"

bool_of-ok : (v : Value) (b : Bool) → bool_of v ≡ ok b → v ≡ bool b
bool_of-ok v b h = ground arith

is_result-eq : (o : Option String) (s : String) → is_result o s ≡ true → o ≡ some s
is_result-eq none s h = cc
is_result-eq (some r) s h = ap some ((eq_iff r s).0 h)

expected-eq : (flag : Bool) → expected flag ≡ (if flag then "success" else "skipped")
expected-eq true = refl
expected-eq false = refl

check_gate-Done :
    (selection : Fields) (results : String → Option String) (gate : String)
    → check_gate selection results gate ≡ ok tt
    → Done selection results gate
unfolding check_gate
check_gate-Done selection results gate h =
    let (v, flag, found, is_bool, h1) = item_of selection gate bool_of _ h in
    record {
      flag = flag;
      selected = found ∙ ap some (bool_of-ok v flag is_bool);
      result =
          is_result-eq (results gate) (expected flag) (require-ok _ h1)
          ∙ ap some (expected-eq flag);
    }

check_gates-Done :
    (selection : Fields) (results : String → Option String) (names : List String)
    → check_gates selection results names ≡ ok tt
    → All (Done selection results) names
unfolding check_gates
check_gates-Done selection results [] h = tt
check_gates-Done selection results (gate ∷ rest) h =
    let (_, one, others) = returned-bind (check_gate selection results gate) _ h in
    (check_gate-Done selection results gate one, check_gates-Done selection results rest others)

enforce-Honest :
    (selection : Fields) (results : String → Option String) (detection : Option String)
    (sha : String)
    → enforce selection results detection sha ≡ ok tt
    → Honest selection results detection sha
unfolding enforce
enforce-Honest selection results detection sha h =
    let (shape, h1) =
      require-then (is_result detection "success" && same_keys selection selection_keys) _ h in
    let (detected, closed) = &&-true (is_result detection "success") _ shape in
    let (reason, has_reason, h2) = item-then selection "reason" _ h1 in
    let (given, h3) = require-then (truthy reason) _ h2 in
    let (v, at_sha, h4) = item-then selection "actual_sha" _ h3 in
    let (same, h5) = require-then (is_text v sha) _ h4 in
    let (acceptance, (app, (hygiene, (infra, _)))) = check_gates-Done selection results gates h5 in
    record {
      detected = is_result-eq detection "success" detected;
      closed = closed;
      reason = reason;
      has_reason = has_reason;
      given = given;
      same_sha = at_sha ∙ ap some (is_text-eq v sha same);
      acceptance = acceptance;
      app = app;
      hygiene = hygiene;
      infra = infra;
    }

Done-check_gate :
    (selection : Fields) (results : String → Option String) (gate : String)
    → Done selection results gate
    → check_gate selection results gate ≡ ok tt
unfolding check_gate
Done-check_gate selection results gate d =
    ground (arith, expected-eq d.flag, eq_refl (expected d.flag))

Done-check_gates :
    (selection : Fields) (results : String → Option String) (names : List String)
    → All (Done selection results) names
    → check_gates selection results names ≡ ok tt
unfolding check_gates
Done-check_gates selection results [] d = refl
Done-check_gates selection results (gate ∷ rest) (one, others) =
    rw (Done-check_gate selection results gate one) (Done-check_gates selection results rest others)

Honest-enforce :
    (selection : Fields) (results : String → Option String) (detection : Option String)
    (sha : String)
    → Honest selection results detection sha
    → enforce selection results detection sha ≡ ok tt
unfolding enforce
Honest-enforce selection results detection sha h = ground (
  arith,
  eq_refl sha,
  Done-check_gates selection results gates (h.acceptance, (h.app, (h.hygiene, (h.infra, tt)))),
)

-- The enforcement passes exactly if the detection succeeded, the selection has exactly the six
-- expected keys, a reason that is not empty and this commit's SHA, and each of acceptance, app, hygiene
-- and infra has a Boolean flag with the job's result: success where it is set, skipped where not.
pub enforce-iff-Honest :
    (selection : Fields) (results : String → Option String) (detection : Option String)
    (sha : String)
    → (enforce selection results detection sha ≡ ok tt) ↔ Honest selection results detection sha
enforce-iff-Honest selection results detection sha =
    (enforce-Honest selection results detection sha, Honest-enforce selection results detection sha)
