-- ===== src/Ci/Tests.antt =====
-- A push that changes one document, through .github/scripts/ci/select-checks.py.
use terragrunt_demo.Common.{
  ℕ, String, ◌≡◌, refl, Bool, true, false, Option, none, some, List, [], ◌∷◌, ◌++◌, ◌⊎◌, ◌==◌,
  if◌then◌else◌, codes, Result, ok,
}
use terragrunt_demo.Json.{str, bool, Fields, field, end}
use terragrunt_demo.Ci.FilePath.{Text, is, split, name, suffix}
use terragrunt_demo.Ci.Classify.{
  Selection, Reason, docs, every_gate, visit, visit_rest, classify_from, classify,
}
use terragrunt_demo.Ci.Diff.{
  changed_paths, pairs_of, paths_of, changed_path, decode_ascii, decode_utf8, decode_from,
  parse_record, is_uncertain_path, is_uncertain_mode,
}
use terragrunt_demo.Ci.Select.{
  Event, or_empty, strip, strip_bytes, is_commit_text, git, git_text, diff, check_commit, push,
  by_event, history, selection, select,
}
use terragrunt_demo.Ci.Enforce.{enforce, check_gates, check_gate}
use terragrunt_demo.Ci.Union.{joined, classify-joined}
use terragrunt_demo.Ci.Exempt.{ByPaths, select-ByPaths}
use terragrunt_demo.Ci.Honest.{Honest, enforce-iff-Honest}

abbrev head : Text
head = codes "bbbbbbbbbbbbbbbbbbbbbbbbbbbbbbbbbbbbbbbb"

abbrev base : Text
base = codes "aaaaaaaaaaaaaaaaaaaaaaaaaaaaaaaaaaaaaaaa"

abbrev raw_diff : List ℕ
raw_diff =
    codes ":100644 100644 "
    ++ (base ++ (codes " " ++ (head ++ (codes " M" ++ (0 ∷ (codes "README.md" ++ (0 ∷ [])))))))

-- A repository whose HEAD is `head`, on top of `base`.
abbrev answer : List Text → List ℕ
answer [] = []
answer (command ∷ []) = []
answer (command ∷ option ∷ rest) =
    if is command "diff"
    then raw_diff
    else if is option "--verify"
    then head ++ (10 ∷ [])
    else if is option "--is-shallow-repository"
    then codes "false"
    else []

abbrev run : List Text → Result (Bool × List ℕ)
run args = ok (false, answer args)

abbrev event : Event
event = record {
  github_sha = some head;
  ci_base_sha = some base;
  ci_head_sha = some head;
  github_event_name = some (codes "push");
  github_base_ref = none;
  github_ref = some (codes "refs/heads/develop");
}

abbrev selected : Selection
selected = record { gates = docs; reason = Reason.complete_classification }

selects : select run event ≡ ok (selected, head)
unfolding select git_text git diff check_commit push by_event history selection strip strip_bytes
    is_commit_text changed_paths pairs_of paths_of changed_path decode_ascii decode_utf8 decode_from
    parse_record is_uncertain_path is_uncertain_mode split name suffix classify classify_from visit
selects = refl

select-ByPaths_example :
    (head ≡ or_empty event.github_sha)
    × (is_commit_text head ≡ true)
    × ((selected.gates ≡ every_gate) ⊎ ByPaths run event head selected)
select-ByPaths_example = select-ByPaths run event selected head selects

classify-joined_example :
    (classify (codes "README.md" ∷ codes "demo-api/Program.cs" ∷ [])).gates
    ≡ joined (codes "README.md" ∷ codes "demo-api/Program.cs" ∷ [])
classify-joined_example = classify-joined (codes "README.md") (codes "demo-api/Program.cs" ∷ [])

selector_change : (classify (codes ".github/scripts/ci/select-checks.py" ∷ [])).gates ≡ every_gate
unfolding classify classify_from visit visit_rest name suffix split
selector_change = refl

abbrev chosen : Fields
chosen = field "acceptance" (bool true) (
    field "app" (bool false) (
      field "hygiene" (bool true) (
        field "infra" (bool false) (
          field "reason" (str "complete-path-classification") (field "actual_sha" (str "b") end)))))

abbrev results : String → Option String
results gate =
    if gate == "acceptance"
    then some "success"
    else if gate == "hygiene"
    then some "success"
    else some "skipped"

passes : enforce chosen results (some "success") "b" ≡ ok tt
unfolding enforce check_gates check_gate
passes = refl

enforce-iff-Honest_example : Honest chosen results (some "success") "b"
enforce-iff-Honest_example = (enforce-iff-Honest chosen results (some "success") "b").0 passes
