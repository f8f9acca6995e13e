-- ===== src/Ci/Classify.antt =====
-- `classify` of .github/scripts/ci/select-checks.py: the gates that a list of changed paths needs.
use terragrunt_demo.Common.{
  String, Bool, true, false, ◌&&◌, ◌||◌, List, [], ◌∷◌, if◌then◌else◌, any,
}
use terragrunt_demo.Ci.FilePath.{Text, is, starts, ends, is_one_of, name, suffix}

-- One flag for each of `GATES`.
pub record Gates : Type 0 where
  pub acceptance : Bool
  pub app : Bool
  pub hygiene : Bool
  pub infra : Bool

pub data Reason : Type 0 where
  empty_diff unmapped_workflow selector_or_enforcement composite_action unmapped_path : Reason
  complete_classification history_decoding_or_timeout : Reason
  uncertain : String → Reason

pub record Selection : Type 0 where
  pub gates : Gates
  pub reason : Reason

abbrev pub none_selected : Gates
none_selected = record { acceptance = false; app = false; hygiene = false; infra = false }

abbrev pub every_gate : Gates
every_gate = record { acceptance = true; app = true; hygiene = true; infra = true }

-- `all_gates(reason)`
abbrev pub all_gates : Reason → Selection
all_gates reason = record { gates = every_gate; reason = reason }

-- `result.update(…)`, which only sets flags
abbrev pub join : Gates → Gates → Gates
join a b = record {
  acceptance = a.acceptance || b.acceptance;
  app = a.app || b.app;
  hygiene = a.hygiene || b.hygiene;
  infra = a.infra || b.infra;
}

abbrev pub knowledge : List String
knowledge =
    "README.md" ∷ "AGENTS.md" ∷ "terraform/AGENTS.md" ∷ "terraform/infra/security/README.md" ∷ []

abbrev pub historical : List String
historical =
    "terraform/docs/case-study.md" ∷ "terraform/docs/interview-guide.md"
    ∷ "terraform/docs/ci-cd-target-architecture.md" ∷ []

abbrev pub readiness : List String
readiness =
    "scripts/ecs-readiness-gate.sh" ∷ "scripts/ecs-blue-green-deploy.sh"
    ∷ "scripts/aws-response-boundary.sh" ∷ "scripts/bounded-process.py"
    ∷ "scripts/render-demo-api-taskdef.sh" ∷ "scripts/validate-demo-api-taskdef.sh" ∷ []

-- The prefixes of the workflows that stand outside CI.
abbrev pub outside_prefixes : List String
outside_prefixes = "e1-" ∷ "cd-" ∷ "deploy-" ∷ "promote-" ∷ "rollback-" ∷ "release-" ∷ []

abbrev pub starts_with_one_of : Text → List String → Bool
starts_with_one_of s prefixes = any (starts s) prefixes

-- What one path asks for: some gates, or all of them for a reason.
pub data Verdict : Type 0 where
  needs : Gates → Verdict
  everything : Reason → Verdict

abbrev pub docs : Gates
docs = record none_selected { acceptance = true; hygiene = true }

abbrev pub docs_and_app : Gates
docs_and_app = record docs { app = true }

abbrev pub docs_and_infra : Gates
docs_and_infra = record docs { infra = true }

abbrev pub only_app : Gates
only_app = record none_selected { app = true }

abbrev pub only_hygiene : Gates
only_hygiene = record none_selected { hygiene = true }

-- The scripts that the application's deployment runs.
abbrev pub is_readiness : Text → Bool
is_readiness path =
    is_one_of path readiness
    || starts path "scripts/tests/"
      && (is (suffix path) ".sh"
          || is_one_of (name path) ("fake-readiness-aws" ∷ "test-bounded-process.py" ∷ []))

abbrev pub is_infra_code : Text → Bool
is_infra_code path = is_one_of (suffix path) (".tf" ∷ ".hcl" ∷ []) || ends path ".tf.json"

abbrev pub is_image : Text → Bool
is_image path =
    starts path "demo-api/deploy/" || is_one_of (name path) ("Dockerfile" ∷ ".dockerignore" ∷ [])

abbrev pub is_outside : Text → Bool
is_outside workflow =
    is_one_of workflow ("ci-cd-safety.yml" ∷ "ci-repo-hygiene.yml" ∷ [])
    || starts_with_one_of workflow outside_prefixes
    || is_one_of workflow ("cd.yml" ∷ "ci-terragrunt-plan.yml" ∷ [])

-- A file of `.github/workflows/`, by its name.
unfoldable pub visit_workflow : Text → Verdict
visit_workflow workflow =
    if is workflow "ci-dotnet.yml"
    then needs docs_and_app
    else if is_one_of workflow ("ci-terragrunt.yml" ∷ "ci-terragrunt-manual.yml" ∷ [])
    then needs docs_and_infra
    else if is_outside workflow
    then needs docs
    else everything Reason.unmapped_workflow

-- The paths below `.github/`, and the last ones.
unfoldable pub visit_rest : Text → Verdict
visit_rest path =
    if starts path ".github/workflows/"
    then visit_workflow (name path)
    else if starts path ".github/scripts/ci/"
    then everything Reason.selector_or_enforcement
    else if starts path ".github/actions/"
    then everything Reason.composite_action
    else if starts path ".github/"
    then needs docs
    else if is path "LICENSE"
    then needs none_selected
    else everything Reason.unmapped_path

-- One round of the loop.
unfoldable pub visit : Text → Verdict
visit path =
    if is_one_of path knowledge || is (name path) "AGENTS.md"
    then needs docs
    else if is_one_of path historical || starts path "terraform/docs/" && is (suffix path) ".png"
    then needs only_hygiene
    else if starts path "terraform/docs/"
    then needs docs
    else if starts path "terraform/"
    then needs docs_and_infra
    else if starts path "scripts/"
    then needs (if is_readiness path then docs_and_app else docs)
    else if starts_with_one_of path ("ci/" ∷ "specs/" ∷ [])
    then needs docs
    else if starts path "operations/sql-backup/"
    then needs (if is_infra_code path then every_gate else docs_and_app)
    else if starts path "demo-api/"
    then needs (if is_image path then docs_and_app else only_app)
    else visit_rest path

-- The loop, with the flags so far.
unfoldable pub classify_from : Gates → List Text → Selection
classify_from so_far [] = record { gates = so_far; reason = Reason.complete_classification }
classify_from so_far (path ∷ paths) = elim (visit path) [
  | everything reason ↦ all_gates reason
  | needs more ↦ classify_from (join so_far more) paths
]

unfoldable pub classify : List Text → Selection
classify [] = all_gates Reason.empty_diff
classify (path ∷ paths) = classify_from none_selected (path ∷ paths)
