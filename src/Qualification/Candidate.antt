-- ===== src/Qualification/Candidate.antt =====
-- What scripts/qualification/finalizer.py has found in the stored manifest of the release, and what
-- the record of the release then says.
use Prim.Native.String.{◌++◌}
use mathlib.Core.Path.{subst}
use terragrunt_demo.Common.{
  String, ◌≡◌, refl, sym, ap, ◌∙◌, true, &&-true, require-ok, [], ◌∷◌, some, ok, ok-injective,
  returned-bind,
}
use terragrunt_demo.Json.{Value, str, Fields, find, names, py_eq}
use terragrunt_demo.Dicts.{is_text-eq}
use terragrunt_demo.Qualification.Schema.{text_of}
use terragrunt_demo.Qualification.Checks.{
  Finalizer, at, matches, agree, check_candidate, new_record, registry,
}
use terragrunt_demo.Qualification.Agreement.{Shows, Shares, matches-Shows, agree-Shares, text_of-ok}

py_eq-refl_text : py_eq (str "passed") (str "passed") ≡ true
unfolding py_eq
py_eq-refl_text = refl

-- The manifest is of the commit, the repository and the image of the operation and its result.
pub record Released (self : Finalizer) (op result candidate : Value) : Type 0 where
  pub repository : Shares candidate op "repository"
  pub commit : Value
  pub of_commit : at op "source_commit" ≡ ok commit
  pub built_from : Shows candidate "gitSha" commit
  pub branch : Shows candidate "sourceBranch" (str "develop")
  pub image : Value
  pub described : at candidate "image" ≡ ok image
  pub registered : Shows image "registry" (str (registry self))
  pub kept_in : Shows image "repository" self.repository
  pub digest : Value
  pub measured : at result "image_digest" ≡ ok digest
  pub same_image : Shows image "digest" digest
  pub digest_text : String
  pub is_digest : digest ≡ str digest_text
  pub repository_text : String
  pub is_repository : self.repository ≡ str repository_text
  pub uri : Shows image "uri" (str (registry self ++ "/" ++ repository_text ++ "@" ++ digest_text))
  pub quality : Value
  pub has_quality : at candidate "quality" ≡ ok quality
  pub tested : Shows quality "dotnetTests" (str "passed")
  pub built : Shows quality "dockerBuild" (str "passed")

pub check_candidate-Released :
    (self : Finalizer) (op result candidate : Value) {u : Unit {0}}
    → check_candidate self op result candidate ≡ ok u
    → Released self op result candidate
unfolding check_candidate
check_candidate-Released self op result candidate h =
    let (_, repository, h1) = returned-bind (agree candidate op "repository") _ h in
    let (commit, of_commit, h2) = returned-bind (at op "source_commit") _ h1 in
    let (_, built_from, h3) = returned-bind (matches candidate "gitSha" commit) _ h2 in
    let (_, branch, h4) = returned-bind (matches candidate "sourceBranch" (str "develop")) _ h3 in
    let (image, described, h5) = returned-bind (at candidate "image") _ h4 in
    let (_, registered, h6) = returned-bind (matches image "registry" (str (registry self))) _ h5 in
    let (_, kept_in, h7) = returned-bind (matches image "repository" self.repository) _ h6 in
    let (digest, measured, h8) = returned-bind (at result "image_digest") _ h7 in
    let (_, same_image, h9) = returned-bind (matches image "digest" digest) _ h8 in
    let (digest_text, is_digest, h10) = returned-bind (text_of digest) _ h9 in
    let (repository_text, is_repository, h11) = returned-bind (text_of self.repository) _ h10 in
    let (_, uri, h12) =
      returned-bind
        (matches image "uri" (str (registry self ++ "/" ++ repository_text ++ "@" ++ digest_text)))
        _ h11 in
    let (quality, has_quality, h13) = returned-bind (at candidate "quality") _ h12 in
    let (tests, at_tests, h14) = returned-bind (at quality "dotnetTests") _ h13 in
    let (docker, at_docker, h15) = returned-bind (at quality "dockerBuild") _ h14 in
    let (equal, passed) = &&-true (py_eq tests docker) _ (require-ok _ h15) in
    let same_text : py_eq (str "passed") (str "passed") ≡ true = py_eq-refl_text in
    let docker_passed = is_text-eq docker "passed" passed in
    record {
      repository = agree-Shares candidate op _ repository;
      commit = commit;
      of_commit = of_commit;
      built_from = matches-Shows candidate _ _ built_from;
      branch = matches-Shows candidate _ _ branch;
      image = image;
      described = described;
      registered = matches-Shows image _ _ registered;
      kept_in = matches-Shows image _ _ kept_in;
      digest = digest;
      measured = measured;
      same_image = matches-Shows image _ _ same_image;
      digest_text = digest_text;
      is_digest = text_of-ok digest digest_text is_digest;
      repository_text = repository_text;
      is_repository = text_of-ok self.repository repository_text is_repository;
      uri = matches-Shows image _ _ uri;
      quality = quality;
      has_quality = has_quality;
      tested = record {
        item = tests;
        at_key = at_tests;
        same = ap (py_eq tests) (sym docker_passed) ∙ equal;
      };
      built = record {
        item = docker;
        at_key = at_docker;
        same = ap (λ x. py_eq x (str "passed")) docker_passed ∙ same_text;
      };
    }

-- The record says what the finalizer, the operation, the result and the manifest say, under these
-- fourteen keys.
pub record Records (self : Finalizer) (runtime op result manifest : Value) (body : Fields)
    : Type 0 where
  pub schema : find "schema" body ≡ some (str "E1_QUALIFICATION_V1")
  pub writer : find "writer" body ≡ some (str "QUALIFICATION_FINALIZER")
  pub account : find "account" body ≡ some (str self.account)
  pub region : find "region" body ≡ some (str self.region)
  pub repository : Value
  pub of_repository : at op "repository" ≡ ok repository
  pub says_repository : find "repository" body ≡ some repository
  pub commit : Value
  pub of_commit : at op "source_commit" ≡ ok commit
  pub says_commit : find "source_commit" body ≡ some commit
  pub operation_id : Value
  pub of_operation : at op "operation_id" ≡ ok operation_id
  pub says_operation : find "operation_id" body ≡ some operation_id
  pub project : Value
  pub of_project : at op "project" ≡ ok project
  pub says_project : find "project" body ≡ some project
  pub build_id : Value
  pub of_build : at op "build_id" ≡ ok build_id
  pub says_build : find "build_id" body ≡ some build_id
  pub image_repository : find "image_repository" body ≡ some self.repository
  pub digest : Value
  pub of_image : at result "image_digest" ≡ ok digest
  pub says_image : find "image_digest" body ≡ some digest
  pub runtime_contract : find "runtime_contract" body ≡ some runtime
  pub checks : Value
  pub of_checks : at result "checks" ≡ ok checks
  pub says_checks : find "checks" body ≡ some checks
  pub says_manifest : find "manifest" body ≡ some manifest
  pub no_more : names body ≡ (
      "schema" ∷ "writer" ∷ "account" ∷ "region" ∷ "repository" ∷ "source_commit" ∷ "operation_id"
      ∷ "project" ∷ "build_id" ∷ "image_repository" ∷ "image_digest" ∷ "runtime_contract" ∷ "checks"
      ∷ "manifest" ∷ [])

pub new_record-Records :
    (self : Finalizer) (runtime op result manifest : Value) (body : Fields)
    → new_record self runtime op result manifest ≡ ok body
    → Records self runtime op result manifest body
unfolding new_record
new_record-Records self runtime op result manifest body h =
    let (repository, of_repository, h1) = returned-bind (at op "repository") _ h in
    let (commit, of_commit, h2) = returned-bind (at op "source_commit") _ h1 in
    let (operation_id, of_operation, h3) = returned-bind (at op "operation_id") _ h2 in
    let (project, of_project, h4) = returned-bind (at op "project") _ h3 in
    let (build_id, of_build, h5) = returned-bind (at op "build_id") _ h4 in
    let (digest, of_image, h6) = returned-bind (at result "image_digest") _ h5 in
    let (checks, of_checks, h7) = returned-bind (at result "checks") _ h6 in
    subst (Records self runtime op result manifest) (ok-injective h7) (record {
      schema = refl;
      writer = refl;
      account = refl;
      region = refl;
      repository = repository;
      of_repository = of_repository;
      says_repository = refl;
      commit = commit;
      of_commit = of_commit;
      says_commit = refl;
      operation_id = operation_id;
      of_operation = of_operation;
      says_operation = refl;
      project = project;
      of_project = of_project;
      says_project = refl;
      build_id = build_id;
      of_build = of_build;
      says_build = refl;
      image_repository = refl;
      digest = digest;
      of_image = of_image;
      says_image = refl;
      runtime_contract = refl;
      checks = checks;
      of_checks = of_checks;
      says_checks = refl;
      says_manifest = refl;
      no_more = refl;
    })
