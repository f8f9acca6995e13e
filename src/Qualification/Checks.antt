-- ===== src/Qualification/Checks.antt =====
-- What scripts/qualification/finalizer.py checks without a port, from the operation to the manifest
-- of the release.
use Prim.Native.String.{◌++◌}
use terragrunt_demo.Common.{
  ℕ, zero, suc, String, ◌&&◌, List, [], ◌∷◌, startswith, Result, ok, require, ◌>>=◌, ◌>>◌,
}
use terragrunt_demo.Json.{Value, str, Fields, field, end, Items, cons, nil, item, is_text, py_eq}
use terragrunt_demo.Dicts.{dict_of, elements}
use terragrunt_demo.DevDown.Consent.{is_account, is_region}
use terragrunt_demo.Qualification.Schema.{text_of}

-- `CONTRACT`, `REQUIRED_CHECKS`, `RUNTIME`, and the schema of a release manifest.
pub record Contracts : Type 0 where
  pub definitions : Fields
  pub required_checks : List String
  pub runtime : Value
  pub release_manifest : Value

abbrev pub texts_of : Items → Result (List String)
texts_of nil = ok []
texts_of (cons v vs) = do s ← text_of v; ss ← texts_of vs; ok (s ∷ ss)

-- `v[key]`
unfoldable pub at : Value → String → Result Value
at v key = do fs ← dict_of v; item fs key

-- The module's constants, from the two schema files.
unfoldable pub load_contracts : Value → Value → Result Contracts
load_contracts schema release_manifest = do
  defs ← at schema "$defs"
  definitions ← dict_of defs
  checks ← item definitions "checks"
  listed ← at checks "required"
  names ← elements listed
  required_checks ← texts_of names
  shape ← item definitions "result"
  properties ← at shape "properties"
  contract ← at properties "runtime_contract"
  runtime ← at contract "const"
  ok (record {
    definitions = definitions;
    required_checks = required_checks;
    runtime = runtime;
    release_manifest = release_manifest;
  })

-- The attributes of a finalizer.
pub record Finalizer : Type 0 where
  pub project : Value
  pub repository : Value
  pub bucket : String
  pub account : String
  pub region : String

-- `__init__`, on the contents of terraform/infra/security/authority.json
unfoldable pub new : String → String → Value → Result Finalizer
new account region authority = do
  require (is_account account)
  require (is_region region)
  compute ← at authority "controller_compute"
  nodes ← at compute "nodes"
  release ← at nodes "build/release"
  project ← at release "name"
  closure ← at authority "ownership_closure"
  resources ← at closure "resources"
  images ← at resources "neutral/repository"
  repository ← at images "name"
  artifacts ← at resources "neutral/artifacts"
  prefixed ← at artifacts "name"
  prefix ← text_of prefixed
  ok (record {
    project = project;
    repository = repository;
    bucket = prefix ++ account;
    account = account;
    region = region;
  })

-- `require(v[key] == expected)`
unfoldable pub matches : Value → String → Value → Result (Unit {0})
matches v key expected = do found ← at v key; require (py_eq found expected)

-- `require(a[key] == b[key])`
unfoldable pub agree : Value → Value → String → Result (Unit {0})
agree a b key = do expected ← at b key; matches a key expected

abbrev pub agree_all : Value → Value → List String → Result (Unit {0})
agree_all a b [] = ok tt
agree_all a b (key ∷ keys) = do agree a b key; agree_all a b keys

-- `all(checks[k] == 'PASS' for k in REQUIRED_CHECKS)`, which `require` insists on
abbrev pub all_pass : Value → List String → Result (Unit {0})
all_pass checks [] = ok tt
all_pass checks (key ∷ keys) = do matches checks key (str "PASS"); all_pass checks keys

-- The accepted operation.
unfoldable pub check_operation : Finalizer → Value → Value → Result (Unit {0})
check_operation self op wakeup = do
  agree op wakeup "operation_id"
  matches op "project" self.project
  matches op "account" (str self.account)
  matches op "region" (str self.region)
  id ← at op "build_id"
  build_id ← text_of id
  project ← text_of self.project
  require (startswith build_id (project ++ ":"))

abbrev pub shared_keys : List String
shared_keys =
    "operation_id" ∷ "build_id" ∷ "project" ∷ "source_commit" ∷ "account" ∷ "region" ∷ "repository"
    ∷ []

-- The observed build, or its supervised result.
unfoldable pub check_record : List String → Value → Value → Result (Unit {0})
check_record required_checks op observed = do
  agree_all observed op shared_keys
  matches observed "state" (str "SUCCEEDED")
  checks ← at observed "checks"
  all_pass checks required_checks

-- `s[n:]`
abbrev pub drop_letters : ℕ → String → String
drop_letters zero s = s
drop_letters (suc n) String.[] = String.[]
drop_letters (suc n) (String.◌∷◌ c s) = drop_letters n s

abbrev pub manifest_key : String → String
manifest_key digest = "releases/demo-api/by-digest/sha256-" ++ drop_letters 7 digest ++ ".json"

-- What the result says of the image and its manifest; the manifest is the answer.
unfoldable pub check_result : Finalizer → List String → Value → Value → Value → Result Value
check_result self required_checks op build result = do
  check_record required_checks op build
  check_record required_checks op result
  agree result build "checks"
  matches result "image_repository" self.repository
  manifest ← at result "manifest"
  matches manifest "bucket" (str self.bucket)
  d ← at result "image_digest"
  digest ← text_of d
  matches manifest "key" (str (manifest_key digest))
  ok manifest

-- `a == b == text`, which `require` insists on
abbrev pub both_text : Value → Value → String → Result (Unit {0})
both_text a b text = require (py_eq a b && is_text b text)

abbrev pub registry : Finalizer → String
registry self = self.account ++ ".dkr.ecr." ++ self.region ++ ".amazonaws.com"

-- The stored manifest of the release, against the operation and the result.
unfoldable pub check_candidate : Finalizer → Value → Value → Value → Result (Unit {0})
check_candidate self op result candidate = do
  agree candidate op "repository"
  commit ← at op "source_commit"
  matches candidate "gitSha" commit
  matches candidate "sourceBranch" (str "develop")
  image ← at candidate "image"
  matches image "registry" (str (registry self))
  matches image "repository" self.repository
  d ← at result "image_digest"
  matches image "digest" d
  digest ← text_of d
  repository ← text_of self.repository
  matches image "uri" (str (registry self ++ "/" ++ repository ++ "@" ++ digest))
  quality ← at candidate "quality"
  tests ← at quality "dotnetTests"
  built ← at quality "dockerBuild"
  both_text tests built "passed"

-- The record of a qualified release, without its identity.
unfoldable pub new_record : Finalizer → Value → Value → Value → Value → Result Fields
new_record self runtime op result manifest = do
  repository ← at op "repository"
  commit ← at op "source_commit"
  operation_id ← at op "operation_id"
  project ← at op "project"
  build_id ← at op "build_id"
  digest ← at result "image_digest"
  checks ← at result "checks"
  ok (
      field "schema" (str "E1_QUALIFICATION_V1") (
        field "writer" (str "QUALIFICATION_FINALIZER") (
          field "account" (str self.account) (
            field "region" (str self.region) (
              field "repository" repository (
                field "source_commit" commit (
                  field "operation_id" operation_id (
                    field "project" project (
                      field "build_id" build_id (
                        field "image_repository" self.repository (
                          field "image_digest" digest (
                            field "runtime_contract" runtime
                              (field "checks" checks (field "manifest" manifest end))))))))))))))
