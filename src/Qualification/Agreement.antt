-- ===== src/Qualification/Agreement.antt =====
-- What the checks of scripts/qualification/finalizer.py have found when they pass.
use Prim.Native.String.{◌++◌}
use mathlib.Core.Path.{subst}
use terragrunt_demo.Common.{
  String, ◌≡◌, ap, ◌∙◌, true, List, [], ◌∷◌, All, ok, ok-injective, require-ok, returned-bind,
  startswith,
}
use terragrunt_demo.Json.{Value, str, py_eq}
use terragrunt_demo.Qualification.Schema.{text_of}
use terragrunt_demo.Qualification.Checks.{
  Finalizer, at, matches, agree, agree_all, all_pass, check_operation, check_record, check_result,
  shared_keys, manifest_key,
}

-- The item at the key is the expected value.
pub record Shows (v : Value) (key : String) (expected : Value) : Type 0 where
  pub item : Value
  pub at_key : at v key ≡ ok item
  pub same : py_eq item expected ≡ true

-- Both have the same item at the key.
pub record Shares (a b : Value) (key : String) : Type 0 where
  pub item : Value
  pub at_key : at b key ≡ ok item
  pub shown : Shows a key item

pub matches-Shows :
    (v : Value) (key : String) (expected : Value) {u : Unit {0}}
    → matches v key expected ≡ ok u
    → Shows v key expected
unfolding matches
matches-Shows v key expected h =
    let (x, found, same) = returned-bind (at v key) _ h in
    record { item = x; at_key = found; same = require-ok _ same }

pub agree-Shares :
    (a b : Value) (key : String) {u : Unit {0}} → agree a b key ≡ ok u → Shares a b key
unfolding agree
agree-Shares a b key h =
    let (x, found, shown) = returned-bind (at b key) _ h in
    record { item = x; at_key = found; shown = matches-Shows a key x shown }

agree_all-Shares :
    (a b : Value) (keys : List String) {u : Unit {0}}
    → agree_all a b keys ≡ ok u
    → All (Shares a b) keys
agree_all-Shares a b [] h = tt
agree_all-Shares a b (key ∷ keys) h =
    let (_, first, rest) = returned-bind (agree a b key) _ h in
    (agree-Shares a b key first, agree_all-Shares a b keys rest)

-- Every required check has passed.
abbrev pub Passed : Value → List String → Type 0
Passed checks required = All (λ key. Shows checks key (str "PASS")) required

all_pass-Passed :
    (checks : Value) (keys : List String) {u : Unit {0}}
    → all_pass checks keys ≡ ok u
    → Passed checks keys
all_pass-Passed checks [] h = tt
all_pass-Passed checks (key ∷ keys) h =
    let (_, first, rest) = returned-bind (matches checks key (str "PASS")) _ h in
    (matches-Shows checks key _ first, all_pass-Passed checks keys rest)

-- An observed build or its result: of the operation, finished, with every required check passed.
pub record Succeeded (required : List String) (op observed : Value) : Type 0 where
  pub of_operation : All (Shares observed op) shared_keys
  pub finished : Shows observed "state" (str "SUCCEEDED")
  pub checks : Value
  pub recorded : at observed "checks" ≡ ok checks
  pub passed : Passed checks required

pub check_record-Succeeded :
    (required : List String) (op observed : Value) {u : Unit {0}}
    → check_record required op observed ≡ ok u
    → Succeeded required op observed
unfolding check_record
check_record-Succeeded required op observed h =
    let (_, shared, h1) = returned-bind (agree_all observed op shared_keys) _ h in
    let (_, state, h2) = returned-bind (matches observed "state" (str "SUCCEEDED")) _ h1 in
    let (checks, found, pass) = returned-bind (at observed "checks") _ h2 in
    record {
      of_operation = agree_all-Shares observed op shared_keys shared;
      finished = matches-Shows observed "state" _ state;
      checks = checks;
      recorded = found;
      passed = all_pass-Passed checks required pass;
    }

pub text_of-ok : (v : Value) (s : String) → text_of v ≡ ok s → v ≡ str s
text_of-ok (str t) s h = ap str (ok-injective h)
text_of-ok _ s h = cc

-- The operation that the wakeup names, of this project, account and region.
pub record Accepted (self : Finalizer) (op wakeup : Value) : Type 0 where
  pub woken : Shares op wakeup "operation_id"
  pub project : Shows op "project" self.project
  pub account : Shows op "account" (str self.account)
  pub region : Shows op "region" (str self.region)
  pub build_id : String
  pub built : at op "build_id" ≡ ok (str build_id)
  pub project_name : String
  pub is_project : self.project ≡ str project_name
  pub of_project : startswith build_id (project_name ++ ":") ≡ true

pub check_operation-Accepted :
    (self : Finalizer) (op wakeup : Value) {u : Unit {0}}
    → check_operation self op wakeup ≡ ok u
    → Accepted self op wakeup
unfolding check_operation
check_operation-Accepted self op wakeup h =
    let (_, woken, h1) = returned-bind (agree op wakeup "operation_id") _ h in
    let (_, project, h2) = returned-bind (matches op "project" self.project) _ h1 in
    let (_, account, h3) = returned-bind (matches op "account" (str self.account)) _ h2 in
    let (_, region, h4) = returned-bind (matches op "region" (str self.region)) _ h3 in
    let (id, found, h5) = returned-bind (at op "build_id") _ h4 in
    let (build_id, is_id, h6) = returned-bind (text_of id) _ h5 in
    let (name, is_name, h7) = returned-bind (text_of self.project) _ h6 in
    record {
      woken = agree-Shares op wakeup _ woken;
      project = matches-Shows op _ _ project;
      account = matches-Shows op _ _ account;
      region = matches-Shows op _ _ region;
      build_id = build_id;
      built = found ∙ ap ok (text_of-ok id build_id is_id);
      project_name = name;
      is_project = text_of-ok self.project name is_name;
      of_project = require-ok _ h7;
    }

-- A result whose manifest stands at the key of its digest, in the bucket of the releases.
pub record Published (self : Finalizer) (required : List String) (op build result manifest : Value)
    : Type 0 where
  pub built : Succeeded required op build
  pub tested : Succeeded required op result
  pub same_checks : Shares result build "checks"
  pub repository : Shows result "image_repository" self.repository
  pub named : at result "manifest" ≡ ok manifest
  pub bucket : Shows manifest "bucket" (str self.bucket)
  pub digest : String
  pub image : at result "image_digest" ≡ ok (str digest)
  pub key : Shows manifest "key" (str (manifest_key digest))

pub check_result-Published :
    (self : Finalizer) (required : List String) (op build result manifest : Value)
    → check_result self required op build result ≡ ok manifest
    → Published self required op build result manifest
unfolding check_result
check_result-Published self required op build result manifest h =
    let (_, built, h1) = returned-bind (check_record required op build) _ h in
    let (_, tested, h2) = returned-bind (check_record required op result) _ h1 in
    let (_, checks, h3) = returned-bind (agree result build "checks") _ h2 in
    let (_, repository, h4) =
      returned-bind (matches result "image_repository" self.repository) _ h3 in
    let (m, named, h5) = returned-bind (at result "manifest") _ h4 in
    let (_, bucket, h6) = returned-bind (matches m "bucket" (str self.bucket)) _ h5 in
    let (d, found, h7) = returned-bind (at result "image_digest") _ h6 in
    let (digest, is_digest, h8) = returned-bind (text_of d) _ h7 in
    let (_, key, done) = returned-bind (matches m "key" (str (manifest_key digest))) _ h8 in
    let e : m ≡ manifest = ok-injective done in
    record {
      built = check_record-Succeeded required op build built;
      tested = check_record-Succeeded required op result tested;
      same_checks = agree-Shares result build _ checks;
      repository = matches-Shows result _ _ repository;
      named = named ∙ ap ok e;
      bucket = subst (λ x. Shows x "bucket" (str self.bucket)) e (matches-Shows m _ _ bucket);
      digest = digest;
      image = found ∙ ap ok (text_of-ok d digest is_digest);
      key = subst (λ x. Shows x "key" (str (manifest_key digest))) e (matches-Shows m _ _ key);
    }
