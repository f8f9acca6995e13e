-- ===== src/Qualification/Memory.antt =====
-- Qualifications in memory and the evidence of one operation, for the tests of
-- scripts/qualification/finalizer.py.
use Prim.Native.String.{◌++◌}
use terragrunt_demo.Common.{
  String, false, or_key_error, List, [], ◌∷◌, Option, none, some, Result, ok, raise, Raised,
  is_commit,
}
use terragrunt_demo.Json.{Value, str, bool, num, obj, Fields, field, end, find}
use terragrunt_demo.Dicts.{put_item, texts}
use terragrunt_demo.Recovery.Exact.{same}
use terragrunt_demo.Qualification.Checks.{Contracts, Finalizer, manifest_key}
use terragrunt_demo.Qualification.Finalizer.{Ports, receipt, identified}

abbrev pub digest : String
digest = "sha256:00000000000000000000000000000000000000000000000000000000000000ff"

abbrev pub sha : String
sha = "00000000000000000000000000000000000000000000000000000000000000aa"

abbrev pub commit : String
commit = "0123456789012345678901234567890123456789"

-- A contract of the source's shape, with one check.
abbrev pub closed : List String → Fields → Value
closed required properties = obj (
    field "type" (str "object") (
      field "additionalProperties" (bool false)
        (field "required" (texts required) (field "properties" (obj properties) end))))

abbrev pub checks_schema : Value
checks_schema =
    closed ("dotnet_test" ∷ [])
      (field "dotnet_test" (obj (field "enum" (texts ("PASS" ∷ "FAIL" ∷ [])) end)) end)

abbrev pub wakeup_schema : Value
wakeup_schema =
    closed ("operation_id" ∷ [])
      (field "operation_id" (obj (field "type" (str "string") (field "minLength" (num 1) end))) end)

abbrev pub text_schema : Value
text_schema = obj (field "type" (str "string") (field "pattern" (str "[0-9a-f]{40}") end))

abbrev pub result_schema : Value
result_schema = obj (
    field "properties"
      (obj (field "runtime_contract" (obj (field "const" (str "E1_RUNTIME_V1") end)) end)) end)

abbrev pub free : Value
free = obj end

abbrev pub schema : Value
schema = obj (
    field "$defs"
      (obj (
        field "checks" checks_schema (
          field "wakeup" wakeup_schema (
            field "operation" free (
              field "build" free
                (field "result" result_schema (field "qualification" free end)))))))
      end)

abbrev pub contracts : Contracts
contracts = record {
  definitions = field "checks" checks_schema (
      field "wakeup" wakeup_schema (
        field "operation" free
          (field "build" free (field "result" result_schema (field "qualification" free end)))));
  required_checks = "dotnet_test" ∷ [];
  runtime = str "E1_RUNTIME_V1";
  release_manifest = free;
}

abbrev pub named : String → Value
named name = obj (field "name" (str name) end)

abbrev pub authority : Value
authority = obj (
    field "controller_compute"
      (obj (field "nodes" (obj (field "build/release" (named "e1-controller-release") end)) end))
      (field "ownership_closure"
        (obj (
          field "resources"
            (obj (
              field "neutral/repository" (named "demo-shared-demo-ms")
                (field "neutral/artifacts" (named "demo-release-artifacts-") end)))
            end))
        end))

abbrev pub self : Finalizer
self = record {
  project = str "e1-controller-release";
  repository = str "demo-shared-demo-ms";
  bucket = "demo-release-artifacts-123456789012";
  account = "123456789012";
  region = "us-east-1";
}

abbrev pub identity : Fields → Fields
identity rest = field "operation_id" (str "op-1") (
    field "build_id" (str "e1-controller-release:1") (
      field "project" (str "e1-controller-release") (
        field "source_commit" (str commit) (
          field "account" (str "123456789012")
            (field "region" (str "us-east-1") (field "repository" (str "demo") rest))))))

abbrev pub op : Value
op = obj (identity end)

abbrev pub passed : Value
passed = obj (field "dotnet_test" (str "PASS") end)

abbrev pub build : Value
build = obj (identity (field "state" (str "SUCCEEDED") (field "checks" passed end)))

abbrev pub manifest : Value
manifest = obj (
    field "bucket" (str "demo-release-artifacts-123456789012") (
      field "key" (str (manifest_key digest))
        (field "version_id" (str "v1") (field "sha256" (str sha) end))))

abbrev pub result : Value
result = obj (
    identity (
      field "state" (str "SUCCEEDED") (
        field "checks" passed (
          field "image_repository" (str "demo-shared-demo-ms")
            (field "manifest" manifest (field "image_digest" (str digest) end))))))

abbrev pub registry : String
registry = "123456789012.dkr.ecr.us-east-1.amazonaws.com"

abbrev pub candidate : Value
candidate = obj (
    field "repository" (str "demo") (
      field "gitSha" (str commit) (
        field "sourceBranch" (str "develop") (
          field "image"
            (obj (
              field "registry" (str registry) (
                field "repository" (str "demo-shared-demo-ms") (
                  field "digest" (str digest)
                    (field "uri" (str (registry ++ "/demo-shared-demo-ms@" ++ digest)) end)))))
            (field "quality"
              (obj (field "dotnetTests" (str "passed") (field "dockerBuild" (str "passed") end)))
              end)))))

abbrev pub wakeup : Value
wakeup = obj (field "operation_id" (str "op-1") end)

-- Where a qualification stands, none is created.
abbrev pub store : Option Value → String → Value → Fields → Result (Unit {0}) × Fields
store none key raw w = (ok tt, put_item key raw w)
store (some held) key raw w = (raise Raised.file_exists, w)

-- Qualifications in memory, and evidence of the one operation.
abbrev pub memory : Value → Ports
memory observed = record {
  World = Fields;
  Raw = Value;
  operation = λ id w. (ok op, w);
  build = λ id w. (ok observed, w);
  result = λ id build_id w. (ok result, w);
  manifest = λ bucket key version_id w. (ok (receipt bucket key version_id candidate), w);
  create = λ key raw w. store (find key w) key raw w;
  read = λ key w. (or_key_error (find key w), w);
  size = λ raw. 1;
  loads = λ raw. ok raw;
  canonical = λ v. v;
  same_raw = same;
  sha = λ raw. sha;
  fullmatch = λ pattern s. is_commit s;
  frames = 20;
}

abbrev pub body : Fields
body = field "schema" (str "E1_QUALIFICATION_V1") (
    field "writer" (str "QUALIFICATION_FINALIZER") (
      field "account" (str "123456789012") (
        field "region" (str "us-east-1") (
          field "repository" (str "demo") (
            field "source_commit" (str commit) (
              field "operation_id" (str "op-1") (
                field "project" (str "e1-controller-release") (
                  field "build_id" (str "e1-controller-release:1") (
                    field "image_repository" (str "demo-shared-demo-ms") (
                      field "image_digest" (str digest) (
                        field "runtime_contract" (str "E1_RUNTIME_V1")
                          (field "checks" passed (field "manifest" manifest end)))))))))))))

abbrev pub qualified : Fields
qualified = identified (memory build) contracts body
