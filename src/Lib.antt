-- ===== src/Lib.antt =====
-- Verification library of terragrunt_demo.
--
-- The repository deploys a demo service to two AWS environments, dev and prod. Its Python code is
-- the control plane around that: who may change an environment, what a change may do, and what has
-- to be observed before and after it. The parts that are modelled here, and how they interact:
--
-- - Mutation: scripts/environment_mutation.py. Every controller that changes an environment first
--   acquires the ownership document of its conflict domain in S3, by a conditional write; while it
--   holds it, its calls are checked against the stored document; at the end it releases it or, after
--   an unresolved effect, keeps it. Domain is `domain` and `identity`; Document, Validate and Store
--   are `initial`, `validate` and `Store`; Authority and Session are the class `Authority` and
--   `execute`; Client is the class `Client` with `cleanup_transformer`, which sends the admitted
--   calls of the AWS clients through `Authority.call`. Protocol is the object under concurrent
--   invocations: a write that was sent may take effect at any later moment, several times or never,
--   where its condition on the ETag holds. Validity, Roundtrip, Admission, Acquire and Holding have
--   the proofs.
-- - Contract: scripts/lifecycle/contract.py, the boundary of the lifecycle controllers. Request is
--   `request`, Authorize is `authorize`, Quiescent is `quiescent`, Plan is `validate_plan`, which
--   checks a saved Terraform plan before it is run. Bootstrap, Resource, Drift, Accepted, Teardown
--   and Authorized have the proofs.
-- - ScaleDown: terraform/infra/apps/fargate/lambda/scale_down_old_color.py, the lambda that scales
--   the old colour down after a switch. Handler is `lambda_handler`, Safety the proof.
-- - Nat: terraform/infra/global/modules/nat/lambda, the lambdas of a new NAT instance. Instance is
--   what the three files share, Address is assign_eip.py, Route is change_rt.py, SourceCheck is
--   disable_sdc.py. Zones, Upsert and Allowed have the proofs.
-- - Readiness: scripts/nat/reliability.py, the verification of a new NAT instance. Observed has the
--   checks of `assess`, Assess `assess` and the loop of `verify`, Fresh the proofs.
-- - Ci: .github/scripts/ci/select-checks.py, which selects the CI gates of a change. Classify, Diff,
--   Select and Enforce are the functions of these names (`changed_paths` is in Diff), FilePath what
--   they use of `pathlib`. Union, History, Exempt and Honest have the proofs.
-- - DevDown: scripts/lifecycle/dev_down.py, the consent to the loss of the data of dev and the review of
--   a plan that destroys one of its layers. Consent has `scope`, `acknowledgements`, `confirm` and
--   `check_data_consent`, Review `review` and `check_current_review`, on Contract's requests and
--   plans. Consented, Lines, Summary and Current have the proofs. The digests are parameters.
-- - Recovery: scripts/recovery, the journal that writes an intent, a plan and an attempt before it
--   changes a resource, and controllers that run on it. Ports are scripts/recovery/ports.py and the
--   records of scripts/normal_delivery/delivery.py; Exact has what is used of
--   scripts/normal_delivery/authorization.py; Intent, Journal and Run are scripts/recovery/journal.py
--   (`execute` is split in carry_out and finish, its handlers are on_raise and reject). NatContext,
--   NatActions and NatControl are scripts/recovery/nat.py; Snapshot, CleanupPlan and Cleanup are
--   `Application` and `Cleanup` of scripts/recovery/application.py. A run's state holds the world of
--   the ports, the variables that handlers read, and a log of the dispatched calls, which no code
--   reads. The emergency controller is not modelled. Stable, Reads, Once, Effects, Runs, Sequences,
--   Entries, Retry, Seen, Applied, Receipts, Answers, Switch, NatFinal and Controllers have the proofs.
-- - Qualification: scripts/qualification/finalizer.py. Qualification/Schema is `_validate`, the part
--   of JSON schema that the contracts in ci/schemas use; Qualification/Checks compares the operation,
--   the build, the supervised result and the stored manifest; Qualification/Finalizer is `finalize`
--   and `validate_eligibility`. Schemas and authority documents are arguments, so what is proved holds
--   for any of them; `frames` is how many calls Python allows inside each other. Agreement, Candidate
--   and Stored say what passed checks have found, Qualified what a returned record stands for; Steady
--   and Again run a finalizer twice.
--
-- Common holds the shared names, the results of code that raises (Raise), methods that change an
-- object and may raise (Exec), the same with handlers and rules for what they keep (Action), Python's
-- text operations (Words). Json holds JSON values with Python's equality, Dicts what the sources do
-- with values whose form is not known yet.
--
-- Values are Python's as far as the code uses them: integers without bound, texts as code points,
-- dictionaries in the order of insertion. JSON numbers are integers; no modelled document carries
-- floats. `lower` is that of ASCII, in comparisons with ASCII names. An exception keeps its class as
-- far as a handler tells it from another one; TypeError and AttributeError are one class. A loop over
-- a list is a recursion on it. The one loop with a bound, `verify`, has the source's own bound of
-- twelve attempts. `_validate` follows references in a schema, so it recurs on the calls that Python
-- allows inside each other, and raises as Python does where they run out.
--
-- Parameters: S3 (get_object, put_object), ECS, ELB, EC2, Auto Scaling, EventBridge and git, the
-- clock and `sleep`, the records and the runtimes of the recovery, the evidence and the storage of a
-- qualification; `json`, `hashlib`, `re` on the patterns of a schema, and the canonical text of a
-- value. What a theorem relies on of them is a named hypothesis: documents with one ETag are one
-- document, an EC2 call that returned has set the route, SHA-256 has 64 hexadecimal digits, a stored
-- record of the recovery stays as it is, the evidence of a qualification is only read and its
-- storage reads what it stores.
--
-- Not modelled: logging; the other controllers under scripts/, operations/ and .github/scripts, which
-- PROJECT.json lists one by one; the .NET service, the Terraform and Terragrunt configuration, the
-- shell scripts, workflows, pages and recorded contracts, which are not Python.
pub mod Ci
pub mod Common
pub mod DevDown
pub mod Dicts
pub mod Json
pub mod Contract
pub mod Mutation
pub mod Nat
pub mod Readiness
pub mod Qualification
pub mod Recovery
pub mod ScaleDown
