-- ===== src/Contract/Bootstrap.antt =====
-- What a passed check of scripts/lifecycle/contract.py says of a new service and of a new task
-- definition.
use terragrunt_demo.Common.{
  ◌≡◌, ◌∙◌, ap, &&-true, Bool, true, false, not, ◌&&◌, Option, some, inl, inr, arith, Bool-cases,
  ok, Result, ◌>>=◌, or_rejected, require-ok, require-then, returned-bind,
}
use terragrunt_demo.Json.{
  Value, str, num, obj, Fields, Items, cons, nil, find, item, py_eq, item-then,
}
use terragrunt_demo.Dicts.{dict_of, dict_of-ok, get, truthy, is_false, is_text-eq, elements}
use terragrunt_demo.Contract.Plan.{check_service_bootstrap, no_secrets, check_task_bootstrap}

pub or_rejected-ok : {A : Type 0} (o : Option A) (a : A) → or_rejected o ≡ ok a → o ≡ some a
or_rejected-ok o a h = ground arith

pub not-true : (b : Bool) → not b ≡ true → b ≡ false
not-true b h = ground arith

-- A new service without tasks and without a shell.
pub record Inert (unknown after : Value) : Type 0 where
  pub unknowns : Fields
  pub marks : unknown ≡ obj unknowns
  pub known : truthy (get unknowns "desired_count") ≡ false
  pub service : Fields
  pub is : after ≡ obj service
  pub no_tasks : py_eq (get service "desired_count") (num 0) ≡ true
  pub no_shell : is_false (get service "enable_execute_command") ≡ true
  pub on_fargate : get service "launch_type" ≡ str "FARGATE"

pub check_service_bootstrap-Inert :
    (unknown after : Value) → check_service_bootstrap unknown after ≡ ok tt → Inert unknown after
unfolding check_service_bootstrap
check_service_bootstrap-Inert unknown after h =
    let (u, marks, h1) = returned-bind (dict_of unknown) _ h in
    let (known, h2) = require-then (not (truthy (get u "desired_count"))) _ h1 in
    let (a, is, h3) = returned-bind (dict_of after) _ h2 in
    let (zero_tasks, h4) = require-then (py_eq (get a "desired_count") (num 0)) _ h3 in
    let (shell, h5) = require-then (is_false (get a "enable_execute_command")) _ h4 in
    record {
      unknowns = u;
      marks = dict_of-ok unknown u marks;
      known = not-true _ known;
      service = a;
      is = dict_of-ok after a is;
      no_tasks = zero_tasks;
      no_shell = shell;
      on_fargate = is_text-eq (get a "launch_type") "FARGATE" (require-ok _ h5);
    }

-- Every container of a new task definition is without secrets.
abbrev pub NoSecrets : Items → Type 0
NoSecrets nil = Unit
NoSecrets (cons c cs) =
    ((d : Fields) × (c ≡ obj d) × (truthy (get d "secrets") ≡ false)) × NoSecrets cs

no_secrets-NoSecrets : (cs : Items) → no_secrets cs ≡ ok true → NoSecrets cs
unfolding no_secrets
no_secrets-NoSecrets nil h = tt
no_secrets-NoSecrets (cons c cs) h =
    let (d, is, h1) = returned-bind (dict_of c) _ h in
    elim (Bool-cases (truthy (get d "secrets"))) [
      | inl secret ↦ absurd (ground arith)
      | inr clean ↦ ((d, dict_of-ok c d is, clean), no_secrets-NoSecrets cs (rw clean at h1))
    ]

-- A new task definition without roles and without secrets; its containers are a JSON text.
pub record Roleless (loads : Value → Result Value) (after : Value) : Type 0 where
  pub definition : Fields
  pub is : after ≡ obj definition
  pub no_task_role : truthy (get definition "task_role_arn") ≡ false
  pub no_execution_role : truthy (get definition "execution_role_arn") ≡ false
  pub text : Value
  pub listed : find "container_definitions" definition ≡ some text
  pub parsed : Value
  pub loaded : loads text ≡ ok parsed
  pub containers : Items
  pub are : elements parsed ≡ ok containers
  pub clean : NoSecrets containers

pub check_task_bootstrap-Roleless :
    (loads : Value → Result Value) (after : Value)
    → check_task_bootstrap loads after ≡ ok tt
    → Roleless loads after
unfolding check_task_bootstrap
check_task_bootstrap-Roleless loads after h =
    let (a, is, h1) = returned-bind (dict_of after) _ h in
    let (roles, h2) =
      require-then
        (not (truthy (get a "task_role_arn")) && not (truthy (get a "execution_role_arn"))) _ h1 in
    let (task, execution) = &&-true (not (truthy (get a "task_role_arn"))) _ roles in
    let (containers, are, h3) =
      returned-bind (item a "container_definitions" >>= loads >>= elements) _ h2 in
    let (parsed, loaded, e) =
      returned-bind (item a "container_definitions" >>= loads) elements are in
    let (text, listed, l) = item-then a "container_definitions" loads loaded in
    let (clean, none_secret, h4) = returned-bind (no_secrets containers) _ h3 in
    record {
      definition = a;
      is = dict_of-ok after a is;
      no_task_role = not-true _ task;
      no_execution_role = not-true _ execution;
      text = text;
      listed = listed;
      parsed = parsed;
      loaded = l;
      containers = containers;
      are = e;
      clean = no_secrets-NoSecrets containers (none_secret ∙ ap ok (require-ok clean h4));
    }
