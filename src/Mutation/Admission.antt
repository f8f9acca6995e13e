-- ===== src/Mutation/Admission.antt =====
-- What an admission of scripts/environment_mutation.py writes.
use Prim.Native.String.{◌++◌}
use mathlib.Core.Path.{subst}
use terragrunt_demo.Common.{
  ℕ, ◌+◌, ◌≤◌, ◌<◌, sym, String, ◌≡◌, refl, true, false, none, some, ok, arith, eq_iff, ◌≢◌,
  is_sha256, endswith, startswith, In, elem, elem-In, Option, require, ◌>>◌, ok-injective,
  require-then, ◌∙◌, ap, ◌&&◌, returned-bind, Bool-cases, inl, inr, ◌⊎◌, &&-true, ◌==◌,
}
use terragrunt_demo.Json.{Value}
use terragrunt_demo.Mutation.Domain.{
  is_uuid, domain_of, is_cleanup, is_none, in_layers, separate, identity, application_bindings,
  lifecycle_bindings,
}
use terragrunt_demo.Mutation.Document.{active, released, Lease, Schedule, Ownership}
use terragrunt_demo.Mutation.Validate.{max_generation, layer_for}
use terragrunt_demo.Mutation.Validity.{IsLease, IsSchedule, IsOwned, IsValid, identity-ok}
use terragrunt_demo.Mutation.Store.{Provider}
use terragrunt_demo.Mutation.Authority.{Authority, lease_of, new, admit}

-- The write follows the document that was read: that one was released, and the new one is ACTIVE in
-- the next generation under the invocation's own lease.
pub record Follows (a : Authority) (prior next : Ownership) : Type 0 where
  pub was_released : prior.state ≡ released
  pub is_active : next.state ≡ active
  pub generation : next.generation ≡ prior.generation + 1
  pub lease : next.lease ≡ some (lease_of a)
  pub same_environment : next.environment ≡ prior.environment
  pub same_domain : next.domain ≡ prior.domain
  pub bounded : next.generation < max_generation
  pub not_again :
      (l : Lease) → prior.lease ≡ some l → l.binding ≡ a.binding → l.operation ≢ a.operation
  pub kept_schedule : is_cleanup a.binding ≡ true → next.schedule ≡ prior.schedule
  pub dropped_schedule : is_cleanup a.binding ≡ false → next.schedule ≡ none

module _ (p : Provider) where
  pub admit-Follows :
      (a : Authority) (prior next : Ownership) → admit p a prior ≡ ok next → Follows a prior next
  unfolding admit
  admit-Follows a prior next h = record {
    was_released = ground arith;
    is_active = ground arith;
    generation = ground arith;
    lease = ground arith;
    same_environment = ground arith;
    same_domain = ground arith;
    bounded = ground arith;
    not_again =
        λ l e b o. ground (arith, eq_iff l.binding a.binding, eq_iff l.operation a.operation);
    kept_schedule = λ c. ground arith;
    dropped_schedule = λ c. ground arith;
  }

-- The layer that `validate` derives from a stored binding leads to the same domain as the layer that
-- the invocation was made with.
application_not_lifecycle :
    (b : String) → In b application_bindings → startswith b "environment-lifecycle/" ≡ false
unfolding startswith
application_not_lifecycle b In.here = refl
application_not_lifecycle b (In.there In.here) = refl
application_not_lifecycle b (In.there (In.there In.here)) = refl
application_not_lifecycle b (In.there (In.there (In.there In.here))) = refl
application_not_lifecycle b (In.there (In.there (In.there (In.there In.here)))) = refl
application_not_lifecycle b (In.there (In.there (In.there (In.there (In.there In.here))))) = refl
application_not_lifecycle b (In.there (In.there (In.there (In.there (In.there (In.there m)))))) =
    elim m [ ]

lifecycle_prefix :
    (b : String) → In b lifecycle_bindings → startswith b "environment-lifecycle/" ≡ true
unfolding startswith
lifecycle_prefix b In.here = refl
lifecycle_prefix b (In.there In.here) = refl
lifecycle_prefix b (In.there (In.there In.here)) = refl
lifecycle_prefix b (In.there (In.there (In.there In.here))) = refl
lifecycle_prefix b (In.there (In.there (In.there (In.there m)))) = elim m [ ]

application_domain :
    (binding : String) (layer : Option String) (selected : String)
    → elem binding application_bindings ≡ true
    → domain_of binding layer ≡ ok selected
    → domain_of binding (layer_for selected binding) ≡ ok selected
unfolding domain_of
application_domain binding layer selected app h =
    let plain = application_not_lifecycle binding (elem-In binding application_bindings app) in
    let h' : (require (is_none layer) >> ok "application") ≡ ok selected = rw app at h in
    let e : "application" ≡ selected =
      ok-injective (require-then (is_none layer) (ok "application") h').1 in
    rw (app, ← e, plain)

-- The layers with a domain of their own, and all the others.
separate_cases :
    (layer : Option String)
    → (separate layer ≡ "application")
      ⊎ ((separate layer ≡ "shared") ⊎ (separate layer ≡ "secrets"))
separate_cases none = inl refl
separate_cases (some layer) = ground (arith, eq_iff layer "shared", eq_iff layer "secrets")

lifecycle_domain :
    (binding : String) (layer : Option String) (selected : String)
    → elem binding application_bindings ≡ false
    → domain_of binding layer ≡ ok selected
    → domain_of binding (layer_for selected binding) ≡ ok selected
unfolding domain_of
lifecycle_domain binding layer selected other h =
    let h1 : (require (elem binding lifecycle_bindings)
          >> (require (in_layers layer) >> ok (separate layer)))
        ≡ ok selected =
      rw other at h in
    let (known, h2) = require-then (elem binding lifecycle_bindings) _ h1 in
    let (listed, h3) = require-then (in_layers layer) _ h2 in
    let prefix = lifecycle_prefix binding (elem-In binding lifecycle_bindings known) in
    let e : separate layer ≡ selected = ok-injective h3 in
    elim (separate_cases layer) [
      | inl app ↦ rw (← e, app, prefix, other, known)
      | inr (inl shared) ↦ rw (← e, shared, other, known)
      | inr (inr secrets) ↦ rw (← e, secrets, other, known)
    ]

same_domain :
    (binding : String) (layer : Option String) (selected : String)
    → domain_of binding layer ≡ ok selected
    → domain_of binding (layer_for selected binding) ≡ ok selected
same_domain binding layer selected h = elim (Bool-cases (elem binding application_bindings)) [
  | inl app ↦ application_domain binding layer selected app h
  | inr other ↦ lifecycle_domain binding layer selected other h
]

-- An invocation that the constructor accepts writes a lease that `validate` accepts.
pub new-IsLease :
    (p : Provider) (sha256_hex : (b : p.Body) → is_sha256 (p.sha256 b) ≡ true)
    (environment selected binding : String) (operation request : Value) (layer : Option String)
    (cleanup : Option Value) (owner : String) (a : Authority)
    → is_uuid owner ≡ true
    → new p environment selected binding operation request layer cleanup owner ≡ ok a
    → IsLease environment selected (lease_of a)
unfolding new
new-IsLease p sha256_hex environment selected binding operation request layer cleanup owner a fresh
      h =
    let (found, in_domain, h1) = returned-bind (domain_of binding layer) _ h in
    let (accepted, h2) =
      require-then (found == selected && endswith binding ("-" ++ environment)) _ h1 in
    let (same, environment_ends) = &&-true (found == selected) _ accepted in
    let (op, read, done) = returned-bind (identity operation) _ h2 in
    let e : found ≡ selected = (eq_iff found selected).0 same in
    let domain_again = same_domain binding layer selected (in_domain ∙ ap ok e) in
    subst (λ x. IsLease environment selected (lease_of x)) (ok-injective done)
      (record {
        owner = fresh;
        operation = (identity-ok operation op read).1;
        in_domain = domain_again;
        in_environment = environment_ends;
        request = sha256_hex (p.canonical request);
      })

IsSchedule-later :
    {environment selected : String} {m n : ℕ} {s : Schedule}
    → IsSchedule environment selected m s
    → m ≤ n
    → IsSchedule environment selected n s
IsSchedule-later v le = record {
  in_application = v.in_application;
  same_environment = v.same_environment;
  positive = v.positive;
  bounded = omega (arith, v.bounded);
  operation = v.operation;
  in_domain = v.in_domain;
  in_environment = v.in_environment;
  scheduling = v.scheduling;
}

-- The document that an admission writes is one that `validate` accepts.
pub admit-IsValid :
    (p : Provider) (a : Authority) (prior next : Ownership)
    → IsLease a.environment a.selected (lease_of a)
    → IsValid a.environment a.selected prior
    → admit p a prior ≡ ok next
    → IsValid a.environment a.selected next
admit-IsValid p a prior next lease valid h =
    let f = admit-Follows p a prior next h in
    record {
      same_environment = f.same_environment ∙ valid.same_environment;
      known_environment = valid.known_environment;
      known_domain = valid.known_domain;
      same_domain = f.same_domain ∙ valid.same_domain;
      below = f.bounded;
      owned = IsOwned.leased (lease_of a) f.lease (omega (arith, f.generation)) lease;
      scheduled = λ s e. elim (Bool-cases (is_cleanup a.binding)) [
        | inl c ↦
            IsSchedule-later (valid.scheduled s (sym (f.kept_schedule c) ∙ e))
              (omega (arith, f.generation))
        | inr c ↦ absurd (ground (arith, f.dropped_schedule c, e))
      ];
    }
