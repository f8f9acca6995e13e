-- ===== src/Mutation/Roundtrip.antt =====
-- `validate` of scripts/environment_mutation.py reads back every well-formed ownership document.
use mathlib.Core.Path.{subst⁻¹}
use terragrunt_demo.Common.{
  ℕ, ◌<◌, String, ◌≡◌, refl, true, none, some, Option, ok, arith, ltb, leb, nat_eq, ◌==◌, ◌&&◌,
  false, eq_refl, elem,
}
use terragrunt_demo.Mutation.Domain.{domain, identity, domains, environments}
use terragrunt_demo.Mutation.Document.{
  State, active, released, Lease, Schedule, Ownership, initial, initial_document, document_fields,
  encode, encode_schedule,
}
use terragrunt_demo.Mutation.Validate.{
  max_generation, validate_lease, validate_schedule, validate_owner, validate_initial, validate,
}
use terragrunt_demo.Mutation.Validity.{IsLease, IsSchedule, IsOwned, IsValid}
use terragrunt_demo.Json.{py_eq}

module _ (environment selected : String) where
  document_with : ℕ → State → Lease → Option Schedule → Ownership
  document_with n st l sch = record {
    environment = environment;
    domain = selected;
    generation = n;
    state = st;
    lease = some l;
    schedule = sch;
  }

  lease_read_back :
      (n : ℕ) (st : State) (l : Lease) (sch : Option Schedule)
      → IsLease environment selected l
      → validate_lease (document_fields (document_with n st l sch)) environment selected ≡ ok l
  unfolding validate_lease domain identity document_with
  lease_read_back n st l sch v =
      simp (v.owner, v.operation, v.in_domain, v.in_environment, v.request, eq_refl)

  schedule_read_back :
      (n : ℕ) (sch : Option Schedule)
      → ((s : Schedule) → sch ≡ some s → IsSchedule environment selected n s)
      → validate_schedule (encode_schedule sch) n environment selected ≡ ok sch
  unfolding validate_schedule domain identity
  schedule_read_back n none v = refl
  schedule_read_back n (some s) v =
      let w = v s refl in
      let in_range : (ltb 0 s.generation && leb s.generation n) ≡ true =
        ground (arith, w.positive, w.bounded) in
      let app : (selected == "application") ≡ true = rw w.in_application in
      simp
        (
          app, w.same_environment, in_range, w.operation, w.in_domain, w.in_environment,
          w.scheduling, eq_refl,
        )
        (cc w.same_environment)

  leased_read_back :
      (n : ℕ) (st : State) (l : Lease) (sch : Option Schedule)
      → n < max_generation
      → 0 < n
      → elem environment environments ≡ true
      → elem selected domains ≡ true
      → IsLease environment selected l
      → ((s : Schedule) → sch ≡ some s → IsSchedule environment selected n s)
      → validate (encode (document_with n st l sch)) environment selected
        ≡ ok (document_with n st l sch)
  unfolding validate encode validate_owner document_with initial
  leased_read_back n st l sch below late known one lv sv =
      let fits : ltb n max_generation ≡ true = ground arith in
      let started : nat_eq n 0 ≡ false = ground arith in
      let schedule = schedule_read_back n sch sv in
      elim st
        as (λ x.
          validate (encode (document_with n x l sch)) environment selected
          ≡ ok (document_with n x l sch)) [
            | active ↦
                simp
                  (known, one, fits, started, lease_read_back n active l sch lv, schedule, eq_refl)
            | released ↦
                simp (
                  known,
                  one,
                  fits,
                  started,
                  lease_read_back n released l sch lv,
                  schedule,
                  eq_refl,
                )
          ]

  fresh_read_back :
      elem environment environments ≡ true
      → elem selected domains ≡ true
      → validate (encode (initial_document environment selected)) environment selected
        ≡ ok (initial_document environment selected)
  unfolding validate encode validate_owner validate_initial initial py_eq validate_schedule
  fresh_read_back known one = simp (known, one, eq_refl)

-- Writing a well-formed document and validating what was written gives the document again.
pub validate-encode :
    (environment selected : String) (o : Ownership)
    → IsValid environment selected o
    → validate (encode o) environment selected ≡ ok o
unfolding document_with
validate-encode environment selected o v = owned_case v.owned
  where
    owned_case : IsOwned environment selected o → validate (encode o) environment selected ≡ ok o
    owned_case (IsOwned.fresh known one e) = rw e (fresh_read_back environment selected known one)
    owned_case (IsOwned.leased l e late lv) =
        let as_leased : o ≡ document_with environment selected o.generation o.state l o.schedule =
          ground (arith, v.same_environment, v.same_domain) in
        subst⁻¹ (λ x. validate (encode x) environment selected ≡ ok x) as_leased
          (leased_read_back environment selected o.generation o.state l o.schedule v.below late
            v.known_environment v.known_domain lv v.scheduled)
