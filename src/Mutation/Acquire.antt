-- ===== src/Mutation/Acquire.antt =====
-- `Authority.acquire` and `Authority.finish` of scripts/environment_mutation.py, from the call to
-- the stored document.
use mathlib.Core.Path.{subst, subst⁻¹}
use terragrunt_demo.Common.{
  String, ◌≡◌, refl, ap, ◌∙◌, Bool, true, false, Option, none, some, ◌⊎◌, inl, inr, arith, ok,
  raise, Raised, require-then, returned-bind, Result-cases, raise≢ok,
}
use terragrunt_demo.Mutation.Document.{released, Ownership, encode}
use terragrunt_demo.Mutation.Validate.{validate}
use terragrunt_demo.Mutation.Domain.{is_cleanup}
use terragrunt_demo.Mutation.Store.{Provider, read, settle, exchange, same_document}
use terragrunt_demo.Mutation.Authority.{Authority, admit}
use terragrunt_demo.Mutation.Admission.{Follows, admit-Follows}
use terragrunt_demo.Mutation.Holding.{same_document-eq}
use terragrunt_demo.Mutation.Session.{
  Status, Session, check, acquire, acquire_first, acquire_with, release, write_terminal,
  exchange_own, released_document, final_name,
}

module _ (p : Provider) where
  -- A settled write: what was written is what a read now returns.
  settle-read :
      (environment selected : String) (v : Ownership) (w : p.World) (etag : String)
      → settle p environment selected v w ≡ ok etag
      → read p environment selected w ≡ ok (v, etag)
  unfolding settle
  settle-read environment selected v w etag h =
      let ((observed, tag), stored, h1) = returned-bind (read p environment selected w) _ h in
      let (same, done) = require-then (same_document observed v) _ h1 in
      stored ∙ cc (same_document-eq observed v same, done)

  pub exchange-read :
      (environment selected : String) (v : Ownership) (etag : Option String) (w : p.World)
      (tag : String)
      → (exchange p environment selected v etag w).0 ≡ ok tag
      → read p environment selected (exchange p environment selected v etag w).1 ≡ ok (v, tag)
  unfolding exchange
  exchange-read environment selected v etag w tag h =
      elim (Result-cases (validate (encode v) environment selected)) [
        | inl (_, e) ↦
            rw (e, exchange) (settle-read environment selected v _ tag (rw (e, exchange) at h))
        | inr (x, e) ↦ absurd (raise≢ok (rw (e, exchange) at h))
      ]

  -- A successful first `acquire`.
  pub record Acquired (s s' : Session p.World) : Type 0 where
    pub prior : Ownership
    pub before : String
    pub next : Ownership
    pub after : String
    pub was : read p s.authority.environment s.authority.selected s.world ≡ ok (prior, before)
    pub follows : Follows s.authority prior next
    pub authority : s'.authority ≡ record s.authority { value = some next }
    pub stored : read p s.authority.environment s.authority.selected s'.world ≡ ok (next, after)

  acquire_first-Acquired :
      (s : Session p.World) → (acquire_first p s).0 ≡ ok tt → Acquired s (acquire_first p s).1
  unfolding acquire_first exchange_own
  acquire_first-Acquired s h =
      elim (Result-cases (read p s.authority.environment s.authority.selected s.world)) [
        | inr (x, e) ↦ absurd (ground arith)
        | inl (seen, was) ↦ elim (Result-cases (admit p s.authority seen.0)) [
          | inr (x, e) ↦ absurd (ground arith)
          | inl (next, admitted) ↦
              elim (Result-cases
                (exchange p s.authority.environment s.authority.selected next (some seen.1)
                  s.world).0) [
                    | inr (x, e) ↦ absurd (ground arith)
                    | inl (after, written) ↦ record {
                      prior = seen.0;
                      before = seen.1;
                      next = next;
                      after = after;
                      was = was;
                      follows = admit-Follows p s.authority seen.0 next admitted;
                      authority = ground arith;
                      stored =
                          subst⁻¹
                            (λ w.
                              read p s.authority.environment s.authority.selected w
                              ≡ ok (next, after))
                            (ground arith)
                            (exchange-read s.authority.environment s.authority.selected next
                              (some seen.1) s.world after written);
                    }
                  ]
        ]
      ]

  -- A first `acquire` that returns has read a released document, and the one now stored is the
  -- invocation's own, ACTIVE and in the next generation.
  pub acquire-Acquired :
      (s : Session p.World)
      → s.authority.value ≡ none
      → (acquire p s).0 ≡ ok tt
      → Acquired s (acquire p s).1
  unfolding acquire exchange_own
  acquire-Acquired s fresh h =
      let path : acquire p s ≡ acquire_first p s = ap (λ o. acquire_with p o s) fresh in
      subst⁻¹ (λ x. Acquired s x.1) path
        (acquire_first-Acquired s (subst (λ x. x.0 ≡ ok tt) path h))

  -- A first `acquire` that raises leaves the invocation as it was: it owns nothing.
  pub acquire_fails :
      (s : Session p.World) (e : Raised)
      → s.authority.value ≡ none
      → (acquire p s).0 ≡ raise e
      → (acquire p s).1.authority ≡ s.authority
  unfolding acquire acquire_first exchange_own
  acquire_fails s e fresh h = ground arith

  write_terminal_authority :
      (mine : Ownership) (name : Option String) (s : Session p.World)
      → (write_terminal p mine name s).1.authority ≡ s.authority
  unfolding write_terminal
  write_terminal_authority mine none s = refl
  write_terminal_authority mine (some name) s = ground arith

  -- A release that returned: the stored document has the invocation's own lease and generation, and
  -- is RELEASED.
  pub record Released (successful : Bool) (mine : Ownership) (s s' : Session p.World) : Type 0 where
    pub tag : String
    pub document : Ownership
    pub stored : read p s.authority.environment s.authority.selected s'.world ≡ ok (document, tag)
    pub is_over : document.state ≡ released
    pub same_lease : document.lease ≡ mine.lease
    pub same_generation : document.generation ≡ mine.generation
    pub same_environment : document.environment ≡ mine.environment
    pub same_domain : document.domain ≡ mine.domain
    pub cleaned :
        is_cleanup s.authority.binding ≡ true → successful ≡ true → document.schedule ≡ none
    pub still_scheduled :
        (is_cleanup s.authority.binding ≡ false) ⊎ (successful ≡ false)
        → document.schedule ≡ mine.schedule
    pub is_closed : s'.authority.closed ≡ true

  -- After a release that returns, the stored document is the invocation's own one with the same
  -- lease and generation, now RELEASED, without its schedule if it was a successful cleanup, and the
  -- invocation is closed.
  pub release-Released :
      (successful : Bool) (status : Option Status) (s : Session p.World) (mine : Ownership)
      → s.authority.value ≡ some mine
      → (release p successful status s).0 ≡ ok tt
      → Released successful mine s (release p successful status s).1
  unfolding release exchange_own
  release-Released successful status s mine kept h =
      let t = (write_terminal p mine (final_name status) s).1 in
      let unchanged = write_terminal_authority mine (final_name status) s in
      let next = released_document t.authority.binding successful mine in
      elim (Result-cases (check p s)) [
        | inr (x, e) ↦ absurd (ground arith)
        | inl (etag, passed) ↦
            elim (Result-cases
              (exchange p t.authority.environment t.authority.selected next (some etag)
                t.world).0) [
                  | inr (x, e) ↦ absurd (ground (arith, kept, passed))
                  | inl (tag, written) ↦ record {
                    document = released_document s.authority.binding successful mine;
                    tag = tag;
                    stored =
                        subst
                          (λ (a : Authority).
                            read p a.environment a.selected (release p successful status s).1.world
                            ≡ ok (released_document a.binding successful mine, tag))
                          unchanged
                          (subst⁻¹
                            (λ w.
                              read p t.authority.environment t.authority.selected w
                              ≡ ok (next, tag))
                            (ground (arith, kept, passed))
                            (exchange-read t.authority.environment t.authority.selected next
                              (some etag) t.world tag written));
                    is_over = refl;
                    same_lease = refl;
                    same_generation = refl;
                    same_environment = refl;
                    same_domain = refl;
                    cleaned = λ cleanup won. ground arith;
                    still_scheduled = λ kept_on. ground arith;
                    is_closed = ground (arith, kept, passed);
                  }
                ]
      ]
