-- ===== src/Mutation/Protocol.antt =====
-- The ownership object of scripts/environment_mutation.py under concurrent invocations. A write that
-- has been sent may take effect at any later moment, more than once or never; S3 applies it only if
-- the stored object still has the ETag that the writer read. ETags are a parameter: what is relied on
-- is that two documents with the same ETag are the same document.
use mathlib.Core.Path.{subst⁻¹}
use terragrunt_demo.Common.{
  ◌+◌, ◌≤◌, ◌≡◌, ◌≢◌, refl, sym, ◌∙◌, Bool, some, List, ◌∷◌, In, ok, arith, inl, inr, ◌⊎◌, ap, ◌<◌,
}
use terragrunt_demo.Mutation.Document.{active, released, Lease, Ownership}
use terragrunt_demo.Mutation.Store.{Provider}
use terragrunt_demo.Mutation.Authority.{Authority, lease_of, admit}
use terragrunt_demo.Mutation.Admission.{admit-Follows}
use terragrunt_demo.Mutation.Holding.{IsOwner}
use terragrunt_demo.Mutation.Session.{proof_of, released_document}

-- A write in flight: the document that its writer read, and the one that it sends with the ETag of
-- the first as its condition.
pub record Write : Type 0 where
  pub expected : Ownership
  pub next : Ownership

pub record System : Type 0 where
  pub object : Ownership
  pub inflight : List Write

module _ (p : Provider) {Tag : Type 0} (etag : Ownership → Tag) where
  -- The writes that an invocation sends: `acquire` on any document it may have read, however long
  -- ago, `schedule` and `finish` on the document that it owns.
  pub data Sends (a : Authority) : Write → Type 0 where
    acquiring :
        (prior next : Ownership)
        → admit p a prior ≡ ok next
        → Sends a (record { expected = prior; next = next })
    scheduling :
        (mine : Ownership) (l : Lease)
        → a.value ≡ some mine
        → mine.state ≡ active
        → mine.lease ≡ some l
        → Sends a
            (record { expected = mine; next = record mine { schedule = some (proof_of mine l) } })
    releasing :
        (mine : Ownership) (successful : Bool)
        → a.value ≡ some mine
        → mine.state ≡ active
        → Sends a (record { expected = mine; next = released_document a.binding successful mine })

  pub data Step : System → System → Type 0 where
    send :
        (s : System) (a : Authority) (w : Write)
        → IsOwner a
        → Sends a w
        → Step s (record s { inflight = w ∷ s.inflight })
    apply :
        (s : System) (w : Write)
        → In w s.inflight
        → etag s.object ≡ etag w.expected
        → Step s (record s { object = w.next })

  pub data Reach (s : System) : System → Type 0 where
    start : Reach s s
    more : {t u : System} → Reach s t → Step t u → Reach s u

  -- One document takes another's place: a released one is acquired in the next generation, or an
  -- ACTIVE one is rewritten under its own lease in its own generation.
  pub data Succeeds (prior next : Ownership) : Type 0 where
    taken :
        prior.state ≡ released
        → next.state ≡ active
        → next.generation ≡ prior.generation + 1
        → Succeeds prior next
    rewritten :
        prior.state ≡ active
        → next.lease ≡ prior.lease
        → next.generation ≡ prior.generation
        → Succeeds prior next

  Sends-Succeeds : {a : Authority} {w : Write} → Sends a w → Succeeds w.expected w.next
  Sends-Succeeds (acquiring prior next h) =
      let f = admit-Follows p _ prior next h in taken f.was_released f.is_active f.generation
  Sends-Succeeds (scheduling mine l kept running lease) = rewritten running refl refl
  Sends-Succeeds (releasing mine successful kept running) = rewritten running refl refl

  -- Every write in flight is one that follows the document it expects.
  abbrev pub IsOrderly : System → Type 0
  IsOrderly s = (w : Write) → In w s.inflight → Succeeds w.expected w.next

  Step-IsOrderly : {s t : System} → Step s t → IsOrderly s → IsOrderly t
  Step-IsOrderly (send s a w own sent) h v m = orderly_cons v m
    where
      orderly_cons : (v : Write) → In v (w ∷ s.inflight) → Succeeds v.expected v.next
      orderly_cons v In.here = Sends-Succeeds sent
      orderly_cons v (In.there m) = h v m
  Step-IsOrderly (apply s w m e) h v i = h v i

  module _ (etag_injective : (x y : Ownership) → etag x ≡ etag y → x ≡ y) where
    -- A step keeps the document or puts a successor in its place.
    Step-Succeeds :
        {s t : System} → Step s t → IsOrderly s → (t.object ≡ s.object) ⊎ Succeeds s.object t.object
    Step-Succeeds (send s a w own sent) h = inl refl
    Step-Succeeds (apply s w m e) h =
        inr (subst⁻¹ (λ x. Succeeds x w.next) (etag_injective s.object w.expected e) (h w m))

    Reach-IsOrderly : {s t : System} → IsOrderly s → Reach s t → IsOrderly t
    Reach-IsOrderly h start = h
    Reach-IsOrderly h (more r st) = Step-IsOrderly st (Reach-IsOrderly h r)

    -- The document has moved on to a later generation, or it has the same lease as before.
    abbrev Later : Ownership → Ownership → Type 0
    Later x y =
        ((y.generation ≡ x.generation) × (y.lease ≡ x.lease)) ⊎ (x.generation < y.generation)

    Later-step : (x y z : Ownership) → Later x y → (z ≡ y) ⊎ Succeeds y z → Later x z
    Later-step x y z h (inl e) = subst⁻¹ (Later x) e h
    Later-step x y z h (inr (taken r a g)) = ground arith
    Later-step x y z h (inr (rewritten a l g)) = ground arith

    Reach-Later : {s t : System} → IsOrderly s → Reach s t → Later s.object t.object
    Reach-Later h start = inl (refl, refl)
    Reach-Later {s} h (more {t} {u} r st) =
        Later-step s.object t.object u.object (Reach-Later h r)
          (Step-Succeeds st (Reach-IsOrderly h r))

    -- Generations never go back, and within one generation the lease never changes: in every run,
    -- whatever the writes in flight do, a generation has one owner.
    pub generation_has_one_owner :
        {s t : System}
        → IsOrderly s
        → Reach s t
        → (s.object.generation ≤ t.object.generation)
          × (t.object.generation ≡ s.object.generation → t.object.lease ≡ s.object.lease)
    generation_has_one_owner {s} {t} h r = later (Reach-Later h r)
      where
        later :
            Later s.object t.object
            → (s.object.generation ≤ t.object.generation)
              × (t.object.generation ≡ s.object.generation → t.object.lease ≡ s.object.lease)
        later (inl (g, l)) = (omega arith, λ _. l)
        later (inr lt) = (omega arith, λ e. absurd (omega arith))

    -- A write that cannot replace an ACTIVE document under the lease `l`.
    abbrev pub Spares : Lease → Write → Type 0
    Spares l w = (w.expected.state ≡ released) ⊎ (w.expected.lease ≢ some l)

    -- A run in which no invocation with the lease `l` sends a write.
    pub data Quiet (l : Lease) (s : System) : System → Type 0 where
      start : Quiet l s s
      sent :
          {t : System} (a : Authority) (w : Write)
          → Quiet l s t
          → IsOwner a
          → lease_of a ≢ l
          → Sends a w
          → Quiet l s (record t { inflight = w ∷ t.inflight })
      applied :
          {t : System} (w : Write)
          → Quiet l s t
          → In w t.inflight
          → etag t.object ≡ etag w.expected
          → Quiet l s (record t { object = w.next })

    some_inj : {x y : Lease} → some x ≡ some y → x ≡ y
    some_inj h = cc

    Sends-Spares :
        {a : Authority} {w : Write} {l : Lease}
        → IsOwner a
        → lease_of a ≢ l
        → Sends a w
        → Spares l w
    Sends-Spares own other (acquiring prior next h) =
        inl (admit-Follows p _ prior next h).was_released
    Sends-Spares own other (scheduling mine m kept running lease) =
        inr (λ e. other (some_inj (sym (own mine kept) ∙ e)))
    Sends-Spares own other (releasing mine successful kept running) =
        inr (λ e. other (some_inj (sym (own mine kept) ∙ e)))

    -- What a run without writes of the owner keeps.
    record Held (mine : Ownership) (l : Lease) (t : System) : Type 0 where
      same : t.object ≡ mine
      spared : (w : Write) → In w t.inflight → Spares l w

    Quiet-Held :
        (mine : Ownership) (l : Lease) {s t : System}
        → mine.state ≡ active
        → mine.lease ≡ some l
        → Held mine l s
        → Quiet l s t
        → Held mine l t
    Quiet-Held mine l running lease h Quiet.start = h
    Quiet-Held mine l running lease h (sent {t} a w q own other sends) =
        let before = Quiet-Held mine l running lease h q in
        record {
          same = before.same;
          spared = λ v m. spared_cons before.spared (Sends-Spares own other sends) v m;
        }
      where
        spared_cons :
            ((v : Write) → In v t.inflight → Spares l v)
            → Spares l w
            → (v : Write) → In v (w ∷ t.inflight)
            → Spares l v
        spared_cons old fresh v In.here = fresh
        spared_cons old fresh v (In.there m) = old v m
    Quiet-Held mine l running lease h (applied {t} w q m e) =
        let before = Quiet-Held mine l running lease h q in
        let expected : w.expected ≡ mine =
          sym (etag_injective t.object w.expected e) ∙ before.same in
        absurd (not_spared (before.spared w m) expected)
      where
        not_spared : Spares l w → w.expected ≡ mine → ⊥
        not_spared (inl r) x = ground arith
        not_spared (inr n) x = n (ap (λ (o : Ownership). o.lease) x ∙ lease)

    -- While an invocation owns the domain and no write of its own is in flight or sent, the stored
    -- document stays its own, whatever the other invocations send and whenever it arrives.
    pub ownership_stays :
        (mine : Ownership) (l : Lease) {s t : System}
        → mine.state ≡ active
        → mine.lease ≡ some l
        → s.object ≡ mine
        → ((w : Write) → In w s.inflight → Spares l w)
        → Quiet l s t
        → t.object ≡ mine
    ownership_stays mine l running lease same spared q =
        (Quiet-Held mine l running lease (record { same = same; spared = spared }) q).same
