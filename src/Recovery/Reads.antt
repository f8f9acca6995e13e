-- ===== src/Recovery/Reads.antt =====
-- What `read` and `put` of scripts/recovery/journal.py tell of the objects that stand.
use mathlib.Core.Path.{subst}
use terragrunt_demo.Common.{
  String, ◌≡◌, refl, ap, ◌∙◌, sym, Bool, false, Option, none, some, arith, ok, Raised, raise≢ok,
  Result-cases, inl, inr,
}
use terragrunt_demo.Common.Action.{pure, fail, lift, rescue, choose, ◌>>=◌, ◌>>◌, returned}
use terragrunt_demo.Json.{Value}
use terragrunt_demo.Recovery.Ports.{Ports, Observed, State, port}
use terragrunt_demo.Recovery.Intent.{Journal, unpacked}
use terragrunt_demo.Recovery.Journal.{path, read, put}
use terragrunt_demo.Recovery.Exact.{exact}
use terragrunt_demo.Recovery.Stable.{Immutable, Stands}

module _ (p : Ports) (j : Journal) where
  -- A read leaves what the storage left.
  pub read-world :
      (key : String) (object : Bool) (s : State p)
      → (read p j key object s).1 ≡ record s { world = (p.read_record (path p j key) s.world).1 }
  unfolding read ◌>>=◌ rescue port lift fail
  read-world key object s = elim (Result-cases (p.read_record (path p j key) s.world).0) [
    | inl (o, e) ↦ elim (Result-cases (unpacked p object o)) [
      | inl (v, f) ↦ rw (e, f)
      | inr (x, f) ↦ rw (e, f)
    ]
    | inr (x, e) ↦ rw e
  ]

  pub read-some :
      (key : String) (object : Bool) (s : State p) (v : Value)
      → (read p j key object s).0 ≡ ok (some v)
      → (o : Observed p.Raw) × ((p.read_record (path p j key) s.world).0 ≡ ok (some o))
  unfolding read ◌>>=◌ rescue port lift fail
  read-some key object s v h = elim (Result-cases (p.read_record (path p j key) s.world).0) [
    | inl (none, e) ↦ absurd (ground arith)
    | inl (some o, e) ↦ (o, e)
    | inr (x, e) ↦ absurd (ground arith)
  ]

  pub read-none :
      (key : String) (object : Bool) (s : State p)
      → (read p j key object s).0 ≡ ok none
      → (p.read_record (path p j key) s.world).0 ≡ ok none
  unfolding read ◌>>=◌ rescue port lift fail
  read-none key object s h = elim (Result-cases (p.read_record (path p j key) s.world).0) [
    | inl (none, e) ↦ e
    | inl (some o, e) ↦ absurd (ground arith)
    | inr (x, e) ↦ absurd (ground arith)
  ]

  module _ (laws : Immutable p) where
    -- An object that was found stands.
    pub read-Stands :
        (key : String) (object : Bool) (s : State p) (v : Value)
        → (read p j key object s).0 ≡ ok (some v)
        → Stands p laws (read p j key object s).1.world (path p j key)
    read-Stands key object s v h =
        let (o, found) = read-some key object s v h in
        subst (λ (t : State p). Stands p laws t.world (path p j key))
          (sym (read-world key object s)) (o, laws.read_finds s.world (path p j key) o found)

    checked :
        (key : String) (v : Value) (found : Option Value) (t : State p) (u : Value)
        → (choose found (fail (Raised.journal key)) (λ w. lift (exact w v) >> pure w) t).0 ≡ ok u
        → (w : Value) × (found ≡ some w)
          × ((choose found (fail (Raised.journal key)) (λ w. lift (exact w v) >> pure w) t).1 ≡ t)
    unfolding ◌>>=◌
    checked key v none t u h = absurd (raise≢ok h)
    checked key v (some w) t u h = elim (Result-cases (exact w v)) [
      | inl (a, e) ↦ (w, refl, rw e)
      | inr (x, e) ↦ absurd (raise≢ok (rw e at h))
    ]

    -- A write that returned has its object stand.
    pub put-Stands :
        (key : String) (v : Value) (s : State p) (u : Value)
        → (put p j key v s).0 ≡ ok u
        → Stands p laws (put p j key v s).1.world (path p j key)
    unfolding put
    put-Stands key v s u h =
        let (_, _, e1, h1) = returned _ _ s h in
        let (found, r, e2, h2) = returned _ _ _ h1 in
        let (w, is, same) = checked key v found _ u h2 in
        subst (λ (t : State p). Stands p laws t.world (path p j key))
          (sym (ap (λ x. x.1) (e1 ∙ e2) ∙ same)) (read-Stands key false _ w (r ∙ ap ok is))
