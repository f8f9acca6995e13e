-- ===== src/Recovery/Entries.antt =====
-- The stored values that `read` and `put` of scripts/recovery/journal.py come from.
use mathlib.Core.Path.{subst}
use mathlib.Core.Option.{some-injective}
use terragrunt_demo.Common.{
  String, ◌≡◌, refl, ap, ◌∙◌, sym, Bool, false, Option, none, some, arith, ok, Raised, raise≢ok,
  Result-cases, inl, inr, ok-injective, require-then, returned-bind,
}
use terragrunt_demo.Common.Action.{pure, fail, lift, rescue, choose, ◌>>=◌, ◌>>◌}
use terragrunt_demo.Common.Action.Keeps.{
  Any, Reaches-Any, Reaches-from, Reaches-pure, Reaches-fail, Keeps-lift, Reaches, Reaches-bind,
  Reaches-ok, Reaches-then, Reaches-weak,
}
use terragrunt_demo.Json.{Value}
use terragrunt_demo.Recovery.Exact.{exact, is_version}
use terragrunt_demo.Recovery.Ports.{Ports, Observed, observed, malformed, State, port}
use terragrunt_demo.Recovery.Intent.{Journal, decode, is_object, opened}
use terragrunt_demo.Recovery.Journal.{path, read, put}
use terragrunt_demo.Recovery.Stable.{Immutable}
use terragrunt_demo.Recovery.Reads.{read-world}

module _ (p : Ports) (j : Journal) where
  -- A read that does not insist on a dictionary finds the same value.
  opened-dict :
      (object : Bool) (o : Observed p.Raw) (w : Value)
      → opened p object o ≡ ok w
      → opened p false o ≡ ok w
  unfolding opened
  opened-dict object malformed w f = absurd (raise≢ok f)
  opened-dict object (observed version_id bytes) w f =
      let (version, f1) = require-then (is_version version_id) _ f in
      let (value, decoded, f2) = returned-bind (decode p bytes) _ f1 in
      let (canonical, f3) = require-then (p.same_raw (p.canonical value) bytes) _ f2 in
      let (_, f4) = require-then (is_object object value) _ f3 in
      rw (version, decoded, canonical) f4

  -- What a read that found something says of the stored object.
  pub read-opened :
      (key : String) (object : Bool) (s : State p) (v : Value)
      → (read p j key object s).0 ≡ ok (some v)
      → (o : Observed p.Raw) × ((p.read_record (path p j key) s.world).0 ≡ ok (some o))
        × (opened p false o ≡ ok v)
  unfolding read ◌>>=◌ rescue port lift fail
  read-opened key object s v h = elim (Result-cases (p.read_record (path p j key) s.world).0) [
    | inl (none, e) ↦ absurd (ground arith)
    | inl (some o, e) ↦ elim (Result-cases (opened p object o)) [
      | inl (w, f) ↦ (
        o,
        e,
        opened-dict object o w f ∙ ap ok (some-injective _ _ (ok-injective (rw (e, f) at h))),
      )
      | inr (x, f) ↦ absurd (raise≢ok (rw (e, f) at h))
    ]
    | inr (x, e) ↦ absurd (ground arith)
  ]

  module _ (laws : Immutable p) where
    -- The stored object of a value.
    abbrev pub Entry : String → Value → State p → Type 0
    Entry key v s =
        (o : Observed p.Raw) × laws.Holds s.world (path p j key) o × (opened p false o ≡ ok v)

    pub read-Entry :
        (key : String) (object : Bool)
        → Reaches Any
            (read p j key object)
            (λ found s. (v : Value) → found ≡ some v → Entry key v s)
            Any
    read-Entry key object =
        Reaches-then
          (Reaches-ok (read p j key object) (record { at = λ s h. tt })
            λ s found h r v is.
              let (o, e, f) = read-opened key object s v (r ∙ ap ok is) in
              (
                o,
                subst (λ (t : State p). laws.Holds t.world (path p j key) o)
                    (sym (read-world p j key object s))
                    (laws.read_finds s.world (path p j key) o e),
                f,
              ))
          (λ a s h. h.1) (λ s h. h)

    pub put-Entry :
        (key : String) (value : Value) → Reaches Any (put p j key value) (λ v s. Entry key v s) Any
    unfolding put
    put-Entry key value =
        Reaches-bind _ _ (Reaches-Any _)
          λ u. Reaches-bind _ _ (read-Entry key false) λ found. checked found
      where
        checked :
            (found : Option Value)
            → Reaches
                (λ s. (v : Value) → found ≡ some v → Entry key v s)
                (choose found (fail (Raised.journal key)) (λ v. do lift (exact v value); pure v))
                (λ v s. Entry key v s)
                Any
        checked none = Reaches-from (λ s h. tt) (Reaches-fail _ (λ s h. h))
        checked (some v) =
            Reaches-from (λ s h. h v refl)
              (Reaches-bind _ _ (Reaches-weak _ (Keeps-lift _) (λ a s h. h) (λ s h. tt))
                λ u. Reaches-pure v (λ s h. h))
