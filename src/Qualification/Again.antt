-- ===== src/Qualification/Again.antt =====
-- A second `finalize` of scripts/qualification/finalizer.py for the same wakeup.
use mathlib.Core.Path.{subst}
use terragrunt_demo.Common.{
  String, ◌≡◌, ap, sym, ◌∙◌, Option, some, if◌then◌else◌, ok, raise, Raised, Result, require,
}
use terragrunt_demo.Common.Action.{Action, pure, fail, lift, rescue, ◌>>=◌, ◌>>◌, returned}
use terragrunt_demo.Json.{Value, obj, Fields}
use terragrunt_demo.Qualification.Checks.{Contracts, Finalizer}
use terragrunt_demo.Qualification.Finalizer.{
  Ports, Receipt, receipt, malformed, is_conflict, validate, check_receipt, read_manifest,
  identified, record_key, persist, qualify, finalize_from, finalize,
}
use terragrunt_demo.Qualification.Steady.{
  Steady, Steady-lift, Steady-fail, Steady-pure, Steady-bind, steps-bind, raises-rescue, Repeats,
  Repeats-after, Repeats-rescue,
}

-- What the docstrings of `Evidence` and `Qualifications` promise: the evidence is protected records
-- that are only read; a qualification is read exactly as it is stored, and a write where one stands
-- raises `FileExistsError`.
pub record Protected (p : Ports) : Type 0 where
  pub operation : (id : Value) → Steady (p.operation id)
  pub build : (id : Value) → Steady (p.build id)
  pub result : (id build_id : Value) → Steady (p.result id build_id)
  pub manifest : (bucket key version_id : Value) → Steady (p.manifest bucket key version_id)
  pub stored : p.World → String → Option p.Raw
  pub reads :
      (key : String) (w v : p.World) (raw : p.Raw)
      → p.read key w ≡ (ok raw, v)
      → (stored w key ≡ some raw) × (v ≡ w)
  pub rereads :
      (key : String) (w : p.World) (raw : p.Raw)
      → stored w key ≡ some raw
      → p.read key w ≡ (ok raw, w)
  pub refuses :
      (key : String) (raw held : p.Raw) (w : p.World)
      → stored w key ≡ some held
      → p.create key raw w ≡ (raise Raised.file_exists, w)

module _ (p : Ports) (laws : Protected p) (c : Contracts) where
  -- No stored qualification is gone or different.
  abbrev pub Later : p.World → p.World → Type 0
  Later w v =
      (key : String) (raw : p.Raw) → laws.stored w key ≡ some raw → laws.stored v key ≡ some raw

  validate-Steady : (kind : String) (value : Value) → Steady (validate p c kind value)
  unfolding validate
  validate-Steady kind value = Steady-bind _ _ (Steady-lift _) (λ schema. Steady-lift _)

  check_receipt-Steady :
      (manifest : Value) (found : Receipt p.Raw) → Steady (check_receipt p c manifest found)
  unfolding check_receipt
  check_receipt-Steady manifest malformed = Steady-fail _
  check_receipt-Steady manifest (receipt bucket key version_id bytes) =
      Steady-bind _ _ (Steady-lift _) λ _. Steady-bind _ _ (Steady-lift _) λ _.
        Steady-bind _ _ (Steady-lift _)
          λ _. Steady-bind _ _ (Steady-lift _) (λ _. Steady-pure bytes)

  read_manifest-Steady : (manifest : Value) → Steady (read_manifest p c manifest)
  unfolding read_manifest
  read_manifest-Steady manifest = Steady-bind _ _ (Steady-lift _) λ bucket.
      Steady-bind _ _ (Steady-lift _) λ key. Steady-bind _ _ (Steady-lift _) λ version_id.
        Steady-bind _ _ (laws.manifest bucket key version_id) (check_receipt-Steady manifest)

  -- The last part of `persist`.
  confirm : Fields → p.Raw → Action p.World Fields
  confirm body found = do
    lift (require (p.same_raw found (p.canonical (obj (identified p c body)))))
    pure (identified p c body)

  write : Fields → Action p.World (Unit {0})
  write body =
      rescue (p.create (record_key p c body) (p.canonical (obj (identified p c body))))
        (λ e. if is_conflict e then pure tt else fail e)

  abbrev write_and_read : Fields → Action p.World Fields
  write_and_read body = do write body; found ← p.read (record_key p c body); confirm body found

  -- Where a record stands, a write changes nothing.
  held_again :
      (body : Fields) (found : p.Raw) (v : p.World)
      → laws.stored v (record_key p c body) ≡ some found
      → write_and_read body v ≡ confirm body found v
  unfolding write pure
  held_again body found v held =
      let key = record_key p c body in
      let raw = p.canonical (obj (identified p c body)) in
      let refused =
        raises-rescue (p.create key raw) _ v v Raised.file_exists
          (laws.refuses key raw found v held) in
      steps-bind (write body) _ v v tt refused
      ∙ steps-bind (p.read key) (confirm body) v v found (laws.rereads key v found held)

  confirm-Steady : (body : Fields) (found : p.Raw) → Steady (confirm body found)
  unfolding confirm
  confirm-Steady body found = Steady-bind _ _ (Steady-lift _) (λ _. Steady-pure _)

  written_again :
      (body : Fields) (w : p.World) (a : Fields)
      → (write_and_read body w).0 ≡ ok a
      → (v : p.World) → Later (write_and_read body w).1 v
      → write_and_read body v ≡ (ok a, v)
  written_again body w a h v later =
      let key = record_key p c body in
      let (_, _, e1, h1) = returned (write body) _ w h in
      let (found, read, e2, h2) = returned (p.read key) (confirm body) (write body w).1 h1 in
      let u = (write body w).1 in
      let x = (p.read key u).1 in
      let (held, same) = laws.reads key u x found (ap (λ r. (r, x)) read) in
      let steady = confirm-Steady body found in
      let ended : (write_and_read body w).1 ≡ u =
        ap (λ (y : Result Fields × p.World). y.1) (e1 ∙ e2 ∙ steady.gives x) ∙ same in
      let answer : steady.answer ≡ ok a =
        ap (λ (y : Result Fields × p.World). y.0) (sym (steady.gives x)) ∙ h2 in
      held_again body found v (subst (λ y. Later y v) ended later key found held)
      ∙ steady.gives v
      ∙ ap (λ r. (r, v)) answer

  persist-Repeats : (body : Fields) → Repeats Later (persist p c body)
  unfolding persist write confirm
  persist-Repeats body =
      Repeats-after Later _ _ (validate-Steady "qualification" (obj (identified p c body)))
        (λ _. record { again = written_again body })

  qualify-Repeats :
      (self : Finalizer) (op result manifest : Value)
      → Repeats Later (qualify p c self op result manifest)
  unfolding qualify
  qualify-Repeats self op result manifest =
      Repeats-after Later _ _ (read_manifest-Steady manifest) λ bytes.
        Repeats-after Later _ _ (Steady-lift _) λ candidate.
          Repeats-after Later _ _ (Steady-lift _) λ _.
            Repeats-after Later _ _ (Steady-lift _)
              λ _. Repeats-after Later _ _ (Steady-lift _) persist-Repeats

  finalize_from-Repeats :
      (self : Finalizer) (wakeup : Value) → Repeats Later (finalize_from p c self wakeup)
  unfolding finalize_from
  finalize_from-Repeats self wakeup = Repeats-after Later _ _ (validate-Steady "wakeup" wakeup) λ _.
      Repeats-after Later _ _ (Steady-lift _) λ woken.
        Repeats-after Later _ _ (laws.operation woken) λ op.
          Repeats-after Later _ _ (validate-Steady "operation" op) λ _.
            Repeats-after Later _ _ (Steady-lift _) λ _.
              Repeats-after Later _ _ (Steady-lift _) λ build_id.
                Repeats-after Later _ _ (laws.build build_id) λ build.
                  Repeats-after Later _ _ (validate-Steady "build" build) λ _.
                    Repeats-after Later _ _ (Steady-lift _) λ operation_id.
                      Repeats-after Later _ _ (laws.result operation_id build_id) λ result.
                        Repeats-after Later _ _ (validate-Steady "result" result) λ _.
                          Repeats-after Later _ _ (Steady-lift _) (qualify-Repeats self op result)

  -- Once a wakeup was finalized, finalizing it again, in any later state of the storage, returns the
  -- same record and changes nothing.
  pub finalize_again :
      (self : Finalizer) (wakeup : Value) (w : p.World) (returned : Fields)
      → (finalize p c self wakeup w).0 ≡ ok returned
      → (v : p.World) → Later (finalize p c self wakeup w).1 v
      → finalize p c self wakeup v ≡ (ok returned, v)
  unfolding finalize
  finalize_again self wakeup w returned h v later =
      (Repeats-rescue Later (finalize_from p c self wakeup) Raised.rejected
          (finalize_from-Repeats self wakeup)).again
        w returned h v later
