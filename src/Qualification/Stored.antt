-- ===== src/Qualification/Stored.antt =====
-- What scripts/qualification/finalizer.py has found in the protected storage: documents of the form
-- of their kind, the bytes of a manifest, the record that reads back.
use mathlib.Core.Path.{subst}
use terragrunt_demo.Common.{
  String, ◌≡◌, refl, ap, ◌∙◌, true, ok, ok-injective, raise≢ok, require-ok,
}
use terragrunt_demo.Common.Action.{fail, lift, rescue, pure, step-then, lift-then}
use terragrunt_demo.Json.{Value, str, obj, Fields, end, item}
use terragrunt_demo.Qualification.Checks.{Contracts, at, matches}
use terragrunt_demo.Qualification.Agreement.{Shows, matches-Shows}
use terragrunt_demo.Qualification.Finalizer.{
  Ports, Receipt, receipt, malformed, decode, conforms, validate, check_receipt, read_manifest,
  identified, record_key, persist,
}

module _ (p : Ports) (c : Contracts) where
  -- The value has the form of its kind.
  pub record Conforms (kind : String) (value : Value) : Type 0 where
    pub schema : Value
    pub of_kind : item c.definitions kind ≡ ok schema
    pub valid : conforms p c c.definitions value schema ≡ ok tt

  pub validate-Conforms :
      (kind : String) (value : Value) (w : p.World) {u : Unit {0}}
      → (validate p c kind value w).0 ≡ ok u
      → Conforms kind value
  unfolding validate lift
  validate-Conforms kind value w h =
      let (schema, found, h1) = lift-then (item c.definitions kind) _ w h in
      record { schema = schema; of_kind = found; valid = h1 }

  -- The evidence gave these bytes for the bucket, the key and the version that the manifest names, as
  -- those of that very bucket, key and version, and they have its digest.
  pub record Fetched (manifest : Value) (bytes : p.Raw) : Type 0 where
    pub bucket : Value
    pub key : Value
    pub version_id : Value
    pub names_bucket : at manifest "bucket" ≡ ok bucket
    pub names_key : at manifest "key" ≡ ok key
    pub names_version : at manifest "version_id" ≡ ok version_id
    pub own_bucket : Value
    pub own_key : Value
    pub own_version : Value
    pub before : p.World
    pub answered :
        (p.manifest bucket key version_id before).0
        ≡ ok (receipt own_bucket own_key own_version bytes)
    pub same_bucket : Shows manifest "bucket" own_bucket
    pub same_key : Shows manifest "key" own_key
    pub same_version : Shows manifest "version_id" own_version
    pub digest : Shows manifest "sha256" (str (p.sha bytes))

  -- The stored manifest that the result names, with its bytes and what they say.
  pub record Stored (manifest candidate : Value) : Type 0 where
    pub bytes : p.Raw
    pub fetched : Fetched manifest bytes
    pub decoded : decode p c bytes ≡ ok candidate
    pub valid : conforms p c end candidate c.release_manifest ≡ ok tt

  -- A receipt of the named object, with the bytes.
  record Matching (manifest : Value) (found : Receipt p.Raw) (bytes : p.Raw) : Type 0 where
    own_bucket : Value
    own_key : Value
    own_version : Value
    is : found ≡ receipt own_bucket own_key own_version bytes
    same_bucket : Shows manifest "bucket" own_bucket
    same_key : Shows manifest "key" own_key
    same_version : Shows manifest "version_id" own_version
    digest : Shows manifest "sha256" (str (p.sha bytes))

  check_receipt-Matching :
      (manifest : Value) (found : Receipt p.Raw) (w : p.World) (bytes : p.Raw)
      → (check_receipt p c manifest found w).0 ≡ ok bytes
      → Matching manifest found bytes
  unfolding check_receipt pure fail
  check_receipt-Matching manifest malformed w bytes h = absurd (raise≢ok h)
  check_receipt-Matching manifest (receipt bucket key version_id found) w bytes h =
      let (_, of_bucket, h1) = lift-then (matches manifest "bucket" bucket) _ w h in
      let (_, of_key, h2) = lift-then (matches manifest "key" key) _ w h1 in
      let (_, of_version, h3) = lift-then (matches manifest "version_id" version_id) _ w h2 in
      let (_, digest, done) = lift-then (matches manifest "sha256" (str (p.sha found))) _ w h3 in
      subst (Matching manifest (receipt bucket key version_id found)) (ok-injective done) (record {
        own_bucket = bucket;
        own_key = key;
        own_version = version_id;
        is = refl;
        same_bucket = matches-Shows manifest _ _ of_bucket;
        same_key = matches-Shows manifest _ _ of_key;
        same_version = matches-Shows manifest _ _ of_version;
        digest = matches-Shows manifest _ _ digest;
      })

  pub read_manifest-Fetched :
      (manifest : Value) (w : p.World) (bytes : p.Raw)
      → (read_manifest p c manifest w).0 ≡ ok bytes
      → Fetched manifest bytes
  unfolding read_manifest
  read_manifest-Fetched manifest w bytes h =
      let (bucket, names_bucket, h1) = lift-then (at manifest "bucket") _ w h in
      let (key, names_key, h2) = lift-then (at manifest "key") _ w h1 in
      let (version_id, names_version, h3) = lift-then (at manifest "version_id") _ w h2 in
      let (found, told, h4) = step-then (p.manifest bucket key version_id) _ w h3 in
      let m = check_receipt-Matching manifest found _ bytes h4 in
      record {
        bucket = bucket;
        key = key;
        version_id = version_id;
        names_bucket = names_bucket;
        names_key = names_key;
        names_version = names_version;
        own_bucket = m.own_bucket;
        own_key = m.own_key;
        own_version = m.own_version;
        before = w;
        answered = told ∙ ap ok m.is;
        same_bucket = m.same_bucket;
        same_key = m.same_key;
        same_version = m.same_version;
        digest = m.digest;
      }

  -- The record has the form of a qualification, and reads back from its key byte by byte.
  pub record Persisted (body returned : Fields) : Type 0 where
    pub is : returned ≡ identified p c body
    pub form : Conforms "qualification" (obj returned)
    pub before : p.World
    pub found : p.Raw
    pub read_back : (p.read (record_key p c body) before).0 ≡ ok found
    pub same : p.same_raw found (p.canonical (obj returned)) ≡ true

  pub persist-Persisted :
      (body : Fields) (w : p.World) (returned : Fields)
      → (persist p c body w).0 ≡ ok returned
      → Persisted body returned
  unfolding persist pure
  persist-Persisted body w returned h =
      let key = record_key p c body in
      let (_, form, h1) =
        step-then (validate p c "qualification" (obj (identified p c body))) _ w h in
      let (_, _, h2) = step-then (rescue (p.create key _) _) _ _ h1 in
      let (found, read_back, h3) = step-then (p.read key) _ _ h2 in
      let (_, same, done) = lift-then _ _ _ h3 in
      let e = ok-injective done in
      subst (Persisted body) e (record {
        is = refl;
        form = validate-Conforms "qualification" (obj (identified p c body)) _ form;
        before = _;
        found = found;
        read_back = read_back;
        same = require-ok _ same;
      })
