-- ===== src/Mutation/Sending.antt =====
-- What a call through `Client` of scripts/environment_mutation.py may do to the world.
use mathlib.Core.Path.{subst⁻¹}
use terragrunt_demo.Common.{
  ℕ, ◌<◌, String, ◌≡◌, ap, ◌∙◌, some, ◌⊎◌, inl, inr, arith, ltb, Bool-cases, Option-cases,
  Result-cases, Result, ok,
}
use terragrunt_demo.Common.Exec.{Exec}
use terragrunt_demo.Json.{Fields}
use terragrunt_demo.Mutation.Store.{Provider}
use terragrunt_demo.Mutation.Session.{Session, check, call}
use terragrunt_demo.Mutation.Client.{Client, prepare, send, invoke}

module _ (p : Provider) (ascii : p.Body → String) {A : Type 0} where
  -- The function ran: the invocation owned the domain at that moment, by its check, and the deadline
  -- had not passed.
  pub record Sent (c : Client) (clock : p.World → ℕ) (function : Fields → Exec p.World A)
      (kwargs : Fields) (s : Session p.World) (out : Result A × Session p.World) : Type 0 where
    pub etag : String
    pub owned : check p s ≡ ok etag
    pub deadline : ℕ
    pub bounded : c.deadline ≡ some deadline
    pub in_time : clock s.world < deadline
    pub result : out.0 ≡ (function kwargs s.world).0
    pub effect : out.1.world ≡ (function kwargs s.world).1

  call-send-Sent :
      (c : Client) (clock : p.World → ℕ) (function : Fields → Exec p.World A) (kwargs : Fields)
      (s : Session p.World)
      → ((call p (send p ascii c clock function kwargs) s).1.world ≡ s.world)
        ⊎ Sent c clock function kwargs s (call p (send p ascii c clock function kwargs) s)
  unfolding call send
  call-send-Sent c clock function kwargs s = elim (Result-cases (check p s)) [
    | inr (x, refused) ↦ inl (ground arith)
    | inl (etag, owned) ↦ elim (Option-cases c.deadline) [
      | inl unbounded ↦ inl (ground (arith, owned))
      | inr (d, bounded) ↦ elim (Bool-cases (ltb (clock s.world) d)) [
        | inr late ↦ inl (ground (arith, owned))
        | inl early ↦ inr (record {
          etag = etag;
          owned = owned;
          deadline = d;
          bounded = bounded;
          in_time = ground (arith, early);
          result = ground (arith, owned);
          effect = ground (arith, owned);
        })
      ]
    ]
  ]

  -- A call through the client changes no more than its preparation has changed, which is the proof
  -- of a schedule in the own document, or its function ran once, on the arguments that were prepared,
  -- for the owner of the domain and before the deadline.
  pub invoke-Sent :
      (c : Client) (clock : p.World → ℕ) (name : String) (function : Fields → Exec p.World A)
      (kwargs : Fields) (s : Session p.World)
      → ((invoke p ascii c clock name function kwargs s).1.world
          ≡ (prepare p ascii c name kwargs s).1.world)
        ⊎ ((prepared : Fields) × ((prepare p ascii c name kwargs s).0 ≡ ok prepared)
            × Sent c clock function prepared
                (prepare p ascii c name kwargs s).1
                (invoke p ascii c clock name function kwargs s))
  unfolding invoke
  invoke-Sent c clock name function kwargs s =
      elim (Result-cases (prepare p ascii c name kwargs s).0) [
        | inr (x, refused) ↦ inl (ground arith)
        | inl (prepared, done) ↦
            let s' = (prepare p ascii c name kwargs s).1 in
            let path : invoke p ascii c clock name function kwargs s
                ≡ call p (send p ascii c clock function prepared) s' =
              ground arith in
            elim (call-send-Sent c clock function prepared s') [
              | inl kept ↦ inl (ap (λ (o : Result A × Session p.World). o.1.world) path ∙ kept)
              | inr sent ↦
                  inr (prepared, done, subst⁻¹ (Sent c clock function prepared s') path sent)
            ]
      ]
