-- ===== src/ApiServer/Http/Writing.antt =====
-- mvp/cmd/apiserver/main.go: what a handler that answers 201 has done.
use kubernetes_style_orchest.Prelude.{
  ℕ, String, string_eq, Option, some, Option-cases, ◌≡◌, refl, inl, inr,
}
use kubernetes_style_orchest.Db.{Db}
use kubernetes_style_orchest.Sql.{
  M, Run, returns, raises, Result, ok, err, result, after, proceed, caught, attempt, pure,
}
use kubernetes_style_orchest.Sql.Reads.{Reads, Reads-attempt, Reads-bind, SameTables}
use kubernetes_style_orchest.ApiServer.Http.{
  HttpRequest, Reply, error, object, reply_read_back, with_body, after_write,
}

-- The reply is 201, with whatever was read back.
abbrev pub IsCreated : {A : Type 0} → Run (Reply A) → Type 0
IsCreated {A = A} x = (out : Option A) × (result x ≡ ok (object 201 out))

module _ {A : Type 0} where
  pub reply_read_back-Reads : (code : ℕ) (m : M A) → Reads m → Reads (reply_read_back code m)
  unfolding reply_read_back
  reply_read_back-Reads code m h = Reads-bind (attempt m) _ (Reads-attempt m h) (λ x s. refl)

  -- After a write that worked, the handler goes on from its tables.
  pub after_write_created :
      (m : M (Unit {0})) (next : M (Reply A)) (s : Db)
      → Reads next
      → IsCreated (after_write m next s)
      → (result (m s) ≡ ok tt) × SameTables (after (m s)) (after (after_write m next s))
  unfolding after_write
  after_write_created m next s reads h = by_run (m s) h
    where
      write : Result (Unit {0}) → M (Reply A)
      write (ok u) = next
      write (err e) = pure (error 500)

      by_run :
          (x : Run (Unit {0}))
          → IsCreated (proceed write (caught x))
          → (result x ≡ ok tt) × SameTables (after x) (after (proceed write (caught x)))
      by_run (returns u t) k = (refl, reads t)
      by_run (raises e t) k = cc k.1

  pub with_body_created :
      {B : Type 0} (read : String → Option B) (r : HttpRequest) (next : B → M (Reply A)) (s : Db)
      → IsCreated (with_body read r next s)
      → (text : String) × (x : B) × (r.body ≡ some text)
        × (read text ≡ some x)
        × (with_body read r next s ≡ next x s)
  unfolding with_body
  with_body_created read r next s (out, h) = elim (Option-cases r.body) [
    | inl e ↦ cc (rw (e, with_body) at h)
    | inr (text, e) ↦ elim (Option-cases (read text)) [
      | inl f ↦ cc (rw (e, f, with_body) at h)
      | inr (x, f) ↦ (text, x, e, f, rw (e, f, with_body) refl)
    ]
  ]
