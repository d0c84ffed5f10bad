-- ===== src/ApiServer/Invariant/Replies.antt =====
-- mvp/cmd/apiserver/main.go: what the handlers repeat around a call of the store keeps the
-- invariant where the call does.
use kubernetes_style_orchest.Prelude.{
  ℕ, String, ◌==◌, string_eq, Bool, true, false, Option, none, some, List, [], ◌∷◌, ◌≡◌, ◌≢◌,
  Option-cases, inl, inr, if◌then◌else◌, sym, ==_iff, ◌∙◌, false≢true,
}
use kubernetes_style_orchest.Sql.{M, Result, ok, err, pure, attempt, ◌>>=◌}
use kubernetes_style_orchest.Sql.Reads.{Reads}
use kubernetes_style_orchest.ApiServer.Http.{
  HttpRequest, Reply, error, reply_deleted, reply_read_back, after_write, reply_updated, with_body,
  get_or_post, get_or_delete, put_or_patch,
}
use kubernetes_style_orchest.ApiServer.Http.Reading.{reply_object-Reads, reply_items-Reads}
use kubernetes_style_orchest.ApiServer.Http.{reply_object, reply_items}
use kubernetes_style_orchest.ApiServer.Invariant.{Keeps}
use kubernetes_style_orchest.ApiServer.Invariant.Keeping.{Reads-Keeps, attempt-Keeps, bind-Keeps}

pub if-Keeps : {A : Type 0} (b : Bool) (m n : M A) → Keeps m → Keeps n → Keeps (if b then m else n)
if-Keeps true m n h k = h
if-Keeps false m n h k = k

attempted-Keeps :
    {A B : Type 0} (m : M A) (f : Result A → M B)
    → Keeps m
    → ((r : Result A) → Keeps (f r))
    → Keeps (attempt m >>= f)
attempted-Keeps m f h g = bind-Keeps (attempt m) f (attempt-Keeps m h) g

pub reply_deleted-Keeps :
    (A : Type 0) (name : String) (m : M (Unit {0}))
    → Keeps m
    → Keeps {A = Reply A} (reply_deleted name m)
unfolding reply_deleted
reply_deleted-Keeps A name m h = attempted-Keeps m _ h (λ r s k. k)

module _ {A : Type 0} where
  pub reply_read_back-Keeps : (code : ℕ) (m : M A) → Reads m → Keeps (reply_read_back code m)
  unfolding reply_read_back
  reply_read_back-Keeps code m h = attempted-Keeps m _ (Reads-Keeps m h) (λ r s k. k)

  pub reply_object-Keeps : (m : M A) → Reads m → Keeps (reply_object m)
  reply_object-Keeps m h = Reads-Keeps (reply_object m) (reply_object-Reads m h)

  pub reply_items-Keeps : (m : M (List A)) → Reads m → Keeps (reply_items m)
  reply_items-Keeps m h = Reads-Keeps (reply_items m) (reply_items-Reads m h)

  pub after_write-Keeps :
      (m : M (Unit {0})) (next : M (Reply A)) → Keeps m → Keeps next → Keeps (after_write m next)
  unfolding after_write
  after_write-Keeps m next h k = attempted-Keeps m _ h reply
    where
      reply : (r : Result (Unit {0})) → Keeps (elim r [ ok u ↦ next | err e ↦ pure (error 500) ])
      reply (ok u) = k
      reply (err e) = λ s c. c

  pub reply_updated-Keeps :
      (m : M (Unit {0})) (get : M A) → Keeps m → Reads get → Keeps (reply_updated m get)
  unfolding reply_updated
  reply_updated-Keeps m get h g =
      attempted-Keeps m _ h (elim [ ok u ↦ reply_read_back-Keeps 200 get g | err e ↦ λ s c. c ])

  pub with_body-Keeps :
      {B : Type 0} (read : String → Option B) (r : HttpRequest) (next : B → M (Reply A))
      → ((x : B) → Keeps (next x))
      → Keeps (with_body read r next)
  unfolding with_body
  with_body-Keeps read r next h = elim (Option-cases r.body) [
    | inl e ↦ rw (e, with_body) (λ s c. c)
    | inr (text, e) ↦ elim (Option-cases (read text)) [
      | inl f ↦ rw (e, f, with_body) (λ s c. c)
      | inr (x, f) ↦ rw (e, f, with_body) (h x)
    ]
  ]

  module _ (r : HttpRequest) where
    pub get_or_post-Keeps : (m n : M (Reply A)) → Keeps m → Keeps n → Keeps (get_or_post r m n)
    get_or_post-Keeps m n h k =
        if-Keeps (r.method == "GET") m _ h (if-Keeps (r.method == "POST") n _ k (λ s c. c))

    pub get_or_delete-Keeps :
        (name : String) (m n : M (Reply A)) → Keeps m → Keeps n → Keeps (get_or_delete r name m n)
    get_or_delete-Keeps name m n h k =
        if-Keeps (name == "") _ _ (λ s c. c)
          (if-Keeps (r.method == "GET") m _ h (if-Keeps (r.method == "DELETE") n _ k (λ s c. c)))

    pub by_name-Keeps :
        (o : Option String) (name : String) (update : String → M (Reply A)) (m n : M (Reply A))
        → ((k : String) → Keeps (update k))
        → Keeps m
        → Keeps n
        → Keeps (elim o [ some k ↦ put_or_patch r (update k) | none ↦ get_or_delete r name m n ])
    by_name-Keeps none name update m n u h k = get_or_delete-Keeps name m n h k
    by_name-Keeps (some i) name update m n u h k =
        if-Keeps (r.method == "PUT") (update i) _ (u i)
          (if-Keeps (r.method == "PATCH") (update i) _ (u i) (λ s c. c))

-- `if len(cs) == 0` before the rest of a handler.
abbrev pub unless_empty : {A C : Type 0} → List C → M (Reply A) → M (Reply A)
unless_empty cs m = elim cs [ [] ↦ pure (error 400) | _ ∷ _ ↦ m ]

pub unless_empty-Keeps :
    {A C : Type 0} (cs : List C) (m : M (Reply A)) → Keeps m → Keeps (unless_empty cs m)
unless_empty-Keeps [] m h = λ s k. k
unless_empty-Keeps (c ∷ cs) m h = h

pub filled : (x : String) → (x == "") ≡ false → x ≢ ""
filled x e h = false≢true (sym e ∙ (==_iff x "").1 h)
