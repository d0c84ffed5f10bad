-- ===== src/ApiServer/Http/Reading.antt =====
-- mvp/cmd/apiserver/main.go: replies that only read, and requests with the method GET.
use kubernetes_style_orchest.Prelude.{
  String, ◌==◌, string_eq, Option, none, some, List, ◌≡◌, refl, Bool-cases, inl, inr,
}
use kubernetes_style_orchest.Sql.{M, attempt}
use kubernetes_style_orchest.Sql.Reads.{Reads, Reads-attempt, Reads-bind}
use kubernetes_style_orchest.ApiServer.Http.{
  HttpRequest, Reply, reply_items, reply_object, get_or_post, get_or_delete, put_or_patch,
}

abbrev pub IsGet : HttpRequest → Type 0
IsGet r = r.method ≡ "GET"

module _ {A : Type 0} where
  pub reply_items-Reads : (m : M (List A)) → Reads m → Reads (reply_items m)
  unfolding reply_items
  reply_items-Reads m h = Reads-bind (attempt m) _ (Reads-attempt m h) (λ x s. refl)

  pub reply_object-Reads : (m : M A) → Reads m → Reads (reply_object m)
  unfolding reply_object
  reply_object-Reads m h = Reads-bind (attempt m) _ (Reads-attempt m h) (λ x s. refl)

  module _ (r : HttpRequest) (get : IsGet r) where
    pub get_or_post-Reads : (m n : M (Reply A)) → Reads m → Reads (get_or_post r m n)
    get_or_post-Reads m n h = rw get h

    pub get_or_delete-Reads :
        (name : String) (m n : M (Reply A)) → Reads m → Reads (get_or_delete r name m n)
    get_or_delete-Reads name m n h = elim (Bool-cases (name == "")) [
      | inl e ↦ rw e (λ s. refl)
      | inr e ↦ rw (e, get) h
    ]

    pub put_or_patch-Reads : (m : M (Reply A)) → Reads (put_or_patch r m)
    put_or_patch-Reads m = rw get (λ s. refl)

    -- The handlers of `…/name` and `…/name/status`.
    pub by_name-Reads :
        (o : Option String) (name : String) (update : String → M (Reply A)) (m n : M (Reply A))
        → Reads m
        → Reads (elim o [ some k ↦ put_or_patch r (update k) | none ↦ get_or_delete r name m n ])
    by_name-Reads none name update m n h = get_or_delete-Reads name m n h
    by_name-Reads (some k) name update m n h = put_or_patch-Reads (update k)
