-- ===== src/ApiServer/Invariant/Stored.antt =====
-- mvp/internal/store/store.go: the methods that write services, users and
-- CustomResourceDefinitions keep the invariant, if what they are given is as the invariant asks.
use kubernetes_style_orchest.Prelude.{
  ℕ, String, ◌==◌, string_eq, ◌≢◌, refl, arith, any, not, ◌&&◌, Bool-cases, inl, inr,
}
use kubernetes_style_orchest.Api.{Service, User, Crd}
use kubernetes_style_orchest.Db.{ServiceRow, UserRow, CrdRow}
use kubernetes_style_orchest.Sql.{
  Result, ok, err, not_found, failed, after, attempt, ignore, require_row, insert_or_update,
  insert_into, update_where, delete_where,
}
use kubernetes_style_orchest.Sql.{insert_or_update_unique}
use kubernetes_style_orchest.Sql.Reads.{Reads-attempt}
use kubernetes_style_orchest.Sql.Everywhere.{
  insert_or_update-Everywhere, insert_into-Everywhere, update_where-Everywhere,
  delete_where-Everywhere,
}
use kubernetes_style_orchest.Store.Tables.{services, users, crds, endpoints, ns_or_default}
use kubernetes_style_orchest.Store.Services.{
  get_service, upsert_service, upsert_service_after, delete_service,
}
use kubernetes_style_orchest.Store.Custom.{upsert_crd, delete_crd, delete_custom_resources_of}
use kubernetes_style_orchest.Store.Access.{upsert_user, same_token}
use kubernetes_style_orchest.Store.Reading.{get_service-Reads}
use kubernetes_style_orchest.ApiServer.Invariant.{
  IsBounded, HasIp, HasToken, IsHook, IsServed, Keeps, Consistent-Aside,
}
use kubernetes_style_orchest.ApiServer.Invariant.Keeping.{
  Reads-Keeps, attempt-Keeps, bind-Keeps, require_row-Keeps, each-Keeps, still,
}

add_service-Keeps :
    (name : String) (row : ServiceRow) → HasIp row → Keeps (insert_into services name row)
unfolding insert_into
add_service-Keeps name row q =
    each-Keeps (insert_into services name row) (λ s. still IsBounded s.hpas _ (ground arith))
      (insert_into-Everywhere HasIp services ((λ x s. refl), (λ n s. refl)) name row q)
      (λ s. still HasToken s.users _ (ground arith))
      (λ s. still IsHook s.admission_webhooks _ (ground arith))
      (λ s. still IsServed s.crds _ (ground arith))

change_service-Keeps :
    (name : String) (f : ServiceRow → ServiceRow)
    → ((r : ServiceRow) → HasIp r → HasIp (f r))
    → Keeps (update_where services name f)
unfolding update_where
change_service-Keeps name f g =
    each-Keeps (update_where services name f) (λ s. still IsBounded s.hpas _ (ground arith))
      (update_where-Everywhere HasIp services ((λ x s. refl), (λ n s. refl)) name f g)
      (λ s. still HasToken s.users _ (ground arith))
      (λ s. still IsHook s.admission_webhooks _ (ground arith))
      (λ s. still IsServed s.crds _ (ground arith))

upsert_service_after-Keeps :
    (now : ℕ) (svc : Service) (o : Result Service) → Keeps (upsert_service_after now svc o)
unfolding upsert_service_after
upsert_service_after-Keeps now svc (ok existing) =
    let f : ServiceRow → ServiceRow = λ r. record r {
      namespace = ns_or_default svc.metadata.namespace;
      spec = record svc.spec { cluster_ip = existing.spec.cluster_ip };
      metadata = svc.metadata;
      status = existing.status;
      cluster_ip = existing.spec.cluster_ip;
      last_updated = now;
    } in
    bind-Keeps (update_where services svc.metadata.name f) _
      (change_service-Keeps svc.metadata.name f (λ r q. refl)) (λ n s k. k)
upsert_service_after-Keeps now svc (err not_found) = add_service-Keeps svc.metadata.name _ refl
upsert_service_after-Keeps now svc (err failed) = λ s k. k

pub upsert_service-Keeps : (now : ℕ) (svc : Service) → Keeps (upsert_service now svc)
unfolding upsert_service
upsert_service-Keeps now svc =
    bind-Keeps (attempt (get_service svc.metadata.name)) _
      (Reads-Keeps (attempt (get_service svc.metadata.name))
        (Reads-attempt (get_service svc.metadata.name) (get_service-Reads svc.metadata.name)))
      (upsert_service_after-Keeps now svc)

remove_service-Keeps : (name : String) → Keeps (delete_where services name)
unfolding delete_where
remove_service-Keeps name =
    each-Keeps (delete_where services name) (λ s. still IsBounded s.hpas _ (ground arith))
      (delete_where-Everywhere HasIp services ((λ x s. refl), (λ n s. refl)) name)
      (λ s. still HasToken s.users _ (ground arith))
      (λ s. still IsHook s.admission_webhooks _ (ground arith))
      (λ s. still IsServed s.crds _ (ground arith))

remove_endpoints-Keeps : (name : String) → Keeps (delete_where endpoints name)
unfolding delete_where
remove_endpoints-Keeps name s =
    Consistent-Aside s (after (delete_where endpoints name s))
      (ground arith, ground arith, ground arith, ground arith, ground arith)

pub delete_service-Keeps : (name : String) → Keeps (delete_service name)
unfolding delete_service
delete_service-Keeps name =
    bind-Keeps (delete_where services name) _ (remove_service-Keeps name) (λ n.
      bind-Keeps (require_row n) _ (require_row-Keeps n) (λ u.
        bind-Keeps (ignore (delete_where endpoints name)) _
          (bind-Keeps (attempt (delete_where endpoints name)) _
            (attempt-Keeps (delete_where endpoints name) (remove_endpoints-Keeps name))
            (λ r s k. k))
          (λ r s k. k)))

insert_crd-Keeps :
    (name : String) (row : CrdRow) (f : CrdRow → CrdRow)
    → IsServed row
    → ((r : CrdRow) → IsServed r → IsServed (f r))
    → Keeps (insert_or_update crds name row f)
unfolding insert_or_update
insert_crd-Keeps name row f q g =
    each-Keeps (insert_or_update crds name row f) (λ s. still IsBounded s.hpas _ (ground arith))
      (λ s. still HasIp s.services _ (ground arith)) (λ s. still HasToken s.users _ (ground arith))
      (λ s. still IsHook s.admission_webhooks _ (ground arith))
      (insert_or_update-Everywhere IsServed crds ((λ x s. refl), (λ n s. refl)) name row f q g)

pub upsert_crd-Keeps :
    (now : ℕ) (c : Crd)
    → c.spec.group ≢ ""
    → c.spec.version ≢ ""
    → c.spec.names.plural ≢ ""
    → c.spec.names.kind ≢ ""
    → Keeps (upsert_crd now c)
unfolding upsert_crd
upsert_crd-Keeps now c g v p k =
    insert_crd-Keeps c.metadata.name _ _ (g, v, p, k, refl) (λ r q. (g, v, p, k, refl))

remove_crd-Keeps : (name : String) → Keeps (delete_where crds name)
unfolding delete_where
remove_crd-Keeps name =
    each-Keeps (delete_where crds name) (λ s. still IsBounded s.hpas _ (ground arith))
      (λ s. still HasIp s.services _ (ground arith)) (λ s. still HasToken s.users _ (ground arith))
      (λ s. still IsHook s.admission_webhooks _ (ground arith))
      (delete_where-Everywhere IsServed crds ((λ x s. refl), (λ n s. refl)) name)

remove_resources-Keeps : (name : String) → Keeps (delete_custom_resources_of name)
unfolding delete_custom_resources_of
remove_resources-Keeps name s =
    Consistent-Aside s (after (delete_custom_resources_of name s))
      (ground arith, ground arith, ground arith, ground arith, ground arith)

pub delete_crd-Keeps : (name : String) → Keeps (delete_crd name)
unfolding delete_crd
delete_crd-Keeps name = bind-Keeps (delete_where crds name) _ (remove_crd-Keeps name) (λ n.
    bind-Keeps (require_row n) _ (require_row-Keeps n) (λ u.
      bind-Keeps (ignore (delete_custom_resources_of name)) _
        (bind-Keeps (attempt (delete_custom_resources_of name)) _
          (attempt-Keeps (delete_custom_resources_of name) (remove_resources-Keeps name))
          (λ r s k. k))
        (λ r s k. k)))

insert_user-Keeps :
    (name : String) (row : UserRow) (f : UserRow → UserRow)
    → HasToken row
    → ((r : UserRow) → HasToken r → HasToken (f r))
    → Keeps (insert_or_update users name row f)
unfolding insert_or_update
insert_user-Keeps name row f q g =
    each-Keeps (insert_or_update users name row f) (λ s. still IsBounded s.hpas _ (ground arith))
      (λ s. still HasIp s.services _ (ground arith))
      (insert_or_update-Everywhere HasToken users ((λ x s. refl), (λ n s. refl)) name row f q g)
      (λ s. still IsHook s.admission_webhooks _ (ground arith))
      (λ s. still IsServed s.crds _ (ground arith))

-- The statement on a UNIQUE column does what the plain one does, or nothing.
upsert_unique-Keeps :
    (name : String) (row : UserRow) (f : UserRow → UserRow)
    → HasToken row
    → ((r : UserRow) → HasToken r → HasToken (f r))
    → Keeps (insert_or_update_unique users same_token name row f)
unfolding insert_or_update_unique insert_or_update
upsert_unique-Keeps name row f q g s k =
    elim (Bool-cases (any (λ p. not (p.0 == name) && same_token p.1 row) s.users)) [
      | inl clash ↦
          Consistent-Aside s (after (insert_or_update_unique users same_token name row f s))
            (ground arith, ground arith, ground arith, ground arith, ground arith) k
      | inr free ↦ rw free (insert_user-Keeps name row f q g s k)
    ]

pub upsert_user-Keeps : (now : ℕ) (u : User) → u.token ≢ "" → Keeps (upsert_user now u)
unfolding upsert_user
upsert_user-Keeps now u token = upsert_unique-Keeps u.metadata.name _ _ token (λ r q. token)
