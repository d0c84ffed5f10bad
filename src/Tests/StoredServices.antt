-- ===== src/Tests/StoredServices.antt =====
-- mvp/internal/store/store.go: a service that is written again and deleted.
use kubernetes_style_orchest.Prelude.{
  suc, String, string_eq, ◌==◌, false, some, none, ◌≡◌, ◌≢◌, refl, inl, inr, ◌⊎◌, [], ◌∷◌,
  if◌then◌else◌, sym, Bool-cases,
}
use kubernetes_style_orchest.Api.{Service}
use kubernetes_style_orchest.Db.{Db, ServiceRow}
use kubernetes_style_orchest.Sql.{ok, err, failed, result, after}
use kubernetes_style_orchest.Sql.Rows.{select, affected}
use kubernetes_style_orchest.Store.Services.{upsert_service, delete_service}
use kubernetes_style_orchest.Store.Services.Rows.{
  upserted, select-upsert_service, IpsAgree, upsert_service-IpsAgree,
}
use kubernetes_style_orchest.Store.Services.Cascade.{delete_service_lem}
use kubernetes_style_orchest.Tests.Data.{no_rows, named}

abbrev web : Service
web = record {
  api_version = "v1";
  kind = "Service";
  metadata = named "web" [];
  spec = record {
    selector = ("app", "web") ∷ [];
    ports = [];
    type = "ClusterIP";
    cluster_ip = "127.20.0.9";
  };
  status = record { last_updated = 0 };
}

abbrev web_row : ServiceRow
web_row = record {
  namespace = "default";
  spec = record { selector = []; ports = []; type = "ClusterIP"; cluster_ip = "127.20.0.2" };
  metadata = named "web" [];
  status = record { last_updated = 1 };
  cluster_ip = "127.20.0.2";
  created_at = 1;
  last_updated = 1;
}

abbrev one_service : Db
one_service = record no_rows {
  services = ("web", web_row) ∷ [];
  endpoints =
      (
        "web",
        record { namespace = "default"; metadata = named "web" []; subsets = []; last_updated = 1 },
      )
      ∷ [];
}

select-upsert_service_example :
    ((result (upsert_service 9 web one_service) ≡ ok tt)
      × ((k : String)
          → select k (after (upsert_service 9 web one_service)).services ≡ (
              if web.metadata.name == k
              then some (upserted 9 web (select web.metadata.name one_service.services))
              else select k one_service.services)))
    ⊎ ((result (upsert_service 9 web one_service) ≡ err failed)
        × ((after (upsert_service 9 web one_service)).services ≡ one_service.services))
select-upsert_service_example = select-upsert_service 9 web one_service

one_service-IpsAgree : IpsAgree one_service
unfolding select
one_service-IpsAgree k r e = elim (Bool-cases ("web" == k)) [
  | inl same ↦ let f : web_row ≡ r = cc (rw same at e) in rw (sym f) refl
  | inr other ↦ cc (rw other at e)
]

upsert_service-IpsAgree_example :
    IpsAgree (after (upsert_service 9 web one_service))
    × ((r : ServiceRow)
        → select web.metadata.name one_service.services ≡ some r
        → (q : ServiceRow) × (select web.metadata.name
              (after (upsert_service 9 web one_service)).services
            ≡ some q)
          × (q.spec.cluster_ip ≡ r.spec.cluster_ip))
upsert_service-IpsAgree_example = upsert_service-IpsAgree 9 web one_service one_service-IpsAgree

delete_service_lem_example :
    (select "web" (after (delete_service "web" one_service)).services ≡ none)
    × (one_service.fails (suc one_service.executed) ≡ false
        → select "web" (after (delete_service "web" one_service)).endpoints ≡ none)
    × ((k : String)
        → "web" ≢ k
        → (select k (after (delete_service "web" one_service)).services
            ≡ select k one_service.services)
          × (select k (after (delete_service "web" one_service)).endpoints
              ≡ select k one_service.endpoints))
unfolding delete_service affected
delete_service_lem_example = delete_service_lem "web" one_service refl
