-- ===== src/Store/Services/Cascade.antt =====
-- mvp/internal/store/store.go: a service is deleted together with its endpoints.
use kubernetes_style_orchest.Prelude.{
  suc, String, false, string_eq, ==_iff, ==_refl, none, ◌≡◌, ◌≢◌, arith,
}
use kubernetes_style_orchest.Db.{Db}
use kubernetes_style_orchest.Sql.{ok, result, after}
use kubernetes_style_orchest.Sql.Rows.{select}
use kubernetes_style_orchest.Sql.Laws.{select-remove, affected-select}
use kubernetes_style_orchest.Store.Services.{delete_service}

-- A DeleteService that reports no error has removed the service, and its endpoints too unless the
-- driver failed the second statement, whose error is dropped; every other service and every other
-- endpoints row is as it was.
pub delete_service_lem :
    (name : String) (s : Db)
    → result (delete_service name s) ≡ ok tt
    → (select name (after (delete_service name s)).services ≡ none)
      × (s.fails (suc s.executed) ≡ false
          → select name (after (delete_service name s)).endpoints ≡ none)
      × ((k : String)
          → name ≢ k
          → (select k (after (delete_service name s)).services ≡ select k s.services)
            × (select k (after (delete_service name s)).endpoints ≡ select k s.endpoints))
unfolding delete_service
delete_service_lem name s h = (
  ground (arith, affected-select name s.services, select-remove name name s.services, ==_refl name),
  (λ f.
      ground (
        arith,
        affected-select name s.services,
        select-remove name name s.endpoints,
        ==_refl name,
      )),
  (λ k other. (
    ground (
      arith,
      affected-select name s.services,
      select-remove name k s.services,
      ==_iff name k,
      other,
    ),
    ground (
      arith,
      affected-select name s.services,
      select-remove name k s.endpoints,
      ==_iff name k,
      other,
    ),
  )),
)
