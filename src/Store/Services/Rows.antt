-- ===== src/Store/Services/Rows.antt =====
-- mvp/internal/store/store.go: the rows of services after an upsert.
use kubernetes_style_orchest.Prelude.{
  ℕ, suc, String, ◌==◌, string_eq, ==_iff, ==_refl, none, some, Option, Option-cases, Bool-cases,
  ◌≡◌, refl, sym, ap, ◌∙◌, inl, inr, ◌⊎◌, arith, if◌then◌else◌,
}
use kubernetes_style_orchest.Api.{Service}
use kubernetes_style_orchest.Db.{Db, ServiceRow}
use kubernetes_style_orchest.Sql.{ok, err, failed, result, after}
use kubernetes_style_orchest.Sql.Rows.{select}
use kubernetes_style_orchest.Sql.Laws.{select-update, select-append}
use kubernetes_style_orchest.Store.Tables.{ns_or_default}
use kubernetes_style_orchest.Store.Services.{upsert_service}

-- What the UPDATE writes into a row, where `existing` is the row that was read before.
abbrev written : ℕ → Service → ServiceRow → ServiceRow → ServiceRow
written now svc existing r = record r {
  namespace = ns_or_default svc.metadata.namespace;
  spec = record svc.spec { cluster_ip = existing.spec.cluster_ip };
  metadata = svc.metadata;
  status = existing.status;
  cluster_ip = existing.spec.cluster_ip;
  last_updated = now;
}

abbrev new_row : ℕ → Service → ServiceRow
new_row now svc = record {
  namespace = ns_or_default svc.metadata.namespace;
  spec = svc.spec;
  metadata = svc.metadata;
  status = record { last_updated = now };
  cluster_ip = svc.spec.cluster_ip;
  created_at = now;
  last_updated = now;
}

-- The row that an upsert leaves, by the row that was there: an update keeps the cluster IP, the
-- status and the time of creation.
abbrev pub upserted : ℕ → Service → Option ServiceRow → ServiceRow
upserted now svc none = new_row now svc
upserted now svc (some r) = written now svc r r

-- An upsert that reports no error leaves its service's row as `upserted` says and every other row as
-- it was; one that reports an error leaves all services as they were.
pub select-upsert_service :
    (now : ℕ) (svc : Service) (s : Db)
    → ((result (upsert_service now svc s) ≡ ok tt)
        × ((k : String)
            → select k (after (upsert_service now svc s)).services ≡ (
                if svc.metadata.name == k
                then some (upserted now svc (select svc.metadata.name s.services))
                else select k s.services)))
      ⊎ ((result (upsert_service now svc s) ≡ err failed)
          × ((after (upsert_service now svc s)).services ≡ s.services))
unfolding upsert_service
select-upsert_service now svc s = elim (Option-cases (select svc.metadata.name s.services)) [
  | inl e ↦ elim (Bool-cases (s.fails s.executed)) [
    | inl f ↦ inr (ground arith, ground arith)
    | inr f ↦ elim (Bool-cases (s.fails (suc s.executed))) [
      | inl g ↦ inr (ground arith, ground arith)
      | inr g ↦ inl (
        ground arith,
        λ k. ground (
          arith,
          select-append svc.metadata.name k (new_row now svc) s.services,
          ==_iff svc.metadata.name k,
        ),
      )
    ]
  ]
  | inr (r, e) ↦ elim (Bool-cases (s.fails s.executed)) [
    | inl f ↦ inr (ground arith, ground arith)
    | inr f ↦ elim (Bool-cases (s.fails (suc s.executed))) [
      | inl g ↦ inr (ground arith, ground arith)
      | inr g ↦ inl (
        ground arith,
        λ k. ground (
          arith,
          select-update svc.metadata.name k (written now svc r) s.services,
          ==_iff svc.metadata.name k,
        ),
      )
    ]
  ]
]

-- The column `cluster_ip`, from which ListClusterIPs reads, is the cluster IP of the spec in every row.
abbrev pub IpsAgree : Db → Type 0
IpsAgree s =
    (k : String) (r : ServiceRow) → select k s.services ≡ some r → r.cluster_ip ≡ r.spec.cluster_ip

upserted-agrees :
    (now : ℕ) (svc : Service) (o : Option ServiceRow)
    → (upserted now svc o).cluster_ip ≡ (upserted now svc o).spec.cluster_ip
upserted-agrees now svc none = refl
upserted-agrees now svc (some r) = refl

-- If in every row the column cluster_ip is the cluster IP of the spec, it still is after an
-- UpsertService, and an existing service keeps its cluster IP, whatever the driver fails.
pub upsert_service-IpsAgree :
    (now : ℕ) (svc : Service) (s : Db)
    → IpsAgree s
    → IpsAgree (after (upsert_service now svc s))
      × ((r : ServiceRow)
          → select svc.metadata.name s.services ≡ some r
          → (q : ServiceRow) × (select svc.metadata.name (after (upsert_service now svc s)).services
              ≡ some q)
            × (q.spec.cluster_ip ≡ r.spec.cluster_ip))
upsert_service-IpsAgree now svc s h = elim (select-upsert_service now svc s) [
  | inl (done, rows) ↦ (
    (λ k r e. elim (Bool-cases (svc.metadata.name == k)) [
      | inl same ↦
          let row = rows k in
          let f : upserted now svc (select svc.metadata.name s.services) ≡ r =
            cc (sym e ∙ (rw same at row)) in
          rw (sym f) (upserted-agrees now svc (select svc.metadata.name s.services))
      | inr other ↦ let row = rows k in h k r (sym (rw other at row) ∙ e)
    ]),
    (λ r e. (
      written now svc r r,
      (let row = rows svc.metadata.name in rw (==_refl svc.metadata.name, e) at row),
      refl,
    )),
  )
  | inr (denied, same) ↦ (
    (λ k r e. h k r (ap (select k) (sym same) ∙ e)),
    (λ r e. (r, ap (select svc.metadata.name) same ∙ e, refl)),
  )
]
