-- ===== src/ApiServer/Handlers/Services/Addresses.antt =====
-- mvp/cmd/apiserver/main.go: the address that a new service is given.
use kubernetes_style_orchest.Prelude.{
  ℕ, suc, String, ◌==◌, string_eq, ==_iff, true, false, not, any_iff, Bool-cases, Option, some,
  List, map, keep, ◌≡◌, ◌≢◌, refl, sym, ap, ◌∙◌, inl, inr, false≢true, if◌then◌else◌, Member,
  Member-map, Member-keep_of, arith,
}
use kubernetes_style_orchest.Api.{Service}
use kubernetes_style_orchest.Db.{Db, ServiceRow}
use kubernetes_style_orchest.Sql.{
  M, Error, Run, returns, raises, ok, err, result, after, proceed, ◌>>=◌, pure,
}
use kubernetes_style_orchest.Sql.Rows.{select}
use kubernetes_style_orchest.Store.Services.{get_service, upsert_service, list_cluster_ips}
use kubernetes_style_orchest.Store.Services.Rows.{upserted, select-upsert_service}
use kubernetes_style_orchest.Store.Reading.{get_service-Reads}
use kubernetes_style_orchest.ApiServer.ClusterIps.{ClusterIpAlloc, alloc}
use kubernetes_style_orchest.ApiServer.ClusterIps.Free.{IsFree, alloc-IsFree}
use kubernetes_style_orchest.ApiServer.Http.{Reply, error, object, reply_read_back}
use kubernetes_style_orchest.ApiServer.Http.Writing.{reply_read_back-Reads, after_write_created}
use kubernetes_style_orchest.ApiServer.Handlers.Services.{
  set_cluster_ip, taken_of, assign_cluster_ip, write_service, store_service,
}

-- The addresses that ListClusterIPs reads.
abbrev pub used_ips : Db → List String
used_ips s = map (λ r. r.1.cluster_ip) (keep (λ r. not (r.1.cluster_ip == "")) s.services)

used_ips-Member :
    (s : Db) (row : String × ServiceRow)
    → Member row s.services
    → row.1.cluster_ip ≢ ""
    → taken_of (ok (used_ips s)) row.1.cluster_ip ≡ true
unfolding taken_of
used_ips-Member s row m filled =
    (any_iff (λ x. x == row.1.cluster_ip) (λ x. x ≡ row.1.cluster_ip)
        (λ x. ==_iff x row.1.cluster_ip) (used_ips s)).1
      (
        row.1.cluster_ip,
        Member-map (λ r. r.1.cluster_ip) row _
            (Member-keep_of (λ r. not (r.1.cluster_ip == "")) row s.services m
              (ground (arith, ==_iff row.1.cluster_ip "", filled))),
        refl,
      )

-- The reply 201 and the allocator beside it.
abbrev pub created : Option Service → ClusterIpAlloc → Reply Service × ClusterIpAlloc
created out b = (object 201 out, b)

module _ (address : ℕ → String) (read : String → Option Service) (now : ℕ) where
  -- The end of the handler, with the address and the allocator.
  abbrev finish : Service → String × ClusterIpAlloc → M (Reply Service × ClusterIpAlloc)
  finish svc x =
      (if x.0 == ""
        then pure (error 500)
        else write_service address read now (set_cluster_ip x.0 svc))
      >>= λ reply. pure (reply, x.1)

  store_service-finish :
      (a : ClusterIpAlloc) (svc : Service) (e : Error) (s : Db)
      → svc.spec.cluster_ip ≡ ""
      → s.fails s.executed ≡ false
      → store_service address read now a svc (err e) s
        ≡ finish svc
            (alloc address (taken_of (ok (used_ips s))) a)
            (record s { executed = suc s.executed })
  unfolding store_service assign_cluster_ip list_cluster_ips
  store_service-finish a svc e s noip works = rw (noip, works) refl

  -- What 201 says of the end of the handler.
  finish_lem :
      (svc : Service) (x : String × ClusterIpAlloc) (s : Db) (out : Option Service)
      (b : ClusterIpAlloc)
      → result (finish svc x s) ≡ ok (created out b)
      → (x.0 ≢ "")
        × (result (upsert_service now (set_cluster_ip x.0 svc) s) ≡ ok tt)
        × ((after (finish svc x s)).services
            ≡ (after (upsert_service now (set_cluster_ip x.0 svc) s)).services)
  unfolding write_service
  finish_lem svc x s out b h = elim (Bool-cases (x.0 == "")) [
    | inl e ↦ cc (rw e at h)
    | inr e ↦
        let own = set_cluster_ip x.0 svc in
        let back = reply_read_back 201 (get_service own.metadata.name) in
        let run = write_service address read now own s in
        let (done, same) =
          after_write_created (upsert_service now own) back s
            (reply_read_back-Reads 201 (get_service own.metadata.name)
              (get_service-Reads own.metadata.name))
            (out, replied x.1 run out b (rw e at h)) in
        (
          (λ empty. false≢true (sym e ∙ (==_iff x.0 "").1 empty)),
          done,
          rw e (kept x.1 run ∙ ap (λ (t : Db). t.services) same),
        )
  ]
    where
      replied :
          (c : ClusterIpAlloc) (y : Run (Reply Service)) (o : Option Service) (d : ClusterIpAlloc)
          → result (proceed (λ reply. pure (reply, c)) y) ≡ ok (created o d)
          → result y ≡ ok (object 201 o)
      replied c (returns r t) o d k = ap ok (cc k)
      replied c (raises f t) o d k = cc k

      kept :
          (c : ClusterIpAlloc) (y : Run (Reply Service))
          → (after {A = Reply Service × ClusterIpAlloc}
              (proceed (λ reply. pure (reply, c)) y)).services
            ≡ (after y).services
      kept c (returns r t) = refl
      kept c (raises f t) = refl

  upserted_rows :
      (svc : Service) (s : Db)
      → result (upsert_service now svc s) ≡ ok tt
      → (k : String)
      → select k (after (upsert_service now svc s)).services ≡ (
          if svc.metadata.name == k
          then some (upserted now svc (select svc.metadata.name s.services))
          else select k s.services)
  upserted_rows svc s done k = elim (select-upsert_service now svc s) [
    | inl (worked, rows) ↦ rows k
    | inr (denied, same) ↦ cc (sym done ∙ denied)
  ]

  -- A service that is not stored yet and asks for no address, if the addresses in use can be read on
  -- the loopback range and no address is the empty text: a 201 means that it was stored with an
  -- address of the range that no stored service had, and no other service changed.
  pub new_service-IsFree :
      (a : ClusterIpAlloc) (svc : Service) (e : Error) (s : Db) (out : Option Service)
      (b : ClusterIpAlloc)
      → a.use_loop ≡ true
      → ((n : ℕ) → address n ≢ "")
      → svc.spec.cluster_ip ≡ ""
      → s.fails s.executed ≡ false
      → result (store_service address read now a svc (err e) s) ≡ ok (created out b)
      → (ip : String) × IsFree address (taken_of (ok (used_ips s))) ip
        × ((row : String × ServiceRow) → Member row s.services → row.1.cluster_ip ≢ ip)
        × ((k : String)
            → select k (after (store_service address read now a svc (err e) s)).services ≡ (
                if svc.metadata.name == k
                then some
                    (upserted now (set_cluster_ip ip svc) (select svc.metadata.name s.services))
                else select k s.services))
  new_service-IsFree a svc e s out b loop named noip works h =
      let run = store_service-finish a svc e s noip works in
      let x = alloc address (taken_of (ok (used_ips s))) a in
      let t = record s { executed = suc s.executed } in
      let (filled, done, rows) = finish_lem svc x t out b (rw run at h) in
      let free = (alloc-IsFree address (taken_of (ok (used_ips s))) a loop named).0 filled in
      (
        x.0,
        free,
        (λ row m same. false≢true (
            sym free.4
            ∙ ap (taken_of (ok (used_ips s))) (sym same)
            ∙ used_ips-Member s row m (λ empty. filled (sym same ∙ empty)))),
        (λ k. rw run (ap (select k) rows ∙ upserted_rows (set_cluster_ip x.0 svc) t done k)),
      )
