-- ===== src/KubeProxy/Synced.antt =====
-- mvp/cmd/kube-proxy/main.go: which listeners a sync leaves, and their backends.
use kubernetes_style_orchest.Prelude.{
  ◌==◌, string_eq, int_eq, ==_iff, Bool, true, false, not, ◌&&◌, Bool-cases, some, List, [], ◌∷◌,
  ◌++◌, keep, any, ◌≡◌, ◌≢◌, refl, sym, ap, ◌∙◌, inl, inr, ◌⊎◌, arith, Member, here, there,
  Member-keep, Member-of_map, any_iff, false≢true, if◌then◌else◌,
}
use mathlib.Core.Path.{ap₂}
use kubernetes_style_orchest.Api.{Service, ServicePort, EndpointAddress}
use kubernetes_style_orchest.KubeProxy.{
  ProxyKey, ProxyEntry, Proxy, Cluster, same_key, subsets_of, sync_port, sync_ports, sync_service,
  sync_services, is_active, sync,
}

same_key-eq : (a b : ProxyKey) → same_key a b ≡ true → a.service ≡ b.service
unfolding same_key
same_key-eq a b h = (==_iff a.service b.service).0 (ground arith)

Member-of_append :
    {A : Type 0} (x z : A) (xs : List A) → Member x (xs ++ z ∷ []) → Member x xs ⊎ (x ≡ z)
Member-of_append x z [] (here e) = inr e
Member-of_append x z [] (there m) = elim m [ ]
Member-of_append x z (y ∷ xs) (here e) = inl (here e)
Member-of_append x z (y ∷ xs) (there m) = elim (Member-of_append x z xs m) [
  | inl k ↦ inl (there k)
  | inr e ↦ inr e
]

same_key-path : (a b : ProxyKey) → same_key a b ≡ true → a ≡ b
unfolding same_key
same_key-path a b h =
    ap₂ (λ s p. record { service = s; port = p }) ((==_iff a.service b.service).0 (ground arith))
      ((==_iff a.port b.port).0 (ground arith))

same_key_comm : (a b : ProxyKey) → same_key a b ≡ same_key b a
unfolding same_key
same_key_comm a b = ground (
  arith,
  ==_iff a.service b.service,
  ==_iff b.service a.service,
  ==_iff a.port b.port,
  ==_iff b.port a.port,
)

unhit :
    {A : Type 0} (p : A → Bool) (xs : List A) (x : A) → any p xs ≡ false → Member x xs → p x ≡ false
unhit p xs x h m = elim (Bool-cases (p x)) [
  | inr e ↦ e
  | inl e ↦ absurd (
      false≢true (sym h ∙ (any_iff p (λ y. p y ≡ true) (λ y. ((λ k. k), (λ k. k))) xs).1 (x, m, e)))
]

module _ (c : Cluster) where
  -- The entry has the backends that were read for its service.
  abbrev pub IsFresh : ProxyEntry → Type 0
  IsFresh e = e.backends ≡ subsets_of (c.endpoints e.key.service)

  abbrev key_of : Service → ServicePort → ProxyKey
  key_of svc sp = record { service = svc.metadata.name; port = sp.port }

  abbrev backends_of : Service → List EndpointAddress
  backends_of svc = subsets_of (c.endpoints svc.metadata.name)

  updated :
      (svc : Service) (sp : ServicePort) (x : ProxyEntry) (entries : List ProxyEntry)
      → Member x entries
      → (b : Bool) → same_key x.key (key_of svc sp) ≡ b
      → (e : ProxyEntry) → e ≡ (if b then record x { backends = backends_of svc } else x)
      → IsFresh e ⊎ (Member e entries × (same_key e.key (key_of svc sp) ≡ false))
  updated svc sp x entries m true h e q =
      inl (rw q (ap (λ n. subsets_of (c.endpoints n)) (sym (same_key-eq x.key (key_of svc sp) h))))
  updated svc sp x entries m false h e q = inr (rw q m, rw q h)

  kept :
      (svc : Service) (sp : ServicePort) (entries : List ProxyEntry) (e : ProxyEntry)
      → any (λ x. same_key x.key (key_of svc sp)) entries ≡ false
      → c.binds svc.spec.cluster_ip sp.port ≡ false
      → Member e (sync_port c svc (backends_of svc) entries sp)
      → Member e entries
  unfolding sync_port
  kept svc sp entries e f g m = rw (f, g, sync_port) at m

  without_ip :
      (svc : Service) (entries : List ProxyEntry) (e : ProxyEntry)
      → (svc.spec.cluster_ip == "") ≡ true
      → Member e (sync_service c entries svc)
      → Member e entries
  unfolding sync_service
  without_ip svc entries e f m = rw (f, sync_service) at m

  with_ip :
      (svc : Service) (entries : List ProxyEntry) (e : ProxyEntry)
      → (svc.spec.cluster_ip == "") ≡ false
      → Member e (sync_service c entries svc)
      → Member e (sync_ports c svc (backends_of svc) entries svc.spec.ports)
  unfolding sync_service
  with_ip svc entries e f m = rw (f, sync_service) at m

  -- An entry after one port is fresh, or was there and has another key.
  sync_port_cases :
      (svc : Service) (sp : ServicePort) (entries : List ProxyEntry) (e : ProxyEntry)
      → Member e (sync_port c svc (backends_of svc) entries sp)
      → IsFresh e ⊎ (Member e entries × (same_key e.key (key_of svc sp) ≡ false))
  unfolding sync_port
  sync_port_cases svc sp entries e m =
      elim (Bool-cases (any (λ x. same_key x.key (key_of svc sp)) entries)) [
        | inl f ↦
            let (x, k, q) = Member-of_map _ e entries (rw (f, sync_port) at m) in
            updated svc sp x entries k (same_key x.key (key_of svc sp)) refl e q
        | inr f ↦ elim (Bool-cases (c.binds svc.spec.cluster_ip sp.port)) [
          | inl g ↦ elim (Member-of_append e _ entries (rw (f, g, sync_port) at m)) [
            | inl k ↦ inr (k, unhit (λ x. same_key x.key (key_of svc sp)) entries e f k)
            | inr q ↦ inl (rw q refl)
          ]
          | inr g ↦
              let k = kept svc sp entries e f g m in
              inr (k, unhit (λ x. same_key x.key (key_of svc sp)) entries e f k)
        ]
      ]

  -- An entry after all ports of a service is fresh, or was there and has none of their keys.
  sync_ports_cases :
      (svc : Service) (ports : List ServicePort) (entries : List ProxyEntry) (e : ProxyEntry)
      → Member e (sync_ports c svc (backends_of svc) entries ports)
      → IsFresh e ⊎ (Member e entries × (any (λ sp. same_key (key_of svc sp) e.key) ports ≡ false))
  unfolding sync_ports
  sync_ports_cases svc [] entries e m = inr (m, refl)
  sync_ports_cases svc (sp ∷ ports) entries e m =
      elim (sync_ports_cases svc ports (sync_port c svc (backends_of svc) entries sp) e m) [
        | inl fresh ↦ inl fresh
        | inr (k, rest) ↦ elim (sync_port_cases svc sp entries e k) [
          | inl fresh ↦ inl fresh
          | inr (old, other) ↦
              inr (old, ground (arith, rest, other, same_key_comm e.key (key_of svc sp)))
        ]
      ]

  abbrev serves : ProxyKey → Service → Bool
  serves key svc =
      not (svc.spec.cluster_ip == "") && any (λ sp. same_key (key_of svc sp) key) svc.spec.ports

  sync_service_cases :
      (svc : Service) (entries : List ProxyEntry) (e : ProxyEntry)
      → Member e (sync_service c entries svc)
      → IsFresh e ⊎ (Member e entries × (serves e.key svc ≡ false))
  unfolding sync_service
  sync_service_cases svc entries e m = elim (Bool-cases (svc.spec.cluster_ip == "")) [
    | inl f ↦ inr (without_ip svc entries e f m, rw f refl)
    | inr f ↦ elim (sync_ports_cases svc svc.spec.ports entries e (with_ip svc entries e f m)) [
      | inl fresh ↦ inl fresh
      | inr (k, other) ↦ inr (k, ground (arith, other))
    ]
  ]

  sync_services_cases :
      (svcs : List Service) (entries : List ProxyEntry) (e : ProxyEntry)
      → Member e (sync_services c entries svcs)
      → IsFresh e ⊎ (Member e entries × (is_active svcs e.key ≡ false))
  unfolding sync_services is_active
  sync_services_cases [] entries e m = inr (m, refl)
  sync_services_cases (svc ∷ svcs) entries e m =
      elim (sync_services_cases svcs (sync_service c entries svc) e m) [
        | inl fresh ↦ inl fresh
        | inr (k, rest) ↦ elim (sync_service_cases svc entries e k) [
          | inl fresh ↦ inl fresh
          | inr (old, other) ↦ inr (old, rw (other, rest) refl)
        ]
      ]

  -- The entry's key is that of a port of a listed service that has an address.
  abbrev pub IsServed : List Service → ProxyEntry → Type 0
  IsServed svcs e =
      (svc : Service) × Member svc svcs
      × (svc.spec.cluster_ip ≢ "")
      × (sp : ServicePort) × Member sp svc.spec.ports
      × (e.key ≡ key_of svc sp)

  is_active-IsServed :
      (svcs : List Service) (e : ProxyEntry) → is_active svcs e.key ≡ true → IsServed svcs e
  unfolding is_active
  is_active-IsServed svcs e h =
      let (svc, m, on) =
        (any_iff (serves e.key) (λ svc. serves e.key svc ≡ true) (λ x. ((λ k. k), (λ k. k))) svcs).0
          h in
      let (sp, k, same) =
        (any_iff (λ sp. same_key (key_of svc sp) e.key)
            (λ sp. same_key (key_of svc sp) e.key ≡ true) (λ x. ((λ k. k), (λ k. k)))
            svc.spec.ports).0
          (ground arith) in
      (
        svc,
        m,
        ground (arith, ==_iff svc.spec.cluster_ip ""),
        sp,
        k,
        sym (same_key-path (key_of svc sp) e.key same),
      )

  entries_of :
      (p q : Proxy) (svcs : List Service)
      → c.services ≡ some svcs
      → sync c p ≡ some q
      → q.entries ≡ keep (λ e. is_active svcs e.key) (sync_services c p.entries svcs)
  unfolding sync
  entries_of p q svcs listed run = cc (rw (listed, sync) at run)

  -- After a sync that could list the services, every listener belongs to a port of a listed service
  -- that has a cluster IP, and has the backends that were just read for that service.
  pub sync-IsServed :
      (p q : Proxy) (svcs : List Service)
      → c.services ≡ some svcs
      → sync c p ≡ some q
      → (e : ProxyEntry) → Member e q.entries
      → IsServed svcs e × IsFresh e
  unfolding sync
  sync-IsServed p q svcs listed run e m =
      let same = entries_of p q svcs listed run in
      let (k, on) =
        Member-keep (λ x. is_active svcs x.key) e (sync_services c p.entries svcs) (rw same at m) in
      (
        is_active-IsServed svcs e on,
        elim (sync_services_cases svcs p.entries e k) [
          | inl fresh ↦ fresh
          | inr (old, off) ↦ absurd (false≢true (sym off ∙ on))
        ],
      )
