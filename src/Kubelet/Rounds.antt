-- ===== src/Kubelet/Rounds.antt =====
-- mvp/cmd/kubelet/main.go: the servers behind the pods that a round reports as running.
use kubernetes_style_orchest.Prelude.{
  String, ◌==◌, string_eq, ==_iff, Bool, true, false, Bool-cases, Option, none, some, List, [], ◌∷◌,
  StringMap, lookup, lookup-insert, keep, any, any_iff, ◌≡◌, refl, ap, arith, Member, here, there,
  head_or_tail, inl, inr,
}
use kubernetes_style_orchest.Prelude.Int.{ℤ}
use kubernetes_style_orchest.Api.{Pod, PodStatus, Container, phase_scheduled, phase_running}
use kubernetes_style_orchest.Kubelet.{
  Started, started, start_failed, Executed, Listened, bound, refused, failed_status, status_after,
  stub_with, stub_run, run_container, run_with, run_pod, run_pods, reap, sync_once,
}

lookup-keep :
    (f : String → Bool) (k : String) (v : ℤ) (m : StringMap ℤ)
    → f k ≡ true
    → lookup k m ≡ some v
    → lookup k (keep (λ e. f e.0) m) ≡ some v
lookup-keep f k v [] on h = h
lookup-keep f k v ((j, w) ∷ m) on h = elim (Bool-cases (j == k)) [
  | inl e ↦ let same : j ≡ k = (==_iff j k).0 e in ground (arith, h, e, on, ap f same)
  | inr e ↦ ground (arith, h, e, lookup-keep f k v m on)
]

-- The server of a pod is reached on a port.
abbrev pub Serves : StringMap ℤ → String → ℤ → Type 0
Serves stubs name port = lookup name stubs ≡ some port

status_after-running :
    (p : Pod) (s : Started)
    → (status_after p s).phase ≡ phase_running
    → (id : String) × (ip : String) × (s ≡ started id ip (status_after p s).host_port)
unfolding status_after failed_status
status_after-running p (started id ip port) h = (id, ip, refl)
status_after-running p (start_failed e) h = cc h

stub_with-Serves_kept :
    (name : String) (l : Listened) (stubs : StringMap ℤ) (o : Option ℤ)
    → lookup name stubs ≡ o
    → (j : String) (port : ℤ) → Serves stubs j port
    → Serves (stub_with name o l stubs).1 j port
unfolding stub_with
stub_with-Serves_kept name l stubs (some p) e j port h = h
stub_with-Serves_kept name (refused t) stubs none e j port h = h
stub_with-Serves_kept name (bound p) stubs none e j port h = elim (Bool-cases (name == j)) [
  | inl same ↦ let eq : name ≡ j = (==_iff name j).0 same in cc (rw eq at e)
  | inr other ↦ rw (lookup-insert name j p stubs, other) h
]

stub_with-Serves :
    (name : String) (l : Listened) (stubs : StringMap ℤ) (o : Option ℤ)
    → lookup name stubs ≡ o
    → (id ip : String) (port : ℤ) → (stub_with name o l stubs).0 ≡ started id ip port
    → Serves (stub_with name o l stubs).1 name port
unfolding stub_with
stub_with-Serves name l stubs (some p) e id ip port h = cc
stub_with-Serves name (refused t) stubs none e id ip port h = cc h
stub_with-Serves name (bound p) stubs none e id ip port h =
    rw (lookup-insert name name p stubs, (==_iff name name).1 refl) cc

module _ (exec : List String → Executed) (listens : String → Listened) where
  stub_run-Serves_kept :
      (name : String) (stubs : StringMap ℤ) (j : String) (port : ℤ)
      → Serves stubs j port
      → Serves (stub_run exec listens false name stubs).1 j port
  unfolding stub_run
  stub_run-Serves_kept name stubs j port h =
      stub_with-Serves_kept name (listens name) stubs _ refl j port h

  stub_run-Serves :
      (name : String) (stubs : StringMap ℤ) (id ip : String) (port : ℤ)
      → (stub_run exec listens false name stubs).0 ≡ started id ip port
      → Serves (stub_run exec listens false name stubs).1 name port
  unfolding stub_run
  stub_run-Serves name stubs id ip port h =
      stub_with-Serves name (listens name) stubs _ refl id ip port h

  run_with-Serves_kept :
      (p : Pod) (cs : List Container) (stubs : StringMap ℤ) (j : String) (port : ℤ)
      → Serves stubs j port
      → Serves (run_with exec listens false p cs stubs).1 j port
  unfolding run_with run_container
  run_with-Serves_kept p [] stubs j port h = h
  run_with-Serves_kept p (c ∷ cs) stubs j port h =
      stub_run-Serves_kept p.metadata.name stubs j port h

  run_with-Serves :
      (p : Pod) (cs : List Container) (stubs : StringMap ℤ)
      → (run_with exec listens false p cs stubs).0.phase ≡ phase_running
      → Serves
          (run_with exec listens false p cs stubs).1
          p.metadata.name
          (run_with exec listens false p cs stubs).0.host_port
  unfolding run_with run_container failed_status
  run_with-Serves p [] stubs h = cc h
  run_with-Serves p (c ∷ cs) stubs h =
      let (id, ip, e) = status_after-running p _ h in
      stub_run-Serves p.metadata.name stubs id ip _ e

  run_pods-Serves_kept :
      (ps : List Pod) (stubs : StringMap ℤ) (j : String) (port : ℤ)
      → Serves stubs j port
      → Serves (run_pods exec listens false ps stubs).1 j port
  unfolding run_pods run_pod
  run_pods-Serves_kept [] stubs j port h = h
  run_pods-Serves_kept (p ∷ ps) stubs j port h =
      elim (Bool-cases (p.status.phase == phase_scheduled)) [
        | inl e ↦ rw e (
            run_pods-Serves_kept ps _ j port
              (run_with-Serves_kept p p.spec.containers stubs j port h))
        | inr e ↦ rw e (run_pods-Serves_kept ps stubs j port h)
      ]

  -- What is sent is about a listed pod, and its server is there if it is reported as running.
  abbrev pub IsBacked : List Pod → StringMap ℤ → String × PodStatus → Type 0
  IsBacked pods stubs x =
      ((p : Pod) × Member p pods × (p.metadata.name ≡ x.0) × (p.status.phase ≡ phase_scheduled))
      × (x.1.phase ≡ phase_running → Serves stubs x.0 x.1.host_port)

  IsBacked-past :
      (p : Pod) (ps : List Pod) (stubs : StringMap ℤ) (x : String × PodStatus)
      → IsBacked ps stubs x
      → IsBacked (p ∷ ps) stubs x
  IsBacked-past p ps stubs x ((q, m, named, phase), h) = ((q, there m, named, phase), h)

  run_pods-IsBacked :
      (ps : List Pod) (stubs : StringMap ℤ) (x : String × PodStatus)
      → Member x (run_pods exec listens false ps stubs).0
      → IsBacked ps (run_pods exec listens false ps stubs).1 x
  unfolding run_pods run_pod
  run_pods-IsBacked [] stubs x m = elim m [ ]
  run_pods-IsBacked (p ∷ ps) stubs x m = elim (Bool-cases (p.status.phase == phase_scheduled)) [
    | inl e ↦ rw e (
        head_or_tail x _ _ (rw e at m)
          (λ q. rw q (
            (p, here refl, refl, (==_iff p.status.phase phase_scheduled).0 e),
            λ running.
                run_pods-Serves_kept ps _ p.metadata.name _
                  (run_with-Serves p p.spec.containers stubs running),
          ))
          (λ k. IsBacked-past p ps _ x (run_pods-IsBacked ps _ x k)))
    | inr e ↦ rw e (IsBacked-past p ps _ x (run_pods-IsBacked ps stubs x (rw e at m)))
  ]

  -- Without docker, each status that a round sends is about a listed pod that is Scheduled; and if it
  -- says that the pod is Running, the pod's server runs after the round on the port that it names.
  pub sync_once-IsBacked :
      (pods : List Pod) (stubs : StringMap ℤ) (x : String × PodStatus)
      → Member x (sync_once exec listens false pods stubs).0
      → IsBacked pods (sync_once exec listens false pods stubs).1 x
  unfolding sync_once reap
  sync_once-IsBacked pods stubs x m =
      let (about, serves) = run_pods-IsBacked pods stubs x m in
      let (p, listed, named, _) = about in
      (
        about,
        λ running.
            lookup-keep (λ k. any (λ p. p.metadata.name == k) pods) x.0 x.1.host_port
              (run_pods exec listens false pods stubs).1
              ((any_iff (λ q. q.metadata.name == x.0) (λ q. q.metadata.name ≡ x.0)
                  (λ q. ==_iff q.metadata.name x.0) pods).1
                (p, listed, named))
              (serves running),
      )
