-- ===== src/Federation/Recipients.antt =====
-- mvp/internal/federation/federation.go: which clusters are sent a Deployment.
use mathlib.Core.Path.{subst}
use kubernetes_style_orchest.Prelude.{
  ℕ, String, ◌==◌, string_eq, ==_iff, Bool, true, false, List, [], ◌∷◌, any, any_iff, Bool-cases,
  ◌≡◌, refl, sym, ap, ◌∙◌, false≢true, inl, inr, ◌⊎◌, ◌↔◌, Member, here, there, Member-keep,
  Member-keep_of,
}
use kubernetes_style_orchest.Api.{Cluster, FederatedDeployment, Deployment}
use kubernetes_style_orchest.Federation.{select_clusters, deployment_for, push_each, reconcile_one}

-- The posts so far, the last one first.
abbrev pub Log : Type 0
Log = List (String × Deployment)

-- A client that keeps a log; `works` says which server answers without an error.
abbrev pub record_push : (String → Bool) → String → Deployment → Log → Bool × Log
record_push works server d log = (works server, (server, d) ∷ log)

abbrev Sent : FederatedDeployment → List Cluster → String × Deployment → Type 0
Sent fd clusters post =
    (cl : Cluster) × Member cl clusters
    × (cl.status.ready ≡ true)
    × (post ≡ (cl.spec.server, deployment_for fd cl))

skip_one :
    (fd : FederatedDeployment) (cl : Cluster) (cls : List Cluster) (x : String × Deployment)
    → Sent fd cls x
    → Sent fd (cl ∷ cls) x
skip_one fd cl cls x (c, m, r, e) = (c, there m, r, e)

push_each-log :
    (works : String → Bool) (fd : FederatedDeployment) (cls : List Cluster) (n : ℕ) (log : Log)
    (x : String × Deployment)
    → (Member x (push_each (record_push works) fd cls n log).1 → Member x log ⊎ Sent fd cls x)
      × (Member x log ⊎ Sent fd cls x → Member x (push_each (record_push works) fd cls n log).1)
unfolding push_each
push_each-log works fd [] n log x =
    (inl, elim [ inl m ↦ m | inr (c, m, r, e) ↦ absurd (elim m [ ]) ])
push_each-log works fd (cl ∷ cls) n log x = elim (Bool-cases cl.status.ready) [
  | inl on ↦
      let post : String × Deployment = (cl.spec.server, deployment_for fd cl) in
      let rest = push_each-log works fd cls _ (post ∷ log) x in
      (
        (λ m. first on (rest.0 (rw (on, push_each) at m))),
        (λ w. rw (on, push_each) (rest.1 (logged w))),
      )
  | inr off ↦
      let rest = push_each-log works fd cls n log x in
      (
        (λ m. elim (rest.0 (rw (off, push_each) at m)) [
          | inl k ↦ inl k
          | inr s ↦ inr (skip_one fd cl cls x s)
        ]),
        (λ w. rw (off, push_each) (rest.1 (unready w off))),
      )
]
  where
    unready :
        Member x log ⊎ Sent fd (cl ∷ cls) x → cl.status.ready ≡ false → Member x log ⊎ Sent fd cls x
    unready (inl m) off = inl m
    unready (inr (c, here e, r, f)) off =
        absurd (false≢true (sym off ∙ ap (λ (q : Cluster). q.status.ready) (sym e) ∙ r))
    unready (inr (c, there m, r, f)) off = inr (c, m, r, f)

    first :
        cl.status.ready ≡ true
        → Member x ((cl.spec.server, deployment_for fd cl) ∷ log) ⊎ Sent fd cls x
        → Member x log ⊎ Sent fd (cl ∷ cls) x
    first on (inl (here e)) = inr (cl, here refl, on, e)
    first on (inl (there m)) = inl m
    first on (inr w) = inr (skip_one fd cl cls x w)

    logged :
        Member x log ⊎ Sent fd (cl ∷ cls) x
        → Member x ((cl.spec.server, deployment_for fd cl) ∷ log) ⊎ Sent fd cls x
    logged (inl m) = inl (there m)
    logged (inr (c, here e, r, f)) =
        inl (here (f ∙ ap (λ (q : Cluster). (q.spec.server, deployment_for fd q)) e))
    logged (inr (c, there m, r, f)) = inr (c, m, r, f)

-- The FederatedDeployment names the cluster, or names none.
abbrev pub Targets : FederatedDeployment → Cluster → Type 0
Targets fd cl = (fd.spec.clusters ≡ []) ⊎ Member cl.metadata.name fd.spec.clusters

named_iff : (names : List String) (n : String) → (any (λ m. m == n) names ≡ true) ↔ Member n names
named_iff names n =
    let found = any_iff (λ m. m == n) (λ m. m ≡ n) (λ m. ==_iff m n) names in
    (
      (λ h. let (m, k, e) = found.0 h in subst (λ x. Member x names) e k),
      (λ k. found.1 (n, k, refl)),
    )

select_clusters_iff :
    (names : List String) (fd : FederatedDeployment) (clusters : List Cluster) (cl : Cluster)
    → names ≡ fd.spec.clusters
    → Member cl (select_clusters fd clusters) ↔ (Member cl clusters × Targets fd cl)
unfolding select_clusters
select_clusters_iff [] fd clusters cl e = rw (sym e) ((λ m. (m, inl refl)), (λ w. w.0))
select_clusters_iff (n ∷ names) fd clusters cl e =
    let q = λ (c : Cluster). any (λ m. m == c.metadata.name) (n ∷ names) in
    let named = named_iff (n ∷ names) cl.metadata.name in
    rw (sym e) (
      (λ m. let (k, h) = Member-keep q cl clusters m in (k, inr (named.0 h))),
      (λ w. Member-keep_of q cl clusters w.0 (elim w.1 [ inl f ↦ cc f | inr k ↦ named.1 k ])),
    )

-- One turn of the loop over the FederatedDeployments posts a Deployment exactly to the clusters of the
-- list that are ready and that the FederatedDeployment names, or to all that are ready if it names none,
-- whichever posts fail.
pub reconcile_one-recipients :
    (works : String → Bool) (fd : FederatedDeployment) (clusters : List Cluster)
    (post : String × Deployment)
    → Member post (reconcile_one (record_push works) fd clusters []).1 ↔ (
        (cl : Cluster) × Member cl clusters
        × Targets fd cl
        × (cl.status.ready ≡ true)
        × (post ≡ (cl.spec.server, deployment_for fd cl)))
unfolding reconcile_one
reconcile_one-recipients works fd clusters post =
    let log = push_each-log works fd (select_clusters fd clusters) 0 [] post in
    (
      (λ m. elim (log.0 m) [
        | inl n ↦ absurd (elim n [ ])
        | inr (cl, k, r, e) ↦
            let (n, t) = (select_clusters_iff fd.spec.clusters fd clusters cl refl).0 k in
            (cl, n, t, r, e)
      ]),
      (λ w.
          let (cl, n, t, r, e) = w in
          log.1
            (inr (cl, (select_clusters_iff fd.spec.clusters fd clusters cl refl).1 (n, t), r, e))),
    )
