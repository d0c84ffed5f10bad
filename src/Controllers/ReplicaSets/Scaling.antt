-- ===== src/Controllers/ReplicaSets/Scaling.antt =====
-- mvp/internal/controllers/replicaset.go: the two loops of `reconcileOne`, call by call.
use kubernetes_style_orchest.Prelude.{
  ◌≢◌, concat_filled_between, any, Bool-cases, ◌==◌, ℕ, zero, suc, ◌+◌, ◌≤◌, String, string_eq,
  ==_iff, ==_refl, true, false, List, [], ◌∷◌, ◌++◌, any-append, ◌≡◌, refl, ap, ◌∙◌, sym, arith,
  inl, inr, ◌⊎◌, length, length-append, lookup, insert, some, lookup-insert, StringMap, false≢true,
}
use kubernetes_style_orchest.Api.{Metadata, Pod, ReplicaSet, phase_pending}
use kubernetes_style_orchest.Controllers.Client.{PodClient, IsLawful, IsReliable, Unused, without}
use kubernetes_style_orchest.Controllers.ReplicaSets.{
  pod_name, owns, label_replica_set, alive_pods, build_pod_from_template, create_missing,
  delete_extra,
}
use kubernetes_style_orchest.Controllers.ReplicaSets.Names.{FreshDraws, without_all, alive-append}

-- Taking out a name that no pod has changes nothing.
pub without-absent : (name : String) (xs : List Pod) → Unused name xs → without name xs ≡ xs
without-absent name [] h = refl
without-absent name (x ∷ xs) h = ground (arith, without-absent name xs)

-- A map that holds the owner's label belongs to the owner.
owns-lookup :
    (rs : String) (m : StringMap String) → lookup label_replica_set m ≡ some rs → owns rs m ≡ true
unfolding owns
owns-lookup rs [] h = cc
owns-lookup rs (l ∷ ls) h = ground (arith, ==_refl rs)

owns-insert :
    (rs : String) (labels : StringMap String) → owns rs (insert label_replica_set rs labels) ≡ true
owns-insert rs labels =
    owns-lookup rs (insert label_replica_set rs labels)
      (lookup-insert label_replica_set label_replica_set rs labels)

-- A pod with the metadata of the template and a live phase is one more alive pod.
alive-built :
    (rs : ReplicaSet) (suffix : String) (p : Pod)
    → p.metadata ≡ (build_pod_from_template rs suffix).metadata
    → p.status.phase ≡ phase_pending
    → alive_pods rs.metadata.name (p ∷ []) ≡ p ∷ []
unfolding alive_pods build_pod_from_template
alive-built rs suffix p m ph = rw (m, owns-insert rs.metadata.name _, ph)

module _ (c : PodClient) (law : IsLawful c) (rs : ReplicaSet) where
  open c use {State, pods, stored}

  abbrev alive : State → ℕ
  alive s = length (alive_pods rs.metadata.name (pods s))

  -- One creation adds one alive pod, or reports an error and adds none.
  create_one :
      (suffix : String) (s : State)
      → Unused (pod_name rs suffix) (pods s)
      → let t = (c.create_pod (build_pod_from_template rs suffix) s).1 in
        ((p : Pod) × (p.metadata.name ≡ pod_name rs suffix)
          × (pods t ≡ pods s ++ p ∷ [])
          × (alive t ≡ suc (alive s)))
        ⊎ (((c.create_pod (build_pod_from_template rs suffix) s).0 ≡ false) × (pods t ≡ pods s))
  unfolding build_pod_from_template
  create_one suffix s free = elim (law.pods-create_pod (build_pod_from_template rs suffix) s free) [
    | inl e ↦
        let p = stored (build_pod_from_template rs suffix) s in
        let m = law.stored-metadata (build_pod_from_template rs suffix) s in
        inl (
          p,
          ap (λ (x : Metadata). x.name) m,
          e,
          rw (e, alive-append, alive-built rs suffix p m (law.stored-phase _ s refl))
              (omega (arith, length-append (alive_pods rs.metadata.name (pods s)) (p ∷ []))),
        )
    | inr w ↦ inr w
  ]

  -- The draws stay fresh for the rest of the loop.
  draws_after :
      (draw : ℕ → String) (k : ℕ) (p : Pod) (xs : List Pod)
      → p.metadata.name ≡ pod_name rs (draw 0)
      → FreshDraws rs draw (suc k) xs
      → FreshDraws rs (λ i. draw (suc i)) k (xs ++ p ∷ [])
  draws_after draw k p xs e f = record {
    unused = λ i h. rw any-append (
        ground (
          arith,
          f.unused (suc i) (omega arith),
          ==_iff p.metadata.name (pod_name rs (draw (suc i))),
          f.distinct 0 (suc i) (omega arith) (omega arith),
        ));
    distinct = λ i j h k. f.distinct (suc i) (suc j) (omega arith) (omega arith);
  }

  draws_without :
      (draw : ℕ → String) (k : ℕ) (xs : List Pod)
      → FreshDraws rs draw (suc k) xs
      → FreshDraws rs (λ i. draw (suc i)) k xs
  draws_without draw k xs f = record {
    unused = λ i h. f.unused (suc i) (omega arith);
    distinct = λ i j h k. f.distinct (suc i) (suc j) (omega arith) (omega arith);
  }

  -- Whatever fails, the loop adds at most the pods that were missing and takes none away.
  pub create_missing_bounds :
      (k : ℕ) (draw : ℕ → String) (s : State)
      → FreshDraws rs draw k (pods s)
      → (alive s ≤ alive (create_missing c rs draw k s))
        × (alive (create_missing c rs draw k s) ≤ alive s + k)
  unfolding create_missing
  create_missing_bounds zero draw s f = (omega arith, omega arith)
  create_missing_bounds (suc k) draw s f = elim (create_one (draw 0) s (f.unused 0 (omega arith))) [
    | inl (p, name, e, more) ↦
        let (lo, hi) =
          create_missing_bounds k (λ i. draw (suc i))
            (c.create_pod (build_pod_from_template rs (draw 0)) s).1
            (rw e (draws_after draw k p (pods s) name f)) in
        (omega arith, omega arith)
    | inr (_, e) ↦
        let (lo, hi) =
          create_missing_bounds k (λ i. draw (suc i))
            (c.create_pod (build_pod_from_template rs (draw 0)) s).1
            (rw e (draws_without draw k (pods s) f)) in
        let same : alive (c.create_pod (build_pod_from_template rs (draw 0)) s).1 ≡ alive s =
          ap (λ (xs : List Pod). length (alive_pods rs.metadata.name xs)) e in
        (omega arith, omega arith)
  ]

  -- The pods that are built have a name.
  pod_name_filled : (suffix : String) → pod_name rs suffix ≢ ""
  pod_name_filled suffix = concat_filled_between rs.metadata.name _ "" suffix

  created :
      (draw : ℕ → String) (s : State)
      → rs.spec.template.spec.containers ≢ []
      → IsReliable c
      → (c.create_pod (build_pod_from_template rs (draw 0)) s).0 ≡ true
  unfolding build_pod_from_template
  created draw s filled works = works.creates _ s (pod_name_filled (draw 0)) filled

  -- Where the server does what it can and the template has containers, the loop adds all of them.
  pub create_missing_exact :
      IsReliable c
      → rs.spec.template.spec.containers ≢ []
      → (k : ℕ) (draw : ℕ → String) (s : State) → FreshDraws rs draw k (pods s)
      → alive (create_missing c rs draw k s) ≡ alive s + k
  unfolding create_missing
  create_missing_exact works filled zero draw s f = omega arith
  create_missing_exact works filled (suc k) draw s f =
      elim (create_one (draw 0) s (f.unused 0 (omega arith))) [
        | inl (p, name, e, more) ↦
            let rest =
              create_missing_exact works filled k (λ i. draw (suc i))
                (c.create_pod (build_pod_from_template rs (draw 0)) s).1
                (rw e (draws_after draw k p (pods s) name f)) in
            omega arith
        | inr (bad, _) ↦ absurd (false≢true (sym bad ∙ created draw s filled works))
      ]

  -- Where the server does what it can, the loop takes out the pods of the given names.
  pub delete_extra_exact :
      IsReliable c
      → (victims : List Pod) (s : State)
      → pods (delete_extra c victims s) ≡ without_all victims (pods s)
  unfolding delete_extra
  delete_extra_exact works [] s = refl
  delete_extra_exact works (v ∷ victims) s = elim (law.pods-delete_pod v.metadata.name s) [
    | inl e ↦
        delete_extra_exact works victims (c.delete_pod v.metadata.name s).1
        ∙ ap (without_all victims) e
    | inr (bad, e) ↦ elim (Bool-cases (any (λ p. p.metadata.name == v.metadata.name) (pods s))) [
      | inl there ↦ absurd (false≢true (sym bad ∙ works.deletes _ s there))
      | inr absent ↦
          delete_extra_exact works victims (c.delete_pod v.metadata.name s).1
          ∙ ap (without_all victims) (e ∙ sym (without-absent v.metadata.name (pods s) absent))
    ]
  ]
