-- ===== src/Controllers/Deployments/Desired.antt =====
-- mvp/internal/controllers/deployment.go: the number of replicas that a Deployment asks for reaches
-- its ReplicaSet.
use kubernetes_style_orchest.Prelude.{
  concat_filled, String, ◌==◌, string_eq, int_eq, ==_iff, Bool, true, false, Option, some, List, [],
  ◌∷◌, Bool-cases, Option-cases, ◌≡◌, ◌≢◌, refl, ap, ◌∙◌, inl, inr, Member, here, there,
}
use kubernetes_style_orchest.Prelude.Int.{ℤ}
use kubernetes_style_orchest.Api.{Deployment, DeploymentStatus, ReplicaSet}
use kubernetes_style_orchest.Controllers.Deployments.{
  DeploymentClient, rs_name, replica_set_for, must_post, propagate, after_post, reconcile_one,
  reconcile_each,
}

-- What the server holds and how the calls relate to it: a read may fail but does not lie, a post that
-- works stores the spec under the name and no other, a status update changes no ReplicaSet.
pub record IsFaithful (c : DeploymentClient) : Type 1 where
  pub replicas_of : String → c.State → Option ℤ
  pub reads :
      (name : String) (s : c.State) (rs : ReplicaSet)
      → c.get_replica_set name s ≡ some rs
      → replicas_of name s ≡ some rs.spec.replicas
  pub posts :
      (rs : ReplicaSet) (s : c.State)
      → (c.create_replica_set rs s).0 ≡ true
      → replicas_of rs.metadata.name (c.create_replica_set rs s).1 ≡ some rs.spec.replicas
  pub posts_one :
      (rs : ReplicaSet) (s : c.State) (name : String)
      → name ≢ rs.metadata.name
      → replicas_of name (c.create_replica_set rs s).1 ≡ replicas_of name s
  pub status_kept :
      (d name : String) (st : DeploymentStatus) (s : c.State)
      → replicas_of name (c.update_deployment_status d st s).1 ≡ replicas_of name s

-- Every post of a ReplicaSet that has a name works, which is what the server asks for.
abbrev pub PostsWork : DeploymentClient → Type 0
PostsWork c =
    (rs : ReplicaSet) (s : c.State) → rs.metadata.name ≢ "" → (c.create_replica_set rs s).0 ≡ true

module _ (c : DeploymentClient) (law : IsFaithful c) where
  open c use {State}
  open law use {replicas_of}

  propagate-replicas_of :
      (d : Deployment) (name : String) (s : State)
      → replicas_of name (propagate c d s) ≡ replicas_of name s
  unfolding propagate
  propagate-replicas_of d name s = elim (Option-cases (c.get_replica_set (rs_name d) s)) [
    | inl e ↦ rw (e, propagate) refl
    | inr (rs, e) ↦ rw (e, propagate) (law.status_kept _ name _ s)
  ]

  after_post-replicas_of :
      (d : Deployment) (name : String) (b : Bool) (s : State)
      → replicas_of name (after_post c d (b, s)) ≡ replicas_of name s
  unfolding after_post
  after_post-replicas_of d name true s = propagate-replicas_of d name s
  after_post-replicas_of d name false s = refl

  rs_name_filled : (d : Deployment) → rs_name d ≢ ""
  rs_name_filled d = concat_filled d.metadata.name _ "rs"

  reconcile_one-posts :
      (d : Deployment) (s : State)
      → PostsWork c
      → replicas_of (rs_name d) (reconcile_one c d s) ≡ some d.spec.replicas
  unfolding reconcile_one must_post
  reconcile_one-posts d s works = elim (Option-cases (c.get_replica_set (rs_name d) s)) [
    | inl e ↦
        rw (e, reconcile_one)
          (after_post-replicas_of d (rs_name d) _ _
            ∙ law.posts (replica_set_for d) s (works _ s (rs_name_filled d)))
    | inr (rs, e) ↦ elim (Bool-cases (rs.spec.replicas == d.spec.replicas)) [
      | inl same ↦
          rw (e, reconcile_one, same)
            (propagate-replicas_of d (rs_name d) s
              ∙ law.reads (rs_name d) s rs e
              ∙ ap some ((==_iff rs.spec.replicas d.spec.replicas).0 same))
      | inr other ↦
          rw (e, reconcile_one, other)
            (after_post-replicas_of d (rs_name d) _ _
              ∙ law.posts (replica_set_for d) s (works _ s (rs_name_filled d)))
    ]
  ]

  reconcile_one-others :
      (d : Deployment) (name : String) (s : State)
      → name ≢ rs_name d
      → replicas_of name (reconcile_one c d s) ≡ replicas_of name s
  unfolding reconcile_one
  reconcile_one-others d name s other =
      elim (Bool-cases (must_post c d (c.get_replica_set (rs_name d) s))) [
        | inl post ↦
            rw (post, reconcile_one)
              (after_post-replicas_of d name _ _ ∙ law.posts_one (replica_set_for d) s name other)
        | inr skip ↦ rw (skip, reconcile_one) (propagate-replicas_of d name s)
      ]

  -- The Deployments of the list have different names for their ReplicaSets.
  abbrev pub DistinctSets : List Deployment → Type 0
  DistinctSets [] = Unit {0}
  DistinctSets (d ∷ ds) = ((e : Deployment) → Member e ds → rs_name d ≢ rs_name e) × DistinctSets ds

  reconcile_each-others :
      (ds : List Deployment) (name : String) (s : State)
      → ((e : Deployment) → Member e ds → name ≢ rs_name e)
      → replicas_of name (reconcile_each c ds s) ≡ replicas_of name s
  unfolding reconcile_each
  reconcile_each-others [] name s h = refl
  reconcile_each-others (d ∷ ds) name s h =
      reconcile_each-others ds name (reconcile_one c d s) (λ e m. h e (there m))
      ∙ reconcile_one-others d name s (h d (here refl))

  -- One pass over Deployments with different ReplicaSets, where every post of a ReplicaSet that has a
  -- name works, leaves every
  -- Deployment's ReplicaSet with the number of replicas that the Deployment asks for, whichever
  -- reads fail, if the client is faithful.
  pub reconcile_each-replicas :
      (ds : List Deployment) (s : State)
      → PostsWork c
      → DistinctSets ds
      → (d : Deployment) → Member d ds
      → replicas_of (rs_name d) (reconcile_each c ds s) ≡ some d.spec.replicas
  unfolding reconcile_each
  reconcile_each-replicas [] s works distinct d m = elim m [ ]
  reconcile_each-replicas (e ∷ ds) s works distinct d (here same) = rw same (
      reconcile_each-others ds (rs_name e) (reconcile_one c e s) distinct.0
      ∙ reconcile_one-posts e s works)
  reconcile_each-replicas (e ∷ ds) s works distinct d (there m) =
      reconcile_each-replicas ds (reconcile_one c e s) works distinct.1 d m
