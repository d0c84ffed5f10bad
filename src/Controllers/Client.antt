-- ===== src/Controllers/Client.antt =====
-- What the ReplicaSet controller asks of the API server, through mvp/internal/client/client.go:
-- creations, deletions and status updates of which each may report an error. `pods` is the list
-- that ListPods would return. An error may hide that the server did the work.
use kubernetes_style_orchest.Prelude.{
  String, ◌==◌, string_eq, Bool, true, false, not, List, [], ◌∷◌, ◌++◌, keep, any, ◌≡◌, ◌≢◌, ◌⊎◌,
}
use kubernetes_style_orchest.Api.{Pod, ReplicaSetStatus, phase_pending}

abbrev pub without : String → List Pod → List Pod
without name pods = keep (λ p. not (p.metadata.name == name)) pods

-- No pod of the list has the name.
abbrev pub Unused : String → List Pod → Type 0
Unused name pods = any (λ p. p.metadata.name == name) pods ≡ false

pub record PodClient : Type 1 where
  pub State : Type 0
  pub pods : State → List Pod
  pub create_pod : Pod → State → Bool × State
  pub delete_pod : String → State → Bool × State
  pub update_replica_set_status : String → ReplicaSetStatus → State → Bool × State
  -- the pod as the server lists it
  pub stored : Pod → State → Pod

-- What the controller relies on. A pod created under a name that is not in use keeps its metadata and starts as Pending.
pub record IsLawful (c : PodClient) : Type 0 where
  pub stored-metadata : (p : Pod) (s : c.State) → (c.stored p s).metadata ≡ p.metadata
  pub stored-phase :
      (p : Pod) (s : c.State) → p.status.phase ≡ "" → (c.stored p s).status.phase ≡ phase_pending
  pub pods-create_pod :
      (p : Pod) (s : c.State)
      → Unused p.metadata.name (c.pods s)
      → (c.pods (c.create_pod p s).1 ≡ c.pods s ++ c.stored p s ∷ [])
        ⊎ (((c.create_pod p s).0 ≡ false) × (c.pods (c.create_pod p s).1 ≡ c.pods s))
  pub pods-delete_pod :
      (name : String) (s : c.State)
      → (c.pods (c.delete_pod name s).1 ≡ without name (c.pods s))
        ⊎ (((c.delete_pod name s).0 ≡ false) × (c.pods (c.delete_pod name s).1 ≡ c.pods s))
  pub pods-update_status :
      (name : String) (st : ReplicaSetStatus) (s : c.State)
      → c.pods (c.update_replica_set_status name st s).1 ≡ c.pods s

-- The server creates every pod that has a name and containers, which is what it asks for, and deletes
-- every pod that is there.
pub record IsReliable (c : PodClient) : Type 0 where
  pub creates :
      (p : Pod) (s : c.State)
      → p.metadata.name ≢ ""
      → p.spec.containers ≢ []
      → (c.create_pod p s).0 ≡ true
  pub deletes :
      (name : String) (s : c.State)
      → any (λ p. p.metadata.name == name) (c.pods s) ≡ true
      → (c.delete_pod name s).0 ≡ true
