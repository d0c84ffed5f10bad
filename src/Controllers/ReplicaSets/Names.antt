-- ===== src/Controllers/ReplicaSets/Names.antt =====
-- mvp/internal/controllers/replicaset.go: pods told apart by their names, and what creating and
-- deleting by name does to the pods of a ReplicaSet.
use mathlib.Core.List.{append-nil}
use kubernetes_style_orchest.Prelude.{
  ℕ, ◌<◌, String, ◌==◌, string_eq, ==_iff, ==_refl, Bool, false, not, List, [], ◌∷◌, ◌++◌, keep,
  keep_comm, keep-append, ◌≡◌, ◌≢◌, refl, ap, ◌∙◌, arith,
}
use kubernetes_style_orchest.Api.{Pod, ReplicaSet, phase_failed}
use kubernetes_style_orchest.Controllers.Client.{without, Unused}
use kubernetes_style_orchest.Controllers.ReplicaSets.{pod_name, owned_pods, owns, alive_pods}

-- The name is the primary key: no two pods of the list share one.
abbrev pub DistinctNames : List Pod → Type 0
DistinctNames [] = Unit {0}
DistinctNames (p ∷ pods) = Unused p.metadata.name pods × DistinctNames pods

-- The next `k` names that the controller draws are not in use and differ.
pub record FreshDraws (rs : ReplicaSet) (draw : ℕ → String) (k : ℕ) (pods : List Pod) : Type 0 where
  pub unused : (i : ℕ) → i < k → Unused (pod_name rs (draw i)) pods
  pub distinct : (i j : ℕ) → i < j → j < k → pod_name rs (draw i) ≢ pod_name rs (draw j)

without-Unused : (name : String) (pods : List Pod) → Unused name pods → without name pods ≡ pods
without-Unused name [] h = refl
without-Unused name (p ∷ pods) h = ground (arith, without-Unused name pods)

Unused-keep :
    (name : String) (q : Pod → Bool) (pods : List Pod)
    → Unused name pods
    → Unused name (keep q pods)
Unused-keep name q [] h = refl
Unused-keep name q (p ∷ pods) h = ground (arith, Unused-keep name q pods)

pub DistinctNames-keep :
    (q : Pod → Bool) (pods : List Pod) → DistinctNames pods → DistinctNames (keep q pods)
DistinctNames-keep q [] h = tt
DistinctNames-keep q (p ∷ pods) h =
    ground (arith, Unused-keep p.metadata.name q pods h.0, DistinctNames-keep q pods h.1)

Unused-middle :
    (name : String) (xs : List Pod) (y : Pod) (ys : List Pod)
    → Unused name (xs ++ y ∷ ys)
    → ((y.metadata.name == name) ≡ false) × Unused name (xs ++ ys)
Unused-middle name [] y ys h = (ground arith, ground arith)
Unused-middle name (x ∷ xs) y ys h = ground (arith, Unused-middle name xs y ys)

-- Deleting one of several pods of distinct names takes out that pod alone.
without-middle :
    (xs : List Pod) (y : Pod) (ys : List Pod)
    → DistinctNames (xs ++ y ∷ ys)
    → (without y.metadata.name (xs ++ y ∷ ys) ≡ xs ++ ys) × DistinctNames (xs ++ ys)
without-middle [] y ys h =
    (rw (==_refl y.metadata.name) (without-Unused y.metadata.name ys h.0), h.1)
without-middle (x ∷ xs) y ys h =
    let (other, rest) = Unused-middle x.metadata.name xs y ys h.0 in
    ground (
      arith,
      without-middle xs y ys h.1,
      ==_iff x.metadata.name y.metadata.name,
      ==_iff y.metadata.name x.metadata.name,
    )

-- Deleting the names one after the other.
abbrev pub without_all : List Pod → List Pod → List Pod
without_all [] pods = pods
without_all (v ∷ victims) pods = without_all victims (without v.metadata.name pods)

pub without_all-append :
    (xs ys : List Pod) → DistinctNames (xs ++ ys) → without_all ys (xs ++ ys) ≡ xs
without_all-append xs [] h = append-nil xs
without_all-append xs (y ∷ ys) h =
    let (e, rest) = without-middle xs y ys h in rw e (without_all-append xs ys rest)

alive-without :
    (rs name : String) (pods : List Pod)
    → alive_pods rs (without name pods) ≡ without name (alive_pods rs pods)
unfolding alive_pods
alive-without rs name pods =
    rw (keep_comm (λ p. owns rs p.metadata.labels) (λ p. not (p.metadata.name == name)) pods) (
      keep_comm (λ p. not (p.status.phase == phase_failed)) (λ p. not (p.metadata.name == name))
        (owned_pods rs pods))

pub alive-without_all :
    (rs : String) (victims pods : List Pod)
    → alive_pods rs (without_all victims pods) ≡ without_all victims (alive_pods rs pods)
alive-without_all rs [] pods = refl
alive-without_all rs (v ∷ victims) pods =
    alive-without_all rs victims (without v.metadata.name pods)
    ∙ ap (without_all victims) (alive-without rs v.metadata.name pods)

pub alive-append :
    (rs : String) (xs ys : List Pod)
    → alive_pods rs (xs ++ ys) ≡ alive_pods rs xs ++ alive_pods rs ys
unfolding alive_pods
alive-append rs xs ys =
    rw (keep-append (λ p. owns rs p.metadata.labels) xs ys) (
      keep-append (λ p. not (p.status.phase == phase_failed)) (owned_pods rs xs) (owned_pods rs ys))

pub DistinctNames-alive :
    (rs : String) (pods : List Pod) → DistinctNames pods → DistinctNames (alive_pods rs pods)
unfolding alive_pods
DistinctNames-alive rs pods h =
    DistinctNames-keep _ _ (DistinctNames-keep (λ p. owns rs p.metadata.labels) pods h)
