-- ===== src/ApiServer/Invariant/Keeping.antt =====
-- mvp/internal/store: methods that keep the invariant, composed and taken apart by tables.
use kubernetes_style_orchest.Prelude.{ℕ, zero, suc, String, List, string_eq, ◌≡◌, refl}
use kubernetes_style_orchest.Db.{Db}
use kubernetes_style_orchest.Sql.{
  M, Run, returns, raises, after, caught, proceed, ◌>>=◌, attempt, require_row,
}
use kubernetes_style_orchest.Sql.Reads.{Reads}
use kubernetes_style_orchest.Sql.Everywhere.{Everywhere}
use kubernetes_style_orchest.ApiServer.Invariant.{
  IsBounded, HasIp, HasToken, IsHook, IsServed, Consistent, Keeps, Consistent-Aside,
}

module _ {A : Type 0} where
  pub Reads-Keeps : (m : M A) → Reads m → Keeps m
  Reads-Keeps m h s k = same s (after (m s)) (after (m s)).executed (h s) k
    where
      same : (s t : Db) (n : ℕ) → t ≡ record s { executed = n } → Consistent s → Consistent t
      same s t n e k =
          Consistent-Aside s t (rw e refl, rw e refl, rw e refl, rw e refl, rw e refl) k

  pub attempt-Keeps : (m : M A) → Keeps m → Keeps (attempt m)
  attempt-Keeps m h s k = by_run (m s) (h s k)
    where
      by_run : (x : Run A) → Consistent (after x) → Consistent (after (caught x))
      by_run (returns a t) c = c
      by_run (raises e t) c = c

pub bind-Keeps :
    {A B : Type 0} (m : M A) (f : A → M B) → Keeps m → ((a : A) → Keeps (f a)) → Keeps (m >>= f)
bind-Keeps {A = A} {B = B} m f h g s k = by_run (m s) (h s k)
  where
    by_run : (x : Run A) → Consistent (after x) → Consistent (after (proceed f x))
    by_run (returns a t) c = g a t c
    by_run (raises e t) c = c

pub require_row-Keeps : (n : ℕ) → Keeps (require_row n)
require_row-Keeps zero s k = k
require_row-Keeps (suc n) s k = k

-- The rows of each table of the invariant keep their property.
pub each-Keeps :
    {A : Type 0} (m : M A)
    → ((s : Db) → Everywhere IsBounded s.hpas → Everywhere IsBounded (after (m s)).hpas)
    → ((s : Db) → Everywhere HasIp s.services → Everywhere HasIp (after (m s)).services)
    → ((s : Db) → Everywhere HasToken s.users → Everywhere HasToken (after (m s)).users)
    → ((s : Db)
        → Everywhere IsHook s.admission_webhooks
        → Everywhere IsHook (after (m s)).admission_webhooks)
    → ((s : Db) → Everywhere IsServed s.crds → Everywhere IsServed (after (m s)).crds)
    → Keeps m
each-Keeps m a b c d e s k = record {
  hpas = a s k.hpas;
  services = b s k.services;
  users = c s k.users;
  webhooks = d s k.webhooks;
  crds = e s k.crds;
}

-- A table that the method does not write.
pub still :
    {R : Type 0} (Q : R → Type 0) (t u : List (String × R))
    → u ≡ t
    → Everywhere Q t
    → Everywhere Q u
still Q t u e h = rw e h
