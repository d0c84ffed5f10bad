-- ===== src/Sql/Reads.antt =====
-- Methods that read and never write: whatever the driver fails, they leave every table as it was,
-- and composing such methods gives one.
use kubernetes_style_orchest.Prelude.{◌≡◌, refl, ap, ◌∙◌, Key, arith}
use kubernetes_style_orchest.Db.{Db}
use kubernetes_style_orchest.Sql.{
  M, Run, returns, raises, Table, after, caught, proceed, ◌>>=◌, pure, attempt, query_row,
  query_all,
}

-- The second database is the first after some statements that changed nothing.
abbrev pub SameTables : Db → Db → Type 0
SameTables s t = t ≡ record s { executed = t.executed }

abbrev pub Reads : {A : Type 0} → M A → Type 0
Reads m = (s : Db) → SameTables s (after (m s))

pub SameTables-trans : (s t u : Db) → SameTables s t → SameTables t u → SameTables s u
SameTables-trans s t u h k = k ∙ ap (λ (x : Db). record x { executed = u.executed }) h

module _ {A : Type 0} where
  pub Reads-pure : (a : A) → Reads (pure a)
  Reads-pure a s = refl

  pub Reads-attempt : (m : M A) → Reads m → Reads (attempt m)
  Reads-attempt m h s = by_run (m s) (h s)
    where
      by_run : (x : Run A) → SameTables s (after x) → SameTables s (after (caught x))
      by_run (returns a t) e = e
      by_run (raises f t) e = e

pub Reads-bind :
    {A B : Type 0} (m : M A) (f : A → M B) → Reads m → ((a : A) → Reads (f a)) → Reads (m >>= f)
Reads-bind {A = A} {B = B} m f h k s = by_run (m s) (h s)
  where
    by_run : (x : Run A) → SameTables s (after x) → SameTables s (after (proceed f x))
    by_run (returns a t) e = SameTables-trans s t (after (f a t)) e (k a t)
    by_run (raises g t) e = e

pub Reads-query_row : {K R : Type 0} ⦃e : Key K⦄ (t : Table K R) (k : K) → Reads (query_row t k)
unfolding query_row
Reads-query_row t k s = ground arith

pub Reads-query_all : {K R : Type 0} (t : Table K R) → Reads (query_all t)
unfolding query_all
Reads-query_all t s = ground arith
