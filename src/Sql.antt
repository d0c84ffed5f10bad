-- ===== src/Sql.antt =====
-- The statements that mvp/internal/store sends to its database, as their SQL reads, and the errors
-- that come back. A statement that the driver fails changes nothing.
pub mod Rows
pub mod Laws
pub mod Reads
pub mod Everywhere
use kubernetes_style_orchest.Prelude.{
  ◌≡◌, false, ℕ, zero, suc, ◌+◌, Bool, Option, none, some, List, [], ◌∷◌, ◌++◌, Key, ◌==◌, any, not,
  ◌&&◌, if◌then◌else◌,
}
use kubernetes_style_orchest.Db.{Db}
use Rows.{select, update, append, remove, affected}

-- `ErrNotFound`, and any error of the driver.
pub data Error : Type 0 where
  not_found failed : Error

pub data Result {ℓ} (A : Type ℓ) : Type ℓ where
  ok : A → Result A
  err : Error → Result A

-- How a method of `*Store` ends: with a value or an error, and with the database as it left it.
pub data Run (A : Type 0) : Type 0 where
  returns : A → Db → Run A
  raises : Error → Db → Run A

abbrev pub result : {A : Type 0} → Run A → Result A
result (returns a s) = ok a
result (raises e s) = err e

abbrev pub after : {A : Type 0} → Run A → Db
after (returns a s) = s
after (raises e s) = s

abbrev pub M : Type 0 → Type 0
M A = Db → Run A

abbrev pub proceed : {A B : Type 0} → (A → M B) → Run A → Run B
proceed f (returns a s) = f a s
proceed f (raises e s) = raises e s

infixl 10 ◌>>=◌ ◌>>◌
abbrev pub ◌>>=◌ : {A B : Type 0} → M A → (A → M B) → M B
◌>>=◌ m f s = proceed f (m s)

abbrev pub ◌>>◌ : {B : Type 0} → M (Unit {0}) → M B → M B
m >> n = m >>= λ _. n

abbrev pub pure : {A : Type 0} → A → M A
pure a s = returns a s

abbrev pub raise : {A : Type 0} → Error → M A
raise e s = raises e s

abbrev pub caught : {A : Type 0} → Run A → Run (Result A)
caught (returns a s) = returns (ok a) s
caught (raises e s) = returns (err e) s

-- `x, err := m` where the caller looks at `err` itself.
abbrev pub attempt : {A : Type 0} → M A → M (Result A)
attempt m s = caught (m s)

-- `_, _ = m`: the result is dropped.
abbrev pub ignore : {A : Type 0} → M A → M (Unit {0})
ignore m = attempt m >>= λ _. pure tt

-- One statement: it takes the next number, and the driver may fail it.
unfoldable pub statement : {A : Type 0} → M A → M A
statement f s =
    let s' = record s { executed = suc s.executed } in
    if s.fails s.executed then raises failed s' else f s'

-- The driver fails no statement.
abbrev pub NoFaults : Db → Type 0
NoFaults s = (n : ℕ) → s.fails n ≡ false

-- A table of the database.
pub record Table (K R : Type 0) : Type 0 where
  pub rows : Db → List (K × R)
  pub with_rows : List (K × R) → Db → Db

abbrev found : {R : Type 0} → Option R → M R
found none = raise not_found
found (some r) = pure r

module _ {K R : Type 0} ⦃e : Key K⦄ (t : Table K R) where
  -- SELECT … WHERE key = ?, with `sql.ErrNoRows` turned into `ErrNotFound`
  unfoldable pub query_row : K → M R
  unfolding statement
  query_row k = statement λ s. found (select k (t.rows s)) s

  -- INSERT: a second row under one primary key is an error of the driver
  unfoldable pub insert_into : K → R → M (Unit {0})
  unfolding statement
  insert_into k r = statement λ s. elim (select k (t.rows s)) [
    | none ↦ returns tt (t.with_rows (append k r (t.rows s)) s)
    | some _ ↦ raises failed s
  ]

  -- INSERT … ON CONFLICT(key) DO UPDATE SET …
  unfoldable pub insert_or_update : K → R → (R → R) → M (Unit {0})
  unfolding statement
  insert_or_update k r f = statement λ s. elim (select k (t.rows s)) [
    | none ↦ returns tt (t.with_rows (append k r (t.rows s)) s)
    | some _ ↦ returns tt (t.with_rows (update k f (t.rows s)) s)
  ]

  -- the same on a table with a further UNIQUE column: `clash` compares two rows in that column
  unfoldable pub insert_or_update_unique : (R → R → Bool) → K → R → (R → R) → M (Unit {0})
  unfolding statement
  insert_or_update_unique clash k r f = statement λ s.
      if any (λ p. not (p.0 == k) && clash p.1 r) (t.rows s)
      then raises failed s
      else elim (select k (t.rows s)) [
        | none ↦ returns tt (t.with_rows (append k r (t.rows s)) s)
        | some _ ↦ returns tt (t.with_rows (update k f (t.rows s)) s)
      ]

  -- UPDATE … WHERE key = ?, and the number of rows affected
  unfoldable pub update_where : K → (R → R) → M ℕ
  unfolding statement
  update_where k f =
      statement λ s. returns (affected k (t.rows s)) (t.with_rows (update k f (t.rows s)) s)

  -- DELETE … WHERE key = ?, and the number of rows affected
  unfoldable pub delete_where : K → M ℕ
  unfolding statement
  delete_where k =
      statement λ s. returns (affected k (t.rows s)) (t.with_rows (remove k (t.rows s)) s)

module _ {K R : Type 0} (t : Table K R) where
  -- SELECT … with no key
  unfoldable pub query_all : M (List (K × R))
  unfolding statement
  query_all = statement λ s. returns (t.rows s) s

-- Commit or roll back: the statements stay counted.
abbrev pub settle : {A : Type 0} → Db → Run A → Run A
settle s (returns a s') = returns a s'
settle s (raises e s') = raises e (record s { executed = s'.executed })

unfoldable pub commit : M (Unit {0})
unfolding statement
commit = statement (pure tt)

-- `tx.Begin()` with `defer tx.Rollback()`, the statements of `m`, and `tx.Commit()` in `m`: where
-- `m` fails, what it wrote is undone.
unfoldable pub transaction : {A : Type 0} → M A → M A
unfolding statement
transaction m s = settle s ((statement (pure tt) >> m) s)

-- `n, _ := res.RowsAffected(); if n == 0 { return ErrNotFound }`
abbrev pub require_row : ℕ → M (Unit {0})
require_row zero = raise not_found
require_row (suc n) = pure tt
