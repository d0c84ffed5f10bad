-- ===== src/Sql/Everywhere.antt =====
-- A property of every row of a table, and the statements that keep it.
use kubernetes_style_orchest.Prelude.{
  ℕ, suc, List, [], ◌∷◌, Key, ◌==◌, Bool-cases, Option-cases, inl, inr, ◌≡◌,
}
use kubernetes_style_orchest.Db.{Db}
use kubernetes_style_orchest.Sql.{
  M, Table, after, insert_or_update, insert_into, update_where, delete_where,
}
use kubernetes_style_orchest.Sql.Rows.{select, update, remove, append}

module _ {K R : Type 0} ⦃e : Key K⦄ (Q : R → Type 0) where
  abbrev pub Everywhere : List (K × R) → Type 0
  Everywhere [] = Unit {0}
  Everywhere (p ∷ t) = Q p.1 × Everywhere t

  pub append-Everywhere :
      (k : K) (r : R) (t : List (K × R)) → Q r → Everywhere t → Everywhere (append k r t)
  append-Everywhere k r [] q h = (q, tt)
  append-Everywhere k r (p ∷ t) q h = (h.0, append-Everywhere k r t q h.1)

  pub update-Everywhere :
      (k : K) (f : R → R) (t : List (K × R))
      → ((r : R) → Q r → Q (f r))
      → Everywhere t
      → Everywhere (update k f t)
  unfolding update
  update-Everywhere k f [] q h = tt
  update-Everywhere k f ((j, r) ∷ t) q h = elim (Bool-cases (j == k)) [
    | inl same ↦ rw same (q r h.0, update-Everywhere k f t q h.1)
    | inr other ↦ rw other (h.0, update-Everywhere k f t q h.1)
  ]

  pub remove-Everywhere : (k : K) (t : List (K × R)) → Everywhere t → Everywhere (remove k t)
  unfolding remove
  remove-Everywhere k [] h = tt
  remove-Everywhere k ((j, r) ∷ t) h = elim (Bool-cases (j == k)) [
    | inl same ↦ rw same (remove-Everywhere k t h.1)
    | inr other ↦ rw other (h.0, remove-Everywhere k t h.1)
  ]

-- The statements on a table whose rows are what was written last and which `executed` is no part of.
abbrev pub IsColumn : {K R : Type 0} → Table K R → Type 0
IsColumn {K = K} {R = R} t =
    ((x : List (K × R)) (s : Db) → t.rows (t.with_rows x s) ≡ x)
    × ((n : ℕ) (s : Db) → t.rows (record s { executed = n }) ≡ t.rows s)

module _ {K R : Type 0} ⦃e : Key K⦄ (Q : R → Type 0) (t : Table K R) (col : IsColumn t) where
  -- The rows of the table keep the property.
  abbrev pub KeepsRows : {A : Type 0} → M A → Type 0
  KeepsRows m = (s : Db) → Everywhere Q (t.rows s) → Everywhere Q (t.rows (after (m s)))

  pub insert_or_update-Everywhere :
      (k : K) (r : R) (f : R → R)
      → Q r
      → ((q : R) → Q q → Q (f q))
      → KeepsRows (insert_or_update t k r f)
  unfolding insert_or_update
  insert_or_update-Everywhere k r f q g s h = elim (Bool-cases (s.fails s.executed)) [
    | inl x ↦ rw (x, col.1 (suc s.executed) s) h
    | inr x ↦ elim (Option-cases (select k (t.rows (record s { executed = suc s.executed })))) [
      | inl y ↦ rw (x, y, col.0) (append-Everywhere Q k r _ q (rw (col.1 (suc s.executed) s) h))
      | inr (w, y) ↦
          rw (x, y, col.0) (update-Everywhere Q k f _ g (rw (col.1 (suc s.executed) s) h))
    ]
  ]

  pub insert_into-Everywhere : (k : K) (r : R) → Q r → KeepsRows (insert_into t k r)
  unfolding insert_into
  insert_into-Everywhere k r q s h = elim (Bool-cases (s.fails s.executed)) [
    | inl x ↦ rw (x, col.1 (suc s.executed) s) h
    | inr x ↦ elim (Option-cases (select k (t.rows (record s { executed = suc s.executed })))) [
      | inl y ↦ rw (x, y, col.0) (append-Everywhere Q k r _ q (rw (col.1 (suc s.executed) s) h))
      | inr (w, y) ↦ rw (x, y, col.1 (suc s.executed) s) h
    ]
  ]

  pub update_where-Everywhere :
      (k : K) (f : R → R) → ((q : R) → Q q → Q (f q)) → KeepsRows (update_where t k f)
  unfolding update_where
  update_where-Everywhere k f g s h = elim (Bool-cases (s.fails s.executed)) [
    | inl x ↦ rw (x, col.1 (suc s.executed) s) h
    | inr x ↦ rw (x, col.0) (update-Everywhere Q k f _ g (rw (col.1 (suc s.executed) s) h))
  ]

  pub delete_where-Everywhere : (k : K) → KeepsRows (delete_where t k)
  unfolding delete_where
  delete_where-Everywhere k s h = elim (Bool-cases (s.fails s.executed)) [
    | inl x ↦ rw (x, col.1 (suc s.executed) s) h
    | inr x ↦ rw (x, col.0) (remove-Everywhere Q k _ (rw (col.1 (suc s.executed) s) h))
  ]
