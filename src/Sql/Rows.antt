-- ===== src/Sql/Rows.antt =====
-- What the statements do to the rows of one table.
use kubernetes_style_orchest.Prelude.{
  ℕ, suc, Option, none, some, List, [], ◌∷◌, ◌++◌, Key, ◌==◌, if◌then◌else◌,
}

module _ {K R : Type 0} ⦃e : Key K⦄ where
  unfoldable pub select : K → List (K × R) → Option R
  select k [] = none
  select k ((j, r) ∷ t) = let rest = select k t in if j == k then some r else rest

  unfoldable pub update : K → (R → R) → List (K × R) → List (K × R)
  update k f [] = []
  update k f ((j, r) ∷ t) = (j, (if j == k then f r else r)) ∷ update k f t

  unfoldable pub remove : K → List (K × R) → List (K × R)
  remove k [] = []
  remove k ((j, r) ∷ t) = let rest = remove k t in if j == k then rest else (j, r) ∷ rest

  unfoldable pub affected : K → List (K × R) → ℕ
  affected k [] = 0
  affected k ((j, r) ∷ t) = let rest = affected k t in if j == k then suc rest else rest

  abbrev pub append : K → R → List (K × R) → List (K × R)
  append k r t = t ++ (k, r) ∷ []
