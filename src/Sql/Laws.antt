-- ===== src/Sql/Laws.antt =====
-- Reading one row after a statement.
use mathlib.Core.Option
use kubernetes_style_orchest.Prelude.{
  ℕ, suc, ◌≡◌, refl, Bool, true, false, Option, none, some, List, [], ◌∷◌, Key, ◌==◌, if◌then◌else◌,
  arith, ◌⊎◌, inl, inr,
}
use kubernetes_style_orchest.Sql.Rows.{select, update, remove, affected, append}

abbrev pub or_row : {R : Type 0} → Option R → Option R → Option R
or_row (some r) o = some r
or_row none o = o

module _ {K R : Type 0} ⦃e : Key K⦄ where
  pub select-update :
      (k j : K) (f : R → R) (t : List (K × R))
      → select j (update k f t) ≡ (if k == j then Option.map f (select j t) else select j t)
  unfolding select update
  select-update k j f [] = ground arith
  select-update k j f ((i, r) ∷ t) =
      ground (arith, select-update k j f t, e.same_iff k j, e.same_iff i k, e.same_iff i j)

  pub select-remove :
      (k j : K) (t : List (K × R)) → select j (remove k t) ≡ (if k == j then none else select j t)
  unfolding select remove
  select-remove k j [] = ground arith
  select-remove k j ((i, r) ∷ t) =
      ground (arith, select-remove k j t, e.same_iff k j, e.same_iff i k, e.same_iff i j)

  pub select-append :
      (k j : K) (r : R) (t : List (K × R))
      → select j (append k r t) ≡ or_row (select j t) (if k == j then some r else none)
  unfolding select
  select-append k j r [] = refl
  select-append k j r ((i, q) ∷ t) = ground (arith, select-append k j r t)

  -- A statement affects a row exactly when one is found.
  pub affected-select :
      (k : K) (t : List (K × R))
      → ((affected k t ≡ 0) × (select k t ≡ none))
        ⊎ ((n : ℕ) × (r : R) × (affected k t ≡ suc n) × (select k t ≡ some r))
  unfolding select affected
  affected-select k [] = inl (refl, refl)
  affected-select k ((j, r) ∷ t) = here (j == k) (affected-select k t)
    where
      here :
          (b : Bool)
          → ((affected k t ≡ 0) × (select k t ≡ none))
            ⊎ ((n : ℕ) × (q : R) × (affected k t ≡ suc n) × (select k t ≡ some q))
          → (((if b then suc (affected k t) else affected k t) ≡ 0)
              × ((if b then some r else select k t) ≡ none))
            ⊎ ((n : ℕ) × (q : R) × ((if b then suc (affected k t) else affected k t) ≡ suc n)
                × ((if b then some r else select k t) ≡ some q))
      here true h = inr (affected k t, r, refl, refl)
      here false h = h
