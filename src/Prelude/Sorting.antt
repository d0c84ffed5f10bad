-- ===== src/Prelude/Sorting.antt =====
-- A stable sort by a numeric column: the meaning of ORDER BY.
use Prim.Native.Nat.{ℕ, ◌≤◌}
use mathlib.Core.Path.{◌≡◌, refl}
use mathlib.Core.Bool.{◌||◌}
use kubernetes_style_orchest.Prelude.Lists.{any, Member, here, there}
use mathlib.Core.Bool.{Bool}
use mathlib.Core.Logic.{inl, inr}
use mathlib.Core.List.{List, [], ◌∷◌, Perm}
use mathlib.Core.List.Perm
use native.Mathlib.Omega.{arith}
use kubernetes_style_orchest.Prelude.Tests.{leb, if◌then◌else◌, Bool-cases}

module _ {ℓ} {A : Type ℓ} (column : A → ℕ) where
  unfoldable pub insert_by : A → List A → List A
  insert_by x [] = x ∷ []
  insert_by x (y ∷ ys) =
      let rest = insert_by x ys in if leb (column x) (column y) then x ∷ y ∷ ys else y ∷ rest

  unfoldable pub order_by : List A → List A
  unfolding insert_by
  order_by [] = []
  order_by (x ∷ xs) = insert_by x (order_by xs)

  -- Each row's column is at least `n`, and no column falls along the list.
  abbrev pub SortedFrom : ℕ → List A → Type 0
  SortedFrom n [] = Unit {0}
  SortedFrom n (x ∷ xs) = (n ≤ column x) × SortedFrom (column x) xs

  insert_by-perm : (x : A) (ys : List A) → Perm (insert_by x ys) (x ∷ ys)
  unfolding insert_by
  insert_by-perm x [] = Perm.refl (x ∷ [])
  insert_by-perm x (y ∷ ys) = elim (Bool-cases (leb (column x) (column y))) [
    | inl le ↦ rw le (Perm.refl (x ∷ y ∷ ys))
    | inr gt ↦ rw gt (Perm.trans (Perm.cons y (insert_by-perm x ys)) (Perm.swap x y ys))
  ]

  pub order_by-perm : (xs : List A) → Perm (order_by xs) xs
  unfolding order_by
  order_by-perm [] = Perm.nil
  order_by-perm (x ∷ xs) =
      Perm.trans (insert_by-perm x (order_by xs)) (Perm.cons x (order_by-perm xs))

  insert_by-SortedFrom :
      (n : ℕ) (x : A) (ys : List A) → n ≤ column x → SortedFrom n ys → SortedFrom n (insert_by x ys)
  unfolding insert_by
  insert_by-SortedFrom n x [] h s = (h, tt)
  insert_by-SortedFrom n x (y ∷ ys) h s = ground (arith, insert_by-SortedFrom (column y) x ys)

  pub order_by-SortedFrom : (xs : List A) → SortedFrom 0 (order_by xs)
  unfolding order_by
  order_by-SortedFrom [] = tt
  order_by-SortedFrom (x ∷ xs) =
      insert_by-SortedFrom 0 x (order_by xs) (omega arith) (order_by-SortedFrom xs)

  past :
      (z x y : A) (ys zs : List A)
      → (Member z (x ∷ ys) → Member z zs)
      → Member z (x ∷ y ∷ ys)
      → Member z (y ∷ zs)
  past z x y ys zs f (here e) = there (f (here e))
  past z x y ys zs f (there (here e)) = here e
  past z x y ys zs f (there (there m)) = there (f (there m))

  Member-insert_by : (z x : A) (ys : List A) → Member z (x ∷ ys) → Member z (insert_by x ys)
  unfolding insert_by
  Member-insert_by z x [] m = m
  Member-insert_by z x (y ∷ ys) m = elim (Bool-cases (leb (column x) (column y))) [
    | inl le ↦ rw le m
    | inr gt ↦ rw gt (past z x y ys (insert_by x ys) (Member-insert_by z x ys) m)
  ]

  pub Member-order_by : (z : A) (xs : List A) → Member z xs → Member z (order_by xs)
  unfolding order_by
  Member-order_by z [] m = m
  Member-order_by z (x ∷ xs) (here e) = Member-insert_by z x (order_by xs) (here e)
  Member-order_by z (x ∷ xs) (there m) =
      Member-insert_by z x (order_by xs) (there (Member-order_by z xs m))

  any-insert_by : (p : A → Bool) (x : A) (ys : List A) → any p (insert_by x ys) ≡ (p x || any p ys)
  unfolding insert_by
  any-insert_by p x [] = refl
  any-insert_by p x (y ∷ ys) = ground (arith, any-insert_by p x ys)

  pub any-order_by : (p : A → Bool) (xs : List A) → any p (order_by xs) ≡ any p xs
  unfolding order_by
  any-order_by p [] = refl
  any-order_by p (x ∷ xs) = ground (arith, any-insert_by p x (order_by xs), any-order_by p xs)
