-- ===== src/Prelude/Lists.antt =====
-- Lists measured by native numbers, Boolean filters and quantifiers.
use Prim.Native.Nat.{ℕ, zero, suc, ◌+◌, ◌≤◌}
use mathlib.Core.Path.{◌≡◌, refl, ap, sym, ◌∙◌}
use mathlib.Core.Logic.{◌↔◌, ◌⊎◌, inl, inr}
use mathlib.Core.Bool.{Bool, true, false, ◌&&◌, ◌||◌}
use mathlib.Core.List.{List, [], ◌∷◌, ◌++◌, map}
use mathlib.Core.Option.{Option, none, some}
use native.Mathlib.Omega.{arith}
use kubernetes_style_orchest.Prelude.Tests.{Bool-cases, if◌then◌else◌}

module _ {ℓ} {A : Type ℓ} where
  abbrev pub length : List A → ℕ
  length [] = 0
  length (x ∷ xs) = suc (length xs)

  abbrev pub get_elem? : List A → ℕ → Option A
  get_elem? [] i = none
  get_elem? (x ∷ xs) zero = some x
  get_elem? (x ∷ xs) (suc i) = get_elem? xs i

  abbrev pub take : ℕ → List A → List A
  take zero xs = []
  take (suc n) [] = []
  take (suc n) (x ∷ xs) = x ∷ take n xs

  abbrev pub drop : ℕ → List A → List A
  drop zero xs = xs
  drop (suc n) [] = []
  drop (suc n) (x ∷ xs) = drop n xs

  -- The loop `for … { if test { out = append(out, x) } }`.
  abbrev pub keep : (A → Bool) → List A → List A
  keep p [] = []
  keep p (x ∷ xs) = let rest = keep p xs in if p x then x ∷ rest else rest

  -- The loop `for … { if test { return true } }; return false`.
  abbrev pub any : (A → Bool) → List A → Bool
  any p [] = false
  any p (x ∷ xs) = p x || any p xs

  -- The loop `for … { if !test { return false } }; return true`.
  abbrev pub all : (A → Bool) → List A → Bool
  all p [] = true
  all p (x ∷ xs) = p x && all p xs

  -- The loop `for … { if test { return x } }; return nil`.
  abbrev pub find_first : (A → Bool) → List A → Option A
  find_first p [] = none
  find_first p (x ∷ xs) = let rest = find_first p xs in if p x then some x else rest

module _ {ℓ} {A : Type ℓ} where
  pub length-append : (xs ys : List A) → length (xs ++ ys) ≡ length xs + length ys
  length-append [] ys = omega arith
  length-append (x ∷ xs) ys = omega (arith, length-append xs ys)

  pub keep-append : (p : A → Bool) (xs ys : List A) → keep p (xs ++ ys) ≡ keep p xs ++ keep p ys
  keep-append p [] ys = refl
  keep-append p (x ∷ xs) ys = ground (arith, keep-append p xs ys)

  pub length-keep-le : (p : A → Bool) (xs : List A) → length (keep p xs) ≤ length xs
  length-keep-le p [] = omega arith
  length-keep-le p (x ∷ xs) = ground (arith, length-keep-le p xs)

  -- `x` occurs in the list: a predicate by recursion, with the position kept.
  pub data Member (x : A) : List A → Type ℓ where
    here : {y : A} {ys : List A} → x ≡ y → Member x (y ∷ ys)
    there : {y : A} {ys : List A} → Member x ys → Member x (y ∷ ys)

module _ {ℓ} {A : Type ℓ} where
  any→Member : (p : A → Bool) (xs : List A) → any p xs ≡ true → (x : A) × Member x xs × (p x ≡ true)
  any→Member p [] h = cc
  any→Member p (x ∷ xs) h = elim (Bool-cases (p x)) [
    | inl e ↦ (x, here refl, e)
    | inr e ↦ let (y, m, q) = any→Member p xs (ground arith) in (y, there m, q)
  ]

  Member→any : (p : A → Bool) (xs : List A) (x : A) → Member x xs → p x ≡ true → any p xs ≡ true
  Member→any p [] x m h = elim m [ ]
  Member→any p (y ∷ ys) x (here e) h = ground arith
  Member→any p (y ∷ ys) x (there m) h = ground (arith, Member→any p ys x m h)

  all→Member : (p : A → Bool) (xs : List A) → all p xs ≡ true → (x : A) → Member x xs → p x ≡ true
  all→Member p [] h x m = elim m [ ]
  all→Member p (y ∷ ys) h x (here e) = ground arith
  all→Member p (y ∷ ys) h x (there m) = all→Member p ys (ground arith) x m

  Member→all : (p : A → Bool) (xs : List A) → ((x : A) → Member x xs → p x ≡ true) → all p xs ≡ true
  Member→all p [] h = refl
  Member→all p (y ∷ ys) h = ground (arith, h y (here refl), Member→all p ys (λ x m. h x (there m)))

  -- A loop that looks for a hit decides that there is one.
  pub any_iff {κ} :
      (p : A → Bool) (P : A → Type κ)
      → ((x : A) → (p x ≡ true) ↔ P x)
      → (xs : List A) → (any p xs ≡ true) ↔ ((x : A) × Member x xs × P x)
  any_iff p P r xs = (
    (λ h. let (x, m, e) = any→Member p xs h in (x, m, (r x).0 e)),
    (λ w. Member→any p xs w.0 w.1 ((r w.0).1 w.2)),
  )

  pub all_iff {κ} :
      (p : A → Bool) (P : A → Type κ)
      → ((x : A) → (p x ≡ true) ↔ P x)
      → (xs : List A) → (all p xs ≡ true) ↔ ((x : A) → Member x xs → P x)
  all_iff p P r xs =
      ((λ h x m. (r x).0 (all→Member p xs h x m)), (λ h. Member→all p xs (λ x m. (r x).1 (h x m))))

  -- What `find_first` returns, by whether there is a hit.
  pub find_first_cases :
      (p : A → Bool) (xs : List A)
      → ((any p xs ≡ false) × (find_first p xs ≡ none))
        ⊎ ((x : A) × Member x xs × (p x ≡ true) × (any p xs ≡ true) × (find_first p xs ≡ some x))
  find_first_cases p [] = inl (refl, refl)
  find_first_cases p (x ∷ xs) = elim (Bool-cases (p x)) [
    | inl e ↦ inr (x, here refl, e, ground arith, ground arith)
    | inr e ↦ elim (find_first_cases p xs) [
      | inl (a, f) ↦ inl (ground arith, ground arith)
      | inr (y, m, q, a, f) ↦ inr (y, there m, q, ground arith, ground arith)
    ]
  ]

  pub any-keep : (p q : A → Bool) (xs : List A) → any p (keep q xs) ≡ any (λ x. q x && p x) xs
  any-keep p q [] = refl
  any-keep p q (x ∷ xs) = ground (arith, any-keep p q xs)

  pub any-append : (p : A → Bool) (xs ys : List A) → any p (xs ++ ys) ≡ (any p xs || any p ys)
  any-append p [] ys = refl
  any-append p (x ∷ xs) ys = ground (arith, any-append p xs ys)

  pub keep_comm : (p q : A → Bool) (xs : List A) → keep p (keep q xs) ≡ keep q (keep p xs)
  keep_comm p q [] = refl
  keep_comm p q (x ∷ xs) = ground (arith, keep_comm p q xs)

  pub take-append-drop : (n : ℕ) (xs : List A) → take n xs ++ drop n xs ≡ xs
  take-append-drop zero xs = refl
  take-append-drop (suc n) [] = refl
  take-append-drop (suc n) (x ∷ xs) = rw (take-append-drop n xs)

  pub length-take : (n : ℕ) (xs : List A) → n ≤ length xs → length (take n xs) ≡ n
  length-take zero xs h = refl
  length-take (suc n) [] h = absurd (omega arith)
  length-take (suc n) (x ∷ xs) h = omega (arith, length-take n xs (omega arith))

pub any-map {ℓ κ} :
    {A : Type ℓ} {B : Type κ} (f : A → B) (p : B → Bool) (xs : List A)
    → any p (map f xs) ≡ any (λ x. p (f x)) xs
any-map f p [] = refl
any-map f p (x ∷ xs) = ground (arith, any-map f p xs)

pub iff_trans {ℓ κ μ} : {A : Type ℓ} {B : Type κ} {C : Type μ} → A ↔ B → B ↔ C → A ↔ C
iff_trans f g = ((λ a. g.0 (f.0 a)), (λ c. f.1 (g.1 c)))

pub iff_sym {ℓ κ} : {A : Type ℓ} {B : Type κ} → A ↔ B → B ↔ A
iff_sym f = (f.1, f.0)

pub Member-map {ℓ κ} :
    {A : Type ℓ} {B : Type κ} (f : A → B) (x : A) (xs : List A)
    → Member x xs
    → Member (f x) (map f xs)
Member-map f x [] m = elim m [ ]
Member-map f x (y ∷ ys) (here e) = here (ap f e)
Member-map f x (y ∷ ys) (there m) = there (Member-map f x ys m)

pub Member-of_map {ℓ κ} :
    {A : Type ℓ} {B : Type κ} (f : A → B) (y : B) (xs : List A)
    → Member y (map f xs)
    → (x : A) × Member x xs × (y ≡ f x)
Member-of_map f y [] m = elim m [ ]
Member-of_map f y (x ∷ xs) (here e) = (x, here refl, e)
Member-of_map f y (x ∷ xs) (there m) = let (z, k, e) = Member-of_map f y xs m in (z, there k, e)

-- A property of every member, from the head and the tail.
pub every_cons {ℓ κ} :
    {A : Type ℓ} (P : A → Type κ) (y : A) (ys : List A)
    → P y
    → ((x : A) → Member x ys → P x)
    → (x : A) → Member x (y ∷ ys)
    → P x
every_cons P y ys first rest x (here e) = rw e first
every_cons P y ys first rest x (there m) = rest x m

pub head_or_tail {ℓ κ} :
    {A : Type ℓ} {P : Type κ} (a b : A) (ys : List A)
    → Member a (b ∷ ys)
    → (a ≡ b → P)
    → (Member a ys → P)
    → P
head_or_tail a b ys (here e) f g = f e
head_or_tail a b ys (there m) f g = g m

module _ {ℓ} {A : Type ℓ} (q : A → Bool) (c : A) where
  pub Member-keep : (xs : List A) → Member c (keep q xs) → Member c xs × (q c ≡ true)
  Member-keep [] m = elim m [ ]
  Member-keep (x ∷ xs) m = elim (Bool-cases (q x)) [
    | inl on ↦
        head_or_tail c x (keep q xs) (rw on at m) (λ e. (here e, ap q e ∙ on))
          (λ n. let (k, h) = Member-keep xs n in (there k, h))
    | inr off ↦ let (k, h) = Member-keep xs (rw off at m) in (there k, h)
  ]

  pub Member-keep_of : (xs : List A) → Member c xs → q c ≡ true → Member c (keep q xs)
  Member-keep_of [] m h = elim m [ ]
  Member-keep_of (x ∷ xs) (here e) h = let on : q x ≡ true = ap q (sym e) ∙ h in rw on (here e)
  Member-keep_of (x ∷ xs) (there m) h =
      let rest = Member-keep_of xs m h in
      elim (Bool-cases (q x)) [ inl on ↦ rw on (there rest) | inr off ↦ rw off rest ]
