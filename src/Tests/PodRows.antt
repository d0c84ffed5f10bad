-- ===== src/Tests/PodRows.antt =====
-- mvp/internal/store/store.go: rows of pods that stand under their names and were created at one time.
use kubernetes_style_orchest.Prelude.{
  ℕ, suc, String, ◌==◌, string_eq, ==_iff, true, false, none, List, [], ◌∷◌, ◌++◌, map, any,
  order_by, insert_by, ◌≡◌, refl, ap, ◌∙◌, sym, arith, Bool-cases, inl, inr,
}
use kubernetes_style_orchest.Api.{Pod}
use kubernetes_style_orchest.Db.{PodRow}
use kubernetes_style_orchest.Sql.Rows.{select, remove, affected, update}
use kubernetes_style_orchest.Store.Pods.{pod_of_row, update_pod_row}
use kubernetes_style_orchest.Controllers.Client.{without}

-- Each row stands under its pod's name and was created at `now`.
abbrev pub Rows : ℕ → List (String × PodRow) → Type 0
Rows now [] = Unit {0}
Rows now ((k, r) ∷ t) = (r.metadata.name ≡ k) × (r.created_at ≡ now) × Rows now t

abbrev pub listed : List (String × PodRow) → List Pod
listed rows = map (λ r. pod_of_row r.1) rows

pub by_created : String × PodRow → ℕ
by_created r = r.1.created_at

pub order_by-Rows :
    (now : ℕ) (rows : List (String × PodRow))
    → Rows now rows
    → order_by (λ r. r.1.created_at) rows ≡ rows
unfolding order_by insert_by
order_by-Rows now [] h = refl
order_by-Rows now (x ∷ []) h = refl
order_by-Rows now ((k, r) ∷ (j, q) ∷ t) (a, b, h) =
    rw (order_by-Rows now ((j, q) ∷ t) h) (ground (arith, h))

pub Rows-append :
    (now : ℕ) (k : String) (r : PodRow) (rows : List (String × PodRow))
    → r.metadata.name ≡ k
    → r.created_at ≡ now
    → Rows now rows
    → Rows now (rows ++ (k, r) ∷ [])
Rows-append now k r [] a b h = (a, b, tt)
Rows-append now k r ((j, q) ∷ t) a b (c, d, h) = (c, d, Rows-append now k r t a b h)

pub Rows-remove :
    (now : ℕ) (k : String) (rows : List (String × PodRow))
    → Rows now rows
    → Rows now (remove k rows)
unfolding remove
Rows-remove now k [] h = tt
Rows-remove now k ((j, q) ∷ t) (a, b, h) = elim (Bool-cases (j == k)) [
  | inl e ↦ rw e (Rows-remove now k t h)
  | inr e ↦ rw e (a, b, Rows-remove now k t h)
]

pub Rows-update :
    (now : ℕ) (p : Pod) (rows : List (String × PodRow))
    → Rows now rows
    → Rows now (update p.metadata.name (update_pod_row now p) rows)
unfolding update update_pod_row
Rows-update now p [] h = tt
Rows-update now p ((j, q) ∷ t) (a, b, h) = elim (Bool-cases (j == p.metadata.name)) [
  | inl e ↦ rw e (sym ((==_iff j p.metadata.name).0 e), b, Rows-update now p t h)
  | inr e ↦ rw e (a, b, Rows-update now p t h)
]

pub listed-append :
    (k : String) (r : PodRow) (rows : List (String × PodRow))
    → listed (rows ++ (k, r) ∷ []) ≡ listed rows ++ pod_of_row r ∷ []
listed-append k r [] = refl
listed-append k r (x ∷ t) = ap (λ xs. pod_of_row x.1 ∷ xs) (listed-append k r t)

pub listed-remove :
    (now : ℕ) (k : String) (rows : List (String × PodRow))
    → Rows now rows
    → listed (remove k rows) ≡ without k (listed rows)
unfolding remove pod_of_row
listed-remove now k [] h = refl
listed-remove now k ((j, q) ∷ t) (a, b, h) = elim (Bool-cases (j == k)) [
  | inl e ↦
      let f : (q.metadata.name == k) ≡ true = ap (λ n. n == k) a ∙ e in
      rw (e, f) (listed-remove now k t h)
  | inr e ↦
      let f : (q.metadata.name == k) ≡ false = ap (λ n. n == k) a ∙ e in
      rw (e, f) (ap (λ xs. pod_of_row q ∷ xs) (listed-remove now k t h))
]

pub select-listed :
    (now : ℕ) (k : String) (rows : List (String × PodRow))
    → Rows now rows
    → any (λ p. p.metadata.name == k) (listed rows) ≡ false
    → select k rows ≡ none
unfolding select pod_of_row
select-listed now k [] h f = refl
select-listed now k ((j, q) ∷ t) (a, b, h) f = ground (arith, a, f, select-listed now k t h)

pub affected-listed :
    (now : ℕ) (k : String) (rows : List (String × PodRow))
    → Rows now rows
    → any (λ p. p.metadata.name == k) (listed rows) ≡ true
    → (n : ℕ) × (affected k rows ≡ suc n)
unfolding affected pod_of_row
affected-listed now k [] h f = cc f
affected-listed now k ((j, q) ∷ t) (a, b, h) f = elim (Bool-cases (j == k)) [
  | inl e ↦ (affected k t, rw e refl)
  | inr e ↦ let (n, m) = affected-listed now k t h (rw (a, e) at f) in (n, rw e m)
]
