-- ===== src/Store/Leases/Exclusion.antt =====
-- mvp/internal/store/store.go: who holds a lease.
use kubernetes_style_orchest.Prelude.{
  ℕ, suc, Bool, ==_refl, ◌+◌, ◌*◌, ◌/◌, ◌<◌, String, true, false, ◌==◌, string_eq, ==_iff, none,
  some, Option, ◌≡◌, arith, ◌||◌, ◌↔◌, Option-cases, Bool-cases, ◌⊎◌, inl, inr, false≢true, sym,
  ◌∙◌,
}
use kubernetes_style_orchest.Db.{Db, LeaseRow}
use kubernetes_style_orchest.Sql.{NoFaults, ok, err, failed, result, after}
use kubernetes_style_orchest.Sql.Rows.{select}
use kubernetes_style_orchest.Sql.Laws.{select-update, select-append}
use kubernetes_style_orchest.Store.Leases.{second, lease_expired, renewed_lease, try_acquire_lease}

-- The lease is free, or held by `identity`, or its holder has not renewed it for its whole term.
abbrev pub MayTake : String → ℕ → Option LeaseRow → Type 0
MayTake identity now none = Unit
MayTake identity now (some l) =
    (l.holder ≡ identity) ⊎ (l.renew_time + l.ttl_seconds * second < now)

-- The code's test, on a row that is there.
MayTake-test :
    (identity : String) (now : ℕ) (l : LeaseRow)
    → ((l.holder == identity || lease_expired now l) ≡ true) ↔ MayTake identity now (some l)
unfolding lease_expired
MayTake-test identity now l = (
  (λ h. ground (arith, ==_iff l.holder identity)),
  (λ h. ground (arith, ==_iff l.holder identity)),
)

-- The row of a replica that holds the lease from `now` on, for a term of whole seconds.
abbrev pub term_from : String → ℕ → ℕ → LeaseRow
term_from identity ttl now = record {
  holder = identity;
  renew_time = now;
  ttl_seconds = ttl / 1000000000;
}

module _ (name identity : String) (ttl now : ℕ) (s : Db) where
  abbrev pub Acquired : Type 0
  Acquired =
      (result (try_acquire_lease name identity ttl now s) ≡ ok (true, identity))
      × (select name (after (try_acquire_lease name identity ttl now s)).leases
          ≡ some (term_from identity ttl now))

  acquires_free : NoFaults s → select name s.leases ≡ none → Acquired
  unfolding try_acquire_lease renewed_lease
  acquires_free works e = (simp (works, e), simp (works, e, select-append, ==_refl))

  acquires_row :
      (l : LeaseRow)
      → NoFaults s
      → select name s.leases ≡ some l
      → (l.holder == identity || lease_expired now l) ≡ true
      → Acquired
  unfolding try_acquire_lease renewed_lease
  acquires_row l works e test =
      (simp (works, e, test), simp (works, e, test, select-update, ==_refl))

  -- Where the driver fails nothing, a replica for which the lease is free, its own or expired gets it:
  -- the row names it as the holder, with a term of `ttl` in whole seconds that begins at `now`.
  pub may_take_acquires : NoFaults s → MayTake identity now (select name s.leases) → Acquired
  may_take_acquires works may = elim (Option-cases (select name s.leases)) [
    | inl e ↦ acquires_free works e
    | inr (l, e) ↦ acquires_row l works e ((MayTake-test identity now l).1 (rw e at may))
  ]

  refuses_row :
      (l : LeaseRow)
      → select name s.leases ≡ some l
      → (l.holder == identity || lease_expired now l) ≡ false
      → ((result (try_acquire_lease name identity ttl now s) ≡ err failed)
          ⊎ (result (try_acquire_lease name identity ttl now s) ≡ ok (false, l.holder)))
        × ((after (try_acquire_lease name identity ttl now s)).leases ≡ s.leases)
  unfolding try_acquire_lease
  refuses_row l e test = ground arith

  -- Nobody else gets it, whatever fails.
  pub held_refuses :
      (l : LeaseRow)
      → select name s.leases ≡ some l
      → ¬ MayTake identity now (some l)
      → ((result (try_acquire_lease name identity ttl now s) ≡ err failed)
          ⊎ (result (try_acquire_lease name identity ttl now s) ≡ ok (false, l.holder)))
        × ((after (try_acquire_lease name identity ttl now s)).leases ≡ s.leases)
  held_refuses l e barred = elim (Bool-cases (l.holder == identity || lease_expired now l)) [
    | inl t ↦ absurd (barred ((MayTake-test identity now l).0 t))
    | inr f ↦ refuses_row l e f
  ]

  -- The driver fails the start of the transaction or the read, or, where the lease may be taken, the
  -- write or the commit.
  abbrev pub Faulty : Type 0
  Faulty =
      (s.fails s.executed ≡ true)
      ⊎ (s.fails (suc s.executed) ≡ true)
      ⊎ (MayTake identity now (select name s.leases)
          × ((s.fails (suc (suc s.executed)) ≡ true)
              ⊎ (s.fails (suc (suc (suc s.executed))) ≡ true)))

  -- The error of a run that changes no lease.
  abbrev pub Fails : Type 0
  Fails =
      (result (try_acquire_lease name identity ttl now s) ≡ err failed)
      × ((after (try_acquire_lease name identity ttl now s)).leases ≡ s.leases)

  fails_early : (s.fails s.executed || s.fails (suc s.executed)) ≡ true → Fails
  unfolding try_acquire_lease
  fails_early e = (ground arith, ground arith)

  fails_late_free :
      select name s.leases ≡ none
      → (s.fails (suc (suc s.executed)) || s.fails (suc (suc (suc s.executed)))) ≡ true
      → Fails
  unfolding try_acquire_lease
  fails_late_free e f = (ground arith, ground arith)

  fails_late_row :
      (l : LeaseRow)
      → select name s.leases ≡ some l
      → (l.holder == identity || lease_expired now l) ≡ true
      → (s.fails (suc (suc s.executed)) || s.fails (suc (suc (suc s.executed)))) ≡ true
      → Fails
  unfolding try_acquire_lease
  fails_late_row l e t f = (ground arith, ground arith)

  -- The answer of a run without an error.
  abbrev pub Answers : Type 0
  Answers =
      (got : Bool) × (holder : String) × (result (try_acquire_lease name identity ttl now s)
        ≡ ok (got, holder))

  abbrev early : Bool
  early = s.fails s.executed || s.fails (suc s.executed)

  abbrev late : Bool
  late = s.fails (suc (suc s.executed)) || s.fails (suc (suc (suc s.executed)))

  answers_free : select name s.leases ≡ none → early ≡ false → late ≡ false → Answers
  unfolding try_acquire_lease
  answers_free e a b = (true, identity, ground arith)

  answers_row :
      (l : LeaseRow)
      → select name s.leases ≡ some l
      → (l.holder == identity || lease_expired now l) ≡ true
      → early ≡ false
      → late ≡ false
      → Answers
  unfolding try_acquire_lease
  answers_row l e t a b = (true, identity, ground arith)

  answers_held :
      (l : LeaseRow)
      → select name s.leases ≡ some l
      → (l.holder == identity || lease_expired now l) ≡ false
      → early ≡ false
      → Answers
  unfolding try_acquire_lease
  answers_held l e t a = (false, l.holder, ground arith)

  -- The two ways of a run on which the driver lets the read through, where the lease may be taken.
  by_write :
      MayTake identity now (select name s.leases)
      → early ≡ false
      → (late ≡ true → Fails)
      → (late ≡ false → Answers)
      → (Faulty × Fails) ⊎ ((¬ Faulty) × Answers)
  by_write may a f g = elim (Bool-cases late) [
    | inl b ↦ inl (inr (inr (may, either_of b)), f b)
    | inr b ↦ inr (neither a b, g b)
  ]
    where
      either_of :
          (s.fails (suc (suc s.executed)) || s.fails (suc (suc (suc s.executed)))) ≡ true
          → (s.fails (suc (suc s.executed)) ≡ true) ⊎ (s.fails (suc (suc (suc s.executed))) ≡ true)
      either_of b = ground arith

      neither :
          (s.fails s.executed || s.fails (suc s.executed)) ≡ false
          → (s.fails (suc (suc s.executed)) || s.fails (suc (suc (suc s.executed)))) ≡ false
          → ¬ Faulty
      neither a b (inl h) = ground arith
      neither a b (inr (inl h)) = ground arith
      neither a b (inr (inr (m, inl h))) = ground arith
      neither a b (inr (inr (m, inr h))) = ground arith

  not_faulty : ¬ MayTake identity now (select name s.leases) → early ≡ false → ¬ Faulty
  not_faulty barred a (inl h) = ground arith
  not_faulty barred a (inr (inl h)) = ground arith
  not_faulty barred a (inr (inr (m, h))) = barred m

  -- TryAcquireLease reports an error exactly where the driver fails a statement that it needs: the
  -- start of the transaction or the read, or, where the lease is free, its own or expired, the write or
  -- the commit. Then every lease is as it was.
  pub try_acquire_lease_error : (Faulty × Fails) ⊎ ((¬ Faulty) × Answers)
  try_acquire_lease_error = elim (Bool-cases early) [
    | inl a ↦ inl (first_of a, fails_early a)
    | inr a ↦ elim (Option-cases (select name s.leases)) [
      | inl e ↦ by_write (rw e tt) a (fails_late_free e) (answers_free e a)
      | inr (l, e) ↦ elim (Bool-cases (l.holder == identity || lease_expired now l)) [
        | inl t ↦
            by_write (rw e ((MayTake-test identity now l).0 t)) a (fails_late_row l e t)
              (answers_row l e t a)
        | inr t ↦ inr (
          not_faulty (λ m. false≢true (sym t ∙ (MayTake-test identity now l).1 (rw e at m))) a,
          answers_held l e t a,
        )
      ]
    ]
  ]
    where
      first_of : (s.fails s.executed || s.fails (suc s.executed)) ≡ true → Faulty
      first_of a = ground arith
