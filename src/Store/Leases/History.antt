-- ===== src/Store/Leases/History.antt =====
-- mvp/internal/store/store.go: a lease through a history of calls of `TryAcquireLease`.
use kubernetes_style_orchest.Prelude.{
  string_eq, ℕ, ◌+◌, ◌*◌, ◌≤◌, String, Bool, true, false, some, sym, ◌⊎◌, ◌∙◌, ◌≡◌, ◌≢◌, refl,
  arith, List, [], ◌∷◌, inl, inr, ap,
}
use kubernetes_style_orchest.Db.{Db, LeaseRow}
use kubernetes_style_orchest.Sql.{ok, err, failed, result, after, Result}
use kubernetes_style_orchest.Sql.Rows.{select}
use kubernetes_style_orchest.Store.Leases.{second, try_acquire_lease}
use kubernetes_style_orchest.Store.Leases.Exclusion.{MayTake, held_refuses}

-- One call of a replica: its identity, its TTL, the time.
pub record Attempt : Type 0 where
  pub identity : String
  pub ttl : ℕ
  pub now : ℕ

abbrev pub call : String → Attempt → Db → Db
call name a s = after (try_acquire_lease name a.identity a.ttl a.now s)

unfoldable pub run : String → List Attempt → Db → Db
run name [] s = s
run name (c ∷ calls) s = run name calls (call name c s)

abbrev add_winner : Result (Bool × String) → List String → List String
add_winner (ok (true, i)) is = i ∷ is
add_winner (ok (false, i)) is = is
add_winner (err e) is = is

-- Whom the calls made the holder, in order.
unfoldable pub winners : String → List Attempt → Db → List String
winners name [] s = []
winners name (c ∷ calls) s =
    add_winner (result (try_acquire_lease name c.identity c.ttl c.now s))
      (winners name calls (call name c s))

-- Each call comes from another replica than `holder`, not after `deadline`.
abbrev pub Rivals : String → ℕ → List Attempt → Type 0
Rivals holder deadline [] = Unit {0}
Rivals holder deadline (c ∷ calls) =
    (c.identity ≢ holder) × (c.now ≤ deadline) × Rivals holder deadline calls

barred_rival :
    (l : LeaseRow) (c : Attempt)
    → c.identity ≢ l.holder
    → c.now ≤ l.renew_time + l.ttl_seconds * second
    → ¬ MayTake c.identity c.now (some l)
barred_rival l c other early (inl same) = other (sym same)
barred_rival l c other early (inr late) = absurd (omega arith)

answer_no_winner :
    (r : Result (Bool × String)) (i : String) (is : List String)
    → (r ≡ err failed) ⊎ (r ≡ ok (false, i))
    → is ≡ []
    → add_winner r is ≡ []
answer_no_winner r i is (inl e) none_left = rw e none_left
answer_no_winner r i is (inr e) none_left = rw e none_left

-- While the term of a lease runs, no sequence of calls by other replicas takes it from its holder:
-- none of them is answered with the lease and the row stays as it is, whichever statements fail.
pub lease_exclusion :
    (name : String) (l : LeaseRow) (calls : List Attempt) (s : Db)
    → select name s.leases ≡ some l
    → Rivals l.holder (l.renew_time + l.ttl_seconds * second) calls
    → (winners name calls s ≡ []) × (select name (run name calls s).leases ≡ some l)
unfolding run winners
lease_exclusion name l [] s e h = (refl, e)
lease_exclusion name l (c ∷ calls) s e h =
    let barred : ¬ MayTake c.identity c.now (some l) = barred_rival l c h.0 h.1 in
    let (answer, kept) = held_refuses name c.identity c.ttl c.now s l e barred in
    let rest = lease_exclusion name l calls (call name c s) (ap (select name) kept ∙ e) h.2 in
    (answer_no_winner _ _ _ answer rest.0, rest.1)
