-- ===== src/Rbac/Bindings.antt =====
-- mvp/internal/rbac/rbac.go: what the loop of `checkBindings` decides.
use kubernetes_style_orchest.Prelude.{
  suc, String, string_eq, pair_eq, Bool, true, false, ◌&&◌, Option, none, some, List, [], ◌∷◌, any,
  ◌≡◌, refl, arith,
}
use kubernetes_style_orchest.Api.{User, RoleBinding, RoleRef}
use kubernetes_style_orchest.Db.{Db, RoleRow}
use kubernetes_style_orchest.Sql.{NoFaults, ok, result, after}
use kubernetes_style_orchest.Sql.Rows.{select}
use kubernetes_style_orchest.Store.Access.{get_role}
use kubernetes_style_orchest.Rbac.{Request, rule_matches, binding_applies, check_each}

-- The role that a reference names has a rule for the request.
abbrev pub role_grants : Option RoleRow → Request → Bool
role_grants none req = false
role_grants (some r) req = any (λ rule. rule_matches rule req) r.rules

abbrev pub ref_grants : List ((String × String) × RoleRow) → Request → RoleRef → Bool
ref_grants roles req ref = role_grants (select (ref.kind, ref.name) roles) req

abbrev pub binding_grants :
    List ((String × String) × RoleRow) → String → Request → User → RoleBinding → Bool
binding_grants roles scope req u b =
    binding_applies scope req u b && ref_grants roles req b.role_ref

abbrev pub Keeps : Db → Db → Type 0
Keeps s t = (t.roles ≡ s.roles) × (t.role_bindings ≡ s.role_bindings) × (t.fails ≡ s.fails)

module _ (scope : String) (req : Request) (u : User) where
  -- The loop reads and never writes.
  pub check_each_sound :
      (bs : List RoleBinding) (s : Db)
      → result (check_each scope req u bs s) ≡ ok true
      → any (binding_grants s.roles scope req u) bs ≡ true
  unfolding check_each get_role
  check_each_sound [] s h = cc
  check_each_sound (b ∷ bs) s h =
      ground
        (arith, check_each_sound bs s, check_each_sound bs (record s { executed = suc s.executed }))

  pub check_each_exact :
      (bs : List RoleBinding) (s : Db)
      → NoFaults s
      → result (check_each scope req u bs s) ≡ ok (any (binding_grants s.roles scope req u) bs)
  unfolding check_each get_role
  check_each_exact [] s works = refl
  check_each_exact (b ∷ bs) s works = ground (
    arith,
    works s.executed,
    check_each_exact bs s works,
    check_each_exact bs (record s { executed = suc s.executed }) works,
  )

  pub check_each-Keeps :
      (bs : List RoleBinding) (s : Db) → Keeps s (after (check_each scope req u bs s))
  unfolding check_each get_role
  check_each-Keeps [] s = (refl, refl, refl)
  check_each-Keeps (b ∷ bs) s =
      ground
        (arith, check_each-Keeps bs s, check_each-Keeps bs (record s { executed = suc s.executed }))
