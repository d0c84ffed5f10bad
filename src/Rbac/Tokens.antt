-- ===== src/Rbac/Tokens.antt =====
-- mvp/internal/rbac/rbac.go: who a token stands for.
use kubernetes_style_orchest.Prelude.{
  String, ◌==◌, string_eq, ==_iff, Bool, true, false, none, some, ◌≡◌, ◌≢◌, refl, sym, ◌∙◌,
  false≢true, inl, inr, ◌⊎◌, Bool-cases, Option-cases, Member, find_first_cases, strip_prefix,
  trim_space, arith, if◌then◌else◌,
}
use kubernetes_style_orchest.Api.{User}
use kubernetes_style_orchest.Db.{Db, UserRow}
use kubernetes_style_orchest.Sql.{ok, result}
use kubernetes_style_orchest.Store.Access.{user_of_row, get_user_by_token}
use kubernetes_style_orchest.Rbac.{authenticate, authenticate_token, system_user}

-- A stored user has the token of the header, which is not empty.
abbrev pub HasToken : Db → String → User → Type 0
HasToken s header u =
    (rest : String) × (strip_prefix "Bearer " header ≡ some rest)
    × (trim_space rest ≢ "")
    × (row : String × UserRow) × Member row s.users
    × (row.1.token ≡ trim_space rest)
    × (u ≡ user_of_row row)

get_user_by_token_sound :
    (token : String) (s : Db) (u : User)
    → result (get_user_by_token token s) ≡ ok u
    → (row : String × UserRow) × Member row s.users × (row.1.token ≡ token) × (u ≡ user_of_row row)
unfolding get_user_by_token
get_user_by_token_sound token s u h = elim (Bool-cases (s.fails s.executed)) [
  | inl f ↦ cc (rw (f, get_user_by_token) at h)
  | inr f ↦ elim (find_first_cases (λ r. r.1.token == token) s.users) [
    | inl (a, g) ↦ cc (rw (f, g, get_user_by_token) at h)
    | inr (row, m, e, a, g) ↦
        (row, m, (==_iff row.1.token token).0 e, cc (rw (f, g, get_user_by_token) at h))
  ]
]

anonymous_cases :
    (anonymous : Bool) (u : User)
    → (if anonymous then some system_user else none) ≡ some u
    → (anonymous ≡ true) × (u ≡ system_user)
anonymous_cases true u h = (refl, cc h)
anonymous_cases false u h = cc h

-- The lookup inside `authenticate_token` answers as the lookup itself.
authenticate_token-lookup :
    (rest : String) (s : Db) (u : User)
    → (trim_space rest == "") ≡ false
    → result (authenticate_token (some rest) s) ≡ ok (some u)
    → result (get_user_by_token (trim_space rest) s) ≡ ok u
unfolding authenticate_token
authenticate_token-lookup rest s u g h = ground arith

-- Authenticate answers with a user only if there is no header, anonymous requests are allowed and the
-- user is the system user, or if the header is a bearer token of a stored user, which it answers.
pub authenticate_sound :
    (anonymous : Bool) (header : String) (s : Db) (u : User)
    → result (authenticate anonymous header s) ≡ ok (some u)
    → ((header ≡ "") × (anonymous ≡ true) × (u ≡ system_user)) ⊎ HasToken s header u
unfolding authenticate
authenticate_sound anonymous header s u h = elim (Bool-cases (header == "")) [
  | inl e ↦
      let (open_door, system) = anonymous_cases anonymous u (cc (rw (e, authenticate) at h)) in
      inl ((==_iff header "").0 e, open_door, system)
  | inr e ↦ elim (Option-cases (strip_prefix "Bearer " header)) [
    | inl f ↦ cc (rw (e, f, authenticate) at h)
    | inr (rest, f) ↦ elim (Bool-cases (trim_space rest == "")) [
      | inl g ↦ cc (rw (e, f, g, authenticate) at h)
      | inr g ↦
          let (row, m, same, user) =
            get_user_by_token_sound (trim_space rest) s u
              (authenticate_token-lookup rest s u g (rw (e, f, authenticate) at h)) in
          let filled : trim_space rest ≢ "" =
            λ empty. false≢true (sym g ∙ (==_iff (trim_space rest) "").1 empty) in
          inr (rest, f, filled, row, m, same, user)
    ]
  ]
]
