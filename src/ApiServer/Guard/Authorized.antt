-- ===== src/ApiServer/Guard/Authorized.antt =====
-- mvp/cmd/apiserver/main.go: when a guarded handler runs, and on which tables.
use kubernetes_style_orchest.Prelude.{
  String, Bool, true, Option, none, some, ◌≡◌, ◌⊎◌, inl, inr, refl, ℕ,
}
use kubernetes_style_orchest.Api.{User}
use kubernetes_style_orchest.Db.{Db}
use kubernetes_style_orchest.Sql.{
  M, Run, returns, raises, Result, ok, err, result, after, attempt, proceed, caught,
}
use kubernetes_style_orchest.Sql.Reads.{
  Reads, Reads-attempt, Reads-bind, SameTables, SameTables-trans,
}
use kubernetes_style_orchest.Rbac.Tokens.{HasToken, authenticate_sound}
use kubernetes_style_orchest.Rbac.{
  system_user, Request, Verdict, allowed, denied, authenticate, authorize,
}
use kubernetes_style_orchest.Rbac.Reading.{authenticate-Reads, authorize-Reads, Reads-if}
use kubernetes_style_orchest.Rbac.Granted.{Granted, authorize_sound}
use kubernetes_style_orchest.ApiServer.Http.{HttpRequest}
use kubernetes_style_orchest.ApiServer.Guard.{rbac_request, after_verdict, checked, guard}

-- `m` from `s` refuses the request: it replies one of the three codes and changes no table.
abbrev pub Refused : {B : Type 0} → (ℕ → B) → Run B → Db → Type 0
Refused refuse x s =
    SameTables s (after x)
    × ((result x ≡ ok (refuse 401)) ⊎ (result x ≡ ok (refuse 403)) ⊎ (result x ≡ ok (refuse 500)))

pub Granted-Same :
    (s t : Db) (n : ℕ) (req : Request) (u : User)
    → t ≡ record s { executed = n }
    → Granted t req u
    → Granted s req u
Granted-Same s t n req u h g = rw h at g

-- Who sends a request with the header: the system user where there is none, else the stored user whose
-- token it bears.
abbrev pub IsCaller : Db → String → User → Type 0
IsCaller s header u = ((header ≡ "") × (u ≡ system_user)) ⊎ HasToken s header u

authenticate-IsCaller :
    (header : String) (s : Db) (u : User)
    → result (authenticate true header s) ≡ ok (some u)
    → IsCaller s header u
authenticate-IsCaller header s u h = elim (authenticate_sound true header s u h) [
  | inl (empty, _, system) ↦ inl (empty, system)
  | inr w ↦ inr w
]

pub IsCaller-Same :
    (s t : Db) (n : ℕ) (header : String) (u : User)
    → t ≡ record s { executed = n }
    → IsCaller t header u
    → IsCaller s header u
IsCaller-Same s t n header u h w = rw h at w

IsCaller-Same_of :
    (s t : Db) (n : ℕ) (header : String) (u : User)
    → t ≡ record s { executed = n }
    → IsCaller s header u
    → IsCaller t header u
IsCaller-Same_of s t n header u h w = rw h w

module _ (to_lower : String → String) {B : Type 0} (refuse : ℕ → B) where
  after_verdict-Reads :
      (next : M B) (v : Result Verdict) → Reads next → Reads (after_verdict to_lower refuse next v)
  unfolding after_verdict
  after_verdict-Reads next (ok allowed) h = h
  after_verdict-Reads next (ok (denied m)) h = λ s. refl
  after_verdict-Reads next (err e) h = λ s. refl

  module _ (enforce : Bool) (api_group resource : String) where
    checked-Reads :
        (r : HttpRequest) (next : M B) (o : Result (Option User))
        → Reads next
        → Reads (checked to_lower refuse enforce api_group resource r next o)
    unfolding checked
    checked-Reads r next (err e) h = λ s. refl
    checked-Reads r next (ok none) h = λ s. refl
    checked-Reads r next (ok (some u)) h =
        Reads-if enforce _ _
          (Reads-bind (attempt (authorize (rbac_request to_lower api_group resource r u))) _
            (Reads-attempt (authorize (rbac_request to_lower api_group resource r u))
              (authorize-Reads (rbac_request to_lower api_group resource r u)))
            (λ v. after_verdict-Reads next v h))
          h

    pub guard-Reads :
        (handler : HttpRequest → M B) (r : HttpRequest)
        → Reads (handler r)
        → Reads (guard to_lower refuse enforce api_group resource handler r)
    unfolding guard
    guard-Reads handler r h =
        Reads-bind (attempt (authenticate true r.authorization)) _
          (Reads-attempt (authenticate true r.authorization)
            (authenticate-Reads true r.authorization))
          (λ o. checked-Reads r (handler r) o h)

  module _ (api_group resource : String) (r : HttpRequest) (next : M B) where
    -- The handler runs on the same tables for the caller, who is granted the request.
    abbrev pub LetThrough : Run B → Db → Type 0
    LetThrough x s =
        (u : User) × (t : Db) × SameTables s t
        × IsCaller s r.authorization u
        × Granted s (rbac_request to_lower api_group resource r u) u
        × (x ≡ next t)

    decided :
        (s : Db) (u : User) (x : Run Verdict)
        → SameTables s (after x)
        → IsCaller s r.authorization u
        → (result x ≡ ok allowed → Granted s (rbac_request to_lower api_group resource r u) u)
        → Refused refuse (proceed (after_verdict to_lower refuse next) (caught x)) s
          ⊎ LetThrough (proceed (after_verdict to_lower refuse next) (caught x)) s
    unfolding after_verdict
    decided s u (returns allowed t) same caller sound = inr (u, t, same, caller, sound refl, refl)
    decided s u (returns (denied m) t) same caller sound = inl (same, inr (inl refl))
    decided s u (raises e t) same caller sound = inl (same, inr (inr refl))

    through :
        (s t : Db) (x : Run B)
        → SameTables s t
        → Refused refuse x t ⊎ LetThrough x t
        → Refused refuse x s ⊎ LetThrough x s
    through s t x same (inl (k, code)) = inl (SameTables-trans s t (after x) same k, code)
    through s t x same (inr (v, w, k, caller, g, e)) = inr (
      v,
      w,
      SameTables-trans s t w same k,
      IsCaller-Same s t t.executed r.authorization v same caller,
      Granted-Same s t t.executed (rbac_request to_lower api_group resource r v) v same g,
      e,
    )

    by_user :
        (s : Db) (x : Run (Option User))
        → SameTables s (after x)
        → ((u : User) → result x ≡ ok (some u) → IsCaller s r.authorization u)
        → Refused refuse
            (proceed (checked to_lower refuse true api_group resource r next) (caught x))
            s
          ⊎ LetThrough
              (proceed (checked to_lower refuse true api_group resource r next) (caught x))
              s
    unfolding checked rbac_request
    by_user s (raises e t) same who = inl (same, inl refl)
    by_user s (returns none t) same who = inl (same, inl refl)
    by_user s (returns (some u) t) same who =
        let req = rbac_request to_lower api_group resource r u in
        through s t _ same (
          decided t u (authorize req t) (authorize-Reads req t)
            (IsCaller-Same_of s t t.executed r.authorization u same (who u refl))
            (authorize_sound req u t refl))

    guard_enforced :
        (s : Db)
        → Refused refuse (guard to_lower refuse true api_group resource (λ q. next) r s) s
          ⊎ LetThrough (guard to_lower refuse true api_group resource (λ q. next) r s) s
    unfolding guard
    guard_enforced s =
        by_user s (authenticate true r.authorization s) (authenticate-Reads true r.authorization s)
          (authenticate-IsCaller r.authorization s)

    -- Where RBAC is enforced, a guarded handler runs only if the caller is in system:masters or a stored
    -- binding grants the caller the request, and on the tables as they were; any other request is refused with 401, 403 or
    -- 500 and changes no table.
    pub guard-Authorized :
        (enforce : Bool) (s : Db)
        → enforce ≡ true
        → Refused refuse (guard to_lower refuse enforce api_group resource (λ q. next) r s) s
          ⊎ LetThrough (guard to_lower refuse enforce api_group resource (λ q. next) r s) s
    guard-Authorized enforce s on = rw on (guard_enforced s)
