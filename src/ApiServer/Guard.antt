-- ===== src/ApiServer/Guard.antt =====
-- mvp/cmd/apiserver/main.go: the authentication and authorization of a request. `to_lower` stands
-- for `strings.ToLower`. `refuse` makes a reply of a status code.
pub mod Authorized
use kubernetes_style_orchest.Prelude.{
  ℕ, String, ◌==◌, string_eq, Bool, true, ◌||◌, Option, none, some, value_at, if◌then◌else◌,
}
use kubernetes_style_orchest.Api.{User}
use kubernetes_style_orchest.Sql.{M, Result, ok, err, ◌>>=◌, pure, attempt}
use kubernetes_style_orchest.Rbac.{Request, Verdict, allowed, denied, authenticate, authorize}
use kubernetes_style_orchest.ApiServer.Http.{HttpRequest}

module _ (to_lower : String → String) where
  unfoldable pub verb_from_method : String → String
  verb_from_method m =
      if m == "GET"
      then "get"
      else if m == "POST"
      then "create"
      else if m == "PUT" || m == "PATCH"
      then "update"
      else if m == "DELETE"
      then "delete"
      else to_lower m

  unfoldable pub rbac_request : String → String → HttpRequest → User → Request
  unfolding verb_from_method
  rbac_request api_group resource r u = record {
    user = some u;
    verb = verb_from_method r.method;
    api_group = api_group;
    resource = resource;
    namespace = value_at r.query "namespace";
  }

  module _ {B : Type 0} (refuse : ℕ → B) where
    unfoldable pub after_verdict : M B → Result Verdict → M B
    after_verdict next (ok allowed) = next
    after_verdict next (ok (denied m)) = pure (refuse 403)
    after_verdict next (err e) = pure (refuse 500)

    unfoldable pub checked : Bool → String → String → HttpRequest → M B → Result (Option User) → M B
    unfolding rbac_request authorize after_verdict
    checked enforce api_group resource r next (err e) = pure (refuse 401)
    checked enforce api_group resource r next (ok none) = pure (refuse 401)
    checked enforce api_group resource r next (ok (some u)) =
        if enforce
        then attempt (authorize (rbac_request api_group resource r u)) >>= after_verdict next
        else next

    -- `guard`, and the same steps of `handleDynamicCR`. `main` allows anonymous requests.
    unfoldable pub guard : Bool → String → String → (HttpRequest → M B) → HttpRequest → M B
    unfolding authenticate checked
    guard enforce api_group resource handler r =
        attempt (authenticate true r.authorization)
        >>= checked enforce api_group resource r (handler r)
