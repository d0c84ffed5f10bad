-- ===== src/ApiServer/Routes/Authorized.antt =====
-- mvp/cmd/apiserver/main.go and m6.go: what the server does for whom, where RBAC is enforced.
use kubernetes_style_orchest.Prelude.{
  ℕ, String, ◌==◌, string_eq, true, not, ◌||◌, Option, some, ◌≡◌, ◌⊎◌, inl, inr, refl, Bool-cases,
  Option-cases,
}
use kubernetes_style_orchest.Api.{Crd, User, CustomResource}
use kubernetes_style_orchest.Db.{Db}
use kubernetes_style_orchest.Sql.{
  Run, returns, raises, Result, ok, err, result, after, proceed, caught,
}
use kubernetes_style_orchest.Sql.Reads.{SameTables, SameTables-trans}
use kubernetes_style_orchest.Store.Custom.{get_crd_by_plural}
use kubernetes_style_orchest.Store.Reading.{get_crd_by_plural-Reads}
use kubernetes_style_orchest.Rbac.Granted.{Granted}
use kubernetes_style_orchest.CustomResources.{CrPath, parse_path}
use kubernetes_style_orchest.ApiServer.ClusterIps.{ClusterIpAlloc}
use kubernetes_style_orchest.ApiServer.Http.{HttpRequest, Reply, error}
use kubernetes_style_orchest.ApiServer.Guard.{rbac_request}
use kubernetes_style_orchest.ApiServer.Guard.Authorized.{
  Refused, LetThrough, guard-Authorized, Granted-Same, IsCaller, IsCaller-Same,
}
use kubernetes_style_orchest.ApiServer.Handlers.Custom.{handle_dynamic_cr, with_crd, serve_custom}
use kubernetes_style_orchest.ApiServer.Routes.{Route, guarded}
use kubernetes_style_orchest.ApiServer.Routes.Serve.{Server, refusal, handler, serve}

module _ (c : Server) (enforced : c.rbac_enforce ≡ true) where
  -- Where RBAC is enforced, the handler of a guarded route runs only if the caller, who is the system user
  -- where the request has no header and else the stored user whose token it bears, is in system:masters
  -- or is granted by a stored binding the verb of the request on the route's group and resource, and
  -- on the tables as they were; any other request is answered 401, 403 or 500 and changes no table.
  pub serve-Authorized :
      (route : Route) (a : ClusterIpAlloc) (r : HttpRequest) (s : Db) (api_group resource : String)
      → guarded route ≡ some (api_group, resource)
      → Refused (refusal route a) (serve c route a r s) s
        ⊎ LetThrough c.to_lower
            (refusal route a)
            api_group
            resource
            r
            (handler c route a r)
            (serve c route a r s)
            s
  unfolding serve
  serve-Authorized route a r s api_group resource e =
      rw (e, serve)
        (guard-Authorized c.to_lower (refusal route a) api_group resource r (handler c route a r)
          c.rbac_enforce s enforced)

  -- The request is answered with an error and nothing is changed, or the caller is granted its verb on
  -- the group and the plural of the path.
  abbrev pub UntouchedOrGranted :
      Option CrPath → HttpRequest → Run (Reply CustomResource) → Db → Type 0
  UntouchedOrGranted path r x s =
      (SameTables s (after x) × ((code : ℕ) × (result x ≡ ok (error code))))
      ⊎ ((p : CrPath) × (u : User) × (path ≡ some p)
          × IsCaller s r.authorization u
          × Granted s (rbac_request c.to_lower p.group p.plural r u) u)

  refusal_code :
      (x : Result (Reply CustomResource))
      → (x ≡ ok (error 401)) ⊎ (x ≡ ok (error 403)) ⊎ (x ≡ ok (error 500))
      → (code : ℕ) × (x ≡ ok (error code))
  refusal_code x (inl e) = (401, e)
  refusal_code x (inr (inl e)) = (403, e)
  refusal_code x (inr (inr e)) = (500, e)

  with_crd_granted :
      (r : HttpRequest) (p : CrPath) (s t : Db) (d : Result Crd)
      → SameTables s t
      → UntouchedOrGranted
          (some p)
          r
          (with_crd c.to_lower c.rbac_enforce c.read_custom_resource c.now p r d t)
          s
  unfolding with_crd
  with_crd_granted r p s t (err e) same = inl (same, (404, refl))
  with_crd_granted r p s t (ok d) same =
      elim (Bool-cases (not (d.spec.group == p.group) || not (d.spec.version == p.version))) [
        | inl f ↦ rw f (inl (same, (404, refl)))
        | inr f ↦
            rw f
              (elim (guard-Authorized c.to_lower error p.group p.plural r
                (serve_custom c.to_lower c.rbac_enforce c.read_custom_resource c.now p d r)
                c.rbac_enforce t enforced) [
                  | inl (k, code) ↦ inl (SameTables-trans s t _ same k, refusal_code _ code)
                  | inr (u, w, k, caller, g, e) ↦ inr (
                    p,
                    u,
                    refl,
                    IsCaller-Same s t t.executed r.authorization u same caller,
                    Granted-Same s t t.executed (rbac_request c.to_lower p.group p.plural r u) u
                        same g,
                  )
                ])
      ]

  -- Where RBAC is enforced, a request to a custom resource is answered with an error and changes no table
  -- unless the caller, who is the system user where the request has no header and else the stored user
  -- whose token it bears, is in system:masters or is granted by a stored binding the verb of the request
  -- on the group and the plural of the path.
  pub handle_dynamic_cr-Authorized :
      (r : HttpRequest) (s : Db)
      → UntouchedOrGranted
          (parse_path r.path)
          r
          (handle_dynamic_cr c.to_lower c.rbac_enforce c.read_custom_resource c.now r s)
          s
  unfolding handle_dynamic_cr
  handle_dynamic_cr-Authorized r s = elim (Option-cases (parse_path r.path)) [
    | inl e ↦ rw (e, handle_dynamic_cr) (inl (refl, (404, refl)))
    | inr (p, e) ↦
        rw (e, handle_dynamic_cr)
          (by_crd p (get_crd_by_plural p.plural s) (get_crd_by_plural-Reads p.plural s))
  ]
    where
      by_crd :
          (p : CrPath) (x : Run Crd)
          → SameTables s (after x)
          → UntouchedOrGranted
              (some p)
              r
              (proceed
                (with_crd c.to_lower c.rbac_enforce c.read_custom_resource c.now p r)
                (caught x))
              s
      by_crd p (returns d t) same = with_crd_granted r p s t (ok d) same
      by_crd p (raises f t) same = with_crd_granted r p s t (err f) same
