-- ===== src/ApiServer/Routes.antt =====
-- mvp/cmd/apiserver/main.go and m6.go: the patterns that `main` and `registerM6Routes` give to
-- `http.ServeMux`, with the group and the resource of each `guard`, and the pattern that the mux
-- chooses for a path: of those that match, the longest. `/healthz` is left out.
pub mod Serve
pub mod Reading
pub mod Authorized
use kubernetes_style_orchest.Prelude.{
  ℕ, suc, String, ◌==◌, string_eq, Bool, true, false, ◌||◌, ltb, Option, none, some, List, [], ◌∷◌,
  strip_prefix, strip_suffix, if◌then◌else◌,
}
use kubernetes_style_orchest.Api.{
  Pod, Service, Endpoints, Node, ReplicaSet, Deployment, Crd, CustomResource, User, Role,
  RoleBinding, AdmissionWebhook, Hpa, NetworkPolicy, Cluster, FederatedDeployment,
}
use kubernetes_style_orchest.ApiServer.Handlers.Leases.{LeaseInfo}

pub data Route : Type 0 where
  pods : Route
  pods_by_name : Route
  services : Route
  services_by_name : Route
  endpoints : Route
  endpoints_by_name : Route
  nodes : Route
  nodes_by_name : Route
  replica_sets : Route
  replica_sets_by_name : Route
  deployments : Route
  deployments_by_name : Route
  crds : Route
  crds_by_name : Route
  users : Route
  roles : Route
  cluster_roles : Route
  role_bindings : Route
  cluster_role_bindings : Route
  webhooks : Route
  webhooks_by_name : Route
  hpas : Route
  hpas_by_name : Route
  leases : Route
  net_pols : Route
  net_pols_by_name : Route
  clusters : Route
  clusters_by_name : Route
  fed_deployments : Route
  fed_deployments_by_name : Route
  dynamic : Route

-- The objects that the handler of a route writes.
abbrev pub Object : Route → Type 0
Object pods = Pod
Object pods_by_name = Pod
Object services = Service
Object services_by_name = Service
Object endpoints = Endpoints
Object endpoints_by_name = Endpoints
Object nodes = Node
Object nodes_by_name = Node
Object replica_sets = ReplicaSet
Object replica_sets_by_name = ReplicaSet
Object deployments = Deployment
Object deployments_by_name = Deployment
Object crds = Crd
Object crds_by_name = Crd
Object users = User
Object roles = Role
Object cluster_roles = Role
Object role_bindings = RoleBinding
Object cluster_role_bindings = RoleBinding
Object webhooks = AdmissionWebhook
Object webhooks_by_name = AdmissionWebhook
Object hpas = Hpa
Object hpas_by_name = Hpa
Object leases = LeaseInfo
Object net_pols = NetworkPolicy
Object net_pols_by_name = NetworkPolicy
Object clusters = Cluster
Object clusters_by_name = Cluster
Object fed_deployments = FederatedDeployment
Object fed_deployments_by_name = FederatedDeployment
Object dynamic = CustomResource

unfoldable pub pattern_of : Route → String
pattern_of pods = "/api/v1/pods"
pattern_of pods_by_name = "/api/v1/pods/"
pattern_of services = "/api/v1/services"
pattern_of services_by_name = "/api/v1/services/"
pattern_of endpoints = "/api/v1/endpoints"
pattern_of endpoints_by_name = "/api/v1/endpoints/"
pattern_of nodes = "/api/v1/nodes"
pattern_of nodes_by_name = "/api/v1/nodes/"
pattern_of replica_sets = "/apis/apps/v1/replicasets"
pattern_of replica_sets_by_name = "/apis/apps/v1/replicasets/"
pattern_of deployments = "/apis/apps/v1/deployments"
pattern_of deployments_by_name = "/apis/apps/v1/deployments/"
pattern_of crds = "/apis/mk.io/v1/customresourcedefinitions"
pattern_of crds_by_name = "/apis/mk.io/v1/customresourcedefinitions/"
pattern_of users = "/apis/rbac.mk.io/v1/users"
pattern_of roles = "/apis/rbac.mk.io/v1/roles"
pattern_of cluster_roles = "/apis/rbac.mk.io/v1/clusterroles"
pattern_of role_bindings = "/apis/rbac.mk.io/v1/rolebindings"
pattern_of cluster_role_bindings = "/apis/rbac.mk.io/v1/clusterrolebindings"
pattern_of webhooks = "/apis/admission.mk.io/v1/webhooks"
pattern_of webhooks_by_name = "/apis/admission.mk.io/v1/webhooks/"
pattern_of hpas = "/apis/autoscaling.mk.io/v1/horizontalpodautoscalers"
pattern_of hpas_by_name = "/apis/autoscaling.mk.io/v1/horizontalpodautoscalers/"
pattern_of leases = "/apis/coordination.mk.io/v1/leases/"
pattern_of net_pols = "/apis/networking.mk.io/v1/networkpolicies"
pattern_of net_pols_by_name = "/apis/networking.mk.io/v1/networkpolicies/"
pattern_of clusters = "/apis/federation.mk.io/v1/clusters"
pattern_of clusters_by_name = "/apis/federation.mk.io/v1/clusters/"
pattern_of fed_deployments = "/apis/federation.mk.io/v1/federateddeployments"
pattern_of fed_deployments_by_name = "/apis/federation.mk.io/v1/federateddeployments/"
pattern_of dynamic = "/apis/"

-- `dynamic` authorizes by itself, once it knows the group and the plural.
unfoldable pub guarded : Route → Option (String × String)
guarded pods = some ("", "pods")
guarded pods_by_name = some ("", "pods")
guarded services = some ("", "services")
guarded services_by_name = some ("", "services")
guarded endpoints = some ("", "endpoints")
guarded endpoints_by_name = some ("", "endpoints")
guarded nodes = some ("", "nodes")
guarded nodes_by_name = some ("", "nodes")
guarded replica_sets = some ("apps", "replicasets")
guarded replica_sets_by_name = some ("apps", "replicasets")
guarded deployments = some ("apps", "deployments")
guarded deployments_by_name = some ("apps", "deployments")
guarded crds = some ("mk.io", "customresourcedefinitions")
guarded crds_by_name = some ("mk.io", "customresourcedefinitions")
guarded users = some ("rbac.mk.io", "users")
guarded roles = some ("rbac.mk.io", "roles")
guarded cluster_roles = some ("rbac.mk.io", "clusterroles")
guarded role_bindings = some ("rbac.mk.io", "rolebindings")
guarded cluster_role_bindings = some ("rbac.mk.io", "clusterrolebindings")
guarded webhooks = some ("admission.mk.io", "webhooks")
guarded webhooks_by_name = some ("admission.mk.io", "webhooks")
guarded hpas = some ("autoscaling.mk.io", "horizontalpodautoscalers")
guarded hpas_by_name = some ("autoscaling.mk.io", "horizontalpodautoscalers")
guarded leases = none
guarded net_pols = some ("networking.mk.io", "networkpolicies")
guarded net_pols_by_name = some ("networking.mk.io", "networkpolicies")
guarded clusters = some ("federation.mk.io", "clusters")
guarded clusters_by_name = some ("federation.mk.io", "clusters")
guarded fed_deployments = some ("federation.mk.io", "federateddeployments")
guarded fed_deployments_by_name = some ("federation.mk.io", "federateddeployments")
guarded dynamic = none

abbrev pub routes : List Route
routes =
    pods ∷ pods_by_name ∷ services ∷ services_by_name ∷ endpoints ∷ endpoints_by_name ∷ nodes
    ∷ nodes_by_name ∷ replica_sets ∷ replica_sets_by_name ∷ deployments ∷ deployments_by_name ∷ crds
    ∷ crds_by_name ∷ users ∷ roles ∷ cluster_roles ∷ role_bindings ∷ cluster_role_bindings
    ∷ webhooks ∷ webhooks_by_name ∷ hpas ∷ hpas_by_name ∷ leases ∷ net_pols ∷ net_pols_by_name
    ∷ clusters ∷ clusters_by_name ∷ fed_deployments ∷ fed_deployments_by_name ∷ dynamic ∷ []

-- A pattern that ends in a slash matches every path below it, another only itself.
unfoldable pub matches : String → String → Bool
unfolding strip_prefix strip_suffix
matches pattern path = pattern == path || elim (strip_suffix "/" pattern) [
  | none ↦ false
  | some _ ↦ elim (strip_prefix pattern path) [ none ↦ false | some _ ↦ true ]
]

abbrev pub text_length : String → ℕ
text_length String.[] = 0
text_length (String.◌∷◌ c s) = suc (text_length s)

-- Of two candidates, the one with the longer pattern.
unfoldable pub longer : Route → Option Route → Option Route
unfolding pattern_of
longer route none = some route
longer route (some other) =
    if ltb (text_length (pattern_of route)) (text_length (pattern_of other))
    then some other
    else some route

unfoldable pub choose : String → List Route → Option Route
unfolding matches longer
choose path [] = none
choose path (route ∷ rest) =
    let best = choose path rest in
    if matches (pattern_of route) path then longer route best else best

-- The mux; `none` is its own 404.
unfoldable pub route_of : String → Option Route
unfolding choose
route_of path = choose path routes
