-- ===== src/Lib.antt =====
-- A model of mvp/, a small orchestrator in the style of Kubernetes: an API server over a SQLite
-- store, controllers that drive the cluster towards its specification, an authorizer and a
-- network-policy evaluator.
--
-- Files and the code they model:
--   Prelude, Prelude/*       helpers: Booleans, lists, keys with equality, stable sorting, text,
--                            Go's signed integers; no code of the repository
--   Api, Api/*               mvp/internal/api/types.go: the objects
--   Db                       the tables of mvp/internal/store (its CREATE TABLE statements)
--   Sql, Sql/*               what the SQL statements of mvp/internal/store do to a table
--   Store, Store/*           mvp/internal/store/store.go and store_m6.go: each method of *Store is
--                            the definition of the same name (UpsertPod is upsert_pod)
--   NetPol, NetPol/*         mvp/internal/netpol/netpol.go
--   Rbac, Rbac/*             mvp/internal/rbac/rbac.go
--   Admission, Admission/*   mvp/internal/admission/admission.go: Review is review
--   CustomResources, CustomResources/*  mvp/internal/crd/crd.go
--   Controllers, Controllers/*  mvp/internal/controllers: replicaset.go, deployment.go and
--                            service.go, and mvp/internal/hpa/hpa.go (Hpas), with the client calls that they make as interfaces
--   Federation, Federation/* mvp/internal/federation/federation.go
--   ApiServer, ApiServer/*   mvp/cmd/apiserver/main.go and m6.go: the guard, the handlers (handlePods
--                            is handle_pods), the routes and the server, the allocator of cluster
--                            IPs and the ticks of leader election; Invariant holds what any history
--                            of requests keeps
--   KubeProxy, KubeProxy/*   mvp/cmd/kube-proxy/main.go: proxy.sync and proxy.handle
--   Kubelet, Kubelet/*       mvp/cmd/kubelet/main.go: syncOnce and what it calls
--   Scheduler, Scheduler/*   mvp/cmd/scheduler/main.go: scheduleOnce
--   Webhooks, Webhooks/*     mvp/cmd/mk-sidecar-injector/main.go: injectSidecar, and
--                            mvp/cmd/sample-webhook/main.go: validateMemLimit
--   Tests, Tests/*           the theorems at concrete inputs
--
-- How the parts interact: the authorizer reads users, roles and bindings through the store; leader
-- election rests on the store's leases; admission reads the webhooks from the store and asks them,
-- and their answers are a parameter. The controllers read and change objects through the API
-- server's client: the Deployment controller posts ReplicaSets, the ReplicaSet controller pods, the
-- Service controller endpoints. The ReplicaSet controller's client is an interface with
-- laws (PodClient, IsLawful), and so is the Deployment controller's (DeploymentClient, IsFaithful).
-- Tests/PodServer and Tests/StoreServer hold the server over its store as such clients.
--
-- How the state corresponds: `Db` holds one list of rows to a table. A method of *Store is a
-- function from a database to a `Run`, which is a value or an error together with the database
-- afterwards. Each statement takes a number, and `fails` says which statements the driver fails; a
-- statement that fails changes nothing, and a transaction that is not committed is undone. A JSON
-- column holds the value that its JSON encodes, so that marshalling does not appear. ORDER BY is a
-- stable sort: rows that tie stay in the order of their insertion. An upsert keeps a row's place.
-- A nil map or slice is the empty list, and a map is an association list. An int is a whole number
-- (ℤ); a time is a number of nanoseconds with 0 for the zero time; a TTL is a number of
-- nanoseconds. A random suffix comes from a function `draw` of the number of the call. A run-time
-- panic is `none`. Floating-point numbers are a parameter (Floats). Loops are structural recursion on
-- the list or the count that they run over, so that there is no fuel. A handler is a function from
-- a request to a `Reply`, over the same database; what it decodes from a body, what encoding/json
-- makes of an object and what a webhook answers are parameters, gathered in the record Server.
--
-- Not modelled: HTTP and JSON encoding, logging, the processes' own loops and timers, TLS, the
-- SQLite driver itself, the texts of error messages, the client, the
-- operator, and the commands coredns-mini, metrics-server, mk-sidecar and mkctl, and
-- mutateAddLabel of sample-webhook: they are HTTP, sockets, files or untyped JSON for the most part.
pub mod Admission
pub mod Api
pub mod ApiServer
pub mod Controllers
pub mod CustomResources
pub mod Db
pub mod Federation
pub mod KubeProxy
pub mod Kubelet
pub mod NetPol
pub mod Prelude
pub mod Rbac
pub mod Scheduler
pub mod Sql
pub mod Store
pub mod Tests
pub mod Webhooks
