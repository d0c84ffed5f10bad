-- ===== src/ApiServer/Invariant.antt =====
-- mvp/cmd/apiserver: what holds of the tables at any time, whatever requests the server answers.
pub mod Elsewhere
pub mod Keeping
pub mod Scaled
pub mod Stored
pub mod Replies
pub mod Handlers
pub mod Admitted
pub mod Checked
pub mod Custom
pub mod Served
use kubernetes_style_orchest.Prelude.{String, ◌≡◌, ◌≢◌, ◌⊎◌, refl, string_eq}
use kubernetes_style_orchest.Prelude.Int.{pos, ◌≤ℤ◌}
use kubernetes_style_orchest.Api.{
  HpaSpec, HpaStatus, webhook_type_mutating, webhook_type_validating,
}
use kubernetes_style_orchest.Db.{Db, ObjectRow, ServiceRow, UserRow, WebhookRow, CrdRow}
use kubernetes_style_orchest.Sql.{M, after}
use kubernetes_style_orchest.Sql.Reads.{Reads, SameTables}
use kubernetes_style_orchest.Sql.Everywhere.{Everywhere}

-- At least one replica, and a maximum that is not below the minimum.
abbrev pub IsBounded : ObjectRow HpaSpec HpaStatus → Type 0
IsBounded r = (pos 1 ≤ℤ r.spec.min_replicas) × (r.spec.min_replicas ≤ℤ r.spec.max_replicas)

-- The column that the allocator reads is the address that the service shows.
abbrev pub HasIp : ServiceRow → Type 0
HasIp r = r.cluster_ip ≡ r.spec.cluster_ip

abbrev pub HasToken : UserRow → Type 0
HasToken r = r.token ≢ ""

abbrev pub IsHook : WebhookRow → Type 0
IsHook r = ((r.type ≡ webhook_type_mutating) ⊎ (r.type ≡ webhook_type_validating)) × (r.url ≢ "")

-- The columns by which a custom resource's path is matched, filled and those of the spec.
abbrev pub IsServed : CrdRow → Type 0
IsServed r =
    (r.spec.group ≢ "")
    × (r.spec.version ≢ "")
    × (r.plural ≢ "")
    × (r.spec.names.kind ≢ "")
    × (r.plural ≡ r.spec.names.plural)

pub record Consistent (s : Db) : Type 0 where
  pub hpas : Everywhere IsBounded s.hpas
  pub services : Everywhere HasIp s.services
  pub users : Everywhere HasToken s.users
  pub webhooks : Everywhere IsHook s.admission_webhooks
  pub crds : Everywhere IsServed s.crds

-- The tables of the invariant are the same.
abbrev pub Aside : Db → Db → Type 0
Aside s t =
    (t.hpas ≡ s.hpas)
    × (t.services ≡ s.services)
    × (t.users ≡ s.users)
    × (t.admission_webhooks ≡ s.admission_webhooks)
    × (t.crds ≡ s.crds)

pub Consistent-Aside : (s t : Db) → Aside s t → Consistent s → Consistent t
Consistent-Aside s t (a, b, c, d, e) h = record {
  hpas = rw a h.hpas;
  services = rw b h.services;
  users = rw c h.users;
  webhooks = rw d h.webhooks;
  crds = rw e h.crds;
}

abbrev pub Keeps : {A : Type 0} → M A → Type 0
Keeps m = (s : Db) → Consistent s → Consistent (after (m s))
