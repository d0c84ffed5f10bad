-- ===== src/ApiServer/ClusterIps.antt =====
-- mvp/cmd/apiserver/main.go: the allocator of cluster IPs. `address n` stands for
-- `fmt.Sprintf("127.20.0.%d", n)`, and `next` is a byte.
pub mod Free
use kubernetes_style_orchest.Prelude.{
  ℕ, zero, suc, ◌+◌, ◌%◌, ◌^◌, String, Bool, true, false, not, ltb, if◌then◌else◌,
}

pub record ClusterIpAlloc : Type 0 where
  pub next : ℕ
  pub use_loop : Bool

-- `a.next++; if a.next < 2 { a.next = 2 }`
unfoldable pub advance : ℕ → ℕ
advance next = let n = (next + 1) % 2 ^ 8 in if ltb n 2 then 2 else n

module _ (address : ℕ → String) where
  -- The loop of `alloc`, with the number of turns left.
  unfoldable pub try_addresses : ℕ → (String → Bool) → ℕ → String × ℕ
  unfolding advance
  try_addresses zero taken next = ("", next)
  try_addresses (suc turns) taken next =
      let rest = try_addresses turns taken (advance next) in
      if not (taken (address (advance next))) then (address (advance next), advance next) else rest

  unfoldable pub alloc : (String → Bool) → ClusterIpAlloc → String × ClusterIpAlloc
  unfolding try_addresses
  alloc taken a =
      if not a.use_loop
      then ("127.0.0.1", a)
      else let (ip, next) = try_addresses 250 taken a.next in (ip, record a { next = next })
