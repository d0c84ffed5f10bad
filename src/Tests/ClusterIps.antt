-- ===== src/Tests/ClusterIps.antt =====
-- mvp/cmd/apiserver/main.go: an address from an empty range.
use kubernetes_style_orchest.Prelude.{
  ℕ, zero, suc, String, string_eq, ◌==◌, Bool, true, false, ◌≡◌, ◌≢◌, refl, ◌<◌,
}
use kubernetes_style_orchest.ApiServer.ClusterIps.{ClusterIpAlloc, alloc}
use kubernetes_style_orchest.ApiServer.ClusterIps.Free.{IsFree, turn, alloc-IsFree}
use kubernetes_style_orchest.Tests.Data.{told_apart}

abbrev address : ℕ → String
address n = elim n [ zero ↦ "127.20.0.0" | suc m ↦ "127.20.0.9" ]

abbrev taken : String → Bool
taken ip = ip == "127.20.0.7"

abbrev fresh : ClusterIpAlloc
fresh = record { next = 0; use_loop = true }

address_named : (n : ℕ) → address n ≢ ""
address_named zero = told_apart "127.20.0.0" "" refl
address_named (suc n) = told_apart "127.20.0.9" "" refl

alloc-IsFree_example :
    ((alloc address taken fresh).0 ≢ "" → IsFree address taken (alloc address taken fresh).0)
    × ((i : ℕ)
        → i < 250
        → taken (address (turn (suc i) fresh.next)) ≡ false
        → (alloc address taken fresh).0 ≢ "")
alloc-IsFree_example = alloc-IsFree address taken fresh refl address_named
