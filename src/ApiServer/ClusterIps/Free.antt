-- ===== src/ApiServer/ClusterIps/Free.antt =====
-- mvp/cmd/apiserver/main.go: an allocated cluster IP is free, and one is found where one is free.
use kubernetes_style_orchest.Prelude.{
  ℕ, zero, suc, ◌≤◌, ◌<◌, String, Bool, true, false, Bool-cases, ◌≡◌, ◌≢◌, refl, inl, inr, arith,
}
use kubernetes_style_orchest.ApiServer.ClusterIps.{ClusterIpAlloc, advance, try_addresses, alloc}

advance-bounds : (next : ℕ) → (2 ≤ advance next) × (advance next ≤ 255)
unfolding advance
advance-bounds next = (ground arith, ground arith)

-- The number after `i` turns of the loop.
abbrev pub turn : ℕ → ℕ → ℕ
turn zero next = next
turn (suc i) next = turn i (advance next)

module _ (address : ℕ → String) (taken : String → Bool) where
  -- The address of a number from 2 to 255 that is not taken.
  abbrev pub IsFree : String → Type 0
  IsFree ip = (n : ℕ) × (ip ≡ address n) × (2 ≤ n) × (n ≤ 255) × (taken ip ≡ false)

  try_addresses-IsFree :
      (turns next : ℕ)
      → (try_addresses address turns taken next).0 ≢ ""
      → IsFree (try_addresses address turns taken next).0
  unfolding try_addresses
  try_addresses-IsFree zero next h = absurd (h refl)
  try_addresses-IsFree (suc turns) next h = elim (Bool-cases (taken (address (advance next)))) [
    | inl used ↦
        rw (used, try_addresses)
          (try_addresses-IsFree turns (advance next) (λ e. h (rw (used, try_addresses) e)))
    | inr unused ↦
        let (lo, hi) = advance-bounds next in
        rw (unused, try_addresses) (advance next, refl, lo, hi, unused)
  ]

  try_addresses_found :
      (turns next i : ℕ)
      → ((n : ℕ) → address n ≢ "")
      → i < turns
      → taken (address (turn (suc i) next)) ≡ false
      → (try_addresses address turns taken next).0 ≢ ""
  unfolding try_addresses
  try_addresses_found zero next i named h f = absurd (omega arith)
  try_addresses_found (suc turns) next zero named h f = rw (f, try_addresses) (named (advance next))
  try_addresses_found (suc turns) next (suc i) named h f =
      elim (Bool-cases (taken (address (advance next)))) [
        | inl used ↦
            rw (used, try_addresses)
              (try_addresses_found turns (advance next) i named (omega arith) f)
        | inr unused ↦ rw (unused, try_addresses) (named (advance next))
      ]

  -- On the loopback range, if no address is the empty text, an address that alloc hands out is one
  -- of the range that is not taken, and one is handed out if an address that the next 250 turns
  -- reach is not taken.
  pub alloc-IsFree :
      (a : ClusterIpAlloc)
      → a.use_loop ≡ true
      → ((n : ℕ) → address n ≢ "")
      → ((alloc address taken a).0 ≢ "" → IsFree (alloc address taken a).0)
        × ((i : ℕ)
            → i < 250
            → taken (address (turn (suc i) a.next)) ≡ false
            → (alloc address taken a).0 ≢ "")
  unfolding alloc
  alloc-IsFree a loop named =
      rw (loop, alloc)
        (try_addresses-IsFree 250 a.next, λ i h f. try_addresses_found 250 a.next i named h f)
