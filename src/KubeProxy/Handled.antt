-- ===== src/KubeProxy/Handled.antt =====
-- mvp/cmd/kube-proxy/main.go: which backend a connection goes to, and which connections go anywhere.
use kubernetes_style_orchest.Prelude.{
  string_eq, int_eq, ℕ, zero, suc, ◌+◌, ◌-◌, ◌%◌, ◌^◌, ◌<◌, Option, none, some, List, [], ◌∷◌,
  length, ◌≡◌, ◌≢◌, refl, sym, ap, ◌∙◌, arith, Member, here, there, inl, inr,
}
use kubernetes_style_orchest.Prelude.Int.{ℤ}
use kubernetes_style_orchest.Api.{EndpointAddress}
use kubernetes_style_orchest.KubeProxy.{
  Proxy, ProxyEntry, dialled, get_elem?, index_of, backend_at, counted, forward, handle_with,
  handle,
}
use native.Mathlib.Nat.{mod-lt, zero-lt-suc}
use kubernetes_style_orchest.KubeProxy.Policies.{MayPass, IsDecided, forward-IsDecided}

get_elem?-Member :
    {A : Type 0} (n : ℕ) (xs : List A) (x : A) → get_elem? n xs ≡ some x → Member x xs
unfolding get_elem?
get_elem?-Member n [] x h = cc h
get_elem?-Member zero (y ∷ xs) x h = here (cc h)
get_elem?-Member (suc n) (y ∷ xs) x h = there (get_elem?-Member n xs x h)

get_elem?_found :
    {A : Type 0} (n : ℕ) (xs : List A) → n < length xs → (x : A) × (get_elem? n xs ≡ some x)
unfolding get_elem?
get_elem?_found n [] h = absurd (omega arith)
get_elem?_found zero (y ∷ xs) h = (y, refl)
get_elem?_found (suc n) (y ∷ xs) h = get_elem?_found n xs (omega arith)

backend_at-Member :
    (o : Option ℕ) (subs : List EndpointAddress) (ep : EndpointAddress)
    → backend_at o subs ≡ some ep
    → Member ep subs
unfolding backend_at
backend_at-Member none subs ep h = cc h
backend_at-Member (some i) subs ep h = get_elem?-Member i subs ep h

forward-dialled :
    (p : Proxy) (src_port : ℤ) (o : Option EndpointAddress) (ep : EndpointAddress)
    → forward p src_port o ≡ dialled ep
    → (o ≡ some ep) × MayPass p src_port ep
unfolding forward
forward-dialled p src_port none ep h = cc h
forward-dialled p src_port (some b) ep h = elim (forward-IsDecided p src_port b) [
  | inl (e, pass) ↦ let same : b ≡ ep = cc (sym e ∙ h) in (ap some same, rw (sym same) pass)
  | inr (e, _, _) ↦ cc (sym e ∙ h)
]

handle_with-MayPass :
    (p : Proxy) (e : ProxyEntry) (src_port : ℤ) (subs : List EndpointAddress) (ep : EndpointAddress)
    → (handle_with p e src_port subs).0 ≡ dialled ep
    → Member ep subs × MayPass p src_port ep
unfolding handle_with
handle_with-MayPass p e src_port [] ep h = cc h
handle_with-MayPass p e src_port (b ∷ bs) ep h =
    let (chosen, pass) = forward-dialled p src_port _ ep h in
    (backend_at-Member _ (b ∷ bs) ep chosen, pass)

-- A connection is dialled to no other address than a backend of its listener; and where the policies
-- are enforced, only if the backend's pod is known and no policy selects it or one that does has an
-- ingress rule for the pod behind the source port and for the destination's port.
pub handle-MayPass :
    (p : Proxy) (e : ProxyEntry) (src_port : ℤ) (ep : EndpointAddress)
    → (handle p e src_port).0 ≡ dialled ep
    → Member ep e.backends × MayPass p src_port ep
unfolding handle
handle-MayPass p e src_port ep h = handle_with-MayPass p e src_port e.backends ep h

-- The entry after connections from these ports.
abbrev pub after_connections : Proxy → List ℤ → ProxyEntry → ProxyEntry
after_connections p [] e = e
after_connections p (q ∷ qs) e = after_connections p qs (handle p e q).1

handle_with-counted :
    (p : Proxy) (e : ProxyEntry) (src_port : ℤ) (subs : List EndpointAddress)
    → subs ≢ []
    → (handle_with p e src_port subs).1 ≡ counted e
unfolding handle_with
handle_with-counted p e src_port [] filled = absurd (filled refl)
handle_with-counted p e src_port (b ∷ bs) filled = refl

counted-counter :
    (e : ProxyEntry)
    → e.counter + 1 < 2 ^ 64
    → ((counted e).counter ≡ e.counter + 1) × ((counted e).backends ≡ e.backends)
unfolding counted
counted-counter e h = (omega arith, refl)

handle-counter :
    (p : Proxy) (e : ProxyEntry) (src_port : ℤ)
    → e.backends ≢ []
    → e.counter + 1 < 2 ^ 64
    → ((handle p e src_port).1.counter ≡ e.counter + 1)
      × ((handle p e src_port).1.backends ≡ e.backends)
unfolding handle
handle-counter p e src_port filled h =
    rw (handle_with-counted p e src_port e.backends filled) (counted-counter e h)

after_connections-counter :
    (p : Proxy) (qs : List ℤ) (e : ProxyEntry)
    → e.backends ≢ []
    → e.counter + length qs < 2 ^ 64
    → ((after_connections p qs e).counter ≡ e.counter + length qs)
      × ((after_connections p qs e).backends ≡ e.backends)
after_connections-counter p [] e filled h = (omega arith, refl)
after_connections-counter p (q ∷ qs) e filled h =
    let (n, b) = handle-counter p e q filled (omega arith) in
    let (m, c) = after_connections-counter p qs (handle p e q).1 (rw b filled) (omega arith) in
    (omega arith, c ∙ b)

add_then_sub : (c : ℕ) → c < 2 ^ 63 → ((c + 1) % 2 ^ 64 + 2 ^ 64 - 1) % 2 ^ 64 ≡ c
add_then_sub c h = omega arith

drawn_index :
    (e : ProxyEntry) (len : ℕ)
    → e.counter < 2 ^ 63
    → index_of (((counted e).counter + 2 ^ 64 - 1) % 2 ^ 64) len ≡ some (e.counter % len)
unfolding index_of counted
drawn_index e len h = rw (add_then_sub e.counter h) (ground arith)

handle_with-chosen :
    (p : Proxy) (e : ProxyEntry) (src_port : ℤ) (subs : List EndpointAddress)
    → subs ≢ []
    → e.counter < 2 ^ 63
    → (ep : EndpointAddress) × (get_elem? (e.counter % length subs) subs ≡ some ep)
      × ((handle_with p e src_port subs).0 ≡ forward p src_port (some ep))
unfolding handle_with backend_at
handle_with-chosen p e src_port [] filled h = absurd (filled refl)
handle_with-chosen p e src_port (b ∷ bs) filled h =
    let (ep, found) =
      get_elem?_found (e.counter % length (b ∷ bs)) (b ∷ bs)
        (mod-lt e.counter (zero-lt-suc (length bs))) in
    (
      ep,
      found,
      ap (forward p src_port)
          (ap (λ i. backend_at i (b ∷ bs)) (drawn_index e (length (b ∷ bs)) h) ∙ found),
    )

-- Fewer than 2 ^ 63 connections after the listener was made, the connection that comes after those from
-- the given ports goes to the backend at the place that the counter and their number give, modulo the
-- number of backends: there is one, so that nothing panics, and it is dialled unless the policies are
-- enforced and do not let the connection in, in which case it is denied.
pub handle-round_robin :
    (p : Proxy) (e : ProxyEntry) (src_port : ℤ) (earlier : List ℤ)
    → e.backends ≢ []
    → e.counter + length earlier < 2 ^ 63
    → (ep : EndpointAddress) × (get_elem?
          ((e.counter + length earlier) % length e.backends)
          e.backends
        ≡ some ep)
      × IsDecided p src_port ep (handle p (after_connections p earlier e) src_port).0
unfolding handle
handle-round_robin p e src_port earlier filled h =
    let (counter, backends) = after_connections-counter p earlier e filled (omega arith) in
    let (ep, found, same) =
      handle_with-chosen p (after_connections p earlier e) src_port e.backends filled
        (rw counter h) in
    (ep, rw (sym counter) found, rw (backends, same) (forward-IsDecided p src_port ep))
