-- ===== src/Proxy/Server/Progress/Aligned.antt =====
-- What the second loop of `RakNetProxy::serve` of examples/proxy.rs, and the network, leave of the map of
-- connections: its keys, in their order, and the addresses.
use raknet_sys.Prelude.{ℕ, ◌≡◌, refl, false, some, [], ◌∷◌, arith, Bool-cases, inl, inr}
use raknet_sys.Prelude.Outcome.{ok}
use raknet_sys.Prelude.State.{lift, continue-eq-ok, lift-eq-ok}
use raknet_sys.Native.Platform.{Platform}
use raknet_sys.Peer.Interface.{RakNet}
use raknet_sys.Wrapper.Address.{RakNetGuid, guid_eq}
use raknet_sys.Proxy.Connection.{ProxyConnection}
use raknet_sys.Proxy.Connection
use raknet_sys.Proxy.Connection.Kept.{serve-SameOwner}
use raknet_sys.Proxy.Server.{Connections, get, send_to, serve_connections}
use raknet_sys.Proxy.Server.Identity.{moved}

module _ (lib : RakNet) where
  abbrev pub Aligned : Connections lib → Connections lib → Type 0
  Aligned [] [] = Unit
  Aligned ((j, c) ∷ m) ((k, d) ∷ n) = (j ≡ k) × (d.system_address ≡ c.system_address) × Aligned m n
  Aligned _ _ = ⊥

  pub get-Aligned :
      (k : RakNetGuid) (m n : Connections lib) (c : ProxyConnection lib)
      → Aligned m n
      → get k m ≡ some c
      → (d : ProxyConnection lib) × (get k n ≡ some d)
  unfolding get
  get-Aligned k [] n c a e = cc
  get-Aligned k ((i, b) ∷ m) [] c a e = absurd a
  get-Aligned k ((i, b) ∷ m) ((j, d) ∷ n) c (same, _, a) e = elim (Bool-cases (guid_eq j k)) [
    | inl found ↦ (d, rw found refl)
    | inr differ ↦
        let before : guid_eq i k ≡ false = rw same differ in
        let (x, y) = get-Aligned k m n c a (ground (arith, e, before)) in (x, rw differ y)
  ]

  pub moved-Aligned :
      (p : Platform) (f : RakNetGuid → lib.Peer → lib.Peer) (m : Connections lib)
      → Aligned m (moved lib p f m)
  moved-Aligned p f [] = tt
  moved-Aligned p f ((k, c) ∷ m) = (refl, refl, moved-Aligned p f m)

  pub serve_connections-Aligned :
      (p : Platform) (fuel : ℕ) (m n : Connections lib) (s t : lib.Peer)
      → serve_connections lib p fuel m s ≡ ok (n, t)
      → Aligned m n
  unfolding serve_connections
  serve_connections-Aligned p fuel [] n s t e = let same : n ≡ [] = ground (arith, e) in rw same tt
  serve_connections-Aligned p fuel ((j, c) ∷ m) n s t e =
      let ((out, d), u, served, then_send) =
        continue-eq-ok (lift (Connection.serve lib p fuel c) s) _ e in
      let (_, v, _, then_rest) =
        continue-eq-ok (send_to lib p d.system_address out u) _ then_send in
      let (rest, w, walked, last) = continue-eq-ok (serve_connections lib p fuel m v) _ then_rest in
      let result : n ≡ (j, d) ∷ rest = ground (arith, last) in
      let returned = (lift-eq-ok (Connection.serve lib p fuel c) s served).0 in
      let (_, owner) = serve-SameOwner lib p fuel c d out returned in
      rw result (refl, owner, serve_connections-Aligned p fuel m rest v w walked)
