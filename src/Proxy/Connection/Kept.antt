-- ===== src/Proxy/Connection/Kept.antt =====
-- The methods of `ProxyConnection` of examples/proxy.rs never change whose connection it is.
use raknet_sys.Prelude.{
  ℕ, ◌≡◌, refl, ap, sym, ◌∙◌, inl, inr, Option, none, some, List, [], ◌∷◌, Bytes, arith, Bool-cases,
}
use raknet_sys.Prelude.Outcome.{ok, map_ok-eq-ok}
use raknet_sys.Prelude.State.{M, continue, continue-eq-ok, lift-eq-ok}
use raknet_sys.Native.Platform.{Platform}
use raknet_sys.Peer.Interface.{RakNet}
use raknet_sys.Wrapper.Address.{RakNetGuid, SystemAddress, is_unassigned_address}
use raknet_sys.Wrapper.Packet.{Packet}
use raknet_sys.Wrapper.Receive.{receive_all}
use raknet_sys.Wrapper.Sender.{set_data, set_broadcast, send}
use raknet_sys.Wrapper.Sender
use raknet_sys.Wrapper.Methods.{get_system_address_from_index}
use raknet_sys.Wrapper.Methods
use raknet_sys.Proxy.Connection.{
  ProxyConnection, ConnectionError, new, started, start_client, on_client, with_client, unwrap_sent,
  send_message, send_queued, forward_packet, handle_packets, serve,
}

module _ {lib : RakNet} where
  -- The same client is served by it.
  abbrev pub SameOwner : ProxyConnection lib → ProxyConnection lib → Type 0
  SameOwner c d = (d.guid ≡ c.guid) × (d.system_address ≡ c.system_address)

  SameOwner-trans : (c d e : ProxyConnection lib) → SameOwner c d → SameOwner d e → SameOwner c e
  SameOwner-trans c d e (g, a) (h, b) = (h ∙ g, b ∙ a)

  SameOwner-eq : (c d e : ProxyConnection lib) → SameOwner c d → d ≡ e → SameOwner c e
  SameOwner-eq c d e (g, a) h =
      (ap (λ x. x.guid) (sym h) ∙ g, ap (λ x. x.system_address) (sym h) ∙ a)

  on_client-SameOwner :
      {A : Type 0} (m : M lib.Peer A) (c d : ProxyConnection lib) (a : A)
      → on_client m c ≡ ok (a, d)
      → SameOwner c d
  on_client-SameOwner m c d a h =
      let (x, k, same) = map_ok-eq-ok (with_client c) (m c.client) h in
      SameOwner-eq c _ _ (refl, refl) (ap (λ y. y.1) same)

module _ (lib : RakNet) (p : Platform) where
  send_message-SameOwner :
      (bytes : Bytes) (c d : ProxyConnection lib)
      → send_message lib p bytes c ≡ ok (tt, d)
      → SameOwner c d
  unfolding send_message
  send_message-SameOwner bytes c d h =
      let m = send lib p (set_broadcast (set_data bytes Sender.new)) in
      let (a, t, e, rest) = continue-eq-ok (on_client m c) _ h in
      SameOwner-eq c _ _ (on_client-SameOwner m c t a e) (lift-eq-ok (unwrap_sent a) t rest).1

  send_queued-SameOwner :
      (ms : List Bytes) (c d : ProxyConnection lib)
      → send_queued lib p ms c ≡ ok (tt, d)
      → SameOwner c d
  unfolding send_queued
  send_queued-SameOwner [] c d h = ground (arith, h)
  send_queued-SameOwner (m ∷ ms) c d h =
      let (_, t, e, rest) =
        continue-eq-ok (send_message lib p m (record c { messages = ms })) _ h in
      SameOwner-trans c t d (send_message-SameOwner m (record c { messages = ms }) t e)
        (send_queued-SameOwner ms t d rest)

  pub forward_packet-SameOwner :
      (packet : Packet) (c d : ProxyConnection lib)
      → forward_packet lib p packet c ≡ ok (tt, d)
      → SameOwner c d
  unfolding forward_packet
  forward_packet-SameOwner packet c d h =
      let m = get_system_address_from_index lib p 0 in
      let (a, t, e, rest) = continue-eq-ok (on_client m c) _ h in
      let looked = on_client-SameOwner m c t a e in
      elim (Bool-cases (is_unassigned_address a)) [
        | inl waits ↦ SameOwner-trans c t d looked (ground (arith, rest, waits))
        | inr connected ↦
            let both : continue (send_queued lib p t.messages t)
                  (λ _. send_message lib p packet.bytes)
                ≡ ok (tt, d) =
              ground (arith, rest, connected) in
            let (_, u, k, last) = continue-eq-ok (send_queued lib p t.messages t) _ both in
            SameOwner-trans c t d looked (
              SameOwner-trans t u d (send_queued-SameOwner t.messages t u k)
                (send_message-SameOwner packet.bytes u d last))
      ]

  pub serve-SameOwner :
      (fuel : ℕ) (c d : ProxyConnection lib) (out : List Bytes)
      → serve lib p fuel c ≡ ok (out, d)
      → SameOwner c d
  unfolding serve
  serve-SameOwner fuel c d out h =
      let (a, t, e, rest) = continue-eq-ok (on_client (receive_all lib p fuel) c) _ h in
      SameOwner-eq c _ _ (on_client-SameOwner (receive_all lib p fuel) c t a e)
        (lift-eq-ok (handle_packets a) t rest).1

  -- A connection that was made is the one of the client it was made for, and nothing waits in it.
  pub new_owner :
      (n : ℕ) (guid : RakNetGuid) (system_address : SystemAddress) (c : ProxyConnection lib)
      → new lib p n guid system_address ≡ ok (inr c)
      → (c.guid ≡ guid) × (c.system_address ≡ system_address) × (c.messages ≡ [])
  unfolding new
  new_owner n guid system_address c h =
      let (x, e, k) =
        map_ok-eq-ok (started lib p guid system_address) (start_client lib p (Methods.new lib n))
          h in
      owner x k
    where
      owner :
          (x : Option ConnectionError × lib.Peer)
          → started lib p guid system_address x ≡ inr c
          → (c.guid ≡ guid) × (c.system_address ≡ system_address) × (c.messages ≡ [])
      owner (none, client) k = ground (arith, k)
      owner (some e, client) k = cc
