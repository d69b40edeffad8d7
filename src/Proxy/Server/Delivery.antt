-- ===== src/Proxy/Server/Delivery.antt =====
-- What `RakNetProxy::serve` of examples/proxy.rs hands to the server for the messages of one connection.
use raknet_sys.Prelude.{
  ◌≡◌, refl, ap, sym, ◌∙◌, ◌⊎◌, inl, inr, false, none, some, List, [], ◌∷◌, ◌++◌, map, append-nil,
  append_assoc, Bytes, arith, ◌==◌, ==_iff, if◌then◌else◌, Bool-cases,
}
use raknet_sys.Prelude.Outcome.{ok, panic, unwrap_err}
use raknet_sys.Native.Platform.{Platform}
use raknet_sys.Native.Structs
use raknet_sys.Peer.Interface.{RakNet, SendArgs}
use raknet_sys.Peer.Shim.{rak_peer_send_data}
use raknet_sys.Wrapper.Address.{SystemAddress, address, into_address_or_guid}
use raknet_sys.Wrapper.Sender.{set_data, set_system_identifier, send}
use raknet_sys.Wrapper.Sender
use raknet_sys.Wrapper.Sender.Send.{send_args}
use raknet_sys.Wrapper.Sender.Contract.{Sending, Refuses}
use raknet_sys.Proxy.Server.{send_to}

module _ (lib : RakNet) (p : Platform) (sending : Sending lib) (a : SystemAddress)
    (n : Structs.AddressOrGuid) (converts : into_address_or_guid p (address a) ≡ ok n) where
  open lib use {Peer}
  open sending use {sent}

  -- What the library is called with for one message.
  abbrev pub address_args : Bytes → SendArgs
  address_args bytes = send_args (set_data bytes Sender.new) bytes n false

  pub send-address :
      (bytes : Bytes) (s : Peer)
      → send lib p (set_system_identifier (address a) (set_data bytes Sender.new)) s
        ≡ ok (
          if (lib.send (address_args bytes) s).0 == 0
              then none
              else some (lib.send (address_args bytes) s).0,
          (lib.send (address_args bytes) s).1,
        )
  unfolding send rak_peer_send_data set_system_identifier set_data
  send-address bytes s = rw converts

  -- For an address that is converted into an identity, the server is asked to send each message
  -- in its order, to the address and not as a broadcast; or the library refuses a message, which
  -- panics.
  pub send_to_lem :
      (messages : List Bytes) (s : Peer)
      → ((send_to lib p a messages s ≡ panic unwrap_err) × Refuses lib)
        ⊎ ((t : Peer) × (send_to lib p a messages s ≡ ok (tt, t))
            × (sent t ≡ sent s ++ map address_args messages))
  unfolding send_to
  send_to_lem [] s = inr (s, refl, sym (append-nil (sent s)))
  send_to_lem (m ∷ ms) s =
      let args = address_args m in
      let next = (lib.send args s).1 in
      elim (Bool-cases ((lib.send args s).0 == 0)) [
        | inl refused ↦ inl (rw (send-address m s, refused), (args, s, (==_iff _ 0).0 refused))
        | inr accepted ↦ elim (send_to_lem ms next) [
          | inl (k, refused) ↦ inl (rw (send-address m s, accepted, k), refused)
          | inr (t, k, logged) ↦ inr (
            t,
            rw (send-address m s, accepted, k),
            logged
                ∙ ap (λ log. log ++ map address_args ms)
                    (sending.send_accepted args s (ground arith))
                ∙ append_assoc (sent s) (args ∷ []) (map address_args ms),
          )
        ]
      ]
