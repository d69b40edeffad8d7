-- ===== src/Proxy/Connection/Fresh.antt =====
-- A connection of examples/proxy.rs that `ProxyConnection::new` has made: its client is started, and
-- nothing has been sent through it.
use raknet_sys.Prelude.{
  ℕ, ◌≡◌, ap, sym, ◌∙◌, inr, Bool, true, false, Option, none, some, List, [], ◌∷◌, if◌then◌else◌,
  Bytes, length, ◌%◌, ◌^◌, arith,
}
use raknet_sys.Prelude.Int.{ℤ, negsuc, as_i32}
use raknet_sys.Prelude.Outcome.{ok, map_ok-eq-ok, traverse}
use raknet_sys.Prelude.Keeps.{
  Keeps, Keeps-pure, Keeps-lift, Keeps-bind, Keeps-if, Keeps-after_lift, Keeps-after_call,
}
use raknet_sys.Prelude.Texts.{codes}
use raknet_sys.Native.Pointer.{Ptr, to}
use raknet_sys.Native.Platform.{Platform}
use raknet_sys.Native.Structs
use raknet_sys.Peer.Interface.{RakNet, ConnectArgs}
use raknet_sys.Peer.Shim.{
  rak_peer_new, rak_peer_startup, rak_peer_connect, rak_peer_set_occasional_ping,
  rak_peer_allow_connection_response_ip_migration,
}
use raknet_sys.Wrapper.Address.{RakNetGuid, SystemAddress}
use raknet_sys.Wrapper.Codes.{from_connection_attempt_result, from_startup_result}
use raknet_sys.Wrapper.Text.{new_cstring}
use raknet_sys.Wrapper.Socket.{SocketDescriptor, into_socket_descriptor}
use raknet_sys.Wrapper.Startup.{startup}
use raknet_sys.Wrapper.Connect.{
  connect, password_argument, into_public_key, accept_any_public_key, PublicKey,
}
use raknet_sys.Wrapper.Methods.{allow_connection_response_ip_migration, set_occasional_ping}
use raknet_sys.Wrapper.Methods
use raknet_sys.Proxy.Connection.{
  ProxyConnection, ConnectionError, new, started, start_client, connect_client, client_descriptor,
  is_started, is_attempt_started, could_not_start, could_not_start_connection_attempt,
}

-- A new instance shows nothing of a list that the library keeps, such as the messages it has accepted
-- or the packets that wait, and the calls that start it add nothing to it.
pub record Starting (lib : RakNet) {X : Type 0} (shown : lib.Peer → List X) : Type 0 where
  pub fresh : (n : ℕ) → shown (lib.get_instance n) ≡ []
  pub startup_keeps :
      (max : ℕ) (sockets : Ptr (List Structs.SocketDescriptor)) (count : ℕ) (priority : ℤ)
      (s : lib.Peer)
      → shown (lib.startup max sockets count priority s).1 ≡ shown s
  pub connect_keeps : (args : ConnectArgs) (s : lib.Peer) → shown (lib.connect args s).1 ≡ shown s
  pub occasional_ping_keeps :
      (on : Bool) (s : lib.Peer) → shown (lib.set_occasional_ping on s).1 ≡ shown s
  pub ip_migration_keeps :
      (on : Bool) (s : lib.Peer)
      → shown (lib.allow_connection_response_ip_migration on s).1 ≡ shown s

-- What the library is called with by `Connect` without a password, for a host without a zero byte.
abbrev pub connect_args : Bytes → ℕ → PublicKey → ConnectArgs
connect_args host port pk = record {
  host = host;
  remote_port = port;
  password = (password_argument none).0;
  password_length = as_i32 (password_argument none).1;
  public_key = to (into_public_key pk);
  connection_socket_index = 0;
  send_connection_attempt_count = 12;
  time_between_send_connection_attempts_ms = 500;
  timeout_time = 0;
}

module _ (lib : RakNet) (p : Platform) {X : Type 0} (shown : lib.Peer → List X)
    (starting : Starting lib shown) where
  open lib use {Peer}

  connect-Keeps :
      (host : Bytes) (port : ℕ) (pk : PublicKey) → Keeps shown (connect lib host port none pk)
  unfolding connect rak_peer_connect
  connect-Keeps host port pk = Keeps-after_lift shown (new_cstring host) λ c.
      Keeps-after_call shown (lib.connect (connect_args c port pk)) (starting.connect_keeps _)
        λ r. Keeps-lift shown (from_connection_attempt_result r)

  startup-Keeps : (max : ℕ) (xs : List SocketDescriptor) → Keeps shown (startup lib p max xs)
  unfolding startup rak_peer_startup
  startup-Keeps max xs = Keeps-after_lift shown (traverse (into_socket_descriptor p) xs) λ inner.
      Keeps-after_call shown (lib.startup max (to inner) (length inner % 2 ^ 32) (negsuc 99998))
        (starting.startup_keeps _ _ _ _) λ r. Keeps-lift shown (from_startup_result r)

  connect_client-Keeps : Keeps shown (connect_client lib p)
  connect_client-Keeps =
      Keeps-bind shown (connect lib (codes "127.0.0.1") 4564 none accept_any_public_key)
        (connect-Keeps _ _ _)
        (λ car.
          Keeps-pure shown
            (if is_attempt_started car then none else some could_not_start_connection_attempt))

  start_client-Keeps : Keeps shown (start_client lib p)
  unfolding start_client allow_connection_response_ip_migration set_occasional_ping
      rak_peer_set_occasional_ping rak_peer_allow_connection_response_ip_migration
  start_client-Keeps =
      Keeps-after_call shown (lib.allow_connection_response_ip_migration false)
        (starting.ip_migration_keeps _)
        λ _.
          Keeps-after_call shown (lib.set_occasional_ping true) (starting.occasional_ping_keeps _)
            λ _.
              Keeps-bind shown (startup lib p 8 (client_descriptor ∷ [])) (startup-Keeps _ _)
                λ result.
                  Keeps-if shown (is_started result) _ _ connect_client-Keeps
                    (Keeps-pure shown (some could_not_start))

  -- The client of a new connection shows nothing.
  pub new-shown :
      (n : ℕ) (guid : RakNetGuid) (system_address : SystemAddress) (c : ProxyConnection lib)
      → new lib p n guid system_address ≡ ok (inr c)
      → shown c.client ≡ []
  unfolding new Methods.new rak_peer_new
  new-shown n guid system_address c h =
      let (x, e, k) =
        map_ok-eq-ok (started lib p guid system_address) (start_client lib p (Methods.new lib n))
          h in
      made x k ∙ start_client-Keeps (lib.get_instance n) x.1 x.0 e ∙ starting.fresh n
    where
      made :
          (x : Option ConnectionError × Peer)
          → started lib p guid system_address x ≡ inr c
          → shown c.client ≡ shown x.1
      made (none, client) k = ap shown (sym (ground (arith, k)))
      made (some e, client) k = cc
