-- ===== src/Chat/Setup/Same.antt =====
-- The chat programs of examples and the proxy start in the same way: the chat server as the proxy's own
-- server, the chat client as the client of each connection.
use raknet_sys.Prelude.{
  ◌≡◌, refl, inl, inr, Bool-cases, Bool, true, false, Option, none, some, [], ◌∷◌, Bytes,
  if◌then◌else◌,
}
use raknet_sys.Prelude.Outcome.{Outcome, ok, panic, undefined, out_of_fuel, map_ok}
use raknet_sys.Prelude.State.{M, pure, continue, ◌>>=◌}
use raknet_sys.Prelude.Texts.{codes}
use raknet_sys.Wrapper.Address.{unassigned_system_address}
use raknet_sys.Wrapper.Connect.{accept_any_public_key, connect}
use raknet_sys.Wrapper.Methods.{
  allow_connection_response_ip_migration, initialize_security, set_maximum_incoming_connections,
  set_occasional_ping, set_timeout_time, set_unreliable_timeout,
}
use raknet_sys.Native.Platform.{Platform}
use raknet_sys.Peer.Interface.{RakNet}
use raknet_sys.Wrapper.Codes.{StartupResult, ConnectionAttemptResult}
use raknet_sys.Wrapper.Startup.{startup}
use raknet_sys.Proxy.Connection.{ConnectionError, is_started, is_attempt_started}
use raknet_sys.Proxy.Connection
use raknet_sys.Proxy.Server.{ProxyError}
use raknet_sys.Proxy.Server
use raknet_sys.Chat.Setup.{
  Failure, failed_to_generate_server_key, failed_to_initialize_security, could_not_start,
  could_not_start_connection_attempt, start_server, start_client, start_secured, with_keys,
  socket_descriptor, allow_connections, connect_client,
}

-- The same calls with the same outcome, up to a function of the result.
module _ {S B C : Type 0} (h : B → C) where
  abbrev SameCalls : M S B → M S C → Type 0
  SameCalls m n = (s : S) → map_ok (λ x. (h x.0, x.1)) (m s) ≡ n s

  continue-SameCalls :
      {A : Type 0} (r : Outcome (A × S)) (f : A → M S B) (g : A → M S C)
      → ((a : A) → SameCalls (f a) (g a))
      → map_ok (λ x. (h x.0, x.1)) (continue r f) ≡ continue r g
  continue-SameCalls (ok (a, s)) f g e = e a s
  continue-SameCalls (panic p) f g e = refl
  continue-SameCalls (undefined u) f g e = refl
  continue-SameCalls out_of_fuel f g e = refl

  bind-SameCalls :
      {A : Type 0} (m : M S A) (f : A → M S B) (g : A → M S C)
      → ((a : A) → SameCalls (f a) (g a))
      → SameCalls (m >>= f) (m >>= g)
  bind-SameCalls m f g e s = continue-SameCalls (m s) f g e

-- The error that the proxy reports where the chat server prints its failure.
abbrev pub as_proxy_error : Option Failure → Option ProxyError
as_proxy_error none = none
as_proxy_error (some failed_to_generate_server_key) = some ProxyError.failed_to_generate_server_key
as_proxy_error (some failed_to_initialize_security) = some ProxyError.failed_to_initialize_security
as_proxy_error (some _) = some ProxyError.could_not_start

abbrev pub as_connection_error : Option Failure → Option ConnectionError
as_connection_error none = none
as_connection_error (some (could_not_start_connection_attempt _)) =
    some ConnectionError.could_not_start_connection_attempt
as_connection_error (some _) = some ConnectionError.could_not_start

module _ (lib : RakNet) (p : Platform) where
  open lib use {Peer}

  started-SameCalls :
      (result : StartupResult)
      → SameCalls as_proxy_error
          (if is_started result
            then allow_connections lib p
            else pure (some (could_not_start result)))
          (if is_started result
            then Server.allow_connections lib p
            else pure (some ProxyError.could_not_start))
  started-SameCalls result = elim (Bool-cases (is_started result)) [
    | inl e ↦
        rw e
          (bind-SameCalls as_proxy_error (set_maximum_incoming_connections lib 8) _ _ (λ _ s. refl))
    | inr n ↦ rw n (λ s. refl)
  ]

  secured-SameCalls :
      (secured : Bool)
      → SameCalls as_proxy_error
          (if secured then start_secured lib p else pure (some failed_to_initialize_security))
          (if secured
            then Server.start_secured lib p
            else pure (some ProxyError.failed_to_initialize_security))
  secured-SameCalls true =
      bind-SameCalls as_proxy_error (startup lib p 8 (socket_descriptor 4564 ∷ [])) _ _
        started-SameCalls
  secured-SameCalls false = λ s. refl

  with_keys-SameCalls :
      (keys : Option (Bytes × Bytes))
      → SameCalls as_proxy_error (with_keys lib p keys) (Server.with_keys lib p keys)
  with_keys-SameCalls none = λ s. refl
  with_keys-SameCalls (some (public_key, private_key)) =
      bind-SameCalls as_proxy_error (initialize_security lib public_key private_key false) _ _
        secured-SameCalls

  -- The chat server and the proxy's server.
  start_server-same :
      (keys : Option (Bytes × Bytes)) (s : Peer)
      → map_ok (λ x. (as_proxy_error x.0, x.1)) (start_server lib p keys s)
        ≡ Server.start_server lib p keys s
  unfolding start_server Server.start_server
  start_server-same keys = bind-SameCalls as_proxy_error (set_occasional_ping lib true) _ _ λ _.
      bind-SameCalls as_proxy_error
        (set_unreliable_timeout lib (record { seconds = 1; nanoseconds = 0 })) _ _
        λ _.
          bind-SameCalls as_proxy_error
            (set_timeout_time lib p (record { seconds = 30; nanoseconds = 0 })
              unassigned_system_address)
            _ _ (λ _. with_keys-SameCalls keys)

  attempt-SameCalls :
      (car : ConnectionAttemptResult)
      → SameCalls as_connection_error
          (pure {S = Peer} (
            if is_attempt_started car then none else some (could_not_start_connection_attempt car)))
          (pure (
            if is_attempt_started car
            then none
            else some ConnectionError.could_not_start_connection_attempt))
  attempt-SameCalls car s = elim (Bool-cases (is_attempt_started car)) [
    | inl e ↦ rw e
    | inr n ↦ rw n
  ]

  connected-SameCalls :
      (result : StartupResult)
      → SameCalls as_connection_error
          (if is_started result then connect_client lib p else pure (some (could_not_start result)))
          (if is_started result
            then Connection.connect_client lib p
            else pure (some ConnectionError.could_not_start))
  connected-SameCalls result = elim (Bool-cases (is_started result)) [
    | inl e ↦ rw e (
        bind-SameCalls as_connection_error
          (connect lib (codes "127.0.0.1") 4564 none accept_any_public_key) _ _ attempt-SameCalls)
    | inr n ↦ rw n (λ s. refl)
  ]

  -- The chat client and the client of a connection.
  start_client-same :
      (s : Peer)
      → map_ok (λ x. (as_connection_error x.0, x.1)) (start_client lib p s)
        ≡ Connection.start_client lib p s
  unfolding start_client Connection.start_client
  start_client-same =
      bind-SameCalls as_connection_error (allow_connection_response_ip_migration lib false) _ _ λ _.
        bind-SameCalls as_connection_error (set_occasional_ping lib true) _ _ λ _.
          bind-SameCalls as_connection_error (startup lib p 8 (socket_descriptor 0 ∷ [])) _ _
            connected-SameCalls

  -- Started from the same peer with the same keys, the chat server comes to the same peer and the same
  -- failure as the proxy's own server, or ends without a value in the same way; and so does the
  -- chat client with the client of a connection of the proxy.
  pub starts_same :
      (keys : Option (Bytes × Bytes)) (s : Peer)
      → (map_ok (λ x. (as_proxy_error x.0, x.1)) (start_server lib p keys s)
          ≡ Server.start_server lib p keys s)
        × (map_ok (λ x. (as_connection_error x.0, x.1)) (start_client lib p s)
            ≡ Connection.start_client lib p s)
  starts_same keys s = (start_server-same keys s, start_client-same s)
