-- ===== src/Wrapper/Startup/Behaviour.antt =====
-- How `RakPeer::Startup` of src/rakpeer.rs ends.
use raknet_sys.Prelude.{
  ℕ, ◌≡◌, ◌≢◌, ◌↔◌, inl, inr, refl, List, map, [], ◌∷◌, length, length-map, if◌then◌else◌, arith,
  ◌%◌, ◌^◌, Bool, true, false, ◌||◌, ltb, Bool-cases,
}
use raknet_sys.Prelude.Int.{negsuc}
use raknet_sys.Prelude.Outcome.{ok, panic, unwrap_none, traverse}
use raknet_sys.Prelude.State.{lift}
use raknet_sys.Native.Pointer.{to}
use raknet_sys.Native.Platform.{Platform}
use raknet_sys.Native.Enums
use raknet_sys.Peer.Interface.{RakNet}
use raknet_sys.Peer.Shim.{rak_peer_startup}
use raknet_sys.Wrapper.Codes.{StartupResult, from_startup_result}
use raknet_sys.Wrapper.Socket.{SocketDescriptor, into_socket_descriptor}
use raknet_sys.Wrapper.Socket.HostAddress.{native_descriptor, into_socket_descriptor_cases}
use raknet_sys.Wrapper.Startup.{startup}

-- Some host address is longer than 16 bytes.
abbrev pub any_long : List SocketDescriptor → Bool
any_long [] = false
any_long (x ∷ xs) = ltb 16 (length x.host_address) || any_long xs

traverse-into_socket_descriptor :
    (p : Platform) (xs : List SocketDescriptor)
    → traverse (into_socket_descriptor p) xs
      ≡ (if any_long xs then panic unwrap_none else ok (map (native_descriptor p) xs))
unfolding traverse
traverse-into_socket_descriptor p [] = refl
traverse-into_socket_descriptor p (x ∷ xs) =
    ground (arith, into_socket_descriptor_cases p x, traverse-into_socket_descriptor p xs)

module _ {S : Type 0} where
  read_code-started :
      (code : ℕ) (s t : S)
      → ((lift (from_startup_result code) s ≡ ok (StartupResult.started, t))
          ↔ ((code ≡ Enums.startup_result_code Enums.raknet_started) × (s ≡ t)))
        × (lift (from_startup_result code) s ≢ panic unwrap_none)
  unfolding from_startup_result
  read_code-started code s t = ground arith

abbrev pub native_startup :
    (lib : RakNet) → Platform → ℕ → List SocketDescriptor → lib.Peer → ℕ × lib.Peer
native_startup lib p max xs =
    lib.startup max (to (map (native_descriptor p) xs)) (length xs % 2 ^ 32) (negsuc 99998)

pub startup-long :
    (lib : RakNet) (p : Platform) (max : ℕ) (xs : List SocketDescriptor) (s : lib.Peer)
    → any_long xs ≡ true
    → startup lib p max xs s ≡ panic unwrap_none
unfolding startup
startup-long lib p max xs s h = rw (traverse-into_socket_descriptor p xs, h)

pub startup-short :
    (lib : RakNet) (p : Platform) (max : ℕ) (xs : List SocketDescriptor) (s : lib.Peer)
    → any_long xs ≡ false
    → startup lib p max xs s
      ≡ lift
          (from_startup_result (native_startup lib p max xs s).0)
          (native_startup lib p max xs s).1
unfolding startup rak_peer_startup
startup-short lib p max xs s h =
    rw (traverse-into_socket_descriptor p xs, h, length-map (native_descriptor p) xs)

-- Start-up panics on the host addresses exactly when one of them is longer than 16 bytes. It
-- reports `started` exactly when none is longer and the library, called with the converted
-- descriptors in their order and with their number, answers with `RAKNET_STARTED`.
pub startup_lem :
    (lib : RakNet) (p : Platform) (max : ℕ) (xs : List SocketDescriptor) (s t : lib.Peer)
    → ((startup lib p max xs s ≡ panic unwrap_none) ↔ (any_long xs ≡ true))
      × ((startup lib p max xs s ≡ ok (StartupResult.started, t)) ↔ (
          (any_long xs ≡ false)
          × (lib.startup max
                (to (map (native_descriptor p) xs))
                (length xs % 2 ^ 32)
                (negsuc 99998)
                s
              ≡ (Enums.startup_result_code Enums.raknet_started, t))))
startup_lem lib p max xs s t = elim (Bool-cases (any_long xs)) [
  | inl long ↦ ground (arith, startup-long lib p max xs s long)
  | inr short ↦ rw (startup-short lib p max xs s short) (
      ground (
        arith,
        read_code-started (native_startup lib p max xs s).0 (native_startup lib p max xs s).1 t,
      ))
]
