-- ===== src/Wrapper/Methods/Lists.antt =====
-- The lists of addresses that src/rakpeer.rs collects by index.
use raknet_sys.Prelude.{
  ℕ, zero, suc, ◌+◌, ◌≤◌, ◌<◌, ◌≡◌, refl, true, List, [], ◌∷◌, Bytes, map, arith,
}
use raknet_sys.Prelude.Outcome.{ok}
use raknet_sys.Native.Pointer.{to}
use raknet_sys.Peer.Interface.{RakNet}
use raknet_sys.Peer.Shim.{rak_peer_get_local_ip, rak_peer_get_number_of_addresses}
use raknet_sys.Wrapper.Text.{is_utf8, cstr_to_string}
use raknet_sys.Wrapper.Methods.{
  get_number_of_addresses, local_ip_addresses_from, get_local_ip_addresses,
}

-- The indices from one on, so many.
abbrev pub indices : ℕ → ℕ → List ℕ
indices i zero = []
indices i (suc n) = i ∷ indices (i + 1) n

module _ (lib : RakNet) (s : lib.Peer) (texts : ℕ → Bytes) where
  local_ip_addresses_from_lem :
      (n i : ℕ)
      → ((k : ℕ) → i ≤ k → k < i + n → lib.get_local_ip k s ≡ (to (texts k), s))
      → ((k : ℕ) → i ≤ k → k < i + n → is_utf8 (texts k) ≡ true)
      → local_ip_addresses_from lib n i s ≡ ok (map texts (indices i n), s)
  unfolding local_ip_addresses_from rak_peer_get_local_ip cstr_to_string
  local_ip_addresses_from_lem zero i read valid = refl
  local_ip_addresses_from_lem (suc n) i read valid =
      let rest =
        local_ip_addresses_from_lem n (i + 1) (λ k a b. read k (omega arith) (omega arith))
          (λ k a b. valid k (omega arith) (omega arith)) in
      rw (read i (omega arith) (omega arith), valid i (omega arith) (omega arith), rest) refl

  -- If the library reports `n` addresses, and gives at each index below `n` a text in UTF-8, leaving
  -- the peer as it is, the list holds these texts, in the order of their indices, and no other.
  get_local_ip_addresses_lem :
      (n : ℕ)
      → lib.get_number_of_addresses s ≡ (n, s)
      → ((k : ℕ) → 0 ≤ k → k < 0 + n → lib.get_local_ip k s ≡ (to (texts k), s))
      → ((k : ℕ) → 0 ≤ k → k < 0 + n → is_utf8 (texts k) ≡ true)
      → get_local_ip_addresses lib s ≡ ok (map texts (indices 0 n), s)
  unfolding get_local_ip_addresses get_number_of_addresses rak_peer_get_number_of_addresses
  get_local_ip_addresses_lem n count read valid =
      rw count (local_ip_addresses_from_lem n 0 read valid)
