-- ===== src/Wrapper/Connect/Keys.antt =====
-- Which keys src/rakpeer.rs hands to C, against the modes of raknet-c/raknet_types.h.
use raknet_sys.Prelude.{◌≡◌, ◌≢◌, ◌↔◌, ◌⊎◌, arith}
use raknet_sys.Native.Pointer.{null}
use raknet_sys.Native.Enums
use raknet_sys.Wrapper.Connect.{PublicKey, into_public_key}

-- The remote key is given exactly in the two modes that need one, and this side's keys exactly in
-- the mode of two-way authentication.
into_public_key_pointers :
    (pk : PublicKey)
    → (((into_public_key pk).remote_server_public_key ≢ null) ↔ (
        ((into_public_key pk).public_key_mode
          ≡ Enums.public_key_mode_code Enums.pkm_use_known_public_key)
        ⊎ ((into_public_key pk).public_key_mode
            ≡ Enums.public_key_mode_code Enums.pkm_use_two_way_authentication)))
      × (((into_public_key pk).my_public_key ≢ null) ↔ (
          (into_public_key pk).public_key_mode
          ≡ Enums.public_key_mode_code Enums.pkm_use_two_way_authentication))
      × (((into_public_key pk).my_private_key ≢ null) ↔ (
          (into_public_key pk).public_key_mode
          ≡ Enums.public_key_mode_code Enums.pkm_use_two_way_authentication))
unfolding into_public_key Enums.public_key_mode_code
into_public_key_pointers PublicKey.insecure_connection = ground arith
into_public_key_pointers _ = ground arith
