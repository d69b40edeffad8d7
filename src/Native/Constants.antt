-- ===== src/Native/Constants.antt =====
-- The constants of raknet-c/raknet_types.h and raknet-c/libcat.h.
use raknet_sys.Prelude.{ℕ, ◌+◌, ◌*◌, ◌/◌, ◌-◌, ◌^◌}

abbrev pub private_key_bits : ℕ
private_key_bits = 256

abbrev pub private_key_bytes : ℕ
private_key_bytes = private_key_bits / 8

abbrev pub public_key_bytes : ℕ
public_key_bytes = private_key_bytes * 2

abbrev pub challenge_bytes : ℕ
challenge_bytes = private_key_bytes * 2

abbrev pub answer_bytes : ℕ
answer_bytes = private_key_bytes * 4

abbrev pub proof_bytes : ℕ
proof_bytes = private_key_bytes

abbrev pub identity_bytes : ℕ
identity_bytes = private_key_bytes * 5

abbrev pub maximum_mtu_size : ℕ
maximum_mtu_size = 1492

abbrev pub minimum_mtu_size : ℕ
minimum_mtu_size = 400

-- `(RPCIndex)-1` is the largest number of an unsigned char.
abbrev pub undefined_rpc_index : ℕ
undefined_rpc_index = 2 ^ 8 - 1

abbrev pub max_rpc_map_size : ℕ
max_rpc_map_size = undefined_rpc_index - 1

-- `SystemIndex` is an unsigned short; its largest value marks an unassigned player.
abbrev pub unassigned_player_index : ℕ
unassigned_player_index = 65535

abbrev pub unassigned_network_id : ℕ
unassigned_network_id = 2 ^ 64 - 1

abbrev pub ping_times_array_size : ℕ
ping_times_array_size = 5

abbrev pub mac_bytes : ℕ
mac_bytes = 8

abbrev pub iv_bytes : ℕ
iv_bytes = 3

abbrev pub overhead_bytes : ℕ
overhead_bytes = iv_bytes + mac_bytes

-- `ffi::SystemIndex::MAX`, `u64::MAX`
abbrev pub system_index_max : ℕ
system_index_max = 2 ^ 16 - 1

abbrev pub u64_max : ℕ
u64_max = 2 ^ 64 - 1
