-- ===== src/Wrapper/Packet.antt =====
-- `Packet` of src/rakpeer.rs, a copy of the library's packet.
use raknet_sys.Prelude.{ℕ, Bool, Bytes, length, take, leb, if◌then◌else◌}
use raknet_sys.Prelude.Outcome.{Outcome, ok, undefined, out_of_bounds, ◌>>=◌}
use raknet_sys.Native.Pointer.{Ptr, deref}
use raknet_sys.Native.Platform.{Platform}
use raknet_sys.Native.Structs
use raknet_sys.Wrapper.Address.{SystemAddress, from_system_address, RakNetGuid, from_guid}

pub record Packet : Type 0 where
  pub system_address : SystemAddress
  pub guid : RakNetGuid
  pub bitsize : ℕ
  pub bytes : Bytes
  pub local : Bool

-- `core::slice::from_raw_parts(data, length)`, copied: the buffer has to be there and to hold as
-- many bytes.
unfoldable pub slice_from_raw_parts : Ptr Bytes → ℕ → Outcome Bytes
slice_from_raw_parts pointer n = deref pointer >>= λ buffer.
    if leb n (length buffer) then ok (take n buffer) else undefined out_of_bounds

-- `From<&ffi::Packet> for Packet`
unfoldable pub from_packet : Platform → Structs.Packet → Outcome Packet
from_packet platform value = from_system_address platform value.system_address >>= λ system_address.
    slice_from_raw_parts value.bytes value.length >>= λ bytes. ok (record {
      system_address = system_address;
      guid = from_guid value.guid;
      bitsize = value.bit_size;
      bytes = bytes;
      local = value.was_generated_locally;
    })
