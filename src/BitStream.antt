-- ===== src/BitStream.antt =====
-- raknet-c/bitstream.cpp: the C functions around RakNet's class `BitStream`. The class is a record that
-- they take as a parameter.
use raknet_sys.Prelude.{ℕ, ◌⊎◌, Bool, Bytes}
use raknet_sys.Prelude.Outcome.{Outcome, ok, Undefined, undefined, missing_return}
use raknet_sys.Prelude.State.{M, call, call_partial, ◌>>=◌, lift}
use raknet_sys.Native.Pointer.{Ptr}

pub record BitStreamClass : Type 1 where
  pub Stream : Type 0
  pub new_stream : Stream
  pub reset : Stream → Unit {0} × Stream
  pub ignore_bits : ℕ → Stream → Unit {0} × Stream
  pub set_write_offset : ℕ → Stream → Unit {0} × Stream
  pub get_number_of_bits_used : Stream → ℕ × Stream
  pub get_write_offset : Stream → ℕ × Stream
  pub get_read_offset : Stream → ℕ × Stream
  pub set_read_offset : ℕ → Stream → Unit {0} × Stream
  pub get_number_of_unread_bits : Stream → ℕ × Stream
  pub get_data : Stream → Ptr Bytes × Stream
  -- undefined where there are not as many bits at the pointer
  pub write_bits : Ptr Bytes → ℕ → Bool → Stream → Undefined ⊎ (Unit {0} × Stream)
  pub align_write_to_byte_boundary : Stream → Unit {0} × Stream
  pub align_read_to_byte_boundary : Stream → Unit {0} × Stream
  -- what is left at the pointer, and whether there were as many bits; undefined where they do not fit
  pub read_bits : Ptr Bytes → ℕ → Bool → Stream → Undefined ⊎ ((Bool × Ptr Bytes) × Stream)
  pub write0 : Stream → Unit {0} × Stream
  pub write1 : Stream → Unit {0} × Stream
  pub read_bit : Stream → Bool × Stream

module _ (cls : BitStreamClass) where
  open cls use {Stream}

  unfoldable pub bit_stream_new_empty : Outcome Stream
  bit_stream_new_empty = ok cls.new_stream

  -- The body is empty, so nothing is returned.
  unfoldable pub bit_stream_new_data : Outcome Stream
  bit_stream_new_data = undefined missing_return

  unfoldable pub bit_stream_reset : M Stream (Unit {0})
  bit_stream_reset = call cls.reset

  unfoldable pub bit_stream_ignore_bits : ℕ → M Stream (Unit {0})
  bit_stream_ignore_bits number_of_bits = call (cls.ignore_bits number_of_bits)

  unfoldable pub bit_stream_set_write_offset : ℕ → M Stream (Unit {0})
  bit_stream_set_write_offset offset = call (cls.set_write_offset offset)

  unfoldable pub bit_stream_get_number_of_bits_used : M Stream ℕ
  bit_stream_get_number_of_bits_used = call cls.get_number_of_bits_used

  unfoldable pub bit_stream_get_write_offset : M Stream ℕ
  bit_stream_get_write_offset = call cls.get_write_offset

  unfoldable pub bit_stream_get_read_offset : M Stream ℕ
  bit_stream_get_read_offset = call cls.get_read_offset

  unfoldable pub bit_stream_set_read_offset : ℕ → M Stream (Unit {0})
  bit_stream_set_read_offset new_read_offset = call (cls.set_read_offset new_read_offset)

  unfoldable pub bit_stream_get_number_of_unread_bits : M Stream ℕ
  bit_stream_get_number_of_unread_bits = call cls.get_number_of_unread_bits

  unfoldable pub bit_stream_get_data : M Stream (Ptr Bytes)
  bit_stream_get_data = call cls.get_data

  unfoldable pub bit_stream_write_bits : Ptr Bytes → ℕ → Bool → M Stream (Unit {0})
  bit_stream_write_bits in_byte_array number_of_bits_to_write right_aligned_bits =
      call_partial (cls.write_bits in_byte_array number_of_bits_to_write right_aligned_bits)

  unfoldable pub bit_stream_align_write_to_byte_boundary : M Stream (Unit {0})
  bit_stream_align_write_to_byte_boundary = call cls.align_write_to_byte_boundary

  unfoldable pub bit_stream_align_read_to_byte_boundary : M Stream (Unit {0})
  bit_stream_align_read_to_byte_boundary = call cls.align_read_to_byte_boundary

  -- The buffer is read and written: what it holds afterwards is a second result.
  unfoldable pub bit_stream_read_bits : Ptr Bytes → ℕ → Bool → M Stream (Bool × Ptr Bytes)
  bit_stream_read_bits in_out_byte_array number_of_bits_to_read align_bits_to_right =
      call_partial (cls.read_bits in_out_byte_array number_of_bits_to_read align_bits_to_right)

  unfoldable pub bit_stream_write0 : M Stream (Unit {0})
  bit_stream_write0 = call cls.write0

  unfoldable pub bit_stream_write1 : M Stream (Unit {0})
  bit_stream_write1 = call cls.write1

  -- The bit is read, and what `ReadBit` returned is dropped: the function itself returns nothing.
  unfoldable pub bit_stream_read_bit : M Stream Bool
  bit_stream_read_bit = do bit ← call cls.read_bit; lift (undefined missing_return)
