-- ===== src/Crypto/Encryption/Channel.antt =====
-- Two ends of a channel of src/libcat.rs: what one encrypts, the other decrypts.
use raknet_sys.Prelude.{
  ℕ, ◌+◌, ◌-◌, ◌%◌, ◌^◌, ◌<◌, ◌≤◌, ◌≡◌, refl, ◌∙◌, Bool, true, Option, none, some, List, [], ◌∷◌,
  ◌++◌, append-nil, map, Bytes, All, length, take, replicate, length-append, take_all, arith,
  if◌then◌else◌,
}
use raknet_sys.Native.Constants.{overhead_bytes}
use raknet_sys.Crypto.Interface.{Cat}
use raknet_sys.Crypto.Shim.{authenticated_encryption_decrypt, authenticated_encryption_encrypt}
use raknet_sys.Crypto.Encryption.{resize, encrypt, decrypt}

-- What src/libcat.rs relies on of the library: `Encrypt` needs `OVERHEAD_BYTES` bytes of room after the
-- message and fills them, and `Decrypt` at the other end puts the message back at the front.
pub record Channel (cat : Cat) : Type 1 where
  -- what the first end encrypts next is what the second end expects next
  pub Linked : cat.Encryption → cat.Encryption → Type 0
  pub encrypts :
      (msg room : Bytes) (a b : cat.Encryption)
      → Linked a b
      → length room ≡ overhead_bytes
      → ((cat.encrypt (msg ++ room) (length msg + overhead_bytes) (length msg) a).0.0 ≡ true)
        × (length (cat.encrypt (msg ++ room) (length msg + overhead_bytes) (length msg) a).0.1
            ≡ length msg + overhead_bytes)
        × ((cat.encrypt (msg ++ room) (length msg + overhead_bytes) (length msg) a).0.2
            ≡ length msg + overhead_bytes)
  pub decrypts :
      (msg room sealed : Bytes) (a b : cat.Encryption)
      → Linked a b
      → length room ≡ overhead_bytes
      → (cat.encrypt (msg ++ room) (length msg + overhead_bytes) (length msg) a).0.1 ≡ sealed
      → ((cat.decrypt sealed (length msg + overhead_bytes) b).0.0 ≡ true)
        × ((cat.decrypt sealed (length msg + overhead_bytes) b).0.2 ≡ length msg)
        × (take (length msg) (cat.decrypt sealed (length msg + overhead_bytes) b).0.1 ≡ msg)
        × (length (cat.decrypt sealed (length msg + overhead_bytes) b).0.1
            ≡ length msg + overhead_bytes)
        × Linked
            (cat.encrypt (msg ++ room) (length msg + overhead_bytes) (length msg) a).1
            (cat.decrypt sealed (length msg + overhead_bytes) b).1

-- A message whose buffer has a size in 32 bits.
abbrev pub Fits : Bytes → Type 0
Fits msg = length msg + overhead_bytes < 2 ^ 32

resize_all : (v : Bytes) → resize (length v) v ≡ v
resize_all v =
    let none_left : length v - length v ≡ 0 = omega arith in
    rw (take_all v, none_left) (append-nil v)

-- The first bytes of a longer buffer.
resize_front : (n : ℕ) (v : Bytes) → n ≤ length v → resize n v ≡ take n v
resize_front n v h =
    let none_left : n - length v ≡ 0 = omega arith in rw none_left (append-nil (take n v))

abbrev pub room : Bytes
room = replicate overhead_bytes 0

module _ (cat : Cat) where
  open cat use {Encryption}

  -- What the library does with a message.
  abbrev sealed : Bytes → Encryption → (Bool × Bytes × ℕ) × Encryption
  sealed msg a = cat.encrypt (msg ++ room) (length msg + overhead_bytes) (length msg) a

  encrypt_calls :
      (msg : Bytes) (a : Encryption)
      → Fits msg
      → encrypt cat msg a ≡ (
        if (sealed msg a).0.0 then some (resize (sealed msg a).0.2 (sealed msg a).0.1) else none,
        (sealed msg a).1,
      )
  unfolding encrypt authenticated_encryption_encrypt
  encrypt_calls msg a fits =
      let buffer_bytes : length (msg ++ room) % 2 ^ 32 ≡ length msg + overhead_bytes =
        omega (arith, length-append msg room) in
      let msg_bytes : length msg % 2 ^ 32 ≡ length msg = omega arith in rw (buffer_bytes, msg_bytes)

  decrypt_calls :
      (msg : Bytes) (n : ℕ) (b : Encryption)
      → length msg ≡ n
      → n < 2 ^ 32
      → decrypt cat msg b ≡ (
        if (cat.decrypt msg n b).0.0
            then some (resize (cat.decrypt msg n b).0.2 (cat.decrypt msg n b).0.1)
            else none,
        (cat.decrypt msg n b).1,
      )
  unfolding decrypt authenticated_encryption_decrypt
  decrypt_calls msg n b e h = let buf_bytes : length msg % 2 ^ 32 ≡ n = omega arith in rw buf_bytes

  -- Messages that the first end encrypts, each decrypted by the second end.
  pub relay : List Bytes → Encryption → Encryption → List (Option Bytes)
  relay [] a b = []
  relay (m ∷ ms) a b =
      let a' = (encrypt cat m a).1 in
      let given = relay ms a' b in
      elim (encrypt cat m a).0 [
        | none ↦ none ∷ given
        | some ct ↦ (decrypt cat ct b).0 ∷ relay ms a' (decrypt cat ct b).1
      ]

module _ (cat : Cat) (channel : Channel cat) where
  open cat use {Encryption}
  open channel use {Linked}

  encrypt-Linked :
      (msg : Bytes) (a b : Encryption)
      → Linked a b
      → Fits msg
      → (encrypt cat msg a ≡ (some (sealed cat msg a).0.1, (sealed cat msg a).1))
        × (length (sealed cat msg a).0.1 ≡ length msg + overhead_bytes)
  encrypt-Linked msg a b l fits =
      let (works, size, bytes) = channel.encrypts msg room a b l refl in
      let whole : (sealed cat msg a).0.2 ≡ length (sealed cat msg a).0.1 =
        omega (arith, size, bytes) in
      (encrypt_calls cat msg a fits ∙ rw (works, whole, resize_all (sealed cat msg a).0.1), size)

  decrypt-Linked :
      (msg : Bytes) (a b : Encryption)
      → Linked a b
      → Fits msg
      → (b' : Encryption) × (decrypt cat (sealed cat msg a).0.1 b ≡ (some msg, b'))
        × Linked (sealed cat msg a).1 b'
  decrypt-Linked msg a b l fits =
      let (_, size, _) = channel.encrypts msg room a b l refl in
      let v = (sealed cat msg a).0.1 in
      let n : ℕ = length msg + overhead_bytes in
      let (works, bytes, front, same, linked) = channel.decrypts msg room v a b l refl refl in
      (
        (cat.decrypt v n b).1,
        decrypt_calls cat v n b size fits
            ∙ rw (
              works,
              bytes,
              resize_front (length msg) (cat.decrypt v n b).0.1 (omega (arith, same)),
              front,
            ),
        linked,
      )

  -- Between two linked ends, messages that are each short enough for a buffer size of 32 bits are
  -- encrypted and decrypted without an error, and arrive in full and in their order.
  pub relay_lem :
      (ms : List Bytes) (a b : Encryption)
      → Linked a b
      → All Fits ms
      → relay cat ms a b ≡ map some ms
  unfolding relay
  relay_lem [] a b l fits = refl
  relay_lem (m ∷ ms) a b l (fits, rest) =
      let (sealing, _) = encrypt-Linked m a b l fits in
      let (b', opening, linked) = decrypt-Linked m a b l fits in
      ground (arith, sealing, opening, relay_lem ms (sealed cat m a).1 b' linked rest)
