-- ===== src/Crypto/Handshake/Agreement.antt =====
-- A whole handshake of src/libcat.rs, and the channel that it opens.
use raknet_sys.Prelude.{
  ◌≡◌, refl, ap, sym, true, ◌&&◌, Option, none, some, List, map, Bytes, All, length, replicate,
  arith, if◌then◌else◌,
}
use raknet_sys.Native.Constants.{public_key_bytes, private_key_bytes, challenge_bytes, answer_bytes}
use raknet_sys.Crypto.Interface.{Cat}
use raknet_sys.Crypto.Shim.{
  authenticated_encryption_new, client_easy_handshake_initialize,
  client_easy_handshake_generate_challenge, client_easy_handshake_process_answer,
  server_easy_handshake_generate_server_key, server_easy_handshake_initialize,
  server_easy_handshake_process_challenge,
}
use raknet_sys.Crypto.Encryption.Channel.{Channel, Fits, relay, relay_lem}
use raknet_sys.Crypto.Handshake.Client
use raknet_sys.Crypto.Handshake.Server
use raknet_sys.Crypto.Handshake.Server.{ServerEasyHandshake}

-- What src/libcat.rs relies on of the handshake classes: keys that were made together, a client and a
-- server that were set up with them, and ends of a channel that come from their challenge and answer,
-- if the arrays have the sizes that raknet-c/raknet_types.h defines.
pub record Agreement (cat : Cat) (channel : Channel cat) : Type 1 where
  pub KeyPair : Bytes → Bytes → Type 0
  pub Paired : cat.Client → cat.Server → Type 0
  pub makes_keys :
      (public_key private_key : Bytes) (s : cat.Server)
      → length public_key ≡ public_key_bytes
      → length private_key ≡ private_key_bytes
      → (cat.server_generate_server_key public_key private_key s).0.0 ≡ true
      → KeyPair
          (cat.server_generate_server_key public_key private_key s).0.1
          (cat.server_generate_server_key public_key private_key s).0.2
  pub pairs :
      (public_key private_key : Bytes) (c : cat.Client) (s : cat.Server)
      → KeyPair public_key private_key
      → (cat.client_initialize public_key c).0 ≡ true
      → (cat.server_initialize public_key private_key s).0 ≡ true
      → Paired
          (cat.client_initialize public_key c).1
          (cat.server_initialize public_key private_key s).1
  pub agrees :
      (room answer_room challenge answer : Bytes) (c c' : cat.Client) (s s' : cat.Server)
      (a a' b b' : cat.Encryption) (c'' : cat.Client)
      → Paired c s
      → length room ≡ challenge_bytes
      → length answer_room ≡ answer_bytes
      → cat.client_generate_challenge room c ≡ ((true, challenge), c')
      → cat.server_process_challenge challenge answer_room s b ≡ ((true, answer), s', b')
      → cat.client_process_answer answer c' a ≡ (true, c'', a')
      → channel.Linked a' b' × channel.Linked b' a'

infixl 5 ◌and_then◌
abbrev pub ◌and_then◌ : {A B : Type 0} → Option A → (A → Option B) → Option B
none and_then f = none
some a and_then f = f a

and_then-eq-some :
    {A B : Type 0} (o : Option A) (f : A → Option B) {b : B}
    → (o and_then f) ≡ some b
    → (x : A) × (o ≡ some x) × (f x ≡ some b)
and_then-eq-some none f h = cc
and_then-eq-some (some x) f h = (x, refl, h)

module _ (cat : Cat) where
  open cat use {Encryption}

  -- The server makes its keys and is set up with them, and the client gets the public one.
  unfoldable pub set_up :
      ServerEasyHandshake cat → cat.Client → Option (cat.Client × ServerEasyHandshake cat)
  set_up server client = (Server.generate_server_key cat server).0 and_then λ keys.
      let made = (Server.generate_server_key cat server).1 in
      let ready = Server.initialize cat keys.0 keys.1 made in
      let greeted = Client.initialize cat keys.0 client in
      if ready.0 && greeted.0 then some (greeted.1, ready.1) else none

  -- Challenge and answer: the encryption of the client and the one of the server.
  unfoldable pub exchange : cat.Client × ServerEasyHandshake cat → Option (Encryption × Encryption)
  exchange (client, server) = (Client.generate_challenge cat client).0 and_then λ challenge.
      (Server.process_challenge cat challenge server).0 and_then λ answered.
      (Client.process_answer cat answered.1 (Client.generate_challenge cat client).1).0
      and_then λ encryption. some (encryption, answered.0)

  -- A handshake, if no step fails.
  unfoldable pub session : ServerEasyHandshake cat → cat.Client → Option (Encryption × Encryption)
  session server client = set_up server client and_then exchange

module _ (cat : Cat) where
  open cat use {Encryption}

  keys_made :
      (self : ServerEasyHandshake cat) (keys : Bytes × Bytes)
      → (Server.generate_server_key cat self).0 ≡ some keys
      → (public_room : Bytes) × (private_room : Bytes) × (length public_room ≡ public_key_bytes)
        × (length private_room ≡ private_key_bytes)
        × ((cat.server_generate_server_key public_room private_room self.inner).0
            ≡ (true, keys.0, keys.1))
  unfolding Server.generate_server_key server_easy_handshake_generate_server_key
  keys_made self keys h =
      (replicate public_key_bytes 0, replicate private_key_bytes 0, refl, refl, ground (arith, h))

  challenge_made :
      (self : cat.Client) (challenge : Bytes)
      → (Client.generate_challenge cat self).0 ≡ some challenge
      → (room : Bytes) × (length room ≡ challenge_bytes)
        × (cat.client_generate_challenge room self
            ≡ ((true, challenge), (Client.generate_challenge cat self).1))
  unfolding Client.generate_challenge client_easy_handshake_generate_challenge
  challenge_made self challenge h = (replicate challenge_bytes 0, refl, ground (arith, h))

  answer_made :
      (challenge answer : Bytes) (self : ServerEasyHandshake cat) (b : Encryption)
      → (Server.process_challenge cat challenge self).0 ≡ some (b, answer)
      → (room : Bytes) × (inner : cat.Server) × (length room ≡ answer_bytes)
        × (cat.server_process_challenge challenge room self.inner (authenticated_encryption_new cat)
            ≡ ((true, answer), inner, b))
  unfolding Server.process_challenge server_easy_handshake_process_challenge
  answer_made challenge answer self b h = (
    replicate answer_bytes 0,
    (cat.server_process_challenge challenge (replicate answer_bytes 0) self.inner
        (authenticated_encryption_new cat)).1,
    refl,
    ground (arith, h),
  )

  answer_taken :
      (answer : Bytes) (self : cat.Client) (a : Encryption)
      → (Client.process_answer cat answer self).0 ≡ some a
      → (client : cat.Client) × (cat.client_process_answer answer self
            (authenticated_encryption_new cat)
          ≡ (true, client, a))
  unfolding Client.process_answer client_easy_handshake_process_answer
  answer_taken answer self a h = (
    (cat.client_process_answer answer self (authenticated_encryption_new cat)).1,
    ground (arith, h),
  )

module _ (cat : Cat) (channel : Channel cat) (agreement : Agreement cat channel) where
  open cat use {Encryption}
  open agreement use {Paired}

  generate-KeyPair :
      (server : ServerEasyHandshake cat) (public_key private_key : Bytes)
      → (Server.generate_server_key cat server).0 ≡ some (public_key, private_key)
      → agreement.KeyPair public_key private_key
  generate-KeyPair server pk sk h =
      let (public_room, private_room, lp, ls, made) = keys_made cat server (pk, sk) h in
      let pair =
        agreement.makes_keys public_room private_room server.inner lp ls (ap (λ x. x.0) made) in
      rw (sym (ap (λ x. x.1) made), sym (ap (λ x. x.2) made)) pair

  initialize-Paired :
      (public_key private_key : Bytes) (client : cat.Client) (made : ServerEasyHandshake cat)
      → agreement.KeyPair public_key private_key
      → (Server.initialize cat public_key private_key made).0 ≡ true
      → (Client.initialize cat public_key client).0 ≡ true
      → Paired
          (Client.initialize cat public_key client).1
          (Server.initialize cat public_key private_key made).1.inner
  unfolding Server.initialize Client.initialize server_easy_handshake_initialize
      client_easy_handshake_initialize
  initialize-Paired pk sk client made pair ready greeted =
      agreement.pairs pk sk client made.inner pair greeted ready

  set_up-Paired :
      (server : ServerEasyHandshake cat) (client c : cat.Client) (s : ServerEasyHandshake cat)
      → set_up cat server client ≡ some (c, s)
      → Paired c s.inner
  unfolding set_up
  set_up-Paired server client c s h =
      let ((pk, sk), e, rest) = and_then-eq-some (Server.generate_server_key cat server).0 _ h in
      let made = (Server.generate_server_key cat server).1 in
      let paired = initialize-Paired pk sk client made (generate-KeyPair server pk sk e) in
      ground (arith, rest, paired)

  exchange-Linked :
      (client : cat.Client) (server : ServerEasyHandshake cat) (a b : Encryption)
      → Paired client server.inner
      → exchange cat (client, server) ≡ some (a, b)
      → channel.Linked a b × channel.Linked b a
  unfolding exchange
  exchange-Linked client server a b paired h =
      let (challenge, e2, h2) = and_then-eq-some (Client.generate_challenge cat client).0 _ h in
      let (answered, e3, h3) =
        and_then-eq-some (Server.process_challenge cat challenge server).0 _ h2 in
      let (encryption, e4, h4) =
        and_then-eq-some
          (Client.process_answer cat answered.1 (Client.generate_challenge cat client).1).0 _ h3 in
      let (room, lr, asked) = challenge_made cat client challenge e2 in
      let (answer_room, inner, la, replied) =
        answer_made cat challenge answered.1 server answered.0 e3 in
      let (client', finished) =
        answer_taken cat answered.1 (Client.generate_challenge cat client).1 encryption e4 in
      let linked =
        agreement.agrees room answer_room challenge answered.1 client
          (Client.generate_challenge cat client).1 server.inner inner
          (authenticated_encryption_new cat) encryption (authenticated_encryption_new cat)
          answered.0 client' paired lr la asked replied finished in
      let client_end : encryption ≡ a = ground (arith, h4) in
      let server_end : answered.0 ≡ b = ground (arith, h4) in
      (
        rw (sym client_end, sym server_end) (linked.0),
        rw (sym client_end, sym server_end) (linked.1),
      )

  -- After a handshake in which no step failed, messages pass in both directions: what either side
  -- encrypts, the other decrypts, each message in full and all in their order, if each is short enough
  -- for a buffer size of 32 bits.
  pub session_lem :
      (server : ServerEasyHandshake cat) (client : cat.Client) (a b : Encryption) (ms : List Bytes)
      → session cat server client ≡ some (a, b)
      → All Fits ms
      → (relay cat ms a b ≡ map some ms) × (relay cat ms b a ≡ map some ms)
  unfolding session
  session_lem server client a b ms h fits =
      let ((c, s), e, rest) = and_then-eq-some (set_up cat server client) _ h in
      let (to_server, to_client) =
        exchange-Linked c s a b (set_up-Paired server client c s e) rest in
      (relay_lem cat channel ms a b to_server fits, relay_lem cat channel ms b a to_client fits)
