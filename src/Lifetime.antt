-- ===== src/Lifetime.antt =====
-- The C++ objects behind the values of src/rakpeer.rs and src/libcat.rs: each value owns an object, which
-- its constructor makes and its `Drop` deletes; and the bit streams of raknet-c/bitstream.cpp. What the objects hold is left to the other modules.
pub mod Exact
pub mod Program
use raknet_sys.Prelude.{ℕ, suc, ◌+◌, Bool, true, false, List, [], ◌∷◌, ◌++◌, ◌==◌, if◌then◌else◌}
use raknet_sys.Prelude.Outcome.{Outcome, ok, undefined, dangling_pointer}
use raknet_sys.Prelude.State.{M, pure, ◌>>=◌, ◌>>◌}

-- The addresses of the objects that exist; those from `next` on were never given.
pub record Objects : Type 0 where
  pub next : ℕ
  pub live : ℕ → Bool

-- A `new` expression.
unfoldable pub make_object : M Objects ℕ
make_object m =
    ok (m.next, record { next = suc m.next; live = λ h. if h == m.next then true else m.live h })

-- A call on the object at an address.
unfoldable pub call_on : ℕ → M Objects (Unit {0})
call_on h m = if m.live h then ok (tt, m) else undefined dangling_pointer

-- `delete self`
unfoldable pub delete_object : ℕ → M Objects (Unit {0})
delete_object h m =
    if m.live h
    then ok (tt, record m { live = λ k. if k == h then false else m.live k })
    else undefined dangling_pointer

unfoldable pub rak_peer_drop : ℕ → M Objects (Unit {0})
unfolding delete_object
rak_peer_drop self = delete_object self

unfoldable pub cookie_jar_drop : ℕ → M Objects (Unit {0})
unfolding delete_object
cookie_jar_drop self = delete_object self

unfoldable pub authenticated_encryption_drop : ℕ → M Objects (Unit {0})
unfolding delete_object
authenticated_encryption_drop self = delete_object self

unfoldable pub client_easy_handshake_drop : ℕ → M Objects (Unit {0})
unfolding delete_object
client_easy_handshake_drop self = delete_object self

unfoldable pub server_easy_handshake_drop : ℕ → M Objects (Unit {0})
unfolding delete_object
server_easy_handshake_drop self = delete_object self

unfoldable pub bit_stream_drop : ℕ → M Objects (Unit {0})
unfolding delete_object
bit_stream_drop self = delete_object self

-- A value with the addresses that it holds; of a server handshake the object, then the jar. A bit
-- stream has no type in Rust: its owner is a caller of the C functions that drops it once.
pub data Owned : Type 0 where
  rak_peer authenticated_encryption client_easy_handshake bit_stream cookie_jar_value : ℕ → Owned
  server_easy_handshake : ℕ → ℕ → Owned

unfoldable pub new_rak_peer : M Objects Owned
new_rak_peer = do inner ← make_object; pure (rak_peer inner)

unfoldable pub new_cookie_jar : M Objects Owned
new_cookie_jar = do inner ← make_object; pure (cookie_jar_value inner)

unfoldable pub new_authenticated_encryption : M Objects Owned
new_authenticated_encryption = do inner ← make_object; pure (authenticated_encryption inner)

unfoldable pub new_client : M Objects Owned
new_client = do inner ← make_object; pure (client_easy_handshake inner)

unfoldable pub new_bit_stream : M Objects Owned
new_bit_stream = do inner ← make_object; pure (bit_stream inner)

-- The jar is made after the object, and filled by a call on both.
unfoldable pub new_server : M Objects Owned
new_server = do
  inner ← make_object
  cookie_jar ← make_object
  call_on inner
  call_on cookie_jar
  pure (server_easy_handshake inner cookie_jar)

-- `ProcessAnswer` and `ProcessChallenge` on the handshake at an address: a new encryption, which is
-- returned if the library accepts, and dropped if it refuses.
unfoldable pub new_encryption : ℕ → Bool → M Objects (List Owned)
new_encryption handshake accepted = do
  inner ← make_object
  call_on handshake
  call_on inner
  if accepted
      then pure (authenticated_encryption inner ∷ [])
      else (do authenticated_encryption_drop inner; pure [])

-- A value that goes out of scope: its `Drop`, then its fields in their order.
unfoldable pub drop : Owned → M Objects (Unit {0})
drop (rak_peer inner) = rak_peer_drop inner
drop (authenticated_encryption inner) = authenticated_encryption_drop inner
drop (client_easy_handshake inner) = client_easy_handshake_drop inner
drop (bit_stream inner) = bit_stream_drop inner
drop (cookie_jar_value inner) = cookie_jar_drop inner
drop (server_easy_handshake inner cookie_jar) = do
  server_easy_handshake_drop inner
  cookie_jar_drop cookie_jar
