-- ===== src/Tests/Ciphers.antt =====
-- The handshake and the channel of src/libcat.rs with a library that numbers messages and encrypts
-- nothing.
use raknet_sys.Prelude.{
  ℕ, suc, ◌+◌, ◌-◌, ◌≡◌, refl, ap, ◌∙◌, sym, true, some, List, [], ◌∷◌, map, Bytes, length,
  take-append, length-append, leb, arith,
}
use raknet_sys.Crypto.Interface.{Cat}
use raknet_sys.Crypto.Shim.{
  cookie_jar_new, authenticated_encryption_new, client_easy_handshake_new,
  client_easy_handshake_initialize, client_easy_handshake_generate_challenge,
  client_easy_handshake_process_answer, server_easy_handshake_new,
  server_easy_handshake_generate_server_key, server_easy_handshake_fill_cookie_jar,
  server_easy_handshake_initialize, server_easy_handshake_process_challenge,
}
use raknet_sys.Crypto.Encryption.Channel.{Channel, relay, relay_lem}
use raknet_sys.Crypto.Handshake.Client
use raknet_sys.Crypto.Handshake.Server
use raknet_sys.Crypto.Handshake.Agreement.{Agreement, set_up, exchange, session, session_lem}

abbrev numbering : Cat
numbering = record {
  Jar = Unit;
  Encryption = ℕ;
  Client = Bytes;
  Server = Bytes;
  new_jar = tt;
  new_encryption = 0;
  new_client = [];
  new_server = [];
  generate_proof = λ v n a. ((true, v), a);
  validate_proof = λ v n a. (true, a);
  decrypt = λ v n b. ((true, v, n - 11), suc b);
  encrypt = λ v size n a. ((leb (n + 11) size, v, n + 11), suc a);
  client_generate_server_key = λ pk sk c. ((true, pk, sk), c);
  client_initialize = λ pk c. (true, pk);
  client_set_identity = λ pk sk c. (true, c);
  client_generate_challenge = λ room c. ((true, room), c);
  client_process_answer = λ answer c a. (true, c, 1);
  client_process_answer_with_identity = λ answer identity c a. ((true, identity), c, 1);
  server_generate_server_key = λ pk sk s. ((true, pk, sk), s);
  server_fill_cookie_jar = λ s jar. (s, jar);
  server_initialize = λ pk sk s. (true, pk);
  server_process_challenge = λ challenge room s b. ((true, room), s, 1);
  server_verify_initiator_identity = λ answer proof pk s. ((true, pk), s);
}

pub leb_same : (n : ℕ) → leb n n ≡ true
leb_same n = ground arith

-- The two ends are linked if they have the same number.
abbrev numbered : Channel numbering
numbered = record {
  Linked = λ a b. a ≡ b;
  encrypts = λ msg room a b same size.
      (leb_same (length msg + 11), omega (arith, length-append msg room), refl);
  decrypts = λ msg room sealed a b same size e. (
    refl,
    omega arith,
    rw (sym e) (take-append msg room),
    rw (sym e) (omega (arith, length-append msg room)),
    ap suc same,
  );
}

abbrev numbered_agreement : Agreement numbering numbered
numbered_agreement = record {
  KeyPair = λ pk sk. Unit;
  Paired = λ c s. c ≡ s;
  makes_keys = λ pk sk s lp ls ok. tt;
  pairs = λ pk sk c s pair greeted ready. refl;
  agrees =
      λ room answer_room challenge answer c c' s s' a a' b b' c'' paired lr la asked replied
          finished.
        let from_client : 1 ≡ a' = ap (λ x. x.2) finished in
        let from_server : 1 ≡ b' = ap (λ x. x.2) replied in
        (sym from_client ∙ from_server, sym from_server ∙ from_client);
}

abbrev messages : List Bytes
messages = (134 ∷ 1 ∷ []) ∷ [] ∷ (135 ∷ []) ∷ []

relay_lem_example : relay numbering messages 4 4 ≡ map some messages
relay_lem_example = relay_lem numbering numbered messages 4 4 refl (ground arith)

handshake_runs : session numbering (Server.new numbering) (Client.new numbering) ≡ some (1, 1)
unfolding session set_up exchange Server.new Client.new Server.generate_server_key Server.initialize
    Server.process_challenge Client.initialize Client.generate_challenge Client.process_answer
    cookie_jar_new authenticated_encryption_new client_easy_handshake_new
    client_easy_handshake_initialize client_easy_handshake_generate_challenge
    client_easy_handshake_process_answer server_easy_handshake_new
    server_easy_handshake_generate_server_key server_easy_handshake_fill_cookie_jar
    server_easy_handshake_initialize server_easy_handshake_process_challenge
handshake_runs = refl

session_lem_example :
    (relay numbering messages 1 1 ≡ map some messages)
    × (relay numbering messages 1 1 ≡ map some messages)
session_lem_example =
    session_lem numbering numbered numbered_agreement (Server.new numbering) (Client.new numbering)
      1 1 messages handshake_runs (ground arith)
