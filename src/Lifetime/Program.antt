-- ===== src/Lifetime/Program.antt =====
-- Programs that own values of src/rakpeer.rs and src/libcat.rs: no object is used or deleted after its end,
-- and none is left over.
use raknet_sys.Prelude.{
  ℕ, ◌<◌, ◌≡◌, refl, Bool, true, false, List, [], ◌∷◌, ◌++◌, arith, if◌then◌else◌,
}
use raknet_sys.Prelude.Outcome.{Outcome, ok, map_ok, ◌>>=◌}
use raknet_sys.Lifetime.{
  Objects, call_on, rak_peer_drop, cookie_jar_drop, authenticated_encryption_drop,
  client_easy_handshake_drop, server_easy_handshake_drop, bit_stream_drop, new_bit_stream,
  bit_stream, cookie_jar_value, new_cookie_jar, new_authenticated_encryption, Owned, rak_peer,
  authenticated_encryption, client_easy_handshake, server_easy_handshake, new_rak_peer, new_client,
  new_server, new_encryption, drop,
}
use raknet_sys.Lifetime.Exact.{
  addresses_of, addresses, count, Exact, count-append, make_object-Exact, delete_object-Exact,
  call_on-Exact, Exact-same,
}

-- What a program does: make a value, call a method on the first of its values, let the first answer a
-- handshake (which the library accepts or not), let the first go out of scope, or go on to the next.
pub data Action : Type 0 where
  create_peer create_client create_server create_stream create_jar create_encryption : Action
  use_first drop_first next_value : Action
  answer : Bool → Action

-- The object that methods of a value are called on.
abbrev object_of : Owned → ℕ
object_of (rak_peer h) = h
object_of (authenticated_encryption h) = h
object_of (client_easy_handshake h) = h
object_of (bit_stream h) = h
object_of (cookie_jar_value h) = h
object_of (server_easy_handshake h jar) = h

abbrev pub Owning : Type 0
Owning = List Owned × Objects

abbrev with_new : List Owned → Owned × Objects → Owning
with_new vs (v, m) = (v ∷ vs, m)

abbrev with_all : List Owned → List Owned × Objects → Owning
with_all vs (ws, m) = (ws ++ vs, m)

abbrev keeping : List Owned → Unit {0} × Objects → Owning
keeping vs (_, m) = (vs, m)

-- One action; with no value the last four do nothing.
pub act : Action → Owning → Outcome Owning
act create_peer (vs, m) = map_ok (with_new vs) (new_rak_peer m)
act create_client (vs, m) = map_ok (with_new vs) (new_client m)
act create_server (vs, m) = map_ok (with_new vs) (new_server m)
act create_stream (vs, m) = map_ok (with_new vs) (new_bit_stream m)
act create_jar (vs, m) = map_ok (with_new vs) (new_cookie_jar m)
act create_encryption (vs, m) = map_ok (with_new vs) (new_authenticated_encryption m)
act use_first ([], m) = ok ([], m)
act use_first (v ∷ vs, m) = map_ok (keeping (v ∷ vs)) (call_on (object_of v) m)
act drop_first ([], m) = ok ([], m)
act drop_first (v ∷ vs, m) = map_ok (keeping vs) (drop v m)
act next_value ([], m) = ok ([], m)
act next_value (v ∷ vs, m) = ok (vs ++ v ∷ [], m)
act (answer accepted) ([], m) = ok ([], m)
act (answer accepted) (v ∷ vs, m) =
    map_ok (with_all (v ∷ vs)) (new_encryption (object_of v) accepted m)

-- An outcome that returns values whose addresses are exact.
abbrev Returns : Outcome Owning → Type 0
Returns r = (vs : List Owned) × (m : Objects) × (r ≡ ok (vs, m)) × Exact (addresses vs) m

create_server-Returns :
    (vs : List Owned) (m : Objects)
    → Exact (addresses vs) m
    → Returns (map_ok (with_new vs) (new_server m))
unfolding new_server
create_server-Returns vs m e =
    let (n, made, e1) = make_object-Exact (addresses vs) m e in
    let (o, made_jar, e2) = make_object-Exact (m.next ∷ addresses vs) n e1 in
    let hs = m.next ∷ n.next ∷ addresses vs in
    let e3 = Exact-same (n.next ∷ m.next ∷ addresses vs) hs o (λ h. omega arith) e2 in
    let first = call_on-Exact m.next hs o e3 (ground arith) in
    let second = call_on-Exact n.next hs o e3 (ground arith) in
    (server_easy_handshake m.next n.next ∷ vs, o, rw (made, made_jar, first, second), e3)

answer-Returns :
    (accepted : Bool) (h : ℕ) (vs : List Owned) (m : Objects)
    → Exact (addresses vs) m
    → 0 < count h (addresses vs)
    → Returns (map_ok (with_all vs) (new_encryption h accepted m))
unfolding new_encryption authenticated_encryption_drop
answer-Returns accepted h vs m e owned =
    let (n, made, e1) = make_object-Exact (addresses vs) m e in
    let hs = m.next ∷ addresses vs in
    let first = call_on-Exact h hs n e1 (ground arith) in
    let second = call_on-Exact m.next hs n e1 (ground arith) in
    let (o, deleted, e2) = delete_object-Exact m.next (addresses vs) n e1 in
    elim accepted as (λ u. Returns (map_ok (with_all vs) (new_encryption h u m))) [
      | true ↦ (authenticated_encryption m.next ∷ vs, n, rw (made, first, second), e1)
      | false ↦ (vs, o, rw (made, first, second, deleted), e2)
    ]

drop-Returns :
    (v : Owned) (vs : List Owned) (m : Objects)
    → Exact (addresses (v ∷ vs)) m
    → Returns (map_ok (keeping vs) (drop v m))
unfolding drop rak_peer_drop cookie_jar_drop authenticated_encryption_drop
    client_easy_handshake_drop server_easy_handshake_drop bit_stream_drop
drop-Returns (rak_peer h) vs m e =
    let (n, deleted, e1) = delete_object-Exact h (addresses vs) m e in (vs, n, rw deleted, e1)
drop-Returns (authenticated_encryption h) vs m e =
    let (n, deleted, e1) = delete_object-Exact h (addresses vs) m e in (vs, n, rw deleted, e1)
drop-Returns (client_easy_handshake h) vs m e =
    let (n, deleted, e1) = delete_object-Exact h (addresses vs) m e in (vs, n, rw deleted, e1)
drop-Returns (bit_stream h) vs m e =
    let (n, deleted, e1) = delete_object-Exact h (addresses vs) m e in (vs, n, rw deleted, e1)
drop-Returns (cookie_jar_value h) vs m e =
    let (n, deleted, e1) = delete_object-Exact h (addresses vs) m e in (vs, n, rw deleted, e1)
drop-Returns (server_easy_handshake h jar) vs m e =
    let (n, deleted, e1) = delete_object-Exact h (jar ∷ addresses vs) m e in
    let (o, deleted_jar, e2) = delete_object-Exact jar (addresses vs) n e1 in
    (vs, o, rw (deleted, deleted_jar), e2)

object_of-count : (v : Owned) (vs : List Owned) → 0 < count (object_of v) (addresses (v ∷ vs))
object_of-count (rak_peer h) vs = ground arith
object_of-count (authenticated_encryption h) vs = ground arith
object_of-count (client_easy_handshake h) vs = ground arith
object_of-count (bit_stream h) vs = ground arith
object_of-count (cookie_jar_value h) vs = ground arith
object_of-count (server_easy_handshake h jar) vs = ground arith

-- Adding a value at the other end.
count-addresses-append :
    (h : ℕ) (vs : List Owned) (v : Owned)
    → count h (addresses (vs ++ v ∷ [])) ≡ count h (addresses (v ∷ vs))
count-addresses-append h [] v = refl
count-addresses-append h (w ∷ vs) v = omega (
  arith,
  count-append h (addresses_of w) (addresses (vs ++ v ∷ [])),
  count-addresses-append h vs v,
  count-append h (addresses_of v) (addresses vs),
  count-append h (addresses_of v) (addresses_of w ++ addresses vs),
  count-append h (addresses_of w) (addresses vs),
)

act-Returns :
    (a : Action) (vs : List Owned) (m : Objects) → Exact (addresses vs) m → Returns (act a (vs, m))
unfolding act new_rak_peer new_client new_bit_stream new_cookie_jar new_authenticated_encryption
act-Returns create_peer vs m e =
    let (n, made, e1) = make_object-Exact (addresses vs) m e in
    (rak_peer m.next ∷ vs, n, rw made, e1)
act-Returns create_client vs m e =
    let (n, made, e1) = make_object-Exact (addresses vs) m e in
    (client_easy_handshake m.next ∷ vs, n, rw made, e1)
act-Returns create_stream vs m e =
    let (n, made, e1) = make_object-Exact (addresses vs) m e in
    (bit_stream m.next ∷ vs, n, rw made, e1)
act-Returns create_jar vs m e =
    let (n, made, e1) = make_object-Exact (addresses vs) m e in
    (cookie_jar_value m.next ∷ vs, n, rw made, e1)
act-Returns create_encryption vs m e =
    let (n, made, e1) = make_object-Exact (addresses vs) m e in
    (authenticated_encryption m.next ∷ vs, n, rw made, e1)
act-Returns create_server vs m e = create_server-Returns vs m e
act-Returns use_first [] m e = ([], m, refl, e)
act-Returns use_first (v ∷ vs) m e =
    let called = call_on-Exact (object_of v) (addresses (v ∷ vs)) m e (object_of-count v vs) in
    (v ∷ vs, m, rw called, e)
act-Returns drop_first [] m e = ([], m, refl, e)
act-Returns drop_first (v ∷ vs) m e = drop-Returns v vs m e
act-Returns next_value [] m e = ([], m, refl, e)
act-Returns next_value (v ∷ vs) m e = (
  vs ++ v ∷ [],
  m,
  refl,
  Exact-same (addresses (v ∷ vs)) (addresses (vs ++ v ∷ [])) m (λ h. count-addresses-append h vs v)
      e,
)
act-Returns (answer accepted) [] m e = ([], m, refl, e)
act-Returns (answer accepted) (v ∷ vs) m e =
    answer-Returns accepted (object_of v) (v ∷ vs) m e (object_of-count v vs)

pub run : List Action → Owning → Outcome Owning
run [] o = ok o
run (a ∷ actions) o = act a o >>= run actions

run-Returns :
    (actions : List Action) (vs : List Owned) (m : Objects)
    → Exact (addresses vs) m
    → Returns (run actions (vs, m))
unfolding run
run-Returns [] vs m e = (vs, m, refl, e)
run-Returns (a ∷ actions) vs m e =
    let (ws, n, did, e1) = act-Returns a vs m e in
    let (us, o, ran, e2) = run-Returns actions ws n e1 in (us, o, rw (did, ran), e2)

abbrev pub no_objects : Objects
no_objects = record { next = 0; live = λ h. false }

-- A program that owns its values, makes them, calls methods on them, answers handshakes with any
-- result and drops values in any order never has undefined behaviour: no object is used or
-- deleted after its end. Whatever it has done, the objects that exist are those that the values
-- own, each owned once, so none is left when all values are dropped.
pub run_lem :
    (actions : List Action)
    → (vs : List Owned) × (m : Objects) × (run actions ([], no_objects) ≡ ok (vs, m))
      × ((h : ℕ) → count h (addresses vs) ≡ (if m.live h then 1 else 0))
run_lem actions =
    let start : Exact [] no_objects = record { owned = λ h. refl; fresh = λ h above. refl } in
    let (vs, m, ran, e) = run-Returns actions [] no_objects start in (vs, m, ran, e.owned)
