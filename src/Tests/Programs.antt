-- ===== src/Tests/Programs.antt =====
-- A server handshake that answers twice, once with success, and is dropped before its channel.
use raknet_sys.Prelude.{ℕ, ◌≡◌, true, false, [], ◌∷◌, if◌then◌else◌, List}
use raknet_sys.Prelude.Outcome.{ok}
use raknet_sys.Lifetime.{Objects, Owned}
use raknet_sys.Lifetime.Exact.{addresses, count}
use raknet_sys.Lifetime.Program.{
  Action, create_server, answer, use_first, next_value, drop_first, run, no_objects, run_lem,
}

abbrev answers_twice : List Action
answers_twice =
    create_server ∷ answer false ∷ answer true ∷ use_first ∷ next_value ∷ drop_first ∷ []

run_lem_example :
    (vs : List Owned) × (m : Objects) × (run answers_twice ([], no_objects) ≡ ok (vs, m))
    × ((h : ℕ) → count h (addresses vs) ≡ (if m.live h then 1 else 0))
run_lem_example = run_lem answers_twice
