-- ===== src/Lifetime/Exact.antt =====
-- When values own exactly the objects that exist: the making, the use and the deletion of one object.
use raknet_sys.Prelude.{
  ℕ, suc, ◌+◌, ◌≤◌, ◌<◌, ◌≡◌, refl, ◌∙◌, true, false, List, [], ◌∷◌, ◌++◌, arith, ◌==◌,
  if◌then◌else◌,
}
use raknet_sys.Prelude.Outcome.{ok}
use raknet_sys.Lifetime.{
  Objects, make_object, call_on, delete_object, Owned, rak_peer, authenticated_encryption,
  client_easy_handshake, bit_stream, cookie_jar_value, server_easy_handshake,
}

abbrev pub addresses_of : Owned → List ℕ
addresses_of (rak_peer h) = h ∷ []
addresses_of (authenticated_encryption h) = h ∷ []
addresses_of (client_easy_handshake h) = h ∷ []
addresses_of (bit_stream h) = h ∷ []
addresses_of (cookie_jar_value h) = h ∷ []
addresses_of (server_easy_handshake h jar) = h ∷ jar ∷ []

abbrev pub addresses : List Owned → List ℕ
addresses [] = []
addresses (v ∷ vs) = addresses_of v ++ addresses vs

abbrev pub count : ℕ → List ℕ → ℕ
count h [] = 0
count h (k ∷ ks) = (if h == k then 1 else 0) + count h ks

-- Each object that exists is owned once, and nothing else is owned.
pub record Exact (hs : List ℕ) (m : Objects) : Type 0 where
  pub owned : (h : ℕ) → count h hs ≡ (if m.live h then 1 else 0)
  pub fresh : (h : ℕ) → m.next ≤ h → m.live h ≡ false

pub count-append : (h : ℕ) (xs ys : List ℕ) → count h (xs ++ ys) ≡ count h xs + count h ys
count-append h [] ys = omega arith
count-append h (x ∷ xs) ys = omega (arith, count-append h xs ys)

pub make_object-Exact :
    (hs : List ℕ) (m : Objects)
    → Exact hs m
    → (n : Objects) × (make_object m ≡ ok (m.next, n)) × Exact (m.next ∷ hs) n
unfolding make_object
make_object-Exact hs m e = (
  record { next = suc m.next; live = λ h. if h == m.next then true else m.live h },
  refl,
  record {
    owned = λ h. ground (arith, e.owned h, e.fresh h);
    fresh = λ h above. ground (arith, e.fresh h);
  },
)

pub delete_object-Exact :
    (h : ℕ) (hs : List ℕ) (m : Objects)
    → Exact (h ∷ hs) m
    → (n : Objects) × (delete_object h m ≡ ok (tt, n)) × Exact hs n
unfolding delete_object
delete_object-Exact h hs m e = (
  record m { live = λ k. if k == h then false else m.live k },
  ground (arith, e.owned h),
  record {
    owned = λ k. ground (arith, e.owned k, e.owned h);
    fresh = λ k above. ground (arith, e.fresh k);
  },
)

pub call_on-Exact :
    (h : ℕ) (hs : List ℕ) (m : Objects) → Exact hs m → 0 < count h hs → call_on h m ≡ ok (tt, m)
unfolding call_on
call_on-Exact h hs m e owned = ground (arith, e.owned h)

pub Exact-same :
    (hs ks : List ℕ) (m : Objects) → ((h : ℕ) → count h ks ≡ count h hs) → Exact hs m → Exact ks m
Exact-same hs ks m same e = record { owned = λ h. same h ∙ e.owned h; fresh = e.fresh }
