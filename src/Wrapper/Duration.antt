-- ===== src/Wrapper/Duration.antt =====
-- `std::time::Duration`, and its milliseconds as src/rakpeer.rs hands them to C.
use raknet_sys.Prelude.{ℕ, ◌+◌, ◌*◌, ◌/◌, ◌%◌, ◌^◌, ◌<◌, ◌≡◌, ◌↔◌, arith}

pub record Duration : Type 0 where
  pub seconds : ℕ
  pub nanoseconds : ℕ

-- `Duration::as_millis`
abbrev pub as_millis : Duration → ℕ
as_millis d = d.seconds * 1000 + d.nanoseconds / 1000000

-- `duration.as_millis() as ffi::TimeMS`, an `uint32_t`
unfoldable pub time_ms : Duration → ℕ
time_ms d = as_millis d % 2 ^ 32

-- The milliseconds that the C side gets are below 2 ^ 32, and are the duration's own exactly if
-- those are below 2 ^ 32.
pub time_ms_exact :
    (d : Duration) → (time_ms d < 2 ^ 32) × ((time_ms d ≡ as_millis d) ↔ (as_millis d < 2 ^ 32))
unfolding time_ms
time_ms_exact d = (omega arith, (λ h. omega arith, λ h. omega arith))
