-- ===== src/Base/Time.antt =====
-- `std::time`: a Duration is its nanoseconds, an Instant the nanoseconds since the clock's start.
use Prim.Native.Nat.{ℕ, ◌-◌, ◌*◌, ◌/◌}

abbrev pub Duration : Type 0
Duration = ℕ

abbrev pub Instant : Type 0
Instant = ℕ

abbrev pub from_secs : ℕ → Duration
from_secs n = n * 1_000_000_000

abbrev pub from_millis : ℕ → Duration
from_millis n = n * 1_000_000

abbrev pub from_micros : ℕ → Duration
from_micros n = n * 1_000

abbrev pub as_micros : Duration → ℕ
as_micros d = d / 1_000

-- `now - earlier` on instants saturates at zero, and so does `elapsed`.
abbrev pub duration_since : Instant → Instant → Duration
duration_since now earlier = now - earlier
