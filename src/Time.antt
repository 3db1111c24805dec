-- ===== src/Time.antt =====
-- `std::time::Duration`, in nanoseconds, and the floating-point numbers that scale one.
use multi_tier_cache.Base.{ℕ, ◌*◌, ◌/◌}

abbrev pub Duration : Type 0
Duration = ℕ

abbrev pub from_secs : ℕ → Duration
from_secs n = n * 1_000_000_000

abbrev pub from_mins : ℕ → Duration
from_mins n = from_secs (60 * n)

abbrev pub from_hours : ℕ → Duration
from_hours n = from_mins (60 * n)

abbrev pub as_secs : Duration → ℕ
as_secs d = d / 1_000_000_000

-- What the program uses of `f64`. `from_secs_f64` panics on a negative number and on one that no
-- `Duration` holds: here it is total, so a scale is taken to be neither negative nor huge.
pub record Float (F : Type 0) : Type 0 where
  pub of_u64 : ℕ → F
  pub mul : F → F → F
  pub div : F → F → F
  pub as_secs_f64 : Duration → F
  pub from_secs_f64 : F → Duration
