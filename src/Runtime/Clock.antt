-- ===== src/Runtime/Clock.antt =====
-- library/dinamite_time.c: the time stamp of an entry.
use dinamite.Shared.{ℕ, ◌+◌, ◌*◌, ◌%◌, ◌^◌, Option, none, some}

-- `struct timespec`
pub record TimeSpec : Type 0 where
  pub tv_sec : ℕ
  pub tv_nsec : ℕ

abbrev pub ns_in_second : ℕ
ns_in_second = 1_000_000_000

-- Given what `clock_gettime` answers: `none` where it fails.
unfoldable pub dinamite_time_nanoseconds : Option TimeSpec → ℕ
dinamite_time_nanoseconds none = 0
dinamite_time_nanoseconds (some ts) = (ts.tv_sec * ns_in_second + ts.tv_nsec) % 2 ^ 64
