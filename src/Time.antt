-- ===== src/Time.antt =====
-- std::time: an Instant is a number of nanoseconds on the monotonic clock, and a Duration one too.
use kinbridge_server.Prelude.{ℕ, ◌-◌, ◌/◌, leb, if◌then◌else◌}
use kinbridge_server.Prelude.Int.{ℤ, as_i32}

-- Instant::elapsed, which saturates at zero.
unfoldable pub elapsed : ℕ → ℕ → ℕ
elapsed now tm = now - tm

unfoldable pub as_secs : ℕ → ℕ
as_secs d = d / 1_000_000_000

unfoldable pub as_millis : ℕ → ℕ
as_millis d = d / 1_000_000

-- `tm.elapsed().as_secs()`.
unfoldable pub elapsed_secs : ℕ → ℕ → ℕ
unfolding elapsed as_secs
elapsed_secs now tm = as_secs (elapsed now tm)

-- `tm.elapsed().as_millis() as i32`.
unfoldable pub elapsed_millis_i32 : ℕ → ℕ → ℤ
unfolding elapsed as_millis as_i32
elapsed_millis_i32 now tm = as_i32 (as_millis (elapsed now tm))

-- common.rs: one hour ago, or `now` where the clock does not reach back so far.
unfoldable pub get_expired_time : ℕ → ℕ
get_expired_time now = let hour : ℕ = 3_600_000_000_000 in if leb hour now then now - hour else now
