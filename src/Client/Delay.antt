-- ===== src/Client/Delay.antt =====
-- crates/fcb_core/src/server_api.rs: the jitter of `retry_delay`.
use fl_codepush_box.Prelude.{ℕ, zero, suc, ◌*◌, ◌≤◌, ◌≡◌, true, arith, get_or}
use fl_codepush_box.Client.{retry_delay, retry_delays, can_retry}

-- At an attempt that is retried, the delay is within a quarter of the listed one, for every reading
-- of the clock.
pub retry_delay-le :
    (attempt seed : ℕ)
    → can_retry attempt ≡ true
    → (3 * get_or retry_delays attempt 0 ≤ 4 * retry_delay attempt seed)
      × (4 * retry_delay attempt seed ≤ 5 * get_or retry_delays attempt 0)
unfolding retry_delay can_retry
retry_delay-le zero seed h = (omega arith, omega arith)
retry_delay-le (suc zero) seed h = (omega arith, omega arith)
retry_delay-le (suc (suc zero)) seed h = (omega arith, omega arith)
retry_delay-le (suc (suc (suc zero))) seed h = (omega arith, omega arith)
retry_delay-le (suc (suc (suc (suc n)))) seed h = absurd (ground arith)
