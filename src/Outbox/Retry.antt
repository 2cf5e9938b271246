-- ===== src/Outbox/Retry.antt =====
-- The constants and `outboxRetryDelay` of internal/services/outbox_relay_service.go.
use lol_overlay.Prelude.{ℕ, zero, suc, ◌*◌, ◌^◌, ◌≤◌, ◌<◌, min, ◌≡◌, arith, ltb, leb, if◌then◌else◌}
use native.Mathlib.Nat.{pow-suc}
use lol_overlay.Models.{second, minute}

abbrev pub outbox_relay_batch_size : ℕ
outbox_relay_batch_size = 50

abbrev pub outbox_relay_lease : ℕ
outbox_relay_lease = 30 * second

abbrev pub outbox_retry_initial : ℕ
outbox_retry_initial = 5 * second

abbrev pub outbox_retry_maximum : ℕ
outbox_retry_maximum = 5 * minute

-- The loop with the rounds that `attempt < attemptCount` leaves and the delay so far.
unfoldable pub retry_loop : ℕ → ℕ → ℕ
retry_loop zero delay = delay
retry_loop (suc rounds) delay =
    let next = retry_loop rounds (delay * 2) in
    if ltb delay outbox_retry_maximum
    then (if leb outbox_retry_maximum (delay * 2) then outbox_retry_maximum else next)
    else delay

unfoldable pub outbox_retry_delay : ℕ → ℕ
unfolding retry_loop
outbox_retry_delay attempt_count = retry_loop attempt_count outbox_retry_initial

pow_pos : (n : ℕ) → 0 < 2 ^ n
pow_pos zero = omega arith
pow_pos (suc n) = omega (arith, pow-suc 2 n, pow_pos n)

doubled : (delay n : ℕ) → delay * 2 ^ suc n ≡ delay * 2 * 2 ^ n
doubled delay n = rw pow-suc (omega arith)

double-le : (delay n : ℕ) → delay * 2 ≤ delay * 2 ^ suc n
double-le delay n = rw doubled (grind (arith, pow_pos n))

retry_loop_eq :
    (rounds delay : ℕ)
    → delay < outbox_retry_maximum
    → 0 < delay
    → retry_loop rounds delay ≡ min (delay * 2 ^ rounds) outbox_retry_maximum
unfolding retry_loop
retry_loop_eq zero delay h p = omega arith
retry_loop_eq (suc rounds) delay h p =
    ground (arith, doubled delay rounds, double-le delay rounds, retry_loop_eq rounds (delay * 2))

-- The delay before attempt n is 5 seconds doubled n times, but at most 5 minutes.
pub outbox_retry_delay_eq :
    (attempt_count : ℕ)
    → outbox_retry_delay attempt_count
      ≡ min (outbox_retry_initial * 2 ^ attempt_count) outbox_retry_maximum
unfolding outbox_retry_delay
outbox_retry_delay_eq attempt_count =
    retry_loop_eq attempt_count outbox_retry_initial (omega arith) (omega arith)

-- The delay never falls below 5 seconds or rises above 5 minutes, and never falls as the number of
-- attempts grows.
pub outbox_retry_delay_bounds :
    (n : ℕ)
    → (outbox_retry_initial ≤ outbox_retry_delay n)
      × (outbox_retry_delay n ≤ outbox_retry_maximum)
      × (outbox_retry_delay n ≤ outbox_retry_delay (suc n))
outbox_retry_delay_bounds n =
    omega (arith, outbox_retry_delay_eq n, outbox_retry_delay_eq (suc n), pow_pos n, pow-suc 2 n)
