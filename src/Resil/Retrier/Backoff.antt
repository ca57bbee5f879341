-- ===== src/Resil/Retrier/Backoff.antt =====
-- The bound on the delay between two attempts.
use native.Mathlib.Nat.{pow-suc}
use portcloak.Base.{ℕ, zero, suc, ◌-◌, ◌*◌, ◌^◌, ◌≤◌, ◌<◌, ◌≡◌, min, arith}
use portcloak.Resil.Retrier.{Retrier, ceiling}

-- Whatever the attempt, also where the shift has overflowed an int64, the delay is drawn from a
-- positive range of at most `MaxDelay`.
pub ceiling_bounds :
    (r : Retrier) (attempt : ℕ)
    → 0 < r.max_delay
    → (ceiling r attempt ≤ r.max_delay) × (0 < ceiling r attempt)
unfolding ceiling
ceiling_bounds r attempt h = (ground arith, ground arith)

pow-pos : (k : ℕ) → 0 < 2 ^ k
pow-pos zero = omega arith
pow-pos (suc k) = rw pow-suc (omega (arith, pow-pos k))

mul-pos : (a b : ℕ) → 0 < a → 0 < b → 0 < a * b
mul-pos a b h k = grind arith

-- As long as the base delay, doubled once for each attempt before this one, fits an int64, the delay
-- is drawn from up to the smaller of that and `MaxDelay`.
pub ceiling-eq-min :
    (r : Retrier) (attempt : ℕ)
    → 0 < r.base_delay
    → r.base_delay * 2 ^ (attempt - 1) < 2 ^ 63
    → ceiling r attempt ≡ min (r.base_delay * 2 ^ (attempt - 1)) r.max_delay
unfolding ceiling
ceiling-eq-min r attempt h fits =
    let p = mul-pos r.base_delay (2 ^ (attempt - 1)) h (pow-pos (attempt - 1)) in ground arith
