-- ===== src/Worker/Handle/Delays.antt =====
-- The wait between two rounds, `_compute_retry_delay` of worker/main.py, in milliseconds.
use cloud_portfolio.Prelude.{ℕ, zero, suc, ◌-◌, ◌*◌, ◌^◌, min, ◌≤◌, Option, none, some, arith}
use cloud_portfolio.Worker.World.{base_delay_ms, retry_delay_ms, max_inline_retry_delay_ms}

pow2_pos : (n : ℕ) → 1 ≤ 2 ^ n
pow2_pos zero = omega arith
pow2_pos (suc n) = omega (arith, pow2_pos n)

pow2_mono : (m n : ℕ) → m ≤ n → 2 ^ m ≤ 2 ^ n
pow2_mono zero n h = pow2_pos n
pow2_mono (suc m) zero h = omega (arith, h)
pow2_mono (suc m) (suc n) h = omega (arith, pow2_mono m n (omega arith))

base_pos : (base : Option ℕ) → 1 ≤ base_delay_ms base
unfolding base_delay_ms
base_pos none = omega arith
base_pos (some ms) = ground arith

mul_pos : (a b : ℕ) → 1 ≤ a → 1 ≤ b → 1 ≤ a * b
mul_pos zero b h k = absurd (omega arith)
mul_pos (suc a) zero h k = absurd (omega arith)
mul_pos (suc a) (suc b) h k = omega arith

mul_mono : (a b c : ℕ) → b ≤ c → a * b ≤ a * c
mul_mono zero b c h = omega arith
mul_mono (suc a) b c h = omega (arith, mul_mono a b c h)

capped :
    (n : ℕ)
    → 1 ≤ n
    → (1 ≤ min n max_inline_retry_delay_ms) × (min n max_inline_retry_delay_ms ≤ 60000)
capped n h = (omega arith, omega arith)

min_mono : (a b c : ℕ) → a ≤ b → min a c ≤ min b c
min_mono a b c h = omega arith

-- Whatever delay is set, also none or one of zero, the wait before a retry is positive and at most a
-- minute, and it does not get shorter as the retries go on.
pub retry_delay_ms-bounds :
    (base : Option ℕ) (m n : ℕ)
    → m ≤ n
    → (1 ≤ retry_delay_ms base m)
      × (retry_delay_ms base m ≤ retry_delay_ms base n)
      × (retry_delay_ms base n ≤ 60000)
unfolding retry_delay_ms
retry_delay_ms-bounds base m n h =
    let low =
      mul_pos (base_delay_ms base) (2 ^ min (m - 1) 20) (base_pos base)
        (pow2_pos (min (m - 1) 20)) in
    let high =
      mul_pos (base_delay_ms base) (2 ^ min (n - 1) 20) (base_pos base)
        (pow2_pos (min (n - 1) 20)) in
    (
      (capped _ low).0,
      min_mono _ _ max_inline_retry_delay_ms (
          mul_mono (base_delay_ms base) (2 ^ min (m - 1) 20) (2 ^ min (n - 1) 20)
            (pow2_mono (min (m - 1) 20) (min (n - 1) 20) (omega arith))),
      (capped _ high).1,
    )
