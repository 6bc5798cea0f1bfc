-- ===== src/Network/Backoff.antt =====
-- How long `runRead` waits between attempts.
use true_mqtt_cpp.Base.{ℕ, zero, suc, ◌*◌, ◌^◌, ◌≤◌, ◌≡◌, min, arith, ap}
use native.Mathlib.Nat.{pow-suc}
use true_mqtt_cpp.Network.{next_backoff}

-- The wait after k failed attempts.
unfoldable pub backoff_after : ℕ → ℕ → ℕ → ℕ
backoff_after backoff_max backoff zero = backoff
backoff_after backoff_max backoff (suc k) =
    next_backoff backoff_max (backoff_after backoff_max backoff k)

doubled : (m b : ℕ) → b ≤ m → next_backoff m b ≡ min m (b * 2)
unfolding next_backoff
doubled m b h = ground arith

-- A backoff that begins within its maximum doubles with each failure until it reaches the maximum, and
-- stays there.
backoff_after-min :
    (backoff_max backoff k : ℕ)
    → backoff ≤ backoff_max
    → backoff_after backoff_max backoff k ≡ min backoff_max (backoff * 2 ^ k)
unfolding backoff_after
backoff_after-min m b zero h = omega arith
backoff_after-min m b (suc k) h =
    let ih = backoff_after-min m b k h in
    let p = ap (λ (t : ℕ). b * t) (pow-suc 2 k) in
    omega (arith, ih, p, doubled m (backoff_after m b k) (omega (arith, ih)))
