-- ===== src/Histogram/Buckets.antt =====
-- The bucket of a latency, and the counts (engine/src/observability/histogram.cpp).
use real_time_paper_trading.Base.{
  ℕ, zero, suc, ◌+◌, ◌-◌, ◌^◌, ◌≤◌, ◌<◌, ◌≡◌, inl, inr, Bool-cases, false, ltb, ◌==◌, min, arith,
}
use real_time_paper_trading.Histogram.{num_buckets, countl_zero, bucket_for}

-- The highest bit below the bound `w`.
countl_zero_lem :
    (w n : ℕ)
    → 1 ≤ n
    → n < 2 ^ w
    → (countl_zero w n < w) × (2 ^ (w - 1 - countl_zero w n) ≤ n) × (n < 2 ^ (w - countl_zero w n))
unfolding countl_zero
countl_zero_lem zero n h k = absurd (omega arith)
countl_zero_lem (suc w) n h k = elim (Bool-cases (ltb n (2 ^ w))) [
  | inl y ↦
      (let (a, b, c) = countl_zero_lem w n h (ground arith) in
        let e : suc w - 1 - suc (countl_zero w n) ≡ w - 1 - countl_zero w n = omega arith in
        let e' : suc w - suc (countl_zero w n) ≡ w - countl_zero w n = omega arith in
        rw y (omega arith, rw e b, rw e' c))
  | inr l ↦
      (let e : suc w - 1 - 0 ≡ w = omega arith in
        let e' : suc w - 0 ≡ suc w = omega arith in
        rw l (omega arith, rw e (ground arith), rw e' k))
]

-- A latency of at least one nanosecond falls into the bucket of its highest bit: it is at least the
-- power of two of the bucket, and below the next one.
pub bucket_for_lem :
    (nanos : ℕ)
    → 1 ≤ nanos
    → nanos < 2 ^ 64
    → (bucket_for nanos < num_buckets)
      × (2 ^ bucket_for nanos ≤ nanos)
      × (nanos < 2 ^ (bucket_for nanos + 1))
unfolding bucket_for
bucket_for_lem nanos h k =
    let (a, b, c) = countl_zero_lem 64 nanos h k in
    let z : (nanos == 0) ≡ false = ground arith in
    let e : min (63 - countl_zero 64 nanos) 63 ≡ 64 - 1 - countl_zero 64 nanos = omega arith in
    let e' : 64 - 1 - countl_zero 64 nanos + 1 ≡ 64 - countl_zero 64 nanos = omega arith in
    rw (z, e, e') (omega arith, b, c)

pub bucket_for_bounded : (nanos : ℕ) → bucket_for nanos < num_buckets
unfolding bucket_for
bucket_for_bounded nanos = ground arith
