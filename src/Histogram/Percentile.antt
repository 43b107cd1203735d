-- ===== src/Histogram/Percentile.antt =====
-- The sums over the counts, and the percentiles (engine/src/observability/histogram.cpp).
use real_time_paper_trading.Base.{
  ℕ, zero, suc, ◌+◌, ◌%◌, ◌^◌, ◌≤◌, ◌<◌, ◌≡◌, inl, inr, refl, sym, ap, ◌∙◌, Bool-cases, false, List,
  [], ◌∷◌, ltb, leb, ◌==◌, if◌then◌else◌, length, take, arith, Text,
}
use real_time_paper_trading.Histogram.{
  LatencyHistogram, new_histogram, num_buckets, bucket_for, bump, record_nanos, total_of,
  percentile_from, percentile_value, snapshot,
}
use real_time_paper_trading.Histogram.Buckets.{bucket_for_bounded}

pub sum : List ℕ → ℕ
sum [] = 0
sum (c ∷ cs) = c + sum cs

total_of_lem : (t : ℕ) (cs : List ℕ) → t + sum cs < 2 ^ 64 → total_of t cs ≡ t + sum cs
unfolding total_of sum
total_of_lem t [] h = omega arith
total_of_lem t (c ∷ cs) h =
    let e : (t + c) % 2 ^ 64 ≡ t + c = omega arith in
    rw e (total_of_lem (t + c) cs (omega arith) ∙ omega arith)

pub length-bump : (i : ℕ) (cs : List ℕ) → length (bump i cs) ≡ length cs
unfolding bump
length-bump i [] = refl
length-bump zero (c ∷ cs) = refl
length-bump (suc i) (c ∷ cs) = ap suc (length-bump i cs)

sum-bump :
    (i : ℕ) (cs : List ℕ) → i < length cs → sum cs + 1 < 2 ^ 64 → sum (bump i cs) ≡ sum cs + 1
unfolding bump sum
sum-bump i [] h k = absurd (omega arith)
sum-bump zero (c ∷ cs) h k = omega arith
sum-bump (suc i) (c ∷ cs) h k = omega (arith, sum-bump i cs (omega arith) (omega arith))

-- Latencies that are recorded one after the other.
unfoldable pub record_all : LatencyHistogram → List ℕ → LatencyHistogram
record_all h [] = h
record_all h (n ∷ ns) = record_all (record_nanos h n) ns

pub largest : ℕ → List ℕ → ℕ
largest m [] = m
largest m (n ∷ ns) = largest (if ltb m n then n else m) ns

record_all_lem :
    (h : LatencyHistogram) (ns : List ℕ)
    → length h.buckets ≡ num_buckets
    → sum h.buckets + length ns < 2 ^ 64
    → let h' = record_all h ns in
      (sum h'.buckets ≡ sum h.buckets + length ns) × (h'.max_nanos ≡ largest h.max_nanos ns)
unfolding record_all largest record_nanos
record_all_lem h [] l k = (omega arith, refl)
record_all_lem h (n ∷ ns) l k =
    let s =
      sum-bump (bucket_for n) h.buckets (omega (arith, bucket_for_bounded n, l)) (omega arith) in
    let (a, b) =
      record_all_lem (record_nanos h n) ns (length-bump (bucket_for n) h.buckets ∙ l)
        (omega (arith, s)) in
    (omega (arith, a, s), b)

percentile_from_next :
    (target u i c : ℕ) (cs : List ℕ) (k : ℕ)
    → u + c < 2 ^ 64
    → u + c < target
    → percentile_from target (u + c) (i + 1) cs ≡ 2 ^ (i + 1 + k)
    → percentile_from target u i (c ∷ cs) ≡ 2 ^ (i + suc k)
unfolding percentile_from
percentile_from_next target u i c cs k b h p =
    let e : (u + c) % 2 ^ 64 ≡ u + c = omega arith in
    let n : leb target (u + c) ≡ false = ground arith in
    let z : i + 1 + k ≡ i + suc k = omega arith in rw (e, n) (p ∙ ap (λ j. 2 ^ j) z)

percentile_from_lem :
    (target u i : ℕ) (cs : List ℕ)
    → u < target
    → target ≤ u + sum cs
    → u + sum cs < 2 ^ 64
    → (k : ℕ) × (percentile_from target u i cs ≡ 2 ^ (i + k))
      × (k < length cs)
      × (u + sum (take k cs) < target)
      × (target ≤ u + sum (take (suc k) cs))
unfolding percentile_from sum
percentile_from_lem target u i [] h k b = absurd (omega arith)
percentile_from_lem target u i (c ∷ cs) h k b =
    let e : (u + c) % 2 ^ 64 ≡ u + c = omega arith in
    elim (Bool-cases (leb target (u + c))) [
      | inl y ↦
          (let z : i ≡ i + 0 = omega arith in
            (0, rw (e, y) (ap (λ j. 2 ^ j) z), omega arith, omega arith, ground arith))
      | inr n ↦
          (let (j, p, q, lo, hi) =
              percentile_from_lem target (u + c) (i + 1) cs (ground arith) (omega arith)
                (omega arith) in
            (
              suc j,
              percentile_from_next target u i c cs j (omega arith) (ground arith) p,
              omega arith,
              omega arith,
              omega arith,
            ))
    ]

-- A power of two that is the percentile of counts: the counts before its bucket are fewer than the
-- rank, and with its bucket they reach it.
pub record IsPercentile (r : ℕ) (counts : List ℕ) (value : ℕ) : Type 0 where
  pub bucket : ℕ
  pub power : value ≡ 2 ^ bucket
  pub bounded : bucket < length counts
  pub below : sum (take bucket counts) < r
  pub reached : r ≤ sum (take (suc bucket) counts)

-- `std::max<uint64_t>(1, …)`: the rank of a percentile among `n` latencies, from 1.
abbrev pub rank : ℕ → ℕ
rank s = if leb s 1 then 1 else s

module _ (scaled : ℕ → ℕ → ℕ) where
  percentile_value-IsPercentile :
      (percent n : ℕ) (counts : List ℕ)
      → n ≡ sum counts
      → 1 ≤ n
      → n < 2 ^ 64
      → scaled percent n ≤ n
      → IsPercentile (rank (scaled percent n)) counts (percentile_value scaled percent n counts)
  unfolding percentile_value
  percentile_value-IsPercentile percent n counts e h k l =
      let (j, p, q, lo, hi) =
        percentile_from_lem (rank (scaled percent n)) 0 0 counts (ground arith) (ground arith)
          (omega arith) in
      let z : 0 + j ≡ j = omega arith in
      record {
        bucket = j;
        power = p ∙ ap (λ i. 2 ^ i) z;
        bounded = q;
        below = omega arith;
        reached = omega arith;
      }

  -- The snapshot of a new histogram into which latencies were recorded, at least one and fewer than
  -- 2 ^ 64, has their number and the largest of them, and its percentiles are those of its buckets,
  -- if the product of a percentage and a count is not greater than the count.
  pub snapshot_lem :
      (name : Text) (ns : List ℕ)
      → 1 ≤ length ns
      → length ns < 2 ^ 64
      → ((percent n : ℕ) → percent ≤ 100 → n < 2 ^ 64 → scaled percent n ≤ n)
      → let h = record_all (new_histogram name) ns in
        let s = snapshot scaled h in
        (s.count ≡ length ns)
        × (s.max ≡ largest 0 ns)
        × IsPercentile (rank (scaled 50 (length ns))) h.buckets s.p50
        × IsPercentile (rank (scaled 90 (length ns))) h.buckets s.p90
        × IsPercentile (rank (scaled 99 (length ns))) h.buckets s.p99
  unfolding snapshot new_histogram sum
  snapshot_lem name ns h k f =
      let (a, b) = record_all_lem (new_histogram name) ns refl (omega arith) in
      let h' = record_all (new_histogram name) ns in
      let c : sum h'.buckets ≡ length ns = a ∙ omega arith in
      let t : total_of 0 h'.buckets ≡ length ns =
        total_of_lem 0 h'.buckets (omega arith) ∙ omega arith in
      let z : (length ns == 0) ≡ false = ground arith in
      rw (t, z)
        (
          refl,
          b,
          percentile_value-IsPercentile 50 (length ns) h'.buckets (sym c) h k
              (f 50 (length ns) (omega arith) k),
          percentile_value-IsPercentile 90 (length ns) h'.buckets (sym c) h k
              (f 90 (length ns) (omega arith) k),
          percentile_value-IsPercentile 99 (length ns) h'.buckets (sym c) h k
              (f 99 (length ns) (omega arith) k),
        )
