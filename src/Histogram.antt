-- ===== src/Histogram.antt =====
-- engine/include/engine/observability/histogram.hpp and engine/src/observability/histogram.cpp: the
-- histogram of latencies. An atomic of 64 bits is a number; the buckets are the list of their counts.
-- `scaled` is the product of a percentage and a count that the source computes in `double`.
pub mod Buckets
pub mod Percentile
pub mod Registry
mod Tests
use real_time_paper_trading.Base.{
  ℕ, zero, suc, ◌+◌, ◌-◌, ◌*◌, ◌/◌, ◌%◌, ◌^◌, ◌≤◌, Bool, true, false, List, [], ◌∷◌, ltb, leb, ◌==◌,
  if◌then◌else◌, length, get_elem?, set, replicate, min, Option, none, some, Text,
}

abbrev pub num_buckets : ℕ
num_buckets = 64

pub record LatencyHistogram : Type 0 where
  pub name : Text
  pub buckets : List ℕ
  pub max_nanos : ℕ

pub record Snapshot : Type 0 where
  pub name : Text
  pub count : ℕ
  pub p50 : ℕ
  pub p90 : ℕ
  pub p99 : ℕ
  pub max : ℕ

unfoldable pub new_histogram : Text → LatencyHistogram
new_histogram name = record { name = name; buckets = replicate num_buckets 0; max_nanos = 0 }

-- `std::countl_zero`: the zeros above the highest bit of a number of at most `w` bits.
unfoldable pub countl_zero : ℕ → ℕ → ℕ
countl_zero zero n = 0
countl_zero (suc w) n = let below = countl_zero w n in if ltb n (2 ^ w) then suc below else 0

unfoldable pub bucket_for : ℕ → ℕ
bucket_for nanos = if nanos == 0 then 0 else min (63 - countl_zero 64 nanos) 63

-- `fetch_add(1)` on the bucket at an index.
unfoldable pub bump : ℕ → List ℕ → List ℕ
bump i [] = []
bump zero (c ∷ cs) = (c + 1) % 2 ^ 64 ∷ cs
bump (suc i) (c ∷ cs) = c ∷ bump i cs

-- The loop of the exchange of `maxNanos_` ends with the larger value.
unfoldable pub record_nanos : LatencyHistogram → ℕ → LatencyHistogram
record_nanos h nanos = record h {
  buckets = bump (bucket_for nanos) h.buckets;
  max_nanos = if ltb h.max_nanos nanos then nanos else h.max_nanos;
}

unfoldable pub reset : LatencyHistogram → LatencyHistogram
reset h = record h { buckets = replicate (length h.buckets) 0; max_nanos = 0 }

-- `total += counts[i]`
unfoldable pub total_of : ℕ → List ℕ → ℕ
total_of total [] = total
total_of total (c ∷ cs) = total_of ((total + c) % 2 ^ 64) cs

-- The loop of `percentileValue`, from the bucket `i`.
unfoldable pub percentile_from : ℕ → ℕ → ℕ → List ℕ → ℕ
percentile_from target cumulative i [] = 2 ^ (num_buckets - 1)
percentile_from target cumulative i (c ∷ cs) =
    let rest = percentile_from target ((cumulative + c) % 2 ^ 64) (i + 1) cs in
    if leb target ((cumulative + c) % 2 ^ 64) then 2 ^ i else rest

module _ (scaled : ℕ → ℕ → ℕ) where
  unfoldable pub percentile_value : ℕ → ℕ → List ℕ → ℕ
  percentile_value percent total counts =
      let target = scaled percent total in
      percentile_from (if leb target 1 then 1 else target) 0 0 counts

  unfoldable pub snapshot : LatencyHistogram → Snapshot
  snapshot h =
      let total = total_of 0 h.buckets in
      if total == 0
      then record { name = h.name; count = total; p50 = 0; p90 = 0; p99 = 0; max = h.max_nanos }
      else record {
        name = h.name;
        count = total;
        p50 = percentile_value 50 total h.buckets;
        p90 = percentile_value 90 total h.buckets;
        p99 = percentile_value 99 total h.buckets;
        max = h.max_nanos;
      }
