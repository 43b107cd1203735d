-- ===== src/Histogram/Tests.antt =====
-- Instances of the laws of the histogram, and runs of its functions.
use real_time_paper_trading.Base.{
  ℕ, ◌*◌, ◌/◌, ◌^◌, ◌≤◌, ◌<◌, ◌≡◌, refl, List, [], ◌∷◌, length, arith,
}
use real_time_paper_trading.Histogram.{countl_zero, bucket_for, new_histogram, snapshot}
use real_time_paper_trading.Base.{Text}
use real_time_paper_trading.Base.Assoc.{lookup}
use real_time_paper_trading.Client.{same_text}
use real_time_paper_trading.Histogram.Registry.{Scope, elapsed, timed_all, log_round}
use real_time_paper_trading.Histogram.Registry.History.{samples, history, emptied, timed_all_lem}
use real_time_paper_trading.Histogram.Percentile.{
  record_all, largest, IsPercentile, rank, snapshot_lem,
}

test_bucket : bucket_for 1000 ≡ 9
unfolding bucket_for countl_zero
test_bucket = refl

abbrev latencies : List ℕ
latencies = 3 ∷ 1000 ∷ 12 ∷ []

-- The product, rounded down.
abbrev percent_of : ℕ → ℕ → ℕ
percent_of percent n = percent * n / 100

percent_of_bounded : (percent n : ℕ) → percent ≤ 100 → n < 2 ^ 64 → percent_of percent n ≤ n
percent_of_bounded percent n h k = grind arith

snapshot_example :
    let h = record_all (new_histogram []) latencies in
    let s = snapshot percent_of h in
    (s.count ≡ length latencies)
    × (s.max ≡ largest 0 latencies)
    × IsPercentile (rank (percent_of 50 (length latencies))) h.buckets s.p50
    × IsPercentile (rank (percent_of 90 (length latencies))) h.buckets s.p90
    × IsPercentile (rank (percent_of 99 (length latencies))) h.buckets s.p99
snapshot_example =
    snapshot_lem percent_of [] latencies (omega arith) (omega arith) percent_of_bounded

abbrev push_timer : Text
push_timer = b'p' ∷ []

abbrev scopes : List Scope
scopes =
    record { name = push_timer; start = 10; stop = 13 }
    ∷ record { name = b't' ∷ []; start = 11; stop = 20 }
    ∷ record { name = push_timer; start = 20; stop = 1020 }
    ∷ []

timed_all_example :
    let r = timed_all (record { histograms = [] }) scopes in
    (lookup same_text push_timer r.histograms ≡ history push_timer (samples push_timer scopes))
    × (lookup same_text push_timer (log_round percent_of r).0.histograms
        ≡ emptied push_timer (samples push_timer scopes))
timed_all_example = timed_all_lem percent_of scopes push_timer

timed_latencies : samples push_timer scopes ≡ 3 ∷ 1000 ∷ []
unfolding samples elapsed same_text
timed_latencies = refl
