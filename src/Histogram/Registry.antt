-- ===== src/Histogram/Registry.antt =====
-- engine/include/engine/observability/histogram.hpp and engine/src/observability/histogram.cpp: the
-- registry of the histograms, its log and the timer of a scope. A reference to a histogram is its name,
-- since none is ever erased. The calls come one after the other, and the clock of a timer does not run
-- backwards; what is printed is the list of the snapshots that are logged.
pub mod History
use real_time_paper_trading.Base.{
  ℕ, ◌+◌, ◌-◌, ◌%◌, ◌^◌, Option, none, some, List, [], ◌∷◌, ◌==◌, if◌then◌else◌, Text,
}
use real_time_paper_trading.Base.Assoc.{lookup, emplace, assign}
use real_time_paper_trading.Client.{same_text}
use real_time_paper_trading.Histogram.{
  LatencyHistogram, Snapshot, new_histogram, record_nanos, reset, snapshot,
}

pub record HistogramRegistry : Type 0 where
  pub histograms : List (Text × LatencyHistogram)

unfoldable pub get : HistogramRegistry → Text → HistogramRegistry
get r name = record { histograms = emplace same_text name (new_histogram name) r.histograms }

unfoldable pub record_at : HistogramRegistry → Text → ℕ → HistogramRegistry
record_at r name nanos = elim (lookup same_text name r.histograms) [
  | none ↦ r
  | some h ↦ record { histograms = assign same_text name (record_nanos h nanos) r.histograms }
]

-- A `ScopedLatencyTimer` of `get(name)`, with the readings of the clock at its two ends.
pub record Scope : Type 0 where
  pub name : Text
  pub start : ℕ
  pub stop : ℕ

unfoldable pub elapsed : Scope → ℕ
elapsed s = (s.stop - s.start) % 2 ^ 64

unfoldable pub timed : HistogramRegistry → Scope → HistogramRegistry
timed r s = record_at (get r s.name) s.name (elapsed s)

unfoldable pub timed_all : HistogramRegistry → List Scope → HistogramRegistry
timed_all r [] = r
timed_all r (s ∷ ss) = timed_all (timed r s) ss

unfoldable pub reset_each : List (Text × LatencyHistogram) → List (Text × LatencyHistogram)
reset_each [] = []
reset_each ((name, h) ∷ m) = (name, reset h) ∷ reset_each m

module _ (scaled : ℕ → ℕ → ℕ) where
  unfoldable pub snapshot_each : List (Text × LatencyHistogram) → List Snapshot
  snapshot_each [] = []
  snapshot_each ((name, h) ∷ m) = snapshot scaled h ∷ snapshot_each m

  unfoldable pub snapshot_all : HistogramRegistry → List Snapshot
  snapshot_all r = snapshot_each r.histograms

  -- The loop that prints.
  unfoldable pub logged : List Snapshot → List Snapshot
  logged [] = []
  logged (s ∷ ss) = let rest = logged ss in if s.count == 0 then rest else s ∷ rest

  -- A round of `logAllAndReset` that no other call interrupts.
  unfoldable pub log_round : HistogramRegistry → HistogramRegistry × List Snapshot
  log_round r = (record { histograms = reset_each r.histograms }, logged (snapshot_all r))
