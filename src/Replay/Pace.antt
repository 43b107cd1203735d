-- ===== src/Replay/Pace.antt =====
-- The times between the frames of a session: `runBench` of engine/tools/replay/replayer.cpp and
-- `replaySessionIntoClient` of engine/src/symbol/symbol_registry.cpp.
use real_time_paper_trading.Base.{
  ℕ, ◌+◌, ◌-◌, ◌/◌, ◌%◌, ◌^◌, Option, none, some, List, [], ◌∷◌, leb, if◌then◌else◌, pos_part,
}
use real_time_paper_trading.Client.{same_text}
use real_time_paper_trading.Replay.{Args}
use real_time_paper_trading.Replay.Names

-- The difference of two times as `uint64_t`.
unfoldable pub gap_nanos : ℕ → ℕ → ℕ
gap_nanos before after = (after + 2 ^ 64 - before) % 2 ^ 64

-- The gap before a frame, if it is not the first.
unfoldable pub gap_after : Option ℕ → ℕ → List ℕ
gap_after none now = []
gap_after (some before) now = gap_nanos before now ∷ []

-- The sleep of `runBench` for a gap; 0 where it does not sleep.
unfoldable pub bench_sleep : Args → ℕ → ℕ
bench_sleep args gap =
    if same_text args.speed Names.burst
    then 0
    else if same_text args.speed Names.n_times
    then gap / (if leb 1 (pos_part args.factor) then pos_part args.factor else 1)
    else gap
