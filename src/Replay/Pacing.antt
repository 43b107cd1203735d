-- ===== src/Replay/Pacing.antt =====
-- A recorded session is replayed in its own time (engine/src/symbol/symbol_registry.cpp).
use real_time_paper_trading.Base.{ℕ, ◌+◌, ◌≤◌, Option, none, some, List, [], ◌∷◌, Text}
use real_time_paper_trading.Client.{Client}
use real_time_paper_trading.Client.Core.{Core, core_frame}
use real_time_paper_trading.Parser.{Simdjson, parse_book_message}
use real_time_paper_trading.Session.{RecordedFrame, write_recorded_session_header}
use real_time_paper_trading.Session.RoundTrip.{write_frames}
use real_time_paper_trading.Replay.Live.{Replaying, replay_session_into_client}

abbrev pub total : List ℕ → ℕ
total [] = 0
total (n ∷ ns) = n + total ns

-- The time of the last frame, after one at a time.
abbrev pub last_time : ℕ → List RecordedFrame → ℕ
last_time t [] = t
last_time t (f ∷ fs) = last_time f.recv_ts_nanos fs

-- The times do not go back.
abbrev pub Ordered : ℕ → List RecordedFrame → Type 0
Ordered t [] = Unit {0}
Ordered t (f ∷ fs) = (t ≤ f.recv_ts_nanos) × Ordered f.recv_ts_nanos fs

module _ {Value : Type 0} (json : Simdjson Value) (crc32 : Text → ℕ) where
  abbrev core_next : Option Core → RecordedFrame → Option Core
  core_next none f = none
  core_next (some k) f = core_frame crc32 (parse_book_message json f.raw) k

  -- What the frames make of a book, in their order.
  abbrev pub core_frames : Option Core → List RecordedFrame → Option Core
  core_frames o [] = o
  core_frames o (f ∷ fs) = core_frames (core_next o f) fs

  module _ (checked now : ℕ → ℕ) where
    -- A recorded session, replayed into a client.
    abbrev pub replayed : Client → List RecordedFrame → Replaying
    replayed c fs =
        replay_session_into_client json crc32 checked now c
          (some (write_frames (write_recorded_session_header []) fs))

    abbrev before_first : Client → Replaying
    before_first c = record { client = some c; slept = []; before = none }
