-- ===== src/Replay/Live.antt =====
-- `replaySessionIntoClient` of engine/src/symbol/symbol_registry.cpp. `checked` and `now` are the
-- readings of the clock at a frame; a file is the list of its bytes, `none` where it does not open.
use real_time_paper_trading.Base.{ℕ, suc, Option, none, some, List, [], ◌∷◌, ◌++◌, Text}
use real_time_paper_trading.Client.{Client}
use real_time_paper_trading.Parser.{Simdjson}
use real_time_paper_trading.Session.{
  RecordedFrame, Reading, got, ended, bad_magic_or_version, truncated_header, truncated_payload,
  read_all_recorded_frames,
}
use real_time_paper_trading.Replay.{handle_raw}
use real_time_paper_trading.Replay.Pace.{gap_after}

-- The client, `none` after an exception, the sleeps so far and the time of the frame before.
pub record Replaying : Type 0 where
  pub client : Option Client
  pub slept : List ℕ
  pub before : Option ℕ

-- The frames of a file, or `none` where there is nothing to replay.
unfoldable pub frames_read : Option (Reading (List RecordedFrame)) → Option (List RecordedFrame)
frames_read (some (got frames)) = some frames
frames_read (some ended) = none
frames_read (some bad_magic_or_version) = none
frames_read (some truncated_header) = none
frames_read (some truncated_payload) = none
frames_read none = none

unfoldable pub frames_in : Option (List ℕ) → Option (List RecordedFrame)
frames_in none = none
frames_in (some bytes) = frames_read (read_all_recorded_frames bytes)

module _ {Value : Type 0} (json : Simdjson Value) (crc32 : Text → ℕ) (checked now : ℕ → ℕ) where
  unfoldable pub replay_on : Option Client → ℕ → Replaying → RecordedFrame → Replaying
  replay_on none i s frame = s
  replay_on (some c) i s frame = record {
    client = handle_raw json crc32 checked now i frame.raw c;
    slept = s.slept ++ gap_after s.before frame.recv_ts_nanos;
    before = some frame.recv_ts_nanos;
  }

  unfoldable pub replay_frames : ℕ → Replaying → List RecordedFrame → Replaying
  replay_frames i s [] = s
  replay_frames i s (frame ∷ frames) = replay_frames (suc i) (replay_on s.client i s frame) frames

  unfoldable pub replay_found : Client → Option (List RecordedFrame) → Replaying
  replay_found c none = record { client = some c; slept = []; before = none }
  replay_found c (some frames) =
      replay_frames 0 (record { client = some c; slept = []; before = none }) frames

  unfoldable pub replay_session_into_client : Client → Option (List ℕ) → Replaying
  replay_session_into_client c file = replay_found c (frames_in file)
