-- ===== src/Session/Tests.antt =====
-- Instances of the laws of a recorded session, and runs of its functions.
use real_time_paper_trading.Base.{
  ◌≡◌, ◌<◌, refl, some, List, [], ◌∷◌, take, ltb, length, if◌then◌else◌, arith,
}
use real_time_paper_trading.Session.{
  RecordedFrame, bytes_of, Reading, got, ended, truncated_header, truncated_payload,
  read_recorded_frame, read_all_recorded_frames, write_recorded_session_header,
}
use real_time_paper_trading.Session.RoundTrip.{
  IsFrame, frame_bytes, write_frames, read_all_recorded_frames-write_frames,
}
use real_time_paper_trading.Session.Truncation.{
  read_recorded_frame_truncated, read_all_recorded_frames_ends,
}

abbrev frame : RecordedFrame
frame = record { recv_ts_nanos = 1000000; raw = b'a' ∷ b'b' ∷ b'c' ∷ [] }

frame-IsFrame : IsFrame frame
frame-IsFrame = record { time = omega arith; size = omega arith }

test_bytes : bytes_of 4 0x50545253 ≡ 0x53 ∷ 0x52 ∷ 0x54 ∷ 0x50 ∷ []
unfolding bytes_of
test_bytes = refl

read_all_recorded_frames-write_frames_example :
    read_all_recorded_frames (write_frames (write_recorded_session_header []) (frame ∷ frame ∷ []))
    ≡ some (got (frame ∷ frame ∷ []))
read_all_recorded_frames-write_frames_example =
    read_all_recorded_frames-write_frames (frame ∷ frame ∷ []) (frame-IsFrame, (frame-IsFrame, tt))

five : 5 < length (frame_bytes frame)
unfolding bytes_of
five = omega arith

read_recorded_frame_truncated_example :
    read_recorded_frame (take 5 (frame_bytes frame))
    ≡ (if ltb 5 8 then ended else if ltb 5 12 then truncated_header else truncated_payload)
read_recorded_frame_truncated_example = read_recorded_frame_truncated frame 5 frame-IsFrame five

read_all_recorded_frames_ends_example :
    (r : Reading (List RecordedFrame)) × (read_all_recorded_frames (1 ∷ 2 ∷ 3 ∷ []) ≡ some r)
read_all_recorded_frames_ends_example = read_all_recorded_frames_ends (1 ∷ 2 ∷ 3 ∷ [])
