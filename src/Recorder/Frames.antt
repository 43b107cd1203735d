-- ===== src/Recorder/Frames.antt =====
-- The file of the recorder, read back (engine/tools/replay/recorder.cpp).
use real_time_paper_trading.Base.{
  ℕ, Bool, true, false, Option, none, some, List, [], ◌∷◌, if◌then◌else◌, Text, ℤ, ◌≡◌, refl, ap,
  sym, ◌++◌, ◌∙◌, All,
}
use real_time_paper_trading.Session.{
  RecordedFrame, got, read_all_recorded_frames, write_recorded_frame,
}
use real_time_paper_trading.Session.RoundTrip.{
  IsFrame, write_frames, read_all_recorded_frames-write_frames,
}
use real_time_paper_trading.Recorder.{
  Args, parse_args, Beat, is_over, record_beat, record_beats, connected, exits, header, deadline_of,
  run_recorder, main,
}

abbrev is_some : Option Text → Bool
is_some none = false
is_some (some raw) = true

abbrev frame_with : Option Text → ℕ → List RecordedFrame
frame_with none n = []
frame_with (some raw) n = record { recv_ts_nanos = n; raw = raw } ∷ []

-- The iterations whose test holds, up to the first in which the test or the read fails.
unfoldable pub lasting : ℕ → List Beat → List Beat
lasting deadline [] = []
lasting deadline (beat ∷ beats) =
    let rest = lasting deadline beats in
    if is_over deadline beat then [] else if is_some beat.received then beat ∷ rest else []

-- What they read, with the time after it.
unfoldable pub frames_of : List Beat → List RecordedFrame
frames_of [] = []
frames_of (beat ∷ beats) = frame_with beat.received beat.now_nanos ++ frames_of beats

-- One iteration and the rest, on both sides.
record_beat_lem :
    (over : Bool) (received : Option Text) (n : ℕ) (out : List ℕ) (next : List ℕ → List ℕ)
    (fs : List RecordedFrame)
    → ((o : List ℕ) → next o ≡ write_frames o fs)
    → record_beat over received n out next
      ≡ write_frames out
          (if over then [] else if is_some received then frame_with received n ++ fs else [])
unfolding record_beat write_frames
record_beat_lem true received n out next fs ih = refl
record_beat_lem false none n out next fs ih = refl
record_beat_lem false (some raw) n out next fs ih = ih (write_recorded_frame out n raw)

frames_of-if :
    (b : Bool) (beats : List Beat)
    → frames_of (if b then beats else []) ≡ (if b then frames_of beats else [])
unfolding frames_of
frames_of-if true beats = refl
frames_of-if false beats = refl

frames_of-unless :
    (b : Bool) (beats : List Beat)
    → frames_of (if b then [] else beats) ≡ (if b then [] else frames_of beats)
unfolding frames_of
frames_of-unless true beats = refl
frames_of-unless false beats = refl

record_beats_lem :
    (deadline : ℕ) (beats : List Beat) (out : List ℕ)
    → record_beats deadline beats out ≡ write_frames out (frames_of (lasting deadline beats))
unfolding record_beats lasting frames_of write_frames
record_beats_lem deadline [] out = refl
record_beats_lem deadline (beat ∷ beats) out =
    record_beat_lem (is_over deadline beat) beat.received beat.now_nanos out
      (record_beats deadline beats) (frames_of (lasting deadline beats))
      (record_beats_lem deadline beats)
    ∙ ap (write_frames out) (
        sym (
          frames_of-unless (is_over deadline beat) _
          ∙ ap (λ fs. if is_over deadline beat then [] else fs)
              (frames_of-if (is_some beat.received) (beat ∷ lasting deadline beats))))

-- A run of the recorder whose file opens and which connects ends with status 0, and its file is read
-- back as the frames that it received, each with its time and in their order, up to the first
-- iteration at which it was interrupted, its time was over or the connection failed, if each time fits
-- 64 bits and the length of each frame 32 bits.
pub main_lem :
    (atoi : Text → ℤ) (argv : List Text) (args : Args) (start : ℕ) (beats : List Beat)
    → parse_args atoi argv ≡ some args
    → All IsFrame (frames_of (lasting (deadline_of args start) beats))
    → (file : List ℕ) × (main atoi argv true (connected start beats) ≡ exits 0 (some file))
      × (read_all_recorded_frames file
          ≡ some (got (frames_of (lasting (deadline_of args start) beats))))
unfolding main run_recorder
main_lem atoi argv args start beats e fits =
    let frames = frames_of (lasting (deadline_of args start) beats) in
    (
      write_frames header frames,
      rw (main, e)
          (ap (λ file. exits 0 (some file))
            (record_beats_lem (deadline_of args start) beats header)),
      read_all_recorded_frames-write_frames frames fits,
    )
