-- ===== src/Recorder/Tests.antt =====
-- An instance of the law of the recorder.
use real_time_paper_trading.Base.{
  ℕ, List, [], ◌∷◌, Text, ℤ, pos, ◌≡◌, refl, true, false, none, some, arith,
}
use real_time_paper_trading.Client.{same_text}
use real_time_paper_trading.Session.{got, read_all_recorded_frames}
use real_time_paper_trading.Recorder.{
  Args, default_args, flag_of, with_value, read_args, required, parse_args, Beat, is_over,
  connected, exits, deadline_of, main,
}
use real_time_paper_trading.Recorder.Frames.{lasting, frames_of, main_lem}
use real_time_paper_trading.Recorder.Names

-- The number of seconds is read as five whatever its text.
abbrev atoi : Text → ℤ
atoi t = pos 5

abbrev argv : List Text
argv = Names.duration ∷ (b'5' ∷ []) ∷ Names.out ∷ (b'f' ∷ []) ∷ Names.symbol ∷ []

abbrev args : Args
args = record default_args { out_path = b'f' ∷ []; duration_seconds = pos 5 }

accepted : parse_args atoi argv ≡ some args
unfolding parse_args read_args required with_value flag_of same_text
accepted = refl

-- The third is past the deadline.
abbrev beats : List Beat
beats =
    record { stop_requested = false; now = 100; received = some (b'{' ∷ []); now_nanos = 7 }
    ∷ record { stop_requested = false; now = 200; received = some (b'}' ∷ []); now_nanos = 9 }
    ∷ record { stop_requested = false; now = 5000000100; received = none; now_nanos = 11 }
    ∷ []

main_example :
    (file : List ℕ) × (main atoi argv true (connected 100 beats) ≡ exits 0 (some file))
    × (read_all_recorded_frames file
        ≡ some (got (frames_of (lasting (deadline_of args 100) beats))))
unfolding lasting frames_of is_over deadline_of
main_example = main_lem atoi argv args 100 beats accepted (
  record { time = omega arith; size = omega arith },
  (record { time = omega arith; size = omega arith }, tt),
)
