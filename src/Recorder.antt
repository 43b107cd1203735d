-- ===== src/Recorder.antt =====
-- engine/tools/replay/recorder.cpp. `atoi` is that of the C library. The network is given by what it
-- does in the run: it fails before the loop, or each iteration of the loop finds what a `Beat` holds.
-- Writing the file does not fail once it is open, and what is printed is left out.
pub mod Names
pub mod Frames
mod Tests
use real_time_paper_trading.Base.{
  ℕ, ◌+◌, ◌*◌, Bool, true, false, ◌||◌, Option, none, some, List, [], ◌∷◌, leb, if◌then◌else◌, Text,
  ℤ, pos, pos_part,
}
use real_time_paper_trading.Client.{same_text}
use real_time_paper_trading.Session.{write_recorded_session_header, write_recorded_frame}
use real_time_paper_trading.Recorder.Names

pub record Args : Type 0 where
  pub symbol : Text
  pub out_path : Text
  pub duration_seconds : ℤ

abbrev pub default_args : Args
default_args = record { symbol = Names.btc_usd; out_path = []; duration_seconds = pos 300 }

pub data Flag : Type 0 where
  symbol_flag out_flag duration_flag : Flag

unfoldable pub flag_of : Text → Option Flag
flag_of arg =
    if same_text arg Names.symbol
    then some symbol_flag
    else if same_text arg Names.out
    then some out_flag
    else if same_text arg Names.duration
    then some duration_flag
    else none

module _ (atoi : Text → ℤ) where
  unfoldable pub with_value : Args → Flag → Text → Args
  with_value args symbol_flag value = record args { symbol = value }
  with_value args out_flag value = record args { out_path = value }
  with_value args duration_flag value = record args { duration_seconds = atoi value }

  -- The loop of `parseArgs`, with the flag that waits for its value. A flag at the end is skipped.
  unfoldable pub read_args : Args → Option Flag → List Text → Args
  read_args args pending [] = args
  read_args args none (arg ∷ rest) = read_args args (flag_of arg) rest
  read_args args (some flag) (value ∷ rest) = read_args (with_value args flag value) none rest

  -- `none` where it ends the program with status 2.
  unfoldable pub required : Args → Option Args
  required args = elim args.out_path [ [] ↦ none | c ∷ path ↦ some args ]

  unfoldable pub parse_args : List Text → Option Args
  parse_args argv = required (read_args default_args none argv)

-- What an iteration of the loop finds: `stopRequested` and the steady clock at the test, what `read`
-- gives, `none` where it throws, and the system clock after it, in nanoseconds.
pub record Beat : Type 0 where
  pub stop_requested : Bool
  pub now : ℕ
  pub received : Option Text
  pub now_nanos : ℕ

-- The test of the loop is false.
unfoldable pub is_over : ℕ → Beat → Bool
is_over deadline beat = beat.stop_requested || leb deadline beat.now

-- An iteration, by its test and by what is read, and the iterations after it.
unfoldable pub record_beat : Bool → Option Text → ℕ → List ℕ → (List ℕ → List ℕ) → List ℕ
record_beat true received now_nanos out next = out
record_beat false none now_nanos out next = out
record_beat false (some raw) now_nanos out next = next (write_recorded_frame out now_nanos raw)

-- The loop up to its end or to the exception.
unfoldable pub record_beats : ℕ → List Beat → List ℕ → List ℕ
record_beats deadline [] out = out
record_beats deadline (beat ∷ beats) out =
    record_beat (is_over deadline beat) beat.received beat.now_nanos out
      (record_beats deadline beats)

-- Before the loop: the name is not resolved or a handshake throws, the name of the host is not set, or
-- all goes well and the loop starts at a time of the steady clock.
pub data Network : Type 0 where
  unreachable no_host_name : Network
  connected : ℕ → List Beat → Network

-- The status of the program and the file that it leaves, or an exception that leaves `main`.
pub data Outcome : Type 0 where
  exits : ℕ → Option (List ℕ) → Outcome
  uncaught : List ℕ → Outcome

abbrev pub header : List ℕ
header = write_recorded_session_header []

-- The deadline; a duration below zero is over at once.
unfoldable pub deadline_of : Args → ℕ → ℕ
deadline_of args start = start + pos_part args.duration_seconds * 1000000000

unfoldable pub run_recorder : Args → Bool → Network → Outcome
run_recorder args false network = exits 1 none
run_recorder args true unreachable = uncaught header
run_recorder args true no_host_name = exits 1 (some header)
run_recorder args true (connected start beats) =
    exits 0 (some (record_beats (deadline_of args start) beats header))

-- `main`, with the arguments after the name of the program and whether the file opens.
unfoldable pub main : (Text → ℤ) → List Text → Bool → Network → Outcome
main atoi argv opens network = elim (parse_args atoi argv) [
  | none ↦ exits 2 none
  | some args ↦ run_recorder args opens network
]
