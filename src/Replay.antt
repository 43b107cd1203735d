-- ===== src/Replay.antt =====
-- engine/tools/replay/replayer.cpp in its mode `verify`. The paths of
-- the arguments are what they name: a file is the list of its bytes, `none` where it does not
-- open; writing a file does not fail. What is printed to the console is left out. `checked` and `now`
-- are the readings of the clock at a frame.
pub mod Names
pub mod Arguments
pub mod Pace
pub mod Live
pub mod Pacing
pub mod Verify
mod Tests
use real_time_paper_trading.Base.{
  ℕ, suc, ◌+◌, ◌-◌, ◌%◌, ◌^◌, Bool, true, false, not, Option, none, some, List, [], ◌∷◌, ◌++◌,
  if◌then◌else◌, Text, to_string, ℤ,
}
use real_time_paper_trading.Book.{OrderBook}
use real_time_paper_trading.Client.{Client, all_taken, if_finished, handle_message, same_text}
use real_time_paper_trading.Parser.{Simdjson, parse_book_message}
use real_time_paper_trading.Session.{
  RecordedFrame, Reading, got, ended, bad_magic_or_version, truncated_header, truncated_payload,
  read_all_recorded_frames,
}
use real_time_paper_trading.Registry.{new_client, empty_book}

pub record Args : Type 0 where
  pub mode : Text
  pub in_path : Text
  pub speed : Text
  pub factor : ℤ
  pub measure_pop : Bool
  pub golden_path : Text
  pub update_golden : Bool
  pub price_decimals : ℕ
  pub quantity_decimals : ℕ
  pub symbol : Text

-- The status that the program ends with and the golden file after it, or an exception that leaves
-- `main`.
pub data Outcome : Type 0 where
  exits : ℕ → Option Text → Outcome
  uncaught : Outcome

unfoldable pub replay_client : Args → ℕ → Client
replay_client args now =
    record (new_client args.symbol
      (record { pair_decimals = args.price_decimals; lot_decimals = args.quantity_decimals }) now) {
        book = empty_book [];
      }

unfoldable pub golden_line : OrderBook → Text
golden_line book =
    to_string book.last_seq ++ (b' ' ∷ []) ++ to_string book.last_check_sum ++ (b'\n' ∷ [])

-- After the update or against the golden file.
unfoldable pub compared : Bool → Text → Option Text → Outcome
compared true actual golden = exits 0 (some actual)
compared false actual none = exits 1 none
compared false actual (some golden) =
    exits (if not (same_text actual golden) then 1 else 0) (some golden)

unfoldable pub verified : Args → Option Text → Option (Client × Text) → Outcome
verified args golden none = uncaught
verified args golden (some (c, actual)) = compared args.update_golden actual golden

-- What follows `loadFrames`, with the frames of the file; the last case does not occur.
unfoldable pub with_frames :
    Option (Reading (List RecordedFrame)) → (List RecordedFrame → Outcome) → Outcome
with_frames (some (got frames)) next = next frames
with_frames (some ended) next = uncaught
with_frames (some bad_magic_or_version) next = uncaught
with_frames (some truncated_header) next = uncaught
with_frames (some truncated_payload) next = uncaught
with_frames none next = uncaught

unfoldable pub load_frames :
    Option (List ℕ) → Option Text → (List RecordedFrame → Outcome) → Outcome
load_frames none golden next = exits 1 golden
load_frames (some bytes) golden next = with_frames (read_all_recorded_frames bytes) next

module _ {Value : Type 0} (json : Simdjson Value) (crc32 : Text → ℕ) where
  module _ (checked now : ℕ → ℕ) where
    -- `handleMessage` of the text of the `i`-th frame; the client of a replay has no socket, so it
    -- writes nothing.
    unfoldable pub handle_raw : ℕ → Text → Client → Option Client
    handle_raw i raw c =
        if_finished
          (handle_message crc32 (checked i) (now i) all_taken (parse_book_message json raw) c)

    unfoldable pub with_line : Text → Option Client → Option (Client × Text)
    with_line actual none = none
    with_line actual (some c) = some (c, actual ++ golden_line c.book)

    -- The loop of `runVerify`: the client and what has been written, `none` after an exception.
    unfoldable pub verify_frame :
        ℕ → Option (Client × Text) → RecordedFrame → Option (Client × Text)
    verify_frame i none frame = none
    verify_frame i (some (c, actual)) frame = with_line actual (handle_raw i frame.raw c)

    unfoldable pub verify_frames :
        ℕ → Option (Client × Text) → List RecordedFrame → Option (Client × Text)
    verify_frames i run [] = run
    verify_frames i run (frame ∷ frames) = verify_frames (suc i) (verify_frame i run frame) frames

    unfoldable pub run_verify : Args → ℕ → Option (List ℕ) → Option Text → Outcome
    run_verify args started file golden = load_frames file golden (λ frames.
        verified args golden (verify_frames 0 (some (replay_client args started, [])) frames))
