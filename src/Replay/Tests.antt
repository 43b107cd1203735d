-- ===== src/Replay/Tests.antt =====
-- An instance of the law of the replayer: a session of two frames of the same snapshot.
use real_time_paper_trading.Base.{ℕ, ◌+◌, ◌≡◌, refl, true, some, none, [], ◌∷◌, List, Text}
use real_time_paper_trading.Parser.Names
use real_time_paper_trading.Parser.Json.{Json, quoted, token, number, end, member, item, reader_of}
use real_time_paper_trading.Session.{
  read_all_recorded_frames, read_recorded_session_header, number_of, read_frames,
  read_recorded_frame, read_bytes,
}
use real_time_paper_trading.Parser.{
  parse_book_message, parse_iterated, parse_document, channel_of, book_message, frame_of,
  message_type, parse_levels, parse_level,
}
use real_time_paper_trading.Parser.Json.{field_of, string_of, items_of, uint64_of, token_of}
use real_time_paper_trading.Client.{
  handle_message, apply_message, apply_both, apply_levels, apply_level, report, report_evicted,
  emit, emit_if, book_side, with_side, cleared_for, clear_book, publish_for, publish_snapshot,
  computed_checksum, same_text,
}
use real_time_paper_trading.Registry.{new_client, empty_book}
use real_time_paper_trading.Book.{apply_delta, clear, upserted, insert_at}
use real_time_paper_trading.Checksum.{compute_book_checksum}
use real_time_paper_trading.Base.{to_string, decimal, find, int64, ◌+ℤ◌, ◌*ℤ◌}
use real_time_paper_trading.Ticks.Decimal.{
  price_from_decimal_string, quantity_from_decimal_string, parse_fixed_point, parse_unsigned,
  digits_from, digits_to_int, take_sign, is_empty,
}
use real_time_paper_trading.Replay.{
  Args, exits, run_verify, load_frames, with_frames, verified, verify_frames, verify_frame,
  with_line, handle_raw, replay_client, golden_line, compared,
}
use real_time_paper_trading.Replay.Arguments.{
  default_args, kind_of, parsed, null_argument, switched, waiting_for, required, with_value,
  read_args, parse_args,
}
use real_time_paper_trading.Base.{ℤ, pos}
use real_time_paper_trading.Replay.Names as Texts
use real_time_paper_trading.Base.{Option}
use real_time_paper_trading.Session.{RecordedFrame}
use real_time_paper_trading.Client.{Client}
use real_time_paper_trading.Replay.Live.{Replaying}
use real_time_paper_trading.Replay.Pacing.{replayed}
use real_time_paper_trading.Replay.Verify.{Answers, run_verify_lem}

abbrev document : Json
document = member Names.channel (quoted Names.book) (
    member Names.type (quoted Names.snapshot) (
      member Names.payload
        (item
          (member Names.symbol (quoted (b'X' ∷ [])) (
            member Names.bids
              (item
                (member Names.price (token (b'4' ∷ b'5' ∷ []))
                  (member Names.qty (token (b'2' ∷ [])) end))
                end)
              (member Names.asks end (member Names.checksum (number 9) end))))
          end)
        end))

abbrev args : Args
args = record default_args { symbol = b'X' ∷ [] }

abbrev session : List ℕ
session =
    0x53 ∷ 0x52 ∷ 0x54 ∷ 0x50 ∷ 1 ∷ 0 ∷ 0 ∷ 0 ∷ 7 ∷ 0 ∷ 0 ∷ 0 ∷ 0 ∷ 0 ∷ 0 ∷ 0 ∷ 1 ∷ 0 ∷ 0 ∷ 0 ∷ b'{'
    ∷ 9 ∷ 0 ∷ 0 ∷ 0 ∷ 0 ∷ 0 ∷ 0 ∷ 0 ∷ 1 ∷ 0 ∷ 0 ∷ 0 ∷ b'{' ∷ []

abbrev golden : Text
golden = b'1' ∷ b' ' ∷ b'9' ∷ b'\n' ∷ b'2' ∷ b' ' ∷ b'9' ∷ b'\n' ∷ []

updated :
    run_verify
      (reader_of document)
      (λ t. 9)
      (λ i. i)
      (λ i. i)
      (record args { update_golden = true })
      0
      (some session)
      none
    ≡ exits 0 (some golden)
unfolding run_verify load_frames with_frames verified verify_frames verify_frame with_line
    handle_raw replay_client golden_line compared read_all_recorded_frames
    read_recorded_session_header number_of read_frames read_recorded_frame read_bytes
    parse_book_message parse_iterated parse_document channel_of book_message frame_of message_type
    parse_levels parse_level field_of string_of items_of uint64_of token_of handle_message
    apply_message apply_both apply_levels apply_level report report_evicted emit emit_if book_side
    with_side cleared_for clear_book publish_for publish_snapshot computed_checksum same_text
    new_client empty_book apply_delta clear compute_book_checksum to_string decimal find
    price_from_decimal_string quantity_from_decimal_string parse_fixed_point parse_unsigned
    digits_from digits_to_int take_sign is_empty int64 ◌+ℤ◌ ◌*ℤ◌ upserted insert_at
updated = refl

run_verify_example : Answers golden golden (
    run_verify
      (reader_of document)
      (λ t. 9)
      (λ i. i + 5)
      (λ i. i + 6)
      args
      3
      (some session)
      (some golden))
run_verify_example =
    run_verify_lem (reader_of document) (λ t. 9) args (λ i. i) (λ i. i) (λ i. i + 5) (λ i. i + 6) 0
      3 (some session) none golden golden updated

abbrev frame : ℕ → RecordedFrame
frame t = record { recv_ts_nanos = t; raw = b'{' ∷ [] }

abbrev fresh : Client
fresh = new_client (b'X' ∷ []) (record { pair_decimals = 1; lot_decimals = 8 }) 0

abbrev client_or_fresh : Option Client → Client
client_or_fresh none = fresh
client_or_fresh (some c) = c

abbrev played : Replaying
played = replayed (reader_of document) (λ t. 9) (λ i. i) (λ i. i) fresh (frame 7 ∷ frame 9 ∷ [])

abbrev two : Text → ℤ
two t = pos 2

abbrev verify_line : List Text
verify_line = Texts.verify ∷ Texts.golden ∷ (b'g' ∷ []) ∷ Texts.in_flag ∷ (b'f' ∷ []) ∷ []

verify_args :
    parse_args two verify_line
    ≡ parsed
        (record default_args { mode = Texts.verify; in_path = b'f' ∷ []; golden_path = b'g' ∷ [] })
unfolding parse_args read_args switched waiting_for with_value required kind_of same_text
verify_args = refl

no_value : parse_args two (Texts.bench ∷ Texts.in_flag ∷ []) ≡ null_argument
unfolding parse_args read_args switched waiting_for kind_of same_text
no_value = refl
