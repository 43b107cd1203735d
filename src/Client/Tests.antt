-- ===== src/Client/Tests.antt =====
-- Instances of the laws of the client of the feed, and runs of its operations.
use real_time_paper_trading.Base.{
  ℕ, ◌≡◌, refl, inr, true, false, [], ◌∷◌, ◌++◌, arith, pos, length, ◌==◌, ◌&&◌, if◌then◌else◌,
}
use real_time_paper_trading.Ticks.{Price}
use real_time_paper_trading.Book.{
  BookSide, bid, ask, upserted, insert_at, OrderBook, apply_delta, size_at_price, quantity_or_zero,
  depth,
}
use real_time_paper_trading.Book.Positive.{IsBook}
use real_time_paper_trading.Base.{find, decimal, to_string, bits64}
use real_time_paper_trading.Ticks.Decimal.{format_fixed_point, pad_zeros, abs_ticks}
use real_time_paper_trading.Checksum.{
  without_dots, from_first_nonzero, zero_if_empty, strip_for_checksum, level_text,
  format_at_native_precision, append_levels, append_each, position, compute_book_checksum,
}
use real_time_paper_trading.Client.{
  BookMessage, update, Client, on_delta, apply_both, apply_level, report, report_evicted, with_side,
  cleared_for, apply_message, computed_checksum, apply_levels, book_side, same_text, Writes,
  client_of,
}
use real_time_paper_trading.Client.Sides.{AllAmounts}
use real_time_paper_trading.Client.Mirror.{view, view_from, InStep}
use real_time_paper_trading.Client.Follow.{apply_message-InStep}
use real_time_paper_trading.Client.Resync.{
  is_aborted, requests, Published, Recent, apply_message_mismatch, apply_message_fresh,
}
use real_time_paper_trading.Client.Numbers.{Reports, apply_both-Reports}

abbrev book : OrderBook
book = record {
  symbol = b'X' ∷ [];
  bids = record { side = bid; levels = [] };
  asks = record { side = ask; levels = [] };
  last_seq = 41;
  last_check_sum = 0;
}

book-IsBook : IsBook book
book-IsBook = record {
  bids = record { side = refl; valid = record { sorted = tt; bounded = omega arith }; sizes = tt };
  asks = record { side = refl; valid = record { sorted = tt; bounded = omega arith }; sizes = tt };
}

abbrev client : Client
client = record {
  symbol = b'X' ∷ [];
  book = book;
  has_on_delta = true;
  has_on_snapshot = true;
  has_on_tick = false;
  has_socket = true;
  price_decimals = 0;
  quantity_decimals = 0;
  deltas_since_snapshot = 0;
  last_snapshot_time = 0;
  events = [];
}

client-InStep : InStep client
unfolding view size_at_price book_side view_from quantity_or_zero
client-InStep = record { same = same }
  where
    same : (t : BookSide) (x : Price) → view client t x ≡ size_at_price (book_side book t) x
    same bid x = refl
    same ask x = refl

-- One bid and one ask.
abbrev message : ℕ → BookMessage
message checksum = record {
  symbol = b'X' ∷ [];
  type = update;
  bids = record { price = pos 100; quantity = pos 7 } ∷ [];
  asks = record { price = pos 105; quantity = pos 3 } ∷ [];
  checksum = checksum;
}

test_events :
    (apply_both (message 0) client).events
    ≡ on_delta bid (pos 100) (pos 7) 42 ∷ on_delta ask (pos 105) (pos 3) 43 ∷ []
unfolding apply_both apply_levels apply_level report_evicted apply_delta upserted book_side
    cleared_for insert_at report with_side
test_events = refl

-- With the length of the text in place of its sum, the checksum of the message is 4.
right : (computed_checksum length (apply_both (message 4) client) == 4) ≡ true
unfolding computed_checksum compute_book_checksum append_levels append_each level_text
    strip_for_checksum without_dots from_first_nonzero zero_if_empty format_at_native_precision
    position format_fixed_point pad_zeros abs_ticks to_string decimal find bits64 depth apply_both
    apply_levels apply_level report_evicted apply_delta upserted book_side cleared_for insert_at
    report with_side
right = refl

wrong : (computed_checksum length (apply_both (message 5) client) == 5) ≡ false
unfolding computed_checksum compute_book_checksum append_levels append_each level_text
    strip_for_checksum without_dots from_first_nonzero zero_if_empty format_at_native_precision
    position format_fixed_point pad_zeros abs_ticks to_string decimal find bits64 depth apply_both
    apply_levels apply_level report_evicted apply_delta upserted book_side cleared_for insert_at
    report with_side
wrong = refl

same_symbol : same_text (b'X' ∷ []) (b'X' ∷ []) ≡ true
unfolding same_text
same_symbol = refl

bids-AllAmounts : AllAmounts (message 0).bids
bids-AllAmounts = (ground arith, tt)

asks-AllAmounts : AllAmounts (message 0).asks
asks-AllAmounts = (ground arith, tt)

-- The socket takes the first request only.
abbrev breaking : Writes
breaking = record { takes_unsubscribe = true; takes_subscribe = false }

apply_message-InStep_example :
    InStep (client_of (apply_message length 10 20 breaking (message 4) client))
apply_message-InStep_example =
    apply_message-InStep length 10 20 breaking (message 4) client same_symbol right bids-AllAmounts
      asks-AllAmounts (record { deltas = refl; snapshots = refl }) book-IsBook (inr client-InStep)

apply_message_mismatch_example :
    let a = apply_both (message 5) client in
    let o = apply_message length 10 20 breaking (message 5) client in
    let c' = client_of o in
    let kept = a.has_socket && false in
    (is_aborted o ≡ (a.has_socket && true))
    × (c'.book.bids.levels ≡ (if kept then a.book.bids.levels else []))
    × (c'.book.asks.levels ≡ (if kept then a.book.asks.levels else []))
    × (c'.book.last_seq ≡ a.book.last_seq)
    × (c'.events ≡ a.events ++ requests a.has_socket true false)
apply_message_mismatch_example =
    apply_message_mismatch length 10 20 breaking (message 5) client same_symbol wrong

apply_message_fresh_example :
    let o = apply_message length 10 20 breaking (message 4) client in
    (is_aborted o ≡ false)
    × Published update 10 20 (apply_both (message 4) client) (client_of o)
    × Recent 10 (client_of o)
apply_message_fresh_example =
    apply_message_fresh length 10 20 breaking (message 4) client same_symbol right (omega arith)

apply_both-Reports_example : Reports 2 4 client (apply_both (message 4) client)
apply_both-Reports_example = apply_both-Reports (message 4) client refl
