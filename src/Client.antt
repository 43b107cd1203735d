-- ===== src/Client.antt =====
-- engine/include/engine/market_data/kraken_book_client.hpp and
-- engine/src/market_data/kraken_book_client.cpp: applying the messages of the feed to the book.
-- The calls of the callbacks and the requests that the socket takes are `events`, oldest first. `crc32` is zlib's, and the readings of the clock are arguments.
pub mod Sides
pub mod Mirror
pub mod Follow
pub mod Resync
pub mod Numbers
pub mod Backoff
pub mod Core
pub mod Socket
mod Tests
use real_time_paper_trading.Base.{
  ℕ, zero, suc, ◌+◌, ◌-◌, ◌*◌, ◌%◌, ◌^◌, Bool, true, false, ◌||◌, not, Option, none, some, List, [],
  ◌∷◌, ◌++◌, leb, ◌==◌, if◌then◌else◌, pos, min, length, Text,
}
use real_time_paper_trading.Ticks.{Price, Quantity}
use real_time_paper_trading.Book.{
  BookSide, bid, ask, PriceLevel, OrderBookSide, OrderBook, apply_delta, clear, depth,
}
use real_time_paper_trading.Checksum.{checksum_depth, compute_book_checksum}

pub data BookMessageType : Type 0 where
  snapshot update : BookMessageType

-- A `BookLevelUpdate` has the fields of a `PriceLevel`.
pub record BookMessage : Type 0 where
  pub symbol : Text
  pub type : BookMessageType
  pub bids : List PriceLevel
  pub asks : List PriceLevel
  pub checksum : ℕ

pub data Event : Type 0 where
  on_delta : BookSide → Price → Quantity → ℕ → Event
  on_snapshot : List PriceLevel → List PriceLevel → ℕ → Event
  subscribed unsubscribed : Event
  on_tick : Event

pub record Client : Type 0 where
  pub symbol : Text
  pub book : OrderBook
  pub has_on_delta : Bool
  pub has_on_snapshot : Bool
  pub has_on_tick : Bool
  pub has_socket : Bool
  pub price_decimals : ℕ
  pub quantity_decimals : ℕ
  pub deltas_since_snapshot : ℕ
  pub last_snapshot_time : ℕ
  pub events : List Event

-- Nanoseconds of the steady clock.
abbrev pub snapshot_interval : ℕ
snapshot_interval = 5 * 10 ^ 9

abbrev pub snapshot_delta_threshold : ℕ
snapshot_delta_threshold = 500

unfoldable pub emit : Event → Client → Client
emit ev c = record c { events = c.events ++ (ev ∷ []) }

unfoldable pub emit_if : Bool → Event → Client → Client
unfolding emit
emit_if b ev c = if b then emit ev c else c

unfoldable pub book_side : OrderBook → BookSide → OrderBookSide
book_side book bid = book.bids
book_side book ask = book.asks

unfoldable pub with_side : OrderBook → BookSide → OrderBookSide → OrderBook
with_side book bid b = record book { bids = b }
with_side book ask b = record book { asks = b }

-- `++book_.lastSeq; ++deltasSinceSnapshot_;` and the callback with the new number.
unfoldable pub report : BookSide → Price → Quantity → Client → Client
unfolding emit_if
report side price quantity c =
    let seq = (c.book.last_seq + 1) % 2 ^ 64 in
    emit_if c.has_on_delta (on_delta side price quantity seq) (record c {
      book = record c.book { last_seq = seq };
      deltas_since_snapshot = (c.deltas_since_snapshot + 1) % 2 ^ 64;
    })

unfoldable pub report_evicted : BookSide → Option Price → Client → Client
report_evicted side none c = c
report_evicted side (some price) c = report side price (pos 0) c

-- The body of the two loops of `applyMessage`.
unfoldable pub apply_level : BookSide → Client → PriceLevel → Client
apply_level side c l =
    let (b, evicted) = apply_delta (book_side c.book side) l.price l.quantity in
    report_evicted side evicted
      (report side l.price l.quantity (record c { book = with_side c.book side b }))

unfoldable pub apply_levels : BookSide → Client → List PriceLevel → Client
apply_levels side c [] = c
apply_levels side c (l ∷ ls) = apply_levels side (apply_level side c l) ls

unfoldable pub clear_book : OrderBook → OrderBook
clear_book book = record book { bids = clear book.bids; asks = clear book.asks }

-- A call that returns, or one that an exception leaves, with the client after it.
pub data Written : Type 0 where
  finished aborted : Client → Written

unfoldable pub client_of : Written → Client
client_of (finished c) = c
client_of (aborted c) = c

unfoldable pub and_then : Written → (Client → Written) → Written
and_then (finished c) next = next c
and_then (aborted c) next = aborted c

-- `if (ws_) ws_->write(...)`, and whether the socket takes the request; the write throws otherwise.
unfoldable pub write : Bool → Bool → Event → Client → Written
unfolding emit
write false taken request c = finished c
write true true request c = finished (emit request c)
write true false request c = aborted c

unfoldable pub subscribe : Bool → Client → Written
subscribe taken c = write c.has_socket taken subscribed c

-- What returned.
abbrev pub if_finished : Written → Option Client
if_finished (finished c) = some c
if_finished (aborted c) = none

-- Whether the socket takes the two requests of a new subscription.
pub record Writes : Type 0 where
  pub takes_unsubscribe : Bool
  pub takes_subscribe : Bool

abbrev pub all_taken : Writes
all_taken = record { takes_unsubscribe = true; takes_subscribe = true }

unfoldable pub resubscribe_and_rebuild : Writes → Client → Written
unfolding and_then write subscribe
resubscribe_and_rebuild w c =
    and_then (write c.has_socket w.takes_unsubscribe unsubscribed c)
      (λ c'. subscribe w.takes_subscribe (record c' { book = clear_book c'.book }))

-- `depth` of the largest `size_t` is every level.
unfoldable pub publish_snapshot : ℕ → Client → Client
publish_snapshot now c =
    record (emit_if c.has_on_snapshot
      (on_snapshot (depth c.book.bids (2 ^ 64 - 1)) (depth c.book.asks (2 ^ 64 - 1))
        c.book.last_seq)
      c) { deltas_since_snapshot = 0; last_snapshot_time = now }

-- The two readings of the clock: for the test, and for the note of the time.
unfoldable pub maybe_publish_snapshot : ℕ → ℕ → Client → Client
maybe_publish_snapshot checked_at now c =
    if leb snapshot_delta_threshold c.deltas_since_snapshot
      || leb snapshot_interval (checked_at - c.last_snapshot_time)
    then publish_snapshot now c
    else c

unfoldable pub cleared_for : BookMessageType → Client → Client
cleared_for snapshot c = record c { book = clear_book c.book }
cleared_for update c = c

unfoldable pub publish_for : BookMessageType → ℕ → ℕ → Client → Client
publish_for snapshot checked_at now c = publish_snapshot now c
publish_for update checked_at now c = maybe_publish_snapshot checked_at now c

unfoldable pub same_text : Text → Text → Bool
same_text [] [] = true
same_text [] (d ∷ t) = false
same_text (c ∷ s) [] = false
same_text (c ∷ s) (d ∷ t) = let rest = same_text s t in if c == d then rest else false

-- The book after the levels of a message.
unfoldable pub apply_both : BookMessage → Client → Client
apply_both m c = apply_levels ask (apply_levels bid (cleared_for m.type c) m.bids) m.asks

-- What `parseBookMessage` makes of a frame: a book message, another message, or an exception.
pub data Frame : Type 0 where
  message : BookMessage → Frame
  other_message malformed : Frame

module _ (crc32 : Text → ℕ) where
  unfoldable pub computed_checksum : Client → ℕ
  computed_checksum c =
      compute_book_checksum crc32 (depth c.book.asks checksum_depth)
        (depth c.book.bids checksum_depth) c.price_decimals c.quantity_decimals

  unfoldable pub apply_message : ℕ → ℕ → Writes → BookMessage → Client → Written
  apply_message checked_at now w m c =
      let applied = apply_both m c in
      let computed = computed_checksum applied in
      let noted = record applied { book = record applied.book { last_check_sum = computed } } in
      if not (same_text m.symbol c.symbol)
      then finished c
      else if not (computed == m.checksum)
      then resubscribe_and_rebuild w noted
      else finished (publish_for m.type checked_at now noted)

  unfoldable pub handle_message : ℕ → ℕ → Writes → Frame → Client → Written
  unfolding and_then
  handle_message checked_at now w (message m) c =
      and_then (apply_message checked_at now w m c)
        (λ c'. finished (emit_if c'.has_on_tick on_tick c'))
  handle_message checked_at now w other_message c = finished (emit_if c.has_on_tick on_tick c)
  handle_message checked_at now w malformed c = aborted c

-- The wait before the next connection, in milliseconds.
abbrev pub initial_backoff : ℕ
initial_backoff = 500

abbrev pub max_backoff : ℕ
max_backoff = 32000

-- One round of the loop of `run`: whether the connection was made before it failed, the backoff, the
-- wait and the backoff of the next round.
unfoldable pub round_wait : Bool → ℕ → ℕ
round_wait connected backoff = if connected then initial_backoff else backoff

unfoldable pub next_backoff : ℕ → ℕ
next_backoff waited = min (waited * 2) max_backoff

-- The waits of a row of rounds, from a backoff.
unfoldable pub waits : ℕ → List Bool → List ℕ
waits backoff [] = []
waits backoff (connected ∷ rs) =
    round_wait connected backoff ∷ waits (next_backoff (round_wait connected backoff)) rs
