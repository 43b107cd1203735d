-- ===== src/Registry/Callbacks.antt =====
-- The callbacks that the registry gives to the client of a symbol
-- (engine/src/symbol/symbol_registry.cpp): what they do to the slot of the symbol in shared memory and
-- to its matching engine. `none` where the symbol is too long for its field, which throws; `stamp` is
-- the reading of the system clock at an event. `onTick`, which drains the inbox, is in Orders.
use real_time_paper_trading.Base.{
  ℕ, ◌-◌, ◌%◌, ◌^◌, Option, none, some, List, [], ◌∷◌, ◌++◌, leb, if◌then◌else◌, length, take,
  replicate, min, pos, Text,
}
use real_time_paper_trading.Ticks.{Price, Quantity}
use real_time_paper_trading.Book.{BookSide, PriceLevel, book_depth}
use real_time_paper_trading.Ring.{BookDelta, to_wire_side, set_symbol, try_push}
use real_time_paper_trading.SharedMemory.{
  BookSnapshot, SymbolSlot, empty_delta, empty_snapshot, write_snapshot,
}
use real_time_paper_trading.Matching.{MatchingEngine, on_book_delta}
use real_time_paper_trading.Client.{Event, on_delta, on_snapshot, subscribed, unsubscribed, on_tick}

pub record Feed : Type 0 where
  pub slot : SymbolSlot
  pub engine : MatchingEngine

-- The delta of `onDelta`, as it goes into the ring.
unfoldable pub wire_delta : Text → ℕ → BookSide → Price → Quantity → ℕ → Option BookDelta
wire_delta key now side price quantity seq = elim (set_symbol empty_delta key) [
  | none ↦ none
  | some delta ↦ some (record delta {
    seq = seq;
    engine_ts_nanos = now;
    side = to_wire_side side;
    price = price;
    size = quantity;
  })
]

-- `snapshot.bids[i] = bids[i]`, for the first `n` levels of a row of zeros.
unfoldable pub copy_levels : List PriceLevel → ℕ → List PriceLevel
copy_levels levels n =
    take n levels ++ replicate (book_depth - n) (record { price = pos 0; quantity = pos 0 })

unfoldable pub set_snapshot_symbol : BookSnapshot → Text → Option BookSnapshot
set_snapshot_symbol s symbol =
    if leb 16 (length symbol)
    then none
    else some (record s { symbol = symbol ++ replicate (16 - length symbol) 0 })

-- The snapshot of `onSnapshot`.
unfoldable pub wire_snapshot :
    Text → ℕ → List PriceLevel → List PriceLevel → ℕ → Option BookSnapshot
wire_snapshot key now bids asks seq = elim (set_snapshot_symbol empty_snapshot key) [
  | none ↦ none
  | some snapshot ↦
      (let n = min (length bids) book_depth % 2 ^ 16 in
        let m = min (length asks) book_depth % 2 ^ 16 in
        some (record snapshot {
          seq = seq;
          engine_ts_nanos = now;
          num_bid_levels = n;
          num_ask_levels = m;
          bids = copy_levels bids n;
          asks = copy_levels asks m;
        }))
]

module _ (now_nanos : ℕ → ℕ) (key : Text) where
  -- `onDelta`
  unfoldable pub hear_delta : ℕ → Feed → BookSide → Price → Quantity → ℕ → Option Feed
  hear_delta now f side price quantity seq = elim (wire_delta key now side price quantity seq) [
    | none ↦ none
    | some delta ↦
        (let (delta_queue, pushed) = try_push f.slot.delta_queue delta in
          some (record f {
            slot = record f.slot { delta_queue = delta_queue };
            engine = on_book_delta now_nanos f.engine side price quantity;
          }))
  ]

  -- `onSnapshot`
  unfoldable pub hear_snapshot : ℕ → Feed → List PriceLevel → List PriceLevel → ℕ → Option Feed
  hear_snapshot now f bids asks seq = elim (wire_snapshot key now bids asks seq) [
    | none ↦ none
    | some snapshot ↦ some (record f {
      slot = record f.slot { snapshot_slot = write_snapshot f.slot.snapshot_slot snapshot };
    })
  ]

  unfoldable pub hear : (Event → ℕ) → Feed → Event → Option Feed
  hear stamp f (on_delta side price quantity seq) =
      hear_delta (stamp (on_delta side price quantity seq)) f side price quantity seq
  hear stamp f (on_snapshot bids asks seq) =
      hear_snapshot (stamp (on_snapshot bids asks seq)) f bids asks seq
  hear stamp f subscribed = some f
  hear stamp f unsubscribed = some f
  hear stamp f on_tick = some f

  -- The calls of the callbacks in the order in which the client makes them.
  unfoldable pub hear_all : (Event → ℕ) → Feed → List Event → Option Feed
  hear_all stamp f [] = some f
  hear_all stamp f (ev ∷ evs) = elim (hear stamp f ev) [
    | none ↦ none
    | some f' ↦ hear_all stamp f' evs
  ]
