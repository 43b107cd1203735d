-- ===== src/Registry/Delivery.antt =====
-- What the backend and the matching engine hear of the book
-- (engine/src/symbol/symbol_registry.cpp).
use real_time_paper_trading.Base.{
  ℕ, ◌-◌, ◌<◌, ◌≡◌, some, List, [], ◌∷◌, ◌++◌, length, replicate, Text,
}
use real_time_paper_trading.Ticks.{Price, Quantity}
use real_time_paper_trading.Book.{BookSide}
use real_time_paper_trading.Ring.{BookDelta, to_wire_side, try_push}
use real_time_paper_trading.Ring.Refine.{IsValid, contents, Queue, queue_push}
use real_time_paper_trading.Matching.{MatchingEngine, on_book_delta}
use real_time_paper_trading.Client.{Event, on_delta, on_snapshot, subscribed, unsubscribed, on_tick}
use real_time_paper_trading.Registry.Callbacks.{Feed, hear_all}

-- The deltas among events, as the ring carries them.
pub wire_deltas : Text → (Event → ℕ) → List Event → List BookDelta
wire_deltas key stamp [] = []
wire_deltas key stamp (on_delta side price quantity seq ∷ evs) =
    record {
      symbol = key ++ replicate (16 - length key) 0;
      seq = seq;
      engine_ts_nanos = stamp (on_delta side price quantity seq);
      side = to_wire_side side;
      price = price;
      size = quantity;
    }
    ∷ wire_deltas key stamp evs
wire_deltas key stamp (on_snapshot bids asks seq ∷ evs) = wire_deltas key stamp evs
wire_deltas key stamp (subscribed ∷ evs) = wire_deltas key stamp evs
wire_deltas key stamp (unsubscribed ∷ evs) = wire_deltas key stamp evs
wire_deltas key stamp (on_tick ∷ evs) = wire_deltas key stamp evs

pub push_all : Queue → List BookDelta → Queue
push_all q [] = q
push_all q (d ∷ ds) = push_all (queue_push q d).0 ds

-- The matching engine after the deltas among events.
pub engine_after : (ℕ → ℕ) → MatchingEngine → List Event → MatchingEngine
engine_after now_nanos e [] = e
engine_after now_nanos e (on_delta side price quantity seq ∷ evs) =
    engine_after now_nanos (on_book_delta now_nanos e side price quantity) evs
engine_after now_nanos e (on_snapshot bids asks seq ∷ evs) = engine_after now_nanos e evs
engine_after now_nanos e (subscribed ∷ evs) = engine_after now_nanos e evs
engine_after now_nanos e (unsubscribed ∷ evs) = engine_after now_nanos e evs
engine_after now_nanos e (on_tick ∷ evs) = engine_after now_nanos e evs

module _ (now_nanos : ℕ → ℕ) (key : Text) (stamp : Event → ℕ) (short : length key < 16) where
  -- What a feed has become, with the same ring and engine but for the deltas heard.
  pub record Heard (f : Feed) (evs : List Event) : Type 0 where
    pub after : Feed
    pub heard : hear_all now_nanos key stamp f evs ≡ some after
    pub valid : IsValid after.slot.delta_queue
    pub ring :
        contents after.slot.delta_queue
        ≡ push_all (contents f.slot.delta_queue) (wire_deltas key stamp evs)
    pub engine : after.engine ≡ engine_after now_nanos f.engine evs

  delta_of : BookSide → Price → Quantity → ℕ → BookDelta
  delta_of side price quantity seq = record {
    symbol = key ++ replicate (16 - length key) 0;
    seq = seq;
    engine_ts_nanos = stamp (on_delta side price quantity seq);
    side = to_wire_side side;
    price = price;
    size = quantity;
  }

  after_delta : Feed → BookSide → Price → Quantity → ℕ → Feed
  after_delta f side price quantity seq = record f {
    slot = record f.slot {
      delta_queue = (try_push f.slot.delta_queue (delta_of side price quantity seq)).0;
    };
    engine = on_book_delta now_nanos f.engine side price quantity;
  }
