-- ===== src/Control.antt =====
-- engine/src/control/control_server.cpp and engine/proto/paper_trader.proto: the handlers of the
-- gRPC service over the registry. Each returns `grpc::Status::OK` and the response, or the stream,
-- given here. The values of an enum of the protocol are integers, since an enum of proto3 is open.
pub mod Watch
mod Tests
use real_time_paper_trading.Base.{
  ℕ, Bool, true, false, not, ◌||◌, ◌++◌, Option, none, some, List, [], ◌∷◌, if◌then◌else◌, Text, ℤ,
  pos, eqb_ℤ,
}
use real_time_paper_trading.Book.{BookSide, bid, ask}
use real_time_paper_trading.Matching
use real_time_paper_trading.Matching.{OrderType, market, limit, RejectReason, OrderResult, Fill}
use real_time_paper_trading.Registry
use real_time_paper_trading.Registry.{SymbolPrecision, Reason, SubscribeResult, SymbolRegistry}
use real_time_paper_trading.Registry.Orders.{push_fills, wait_for_fill}
use real_time_paper_trading.Registry.Orders

pub record SubscribeReply : Type 0 where
  pub ok : Bool
  pub reason : Reason

pub record PlaceOrderRequest : Type 0 where
  pub symbol : Text
  pub side : ℤ
  pub type : ℤ
  pub price_ticks : ℤ
  pub size_ticks : ℤ
  pub client_request_id : Text

pub record OrderReply : Type 0 where
  pub accepted : Bool
  pub engine_order_id : ℕ
  pub reject_reason : RejectReason
  pub filled_size_ticks : ℤ

pub record FillEvent : Type 0 where
  pub engine_order_id : ℕ
  pub price_ticks : ℤ
  pub size_ticks : ℤ
  pub ts : ℕ

unfoldable pub to_book_side : ℤ → BookSide
to_book_side side = if eqb_ℤ side (pos 1) then ask else bid

unfoldable pub to_order_type : ℤ → OrderType
to_order_type type = if eqb_ℤ type (pos 1) then limit else market

unfoldable pub fill_order_reply : OrderResult → OrderReply
fill_order_reply result = record {
  accepted = result.accepted;
  engine_order_id = result.order_id;
  reject_reason = result.reject_reason;
  filled_size_ticks = result.filled_size;
}

unfoldable pub subscribe_reply : SubscribeResult → SubscribeReply
subscribe_reply result = record { ok = result.ok; reason = result.reason }

unfoldable pub subscribe_book :
    SymbolRegistry → Text → Option SymbolPrecision → ℕ → SymbolRegistry × SubscribeReply
subscribe_book r symbol precision now =
    let (r', result) = Registry.subscribe r symbol precision now in (r', subscribe_reply result)

unfoldable pub unsubscribe_book : SymbolRegistry → Text → SymbolRegistry × SubscribeReply
unsubscribe_book r symbol =
    let (r', result) = Registry.unsubscribe r symbol in (r', subscribe_reply result)

module _ (now_nanos : ℕ → ℕ) where
  unfoldable pub place_order : SymbolRegistry → PlaceOrderRequest → SymbolRegistry × OrderReply
  place_order r request =
      let (r', result) =
        Orders.place_order now_nanos r request.symbol (to_book_side request.side)
          (to_order_type request.type) request.price_ticks request.size_ticks in
      (r', fill_order_reply result)

  unfoldable pub cancel_order : SymbolRegistry → ℕ → SymbolRegistry × OrderReply
  cancel_order r engine_order_id =
      let (r', result) = Orders.cancel_order now_nanos r engine_order_id in
      (r', fill_order_reply result)

-- One round of the loop of `WatchFills`: the fills that the symbols' threads have pushed since the
-- round before, whether the call is cancelled, and what `Write` returns.
pub record Round : Type 0 where
  pub pushed : List Fill
  pub cancelled : Bool
  pub connected : Bool

-- The registry, the events that were written with what `Write` returned, oldest first, and whether
-- the loop has been left.
pub record Watching : Type 0 where
  pub registry : SymbolRegistry
  pub written : List (FillEvent × Bool)
  pub left : Bool

unfoldable pub fill_event : Fill → FillEvent
fill_event fill = record {
  engine_order_id = fill.order_id;
  price_ticks = fill.price;
  size_ticks = fill.size;
  ts = fill.timestamp;
}

-- The body of the loop after the wait.
unfoldable pub write_fill : Bool → Watching → SymbolRegistry × Option Fill → Watching
write_fill connected w (r, none) = record w { registry = r }
write_fill connected w (r, some fill) = record {
  registry = r;
  written = w.written ++ ((fill_event fill, connected) ∷ []);
  left = not connected;
}

-- A round. Fills are pushed all the same where the loop has been left.
unfoldable pub watch_round : Watching → Round → Watching
watch_round w round =
    let r = push_fills w.registry round.pushed in
    if w.left || round.cancelled
    then record w { registry = r; left = true }
    else write_fill round.connected w (wait_for_fill r)

unfoldable pub watch_rounds : Watching → List Round → Watching
watch_rounds w [] = w
watch_rounds w (round ∷ rounds) = watch_rounds (watch_round w round) rounds

unfoldable pub watch_fills : SymbolRegistry → List Round → Watching
watch_fills r rounds = watch_rounds (record { registry = r; written = []; left = false }) rounds

pub record Service : Type 0 where
  pub symbol_registry : SymbolRegistry
  pub instance_id : ℕ

unfoldable pub get_engine_info : Service → ℕ
get_engine_info s = s.instance_id
