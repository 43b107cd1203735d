-- ===== src/Control/Tests.antt =====
-- An instance of the law of the stream of fills, and runs of the handlers.
use real_time_paper_trading.Base.{◌≡◌, refl, true, false, List, [], ◌∷◌, pos}
use real_time_paper_trading.Base.Assoc.{lookup}
use real_time_paper_trading.Book.{bid, ask}
use real_time_paper_trading.Matching.{Fill, limit, order_not_found, reject}
use real_time_paper_trading.Registry.{SymbolRegistry}
use real_time_paper_trading.Registry.Orders
use real_time_paper_trading.Control.{
  Round, to_book_side, to_order_type, fill_order_reply, cancel_order, watch_fills,
}
use real_time_paper_trading.Control.Watch.{IsSent, watch_fills_lem}

abbrev first : Fill
first = record { order_id = 4; price = pos 1000; size = pos 20; timestamp = 7 }

abbrev second : Fill
second = record { order_id = 5; price = pos 1010; size = pos 30; timestamp = 8 }

abbrev registry : SymbolRegistry
registry = record {
  entries = [];
  order_id_to_symbol = [];
  next_order_id = 6;
  next_promise = 0;
  shared_memory = record { magic = 0; version = 0; slots = [] };
  fill_queue = first ∷ [];
}

-- Two events are written, and the client is gone at the second.
abbrev rounds : List Round
rounds =
    record { pushed = second ∷ []; cancelled = false; connected = true }
    ∷ record { pushed = []; cancelled = false; connected = false }
    ∷ record { pushed = first ∷ []; cancelled = false; connected = true }
    ∷ []

watch_fills_example : IsSent registry rounds (watch_fills registry rounds)
watch_fills_example = watch_fills_lem registry rounds

ask_is_one : to_book_side (pos 1) ≡ ask
unfolding to_book_side
ask_is_one = refl

unknown_is_bid : to_book_side (pos 9) ≡ bid
unfolding to_book_side
unknown_is_bid = refl

limit_is_one : to_order_type (pos 1) ≡ limit
unfolding to_order_type
limit_is_one = refl

cancel_unknown : (cancel_order (λ n. n) registry 9).1.reject_reason ≡ order_not_found
unfolding cancel_order fill_order_reply Orders.cancel_order Orders.await_cancel lookup reject
cancel_unknown = refl
