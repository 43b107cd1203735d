-- ===== src/Registry/Orders.antt =====
-- The orders of the registry (engine/src/symbol/symbol_registry.cpp): `placeOrder` and `cancelOrder`
-- up to the wait for the answer and after it, the inbox that the thread of a symbol drains, and the
-- queue of fills. The answer of a promise is `none` where the wait times out.
use real_time_paper_trading.Base.{
  ℕ, suc, ◌+◌, ◌%◌, ◌^◌, Option, none, some, List, [], ◌∷◌, ◌++◌, ◌==◌, if◌then◌else◌, length, drop,
  pos, Text,
}
use real_time_paper_trading.Base.Assoc.{lookup, erase, assign}
use real_time_paper_trading.Ticks.{Price, Quantity}
use real_time_paper_trading.Book.{BookSide, bid, OrderBook}
use real_time_paper_trading.Matching.{
  OrderType, market, Fill, MatchingEngine, OrderResult, RejectReason, symbol_not_subscribed,
  order_not_found, order_timed_out, cancel_timed_out, reject,
}
use real_time_paper_trading.Matching
use real_time_paper_trading.Client.{same_text}
use real_time_paper_trading.Registry.{Kind, place, cancel, OrderRequest, Entry, SymbolRegistry}

-- `inbox->requests.push_back`, at the entry of a symbol.
unfoldable pub push_request : SymbolRegistry → Text → Entry → OrderRequest → SymbolRegistry
push_request r key entry request = record r {
  entries = assign same_text key (record entry { inbox = entry.inbox ++ (request ∷ []) }) r.entries;
}

-- `orderIdToSymbol_[orderId] = key`
unfoldable pub put_symbol : ℕ → Text → List (ℕ × Text) → List (ℕ × Text)
put_symbol id key m = (id, key) ∷ erase ◌==◌ id m

-- `placeOrder` up to the wait: the identifier and the promise, or `none` without an entry.
unfoldable pub send_place :
    SymbolRegistry
    → Text
    → BookSide
    → OrderType
    → Price
    → Quantity
    → SymbolRegistry × Option (ℕ × ℕ)
unfolding push_request
send_place r key side type price size = elim (lookup same_text key r.entries) [
  | none ↦ (r, none)
  | some entry ↦ (
    push_request
        (record r {
          next_order_id = (r.next_order_id + 1) % 2 ^ 64;
          next_promise = suc r.next_promise;
        })
        key entry
        (record {
          kind = place;
          side = side;
          type = type;
          price = price;
          size = size;
          order_id = r.next_order_id;
          promise = r.next_promise;
        }),
    some (r.next_order_id, r.next_promise),
  )
]

-- `placeOrder` after the wait.
unfoldable pub finish_place :
    SymbolRegistry → Text → ℕ → Option OrderResult → SymbolRegistry × OrderResult
unfolding put_symbol
finish_place r key id none = (r, reject order_timed_out)
finish_place r key id (some result) = (
  if result.accepted
      then record r { order_id_to_symbol = put_symbol id key r.order_id_to_symbol }
      else r,
  result,
)

-- The symbol of an order, and its entry.
unfoldable pub find_order : SymbolRegistry → ℕ → Option (Text × Entry)
find_order r id = elim (lookup ◌==◌ id r.order_id_to_symbol) [
  | none ↦ none
  | some key ↦ elim (lookup same_text key r.entries) [
    | none ↦ none
    | some entry ↦ some (key, entry)
  ]
]

-- `cancelOrder` up to the wait: the promise, or `none` where the order is not found.
unfoldable pub send_cancel : SymbolRegistry → ℕ → SymbolRegistry × Option ℕ
unfolding push_request
send_cancel r id = elim (find_order r id) [
  | none ↦ (r, none)
  | some (key, entry) ↦ (
    push_request (record r { next_promise = suc r.next_promise }) key entry
        (record {
          kind = cancel;
          side = bid;
          type = market;
          price = pos 0;
          size = pos 0;
          order_id = id;
          promise = r.next_promise;
        }),
    some r.next_promise,
  )
]

unfoldable pub finish_cancel :
    SymbolRegistry → ℕ → Option OrderResult → SymbolRegistry × OrderResult
finish_cancel r id none = (r, reject cancel_timed_out)
finish_cancel r id (some result) = (
  if result.accepted
      then record r { order_id_to_symbol = erase ◌==◌ id r.order_id_to_symbol }
      else r,
  result,
)

-- `pushFill`
unfoldable pub push_fill : SymbolRegistry → Fill → SymbolRegistry
push_fill r fill = record r { fill_queue = r.fill_queue ++ (fill ∷ []) }

unfoldable pub push_fills : SymbolRegistry → List Fill → SymbolRegistry
push_fills r [] = r
push_fills r (fill ∷ fills) = push_fills (push_fill r fill) fills

-- `waitForFill`: `none` where the time runs out with an empty queue.
unfoldable pub take_fill : List Fill → Option (Fill × List Fill)
take_fill [] = none
take_fill (fill ∷ fills) = some (fill, fills)

unfoldable pub wait_for_fill : SymbolRegistry → SymbolRegistry × Option Fill
unfolding take_fill
wait_for_fill r = elim (take_fill r.fill_queue) [
  | none ↦ (r, none)
  | some (fill, fills) ↦ (record r { fill_queue = fills }, some fill)
]

module _ (now_nanos : ℕ → ℕ) (book : OrderBook) where
  -- The body of the loop of `drainInbox`.
  unfoldable pub answer : MatchingEngine → Kind → OrderRequest → MatchingEngine × OrderResult
  answer e place q = Matching.place_order now_nanos book e q.order_id q.side q.type q.price q.size
  answer e cancel q = Matching.cancel_order e q.order_id

  -- The loop: the engine, and the value of each promise, in the order in which they are set.
  unfoldable pub answer_all :
      MatchingEngine → List OrderRequest → MatchingEngine × List (ℕ × OrderResult)
  answer_all e [] = (e, [])
  answer_all e (q ∷ qs) =
      let (e', result) = answer e q.kind q in
      let (e'', results) = answer_all e' qs in (e'', (q.promise, result) ∷ results)

-- `drainInbox` of an entry, whose callback pushes each fill.
unfoldable pub drain_inbox :
    (ℕ → ℕ) → SymbolRegistry → Text → Entry → SymbolRegistry × List (ℕ × OrderResult)
drain_inbox now_nanos r key entry =
    let (e, results) = answer_all now_nanos entry.client.book entry.matching_engine entry.inbox in
    (
      push_fills
          (record r {
            entries =
                assign same_text key (record entry { matching_engine = e; inbox = [] }) r.entries;
          })
          (drop (length entry.matching_engine.fills) e.fills),
      results,
    )

-- The thread of a symbol drains its inbox once while a caller waits: the value of the promise.
unfoldable pub drained_answer :
    (ℕ → ℕ) → SymbolRegistry → Text → ℕ → SymbolRegistry × Option OrderResult
drained_answer now_nanos r key promise = elim (lookup same_text key r.entries) [
  | none ↦ (r, none)
  | some entry ↦
      (let (r', results) = drain_inbox now_nanos r key entry in (r', lookup ◌==◌ promise results))
]

unfoldable pub await_place :
    (ℕ → ℕ) → Text → SymbolRegistry × Option (ℕ × ℕ) → SymbolRegistry × OrderResult
await_place now_nanos key (r, none) = (r, reject symbol_not_subscribed)
await_place now_nanos key (r, some (id, promise)) =
    let (r', result) = drained_answer now_nanos r key promise in finish_place r' key id result

-- `placeOrder` where the thread of the symbol drains its inbox once during the wait.
unfoldable pub place_order :
    (ℕ → ℕ)
    → SymbolRegistry
    → Text
    → BookSide
    → OrderType
    → Price
    → Quantity
    → SymbolRegistry × OrderResult
place_order now_nanos r key side type price size =
    await_place now_nanos key (send_place r key side type price size)

unfoldable pub await_cancel :
    (ℕ → ℕ) → Option Text → ℕ → SymbolRegistry × Option ℕ → SymbolRegistry × OrderResult
await_cancel now_nanos none id (r, sent) = (r, reject order_not_found)
await_cancel now_nanos (some key) id (r, none) = (r, reject order_not_found)
await_cancel now_nanos (some key) id (r, some promise) =
    let (r', result) = drained_answer now_nanos r key promise in finish_cancel r' id result

-- `cancelOrder` likewise.
unfoldable pub cancel_order : (ℕ → ℕ) → SymbolRegistry → ℕ → SymbolRegistry × OrderResult
cancel_order now_nanos r id =
    await_cancel now_nanos (lookup ◌==◌ id r.order_id_to_symbol) id (send_cancel r id)
