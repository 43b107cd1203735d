-- ===== src/Registry/Timeout.antt =====
-- An order whose answer does not come in time (engine/src/symbol/symbol_registry.cpp).
use real_time_paper_trading.Base.{ℕ, ◌≡◌, refl, none, some, [], ◌==◌, Text}
use real_time_paper_trading.Base.Assoc.{lookup, assign}
use real_time_paper_trading.Ticks.{Price, Quantity}
use real_time_paper_trading.Book.{BookSide}
use real_time_paper_trading.Matching.{OrderType, reject, order_timed_out, order_not_found}
use real_time_paper_trading.Client.{same_text}
use real_time_paper_trading.Registry.{Entry, SymbolRegistry}
use real_time_paper_trading.Registry.Orders.{
  send_place, finish_place, drained_answer, find_order, send_cancel, await_cancel, cancel_order,
}
use real_time_paper_trading.Registry.Routing.{
  executed, sent, sent_registry, send_lem, drained_lem, drained_answer_lem, lookup-assign_here,
}

cancel_unknown :
    (now_nanos : ℕ → ℕ) (r : SymbolRegistry) (id : ℕ)
    → lookup ◌==◌ id r.order_id_to_symbol ≡ none
    → cancel_order now_nanos r id ≡ (r, reject order_not_found)
unfolding cancel_order send_cancel find_order await_cancel
cancel_unknown now_nanos r id h = rw (cancel_order, send_cancel, find_order, h) refl

-- An order whose wait times out is rejected to its caller, and the request stays in the inbox: when
-- the thread of the symbol drains it, the matching engine executes the order all the same, and a
-- cancellation of it is then refused as unknown, with nothing changed. The identifier leads to no
-- symbol before.
pub timed_out_order_executed :
    (now_nanos : ℕ → ℕ) (r : SymbolRegistry) (key : Text) (entry : Entry) (side : BookSide)
    (type : OrderType) (price : Price) (size : Quantity)
    → lookup same_text key r.entries ≡ some entry
    → lookup ◌==◌ r.next_order_id r.order_id_to_symbol ≡ none
    → let (waiting, result) =
        finish_place (send_place r key side type price size).0 key r.next_order_id none in
      let later = (drained_answer now_nanos waiting key r.next_promise).0 in
      (result ≡ reject order_timed_out)
      × (lookup same_text key later.entries
          ≡ some (record entry {
            matching_engine = (executed now_nanos r key entry side type price size).0;
            inbox = [];
          }))
      × (cancel_order now_nanos later r.next_order_id ≡ (later, reject order_not_found))
unfolding finish_place
timed_out_order_executed now_nanos r key entry side type price size h f =
    let s = sent now_nanos r key entry side type price size in
    let l : lookup same_text key (assign same_text key s r.entries) ≡ some s =
      lookup-assign_here key entry s r.entries h in
    let e =
      lookup-assign_here key s
        (record entry {
          matching_engine = (executed now_nanos r key entry side type price size).0;
          inbox = [];
        })
        (assign same_text key s r.entries) l in
    rw
      (
        send_lem now_nanos r key entry side type price size h,
        drained_answer_lem now_nanos (sent_registry now_nanos r key entry side type price size) key
            r.next_promise s l,
        drained_lem now_nanos r key entry side type price size,
      )
      (refl, e, cancel_unknown now_nanos _ r.next_order_id f)
