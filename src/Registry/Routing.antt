-- ===== src/Registry/Routing.antt =====
-- An order goes through the inbox to the matching engine of its symbol
-- (engine/src/symbol/symbol_registry.cpp).
use real_time_paper_trading.Base.{
  ℕ, suc, ◌+◌, ◌%◌, ◌^◌, ◌<◌, ◌≡◌, refl, sym, ap, subst, ◌∙◌, inl, inr, Bool-cases, some, List, [],
  ◌∷◌, ◌++◌, ◌==◌, if◌then◌else◌, All, length, drop, arith, Text,
}
use real_time_paper_trading.Base.Assoc.{lookup, assign}
use real_time_paper_trading.Ticks.{Price, Quantity}
use real_time_paper_trading.Book.{BookSide}
use real_time_paper_trading.Matching.{
  OrderType, Fill, MatchingEngine, OrderResult, reject, order_timed_out, order_not_found,
}
use real_time_paper_trading.Matching
use real_time_paper_trading.Client.{same_text}
use real_time_paper_trading.Registry.{OrderRequest, place, Entry, SymbolRegistry}
use real_time_paper_trading.Registry.Keys.{same_text_refl, lookup-assign}
use real_time_paper_trading.Registry.Inbox.{
  promises, push_fills_lem, answered-answer_all, answer_all-snoc, lookup-snoc,
}
use real_time_paper_trading.Registry.Orders.{
  push_request, put_symbol, send_place, finish_place, answer, answer_all, drain_inbox,
  drained_answer, await_place, place_order,
}

pub lookup-assign_here :
    (key : Text) (entry entry' : Entry) (m : List (Text × Entry))
    → lookup same_text key m ≡ some entry
    → lookup same_text key (assign same_text key entry' m) ≡ some entry'
lookup-assign_here key entry entry' m h =
    lookup-assign key key entry' entry m h ∙ rw (same_text_refl key) refl

drain_lem :
    (now_nanos : ℕ → ℕ) (r : SymbolRegistry) (key : Text) (entry : Entry)
    → let (e, results) = answer_all now_nanos entry.client.book entry.matching_engine entry.inbox in
      drain_inbox now_nanos r key entry ≡ (
        record r {
          entries =
              assign same_text key (record entry { matching_engine = e; inbox = [] }) r.entries;
          fill_queue = r.fill_queue ++ drop (length entry.matching_engine.fills) e.fills;
        },
        results,
      )
unfolding drain_inbox
drain_lem now_nanos r key entry =
    ap
      (λ (x : SymbolRegistry).
        (x, (answer_all now_nanos entry.client.book entry.matching_engine entry.inbox).1))
      (push_fills_lem _ _)

pub drained_answer_lem :
    (now_nanos : ℕ → ℕ) (r : SymbolRegistry) (key : Text) (promise : ℕ) (entry : Entry)
    → lookup same_text key r.entries ≡ some entry
    → drained_answer now_nanos r key promise ≡ (
      (drain_inbox now_nanos r key entry).0,
      lookup ◌==◌ promise (drain_inbox now_nanos r key entry).1,
    )
unfolding drained_answer
drained_answer_lem now_nanos r key promise entry h = rw (drained_answer, h) refl

-- The answers after the last request, in terms of the engine after the others.
abbrev pub engine_before : (ℕ → ℕ) → Entry → MatchingEngine
engine_before now_nanos entry =
    (answer_all now_nanos entry.client.book entry.matching_engine entry.inbox).0

lookup-put_symbol :
    (id : ℕ) (key : Text) (m : List (ℕ × Text)) → lookup ◌==◌ id (put_symbol id key m) ≡ some key
unfolding put_symbol lookup
lookup-put_symbol id key m = ground arith

module _ (now_nanos : ℕ → ℕ) (r : SymbolRegistry) (key : Text) (entry : Entry) (side : BookSide)
    (type : OrderType) (price : Price) (size : Quantity) where
  abbrev pub request : OrderRequest
  request = record {
    kind = place;
    side = side;
    type = type;
    price = price;
    size = size;
    order_id = r.next_order_id;
    promise = r.next_promise;
  }

  -- What the engine of the symbol does with the order, after the requests before it.
  abbrev pub executed : MatchingEngine × OrderResult
  executed =
      Matching.place_order now_nanos entry.client.book (engine_before now_nanos entry)
        r.next_order_id side type price size

  abbrev pub sent : Entry
  sent = record entry { inbox = entry.inbox ++ (request ∷ []) }

  abbrev pub sent_registry : SymbolRegistry
  sent_registry = record r {
    next_order_id = (r.next_order_id + 1) % 2 ^ 64;
    next_promise = suc r.next_promise;
    entries = assign same_text key sent r.entries;
  }

  pub send_lem :
      lookup same_text key r.entries ≡ some entry
      → send_place r key side type price size
        ≡ (sent_registry, some (r.next_order_id, r.next_promise))
  unfolding send_place push_request
  send_lem h = rw (send_place, h) refl

  pub drained_lem : drain_inbox now_nanos sent_registry key sent ≡ (
    record sent_registry {
      entries =
          assign same_text key
            (record entry { matching_engine = executed.0; inbox = [] })
            (assign same_text key sent r.entries);
      fill_queue = r.fill_queue ++ drop (length entry.matching_engine.fills) executed.0.fills;
    },
    (answer_all now_nanos entry.client.book entry.matching_engine entry.inbox).1
        ++ ((r.next_promise, executed.1) ∷ []),
  )
  unfolding answer
  drained_lem =
      drain_lem now_nanos sent_registry key sent
      ∙ ap
          (λ (a : MatchingEngine × List (ℕ × OrderResult)). (
            record sent_registry {
              entries =
                  assign same_text key (record entry { matching_engine = a.0; inbox = [] })
                    (assign same_text key sent r.entries);
              fill_queue = r.fill_queue ++ drop (length entry.matching_engine.fills) a.0.fills;
            },
            a.1,
          ))
          (answer_all-snoc now_nanos entry.client.book entry.matching_engine entry.inbox request)

  -- An order for a subscribed symbol whose thread drains its inbox while the caller waits gets the
  -- result that the matching engine of the symbol gives for a new identifier, after the requests that
  -- were in the inbox before it, on the book as it is. The engine is left as that leaves it, the
  -- inbox empty, the new fills at the end of the queue, and the identifier leads to the symbol just if
  -- the order is accepted. The promises in the inbox are older than the next one.
  pub place_order_lem :
      lookup same_text key r.entries ≡ some entry
      → All (λ p. p < r.next_promise) (promises entry.inbox)
      → let (r', result) = place_order now_nanos r key side type price size in
        (result ≡ executed.1)
        × (lookup same_text key r'.entries
            ≡ some (record entry { matching_engine = executed.0; inbox = [] }))
        × (r'.fill_queue
            ≡ r.fill_queue ++ drop (length entry.matching_engine.fills) executed.0.fills)
        × (lookup ◌==◌ r.next_order_id r'.order_id_to_symbol ≡ (
            if executed.1.accepted
            then some key
            else lookup ◌==◌ r.next_order_id r.order_id_to_symbol))
  unfolding place_order await_place finish_place
  place_order_lem h a =
      let l : lookup same_text key (assign same_text key sent r.entries) ≡ some sent =
        lookup-assign_here key entry sent r.entries h in
      let f : lookup ◌==◌ r.next_promise (
            (answer_all now_nanos entry.client.book entry.matching_engine entry.inbox).1
            ++ ((r.next_promise, executed.1) ∷ []))
          ≡ some executed.1 =
        lookup-snoc _ r.next_promise executed.1 (
          subst (All (λ p. p < r.next_promise))
            (sym
              (answered-answer_all now_nanos entry.client.book entry.matching_engine entry.inbox))
            a) in
      let e =
        lookup-assign_here key sent (record entry { matching_engine = executed.0; inbox = [] })
          (assign same_text key sent r.entries) l in
      rw
        (
          place_order,
          send_lem h,
          drained_answer_lem now_nanos sent_registry key r.next_promise sent l,
          drained_lem,
          f,
        )
        (elim (Bool-cases executed.1.accepted) [
          | inl y ↦ rw y (refl, e, refl, lookup-put_symbol r.next_order_id key r.order_id_to_symbol)
          | inr n ↦ rw n (refl, e, refl, refl)
        ])
