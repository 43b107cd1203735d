-- ===== src/Matching.antt =====
-- engine/include/engine/matching/paper_order.hpp, matching_engine.hpp and
-- engine/src/matching/matching_engine.cpp: simulated orders against the real book.
-- The book is the engine's `const OrderBook&`, an argument of each call. A call of the fill callback
-- is an entry of `fills`, oldest first, and `now_nanos n` is the reading of the clock at the n-th of
-- them. The two maps are association lists; the list of `restingOrders_` is in the order in which the
-- table is traversed.
pub mod Walk
pub mod Place
pub mod Delta
pub mod Level
pub mod Cancel
pub mod Invariant
pub mod Preserve
pub mod Reachable
mod Tests
use real_time_paper_trading.Base.{
  ℕ, Bool, true, false, not, ◌&&◌, ◌||◌, none, some, List, [], ◌∷◌, ◌++◌, ◌==◌, if◌then◌else◌,
  length, pos, ltb_ℤ, leb_ℤ, eqb_ℤ, min_ℤ, Text,
}
use real_time_paper_trading.Base.Assoc.{lookup, erase, emplace, assign}
use real_time_paper_trading.Ticks.{Price, Quantity, ◌-q◌}
use real_time_paper_trading.Book.{
  BookSide, bid, ask, PriceLevel, OrderBookSide, OrderBook, book_depth, depth, size_at_price,
}

pub data OrderType : Type 0 where
  market limit : OrderType

pub record PaperOrder : Type 0 where
  pub order_id : ℕ
  pub symbol : Text
  pub side : BookSide
  pub type : OrderType
  pub price : Price
  pub remaining_size : Quantity
  pub queue_ahead_size : Quantity
  pub inserted_at_seq : ℕ

pub record Fill : Type 0 where
  pub order_id : ℕ
  pub price : Price
  pub size : Quantity
  pub timestamp : ℕ

-- The texts of `rejectReason`, one constructor for each; the last three are the registry's.
pub data RejectReason : Type 0 where
  no_reason size_must_be_positive limit_price_must_be_positive order_not_found : RejectReason
  symbol_not_subscribed order_timed_out cancel_timed_out : RejectReason

pub record OrderResult : Type 0 where
  pub accepted : Bool
  pub order_id : ℕ
  pub reject_reason : RejectReason
  pub filled_size : Quantity

abbrev pub LevelKey : Type 0
LevelKey = BookSide × Price

unfoldable pub same_side : BookSide → BookSide → Bool
same_side bid bid = true
same_side bid ask = false
same_side ask bid = false
same_side ask ask = true

-- `==` on `LevelKey`
unfoldable pub same_key : LevelKey → LevelKey → Bool
unfolding same_side
same_key (s, p) (t, q) = same_side s t && eqb_ℤ p q

pub record MatchingEngine : Type 0 where
  pub symbol : Text
  pub on_fill : Bool
  pub resting_orders : List (ℕ × PaperOrder)
  pub last_observed_size : List (LevelKey × Quantity)
  pub fills : List Fill

unfoldable pub new_engine : Text → Bool → MatchingEngine
new_engine symbol on_fill = record {
  symbol = symbol;
  on_fill = on_fill;
  resting_orders = [];
  last_observed_size = [];
  fills = [];
}

unfoldable pub is_at : LevelKey → PaperOrder → Bool
is_at (s, p) o = same_side o.side s && eqb_ℤ o.price p

unfoldable pub any_resting_order_at : LevelKey → List (ℕ × PaperOrder) → Bool
any_resting_order_at key [] = false
any_resting_order_at key ((id, o) ∷ os) = is_at key o || any_resting_order_at key os

unfoldable pub reject : RejectReason → OrderResult
reject r = record { accepted = false; order_id = 0; reject_reason = r; filled_size = pos 0 }

unfoldable pub accept : ℕ → Quantity → OrderResult
accept id filled = record {
  accepted = true;
  order_id = id;
  reject_reason = no_reason;
  filled_size = filled;
}

unfoldable pub opposite_side : OrderBook → BookSide → OrderBookSide
opposite_side book bid = book.asks
opposite_side book ask = book.bids

unfoldable pub own_side : OrderBook → BookSide → OrderBookSide
own_side book bid = book.bids
own_side book ask = book.asks

-- Whether the walk may take a level: a market order takes all.
unfoldable pub crossed : BookSide → OrderType → Price → Price → Bool
crossed side market price level_price = true
crossed bid limit price level_price = leb_ℤ level_price price
crossed ask limit price level_price = leb_ℤ price level_price

unfoldable pub is_limit : OrderType → Bool
is_limit market = false
is_limit limit = true

-- `for (uint64_t id : fullyFilled) restingOrders_.erase(id);`
unfoldable pub erase_all : List ℕ → List (ℕ × PaperOrder) → List (ℕ × PaperOrder)
erase_all [] os = os
erase_all (id ∷ ids) os = erase_all ids (erase ◌==◌ id os)

-- `if (!anyRestingOrderAt(key)) lastObservedSize_.erase(key);`
unfoldable pub untrack_if_unused : LevelKey → MatchingEngine → MatchingEngine
untrack_if_unused key e =
    if not (any_resting_order_at key e.resting_orders)
    then record e { last_observed_size = erase same_key key e.last_observed_size }
    else e

-- The order that rests: behind the size that the book shows at its price.
unfoldable pub resting_order :
    OrderBook → Text → ℕ → BookSide → OrderType → Price → Quantity → PaperOrder
resting_order book symbol id side type price remaining = record {
  order_id = id;
  symbol = symbol;
  side = side;
  type = type;
  price = price;
  remaining_size = remaining;
  queue_ahead_size = size_at_price (own_side book side) price;
  inserted_at_seq = book.last_seq;
}

-- A limit order with a rest joins the resting orders, and its level is tracked.
unfoldable pub rest_order :
    OrderBook → MatchingEngine → ℕ → BookSide → OrderType → Price → Quantity → MatchingEngine
rest_order book e id side type price remaining =
    let order = resting_order book e.symbol id side type price remaining in
    record e {
      last_observed_size =
          emplace same_key (side, price) order.queue_ahead_size e.last_observed_size;
      resting_orders = emplace ◌==◌ id order e.resting_orders;
    }

unfoldable pub cancel_order : MatchingEngine → ℕ → MatchingEngine × OrderResult
unfolding reject accept
cancel_order e id = elim (lookup ◌==◌ id e.resting_orders) [
  | none ↦ (e, reject order_not_found)
  | some o ↦ (
    untrack_if_unused (o.side, o.price)
        (record e { resting_orders = erase ◌==◌ id e.resting_orders }),
    accept id (pos 0),
  )
]

module _ (now_nanos : ℕ → ℕ) where
  unfoldable pub emit_fill : MatchingEngine → ℕ → Price → Quantity → MatchingEngine
  emit_fill e id price size =
      if e.on_fill
      then record e {
        fills =
            e.fills
            ++ (record {
              order_id = id;
              price = price;
              size = size;
              timestamp = now_nanos (length e.fills);
            }
                ∷ []);
      }
      else e

  -- The loop of `placeOrder` over the levels: what remains of the order, and the engine.
  unfoldable pub walk :
      ℕ
      → BookSide
      → OrderType
      → Price
      → List PriceLevel
      → Quantity
      → MatchingEngine
      → Quantity × MatchingEngine
  walk id side type price [] remaining e = (remaining, e)
  walk id side type price (l ∷ ls) remaining e =
      let fill_size = min_ℤ remaining l.quantity in
      let rest =
        walk id side type price ls (remaining -q fill_size) (emit_fill e id l.price fill_size) in
      if leb_ℤ remaining (pos 0) || not (crossed side type price l.price)
      then (remaining, e)
      else rest

  unfoldable pub place_order :
      OrderBook
      → MatchingEngine
      → ℕ
      → BookSide
      → OrderType
      → Price
      → Quantity
      → MatchingEngine × OrderResult
  unfolding reject accept
  place_order book e id side type price size =
      let (remaining, e') =
        walk id side type price (depth (opposite_side book side) book_depth) size e in
      if leb_ℤ size (pos 0)
      then (e, reject size_must_be_positive)
      else if is_limit type && leb_ℤ price (pos 0)
      then (e, reject limit_price_must_be_positive)
      else if ltb_ℤ (pos 0) remaining && is_limit type
      then (rest_order book e' id side type price remaining, accept id (size -q remaining))
      else (e', accept id (size -q remaining))

  -- The body of the loop of `onBookDelta`: the order, the engine, and whether the order is filled.
  unfoldable pub reduce_one :
      LevelKey → Quantity → ℕ → PaperOrder → MatchingEngine → PaperOrder × MatchingEngine × Bool
  reduce_one key reduction id o e =
      let absorbed = min_ℤ o.queue_ahead_size reduction in
      let o' = record o { queue_ahead_size = o.queue_ahead_size -q absorbed } in
      let overflow = reduction -q absorbed in
      let fill_size = min_ℤ overflow o.remaining_size in
      let left = o.remaining_size -q fill_size in
      if not (is_at key o)
      then (o, e, false)
      else if ltb_ℤ (pos 0) overflow && ltb_ℤ (pos 0) o.remaining_size
      then (
        record o' { remaining_size = left },
        emit_fill e id o.price fill_size,
        eqb_ℤ left (pos 0),
      )
      else (o', e, false)

  -- The loop of `onBookDelta`: the orders, the identifiers of the filled ones, and the engine.
  unfoldable pub reduce_orders :
      LevelKey
      → Quantity
      → List (ℕ × PaperOrder)
      → MatchingEngine
      → List (ℕ × PaperOrder) × List ℕ × MatchingEngine
  reduce_orders key reduction [] e = ([], [], e)
  reduce_orders key reduction ((id, o) ∷ os) e =
      let (o', e', filled) = reduce_one key reduction id o e in
      let (os', ids, e'') = reduce_orders key reduction os e' in
      ((id, o') ∷ os', if filled then id ∷ ids else ids, e'')

  -- `onBookDelta` from the computation of `reduction` on.
  unfoldable pub reduce_level : LevelKey → Quantity → MatchingEngine → MatchingEngine
  reduce_level key reduction e =
      let (os, ids, e') = reduce_orders key reduction e.resting_orders e in
      untrack_if_unused key (record e' { resting_orders = erase_all ids os })

  unfoldable pub on_book_delta : MatchingEngine → BookSide → Price → Quantity → MatchingEngine
  on_book_delta e side price new_quantity =
      elim (lookup same_key (side, price) e.last_observed_size) [
        | none ↦ e
        | some previous ↦
            (let e' = record e {
              last_observed_size = assign same_key (side, price) new_quantity e.last_observed_size;
            } in
              if leb_ℤ previous new_quantity
              then e'
              else reduce_level (side, price) (previous -q new_quantity) e')
      ]
