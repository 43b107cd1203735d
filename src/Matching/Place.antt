-- ===== src/Matching/Place.antt =====
-- What `placeOrder` promises (engine/src/matching/matching_engine.cpp).
use real_time_paper_trading.Base.{
  ℕ, ◌-◌, ◌≤◌, ◌≡◌, refl, ap, subst, ◌∙◌, Bool, true, false, not, ◌&&◌, ◌||◌, some, List, ◌++◌,
  arith, if◌then◌else◌, min, length, take_all, All, pos, pos_part, ltb, ◌==◌, ltb_ℤ,
}
use real_time_paper_trading.Base.Assoc.{lookup, contains, lookup-emplace_fresh}
use real_time_paper_trading.Ticks.{Price, Quantity, ◌-q◌}
use real_time_paper_trading.Ticks.Amounts.{IsSize, amount_eq, sub_rest}
use real_time_paper_trading.Book.{
  BookSide, bid, ask, PriceLevel, OrderBookSide, OrderBook, book_depth, depth,
}
use real_time_paper_trading.Book.Sorted.{IsValid, Sorted}
use real_time_paper_trading.Book.Positive.{IsBook, IsSideOf}
use real_time_paper_trading.Matching.{
  OrderType, Fill, MatchingEngine, walk, is_limit, opposite_side, resting_order, rest_order,
  place_order,
}
use real_time_paper_trading.Matching.Walk.{
  other, available, walk_remaining, walk_fills, walk-Keeps, Keeps, IsGoodFill, total,
}

pub depth_all : (b : OrderBookSide) → IsValid b → depth b book_depth ≡ b.levels
unfolding depth
depth_all b v = take_all (min book_depth (length b.levels)) b.levels (omega (arith, v.bounded))

opposite_side-IsSideOf :
    (book : OrderBook) (s : BookSide) → IsBook book → IsSideOf (other s) (opposite_side book s)
unfolding opposite_side
opposite_side-IsSideOf book bid b = b.asks
opposite_side-IsSideOf book ask b = b.bids

-- The levels that the order is matched against.
abbrev pub opposite_levels : OrderBook → BookSide → List PriceLevel
opposite_levels book s = (opposite_side book s).levels

-- What `placeOrder` asks of an order.
abbrev pub is_acceptable : OrderType → Price → Quantity → Bool
is_acceptable type price size = ltb_ℤ (pos 0) size && (not (is_limit type) || ltb_ℤ (pos 0) price)

fills_kept :
    (book : OrderBook) (w : MatchingEngine) (id : ℕ) (side : BookSide) (type : OrderType)
    (price : Price) (r : Quantity) (b : Bool)
    → (if b then rest_order book w id side type price r else w).fills ≡ w.fills
unfolding rest_order
fills_kept book w id side type price r true = refl
fills_kept book w id side type price r false = refl

rests_lem :
    (book : OrderBook) (e w : MatchingEngine) (id : ℕ) (side : BookSide) (type : OrderType)
    (price : Price) (r : Quantity) (n a j : ℕ)
    → Keeps e w
    → contains ◌==◌ id e.resting_orders ≡ false
    → r ≡ pos (n - a)
    → lookup ◌==◌ j
        (if ltb_ℤ (pos 0) r && is_limit type
          then rest_order book w id side type price r
          else w).resting_orders
      ≡ (if id == j && is_limit type && ltb (min n a) n
          then some (resting_order book e.symbol id side type price (pos (n - min n a)))
          else lookup ◌==◌ j e.resting_orders)
unfolding rest_order
rests_lem book e w id side type price r n a j k f h =
    let o = resting_order book w.symbol id side type price (pos (n - a)) in
    rw h (ground (arith, lookup-emplace_fresh ◌==◌ j id o e.resting_orders f, same_rest n a))
  where
    same_rest : (m b : ℕ) → m - min m b ≡ m - b
    same_rest m b = omega arith

module _ (now_nanos : ℕ → ℕ) (book : OrderBook) (e : MatchingEngine) (id : ℕ) (side : BookSide)
    (type : OrderType) (price : Price) (size : Quantity) where
  -- An order is accepted exactly if its size is positive and, for a limit order, its price is.
  pub place_order_accepted :
      (place_order now_nanos book e id side type price size).1.accepted
      ≡ is_acceptable type price size
  unfolding place_order
  place_order_accepted = ground arith

  -- A rejected order fills nothing and leaves the engine as it was.
  pub place_order_rejected :
      is_acceptable type price size ≡ false
      → ((place_order now_nanos book e id side type price size).0 ≡ e)
        × ((place_order now_nanos book e id side type price size).1.filled_size ≡ pos 0)
  unfolding place_order
  place_order_rejected h = ground arith

  -- The walk that an accepted order makes.
  abbrev pub walked : Quantity × MatchingEngine
  walked = walk now_nanos id side type price (depth (opposite_side book side) book_depth) size e

  abbrev pub left_over : Bool
  left_over = ltb_ℤ (pos 0) walked.0 && is_limit type

  -- An accepted order, in terms of its walk.
  pub accepted_lem :
      is_acceptable type price size ≡ true
      → ((place_order now_nanos book e id side type price size).0
          ≡ (if left_over then rest_order book walked.1 id side type price walked.0 else walked.1))
        × ((place_order now_nanos book e id side type price size).1.filled_size ≡ size -q walked.0)
  unfolding place_order
  accepted_lem h = ground arith

  module _ (on_book : IsBook book) (positive : IsSize size) where
    against : IsSideOf (other side) (opposite_side book side)
    against = opposite_side-IsSideOf book side on_book

    depth_levels : depth (opposite_side book side) book_depth ≡ opposite_levels book side
    depth_levels = depth_all (opposite_side book side) against.valid

    pub walked_remaining :
        walked.0 ≡ pos (pos_part size - available side type price (opposite_levels book side))
    walked_remaining =
        rw (depth_levels, amount_eq size (omega arith))
          (walk_remaining now_nanos id side type price (opposite_levels book side) (pos_part size) e
            positive.1.0 against.sizes
            (subst (λ s. Sorted s (opposite_levels book side)) against.side against.valid.sorted))

    walked_fills :
        e.on_fill ≡ true
        → (ns : List Fill) × (walked.1.fills ≡ e.fills ++ ns)
          × All (IsGoodFill id side type price) ns
          × (walked.0 ≡ pos (pos_part size - total ns))
          × (total ns ≤ pos_part size)
    walked_fills c =
        rw (depth_levels, amount_eq size (omega arith))
          (walk_fills now_nanos id side type price (opposite_levels book side) (pos_part size) e
            positive.1.0 against.sizes c)

    -- An accepted order is filled at once by the smaller of its size and the sum of all sizes on the
    -- opposite side at prices that it allows.
    pub place_order_filled :
        is_acceptable type price size ≡ true
        → (place_order now_nanos book e id side type price size).1.filled_size
          ≡ pos (min (pos_part size) (available side type price (opposite_levels book side)))
    place_order_filled h =
        (accepted_lem h).1 ∙ ap (λ r. size -q r) walked_remaining ∙ sub_rest size _ positive

    -- Each fill that an accepted order causes is its own, of a positive size and at a price that it
    -- allows, and their sizes sum to the filled size of the result.
    pub place_order_fills :
        is_acceptable type price size ≡ true
        → e.on_fill ≡ true
        → let (e', result) = place_order now_nanos book e id side type price size in
          (ns : List Fill) × (e'.fills ≡ e.fills ++ ns)
          × All (IsGoodFill id side type price) ns
          × (result.filled_size ≡ pos (total ns))
    place_order_fills h c =
        let (ns, p, g, r, t) = walked_fills c in
        (
          ns,
          ap MatchingEngine.fills (accepted_lem h).0
              ∙ fills_kept book walked.1 id side type price walked.0 left_over
              ∙ p,
          g,
          (accepted_lem h).1
              ∙ ap (λ q. size -q q) r
              ∙ sub_rest size (total ns) positive
              ∙ ap pos (omega arith),
        )

    -- What an accepted order with a fresh identifier leaves of the resting orders: its unfilled rest,
    -- if it is a limit order and there is one, and every other order as it was.
    pub place_order_rests :
        is_acceptable type price size ≡ true
        → contains ◌==◌ id e.resting_orders ≡ false
        → (j : ℕ)
        → let filled =
            min (pos_part size) (available side type price (opposite_levels book side)) in
          lookup ◌==◌ j (place_order now_nanos book e id side type price size).0.resting_orders ≡ (
            if id == j && is_limit type && ltb filled (pos_part size)
            then some
                (resting_order book e.symbol id side type price (pos (pos_part size - filled)))
            else lookup ◌==◌ j e.resting_orders)
    place_order_rests h f j =
        ap (λ m. lookup ◌==◌ j m.resting_orders) (accepted_lem h).0
        ∙ rests_lem book e walked.1 id side type price walked.0 (pos_part size)
            (available side type price (opposite_levels book side)) j
            (walk-Keeps now_nanos id side type price _ size e) f walked_remaining
