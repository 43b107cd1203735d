-- ===== src/Matching/Tests.antt =====
-- Instances of the laws of the matching engine, and runs of its operations.
use real_time_paper_trading.Base.{
  ℕ, ◌≡◌, refl, some, List, [], ◌∷◌, arith, All, map, pos, ◌==◌, true,
}
use real_time_paper_trading.Base.Assoc.{lookup, contains}
use real_time_paper_trading.Book.{bid, ask, OrderBook, better}
use real_time_paper_trading.Matching.{
  opposite_side, limit, Fill, MatchingEngine, resting_order, place_order, on_book_delta, new_engine,
  is_limit, crossed, is_at, same_key,
}
use real_time_paper_trading.Matching.Walk.{available, IsGoodFill, total}
use real_time_paper_trading.Matching.Place.{
  place_order_filled, place_order_fills, place_order_rests,
}
use real_time_paper_trading.Book.Positive.{IsBook}
use real_time_paper_trading.Matching.Delta.{survivors, deals, deal_of}
use real_time_paper_trading.Matching.Level.{on_book_delta_shrinks}
use real_time_paper_trading.Matching.Invariant.{IsConsistentEngine}
use real_time_paper_trading.Matching.Reachable.{Reach, here, next, place, Reach-IsConsistent}

abbrev clock : ℕ → ℕ
clock n = n

abbrev book : OrderBook
book = record {
  symbol = [];
  bids = record { side = bid; levels = record { price = pos 99; quantity = pos 8 } ∷ [] };
  asks = record {
    side = ask;
    levels =
        record { price = pos 100; quantity = pos 3 }
        ∷ record { price = pos 101; quantity = pos 5 }
        ∷ [];
  };
  last_seq = 3;
  last_check_sum = 0;
}

book-IsBook : IsBook book
unfolding better
book-IsBook = record {
  bids = record {
    side = refl;
    valid = record { sorted = (tt, tt); bounded = omega arith };
    sizes = omega arith;
  };
  asks = record {
    side = refl;
    valid = record { sorted = ((refl, tt), (tt, tt)); bounded = omega arith };
    sizes = omega arith;
  };
}

abbrev fresh : MatchingEngine
fresh = record {
  symbol = [];
  on_fill = true;
  resting_orders = [];
  last_observed_size = [];
  fills = [];
}

-- A limit order to buy 4 at 100 takes the 3 that are offered there.
place_order_filled_example :
    (place_order clock book fresh 1 bid limit (pos 100) (pos 4)).1.filled_size ≡ pos 3
unfolding available crossed is_limit opposite_side
place_order_filled_example =
    place_order_filled clock book fresh 1 bid limit (pos 100) (pos 4) book-IsBook (omega arith) refl

place_order_fills_example :
    let (e', result) = place_order clock book fresh 1 bid limit (pos 100) (pos 4) in
    (ns : List Fill) × (e'.fills ≡ ns)
    × All (IsGoodFill 1 bid limit (pos 100)) ns
    × (result.filled_size ≡ pos (total ns))
unfolding is_limit
place_order_fills_example =
    place_order_fills clock book fresh 1 bid limit (pos 100) (pos 4) book-IsBook (omega arith) refl
      refl

-- The last of the 4 rests.
place_order_rests_example :
    lookup ◌==◌ 1 (place_order clock book fresh 1 bid limit (pos 100) (pos 4)).0.resting_orders
    ≡ some (resting_order book [] 1 bid limit (pos 100) (pos 1))
unfolding available crossed contains is_limit opposite_side
place_order_rests_example =
    place_order_rests clock book fresh 1 bid limit (pos 100) (pos 4) book-IsBook (omega arith) refl
      refl 1

-- One unit is wanted at 99, behind 8.
abbrev waiting : MatchingEngine
waiting = record fresh {
  resting_orders =
      (
        1,
        record {
          order_id = 1;
          symbol = [];
          side = bid;
          type = limit;
          price = pos 99;
          remaining_size = pos 1;
          queue_ahead_size = pos 8;
          inserted_at_seq = 3;
        },
      )
      ∷ [];
  last_observed_size = ((bid, pos 99), pos 12) ∷ [];
}

on_book_delta_shrinks_example :
    let e' = on_book_delta clock waiting bid (pos 99) (pos 2) in
    (e'.resting_orders ≡ [])
    × ((ns : List Fill) × (e'.fills ≡ ns) × (map deal_of ns ≡ (1, pos 99, pos 1) ∷ []))
unfolding survivors deals is_at lookup contains same_key
on_book_delta_shrinks_example =
    on_book_delta_shrinks clock waiting bid (pos 99) 12 2 refl (omega arith) (omega arith)
      (omega arith) (refl, tt) refl

placed :
    Reach clock
      (new_engine [] true)
      (place_order clock book (new_engine [] true) 1 bid limit (pos 100) (pos 4)).0
unfolding new_engine contains
placed = next here (place _ book 1 bid limit (pos 100) (pos 4) book-IsBook (omega arith) refl)

Reach-IsConsistent_example :
    IsConsistentEngine (place_order clock book (new_engine [] true) 1 bid limit (pos 100) (pos 4)).0
Reach-IsConsistent_example = Reach-IsConsistent clock [] true placed
