-- ===== src/Book/Tests.antt =====
-- Instances of the laws of a side of the book, and runs of its operations.
use real_time_paper_trading.Base.{ℕ, zero, suc, ◌≤◌, ◌≡◌, refl, none, List, [], ◌∷◌, arith, pos}
use real_time_paper_trading.Book.{
  bid, ask, PriceLevel, OrderBookSide, better, lower_bound, insert_at, upserted, apply_delta,
  size_at_price,
}
use real_time_paper_trading.Book.Sorted.{AllWorse, Sorted, IsValid, apply_delta-IsValid}
use real_time_paper_trading.Book.Sizes.{size_at_price-apply_delta}

abbrev bids : OrderBookSide
bids = record {
  side = bid;
  levels =
      record { price = pos 105; quantity = pos 7 }
      ∷ record { price = pos 100; quantity = pos 3 }
      ∷ [];
}

bids-IsValid : IsValid bids
unfolding better
bids-IsValid = record { sorted = ((refl, tt), (tt, tt)); bounded = omega arith }

-- Asks at the prices `n + 1`, ..., `n + k`.
abbrev ladder : ℕ → ℕ → List PriceLevel
ladder n zero = []
ladder n (suc k) = record { price = pos (suc n); quantity = pos 1 } ∷ ladder (suc n) k

abbrev full : OrderBookSide
full = record { side = ask; levels = ladder 0 100 }

ladder-AllWorse : (m n k : ℕ) → m ≤ n → AllWorse ask (pos m) (ladder n k)
unfolding better
ladder-AllWorse m n zero h = tt
ladder-AllWorse m n (suc k) h = (ground arith, ladder-AllWorse m (suc n) k (omega arith))

ladder-Sorted : (n k : ℕ) → Sorted ask (ladder n k)
ladder-Sorted n zero = tt
ladder-Sorted n (suc k) = (ladder-AllWorse (suc n) (suc n) k (omega arith), ladder-Sorted (suc n) k)

full-IsValid : IsValid full
full-IsValid = record { sorted = ladder-Sorted 0 100; bounded = omega arith }

insert_between : apply_delta bids (pos 102) (pos 4) ≡ (
  record bids {
    levels =
        record { price = pos 105; quantity = pos 7 }
        ∷ record { price = pos 102; quantity = pos 4 }
        ∷ record { price = pos 100; quantity = pos 3 }
        ∷ [];
  },
  none,
)
unfolding apply_delta upserted lower_bound better insert_at
insert_between = refl

size_at_price-apply_delta_example :
    size_at_price (apply_delta bids (pos 102) (pos 4)).0 (pos 100) ≡ pos 3
unfolding apply_delta upserted lower_bound better insert_at size_at_price
size_at_price-apply_delta_example =
    size_at_price-apply_delta bids (pos 102) (pos 4) (pos 100) bids-IsValid

apply_delta-IsValid_example : IsValid (apply_delta bids (pos 102) (pos 4)).0
apply_delta-IsValid_example = apply_delta-IsValid bids (pos 102) (pos 4) bids-IsValid
