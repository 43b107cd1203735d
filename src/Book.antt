-- ===== src/Book.antt =====
-- engine/include/engine/book/price_level.hpp, order_book.hpp and engine/src/book/order_book.cpp:
-- one side of the order book, a vector of levels with the best price first.
-- `std::lower_bound` is read by its contract on a partitioned range: the first position at which
-- the comparison fails; the children prove that the levels are always partitioned. An iterator is
-- an index, and `end()` the length.
pub mod Sorted
pub mod Sizes
pub mod Positive
mod Tests
use real_time_paper_trading.Base.{
  ℕ, zero, suc, Bool, false, Option, none, some, List, [], ◌∷◌, ltb, if◌then◌else◌, length,
  get_elem?, take, min, pos, ltb_ℤ, eqb_ℤ,
}
use real_time_paper_trading.Ticks.{Price, Quantity}

pub data BookSide : Type 0 where
  bid ask : BookSide

pub record PriceLevel : Type 0 where
  pub price : Price
  pub quantity : Quantity

abbrev pub book_depth : ℕ
book_depth = 100

pub record OrderBookSide : Type 0 where
  pub side : BookSide
  pub levels : List PriceLevel

pub record OrderBook : Type 0 where
  pub symbol : List ℕ
  pub bids : OrderBookSide
  pub asks : OrderBookSide
  pub last_seq : ℕ
  pub last_check_sum : ℕ

unfoldable pub better : BookSide → Price → Price → Bool
better bid a b = ltb_ℤ b a
better ask a b = ltb_ℤ a b

unfoldable pub lower_bound : BookSide → Price → List PriceLevel → ℕ
lower_bound s p [] = 0
lower_bound s p (l ∷ ls) = if better s l.price p then suc (lower_bound s p ls) else 0

-- `it != levels_.end() && it->price == price`
unfoldable pub found_at : Price → Option PriceLevel → Bool
found_at p none = false
found_at p (some l) = eqb_ℤ l.price p

-- `levels_.erase(it)`
unfoldable pub erase_at : List PriceLevel → ℕ → List PriceLevel
erase_at [] i = []
erase_at (l ∷ ls) zero = ls
erase_at (l ∷ ls) (suc i) = l ∷ erase_at ls i

-- `levels_.insert(it, level)`
unfoldable pub insert_at : List PriceLevel → ℕ → PriceLevel → List PriceLevel
insert_at [] i v = v ∷ []
insert_at (l ∷ ls) zero v = v ∷ l ∷ ls
insert_at (l ∷ ls) (suc i) v = l ∷ insert_at ls i v

-- `it->quantity = newQuantity`
unfoldable pub set_quantity_at : List PriceLevel → ℕ → Quantity → List PriceLevel
set_quantity_at [] i q = []
set_quantity_at (l ∷ ls) zero q = record l { quantity = q } ∷ ls
set_quantity_at (l ∷ ls) (suc i) q = l ∷ set_quantity_at ls i q

-- `levels_.back().price`
unfoldable pub back_price : List PriceLevel → Option Price
back_price [] = none
back_price (l ∷ []) = some l.price
back_price (l ∷ m ∷ ls) = back_price (m ∷ ls)

-- The levels after the entry at `it` is erased, or left alone where there is none.
unfoldable pub erased : BookSide → Price → List PriceLevel → List PriceLevel
unfolding found_at
erased s p ls =
    let it = lower_bound s p ls in if found_at p (get_elem? ls it) then erase_at ls it else ls

-- The levels after `it->quantity = newQuantity` or the insertion, before the depth is enforced.
unfoldable pub upserted : BookSide → Price → Quantity → List PriceLevel → List PriceLevel
unfolding found_at
upserted s p q ls =
    let it = lower_bound s p ls in
    if found_at p (get_elem? ls it)
    then set_quantity_at ls it q
    else insert_at ls it (record { price = p; quantity = q })

-- The new side, and the price of a level that was evicted to enforce the depth.
unfoldable pub apply_delta : OrderBookSide → Price → Quantity → OrderBookSide × Option Price
apply_delta b p q =
    if eqb_ℤ q (pos 0)
    then (record b { levels = erased b.side p b.levels }, none)
    else (let ls = upserted b.side p q b.levels in
        if ltb book_depth (length ls)
        then (record b { levels = take book_depth ls }, back_price ls)
        else (record b { levels = ls }, none))

unfoldable pub clear : OrderBookSide → OrderBookSide
clear b = record b { levels = [] }

-- `none` where the source throws `std::out_of_range`.
unfoldable pub top : OrderBookSide → Option PriceLevel
top b = get_elem? b.levels 0

-- `std::span{levels_.data(), std::min(n, levels_.size())}`
unfoldable pub depth : OrderBookSide → ℕ → List PriceLevel
depth b n = take (min n (length b.levels)) b.levels

unfoldable pub quantity_or_zero : Price → Option PriceLevel → Quantity
quantity_or_zero p none = pos 0
quantity_or_zero p (some l) = if eqb_ℤ l.price p then l.quantity else pos 0

unfoldable pub size_at_price : OrderBookSide → Price → Quantity
unfolding quantity_or_zero
size_at_price b p = quantity_or_zero p (get_elem? b.levels (lower_bound b.side p b.levels))
