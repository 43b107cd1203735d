-- ===== src/Book/Positive.antt =====
-- Every level of a side has a positive size (engine/src/book/order_book.cpp): a size of zero removes
-- the level.
use real_time_paper_trading.Base.{
  ◌≡◌, refl, ◌∙◌, false, List, [], ◌∷◌, arith, All, All-take, pos, eqb_ℤ, ◌≤ℤ◌, IsInt64,
}
use real_time_paper_trading.Ticks.{Price, Quantity}
use real_time_paper_trading.Ticks.Amounts.{IsSize, IsAmount}
use real_time_paper_trading.Book.{
  BookSide, bid, ask, OrderBook, clear, PriceLevel, OrderBookSide, book_depth, lower_bound,
  erase_at, insert_at, erased, upserted, apply_delta,
}
use real_time_paper_trading.Book.Sorted.{
  upserted_cons, erased_cons, apply_delta_cases, IsValid, apply_delta-IsValid, clear-IsValid,
}

abbrev pub AllSizes : List PriceLevel → Type 0
AllSizes = All (λ l. IsSize l.quantity)

upserted-AllSizes :
    (s : BookSide) (p : Price) (q : Quantity) (ls : List PriceLevel)
    → IsSize q
    → AllSizes ls
    → AllSizes (upserted s p q ls)
unfolding upserted lower_bound insert_at
upserted-AllSizes s p q [] h k = (h, tt)
upserted-AllSizes s p q (l ∷ ls) h k =
    rw (upserted_cons s p q l ls) (ground (arith, upserted-AllSizes s p q ls h k.1))

erased-AllSizes :
    (s : BookSide) (p : Price) (ls : List PriceLevel) → AllSizes ls → AllSizes (erased s p ls)
unfolding erased lower_bound erase_at
erased-AllSizes s p [] k = tt
erased-AllSizes s p (l ∷ ls) k =
    rw (erased_cons s p l ls) (ground (arith, erased-AllSizes s p ls k.1))

IsSize-of_nonzero : (q : Quantity) → pos 0 ≤ℤ q → IsInt64 q → eqb_ℤ q (pos 0) ≡ false → IsSize q
IsSize-of_nonzero q h i n = (ground arith, i)

-- A delta whose size is not negative leaves no level with an empty or negative size.
pub apply_delta-AllSizes :
    (b : OrderBookSide) (p : Price) (q : Quantity)
    → pos 0 ≤ℤ q
    → IsInt64 q
    → AllSizes b.levels
    → AllSizes (apply_delta b p q).0.levels
apply_delta-AllSizes b p q h i k =
    apply_delta_cases (λ r. AllSizes r.0.levels) b p q (λ z. erased-AllSizes b.side p b.levels k)
      (λ nz w. upserted-AllSizes b.side p q b.levels (IsSize-of_nonzero q h i nz) k)
      (λ nz o.
        All-take _ book_depth _
          (upserted-AllSizes b.side p q b.levels (IsSize-of_nonzero q h i nz) k))

-- A side in its place in the book.
pub record IsSideOf (s : BookSide) (b : OrderBookSide) : Type 0 where
  pub side : b.side ≡ s
  pub valid : IsValid b
  pub sizes : AllSizes b.levels

pub record IsBook (book : OrderBook) : Type 0 where
  pub bids : IsSideOf bid book.bids
  pub asks : IsSideOf ask book.asks

side-apply_delta :
    (b : OrderBookSide) (p : Price) (q : Quantity) → (apply_delta b p q).0.side ≡ b.side
side-apply_delta b p q =
    apply_delta_cases (λ r. r.0.side ≡ b.side) b p q (λ z. refl) (λ nz w. refl) (λ nz o. refl)

pub apply_delta-IsSideOf :
    (s : BookSide) (b : OrderBookSide) (p : Price) (q : Quantity)
    → IsAmount q
    → IsSideOf s b
    → IsSideOf s (apply_delta b p q).0
apply_delta-IsSideOf s b p q a v = record {
  side = side-apply_delta b p q ∙ v.side;
  valid = apply_delta-IsValid b p q v.valid;
  sizes = apply_delta-AllSizes b p q a.0 a.1 v.sizes;
}

pub clear-IsSideOf : (s : BookSide) (b : OrderBookSide) → b.side ≡ s → IsSideOf s (clear b)
unfolding clear
clear-IsSideOf s b e = record { side = e; valid = clear-IsValid b; sizes = tt }
