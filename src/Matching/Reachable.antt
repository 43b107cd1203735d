-- ===== src/Matching/Reachable.antt =====
-- Every engine that the operations reach is consistent (engine/src/matching/matching_engine.cpp).
use real_time_paper_trading.Base.{
  ℕ, zero, suc, ◌-◌, ◌^◌, ◌<◌, ◌≡◌, refl, subst, inl, inr, Bool, true, false, ◌&&◌, some, List, [],
  ◌∷◌, arith, Bool-cases, Option-cases, get_elem?, All, IsInt64, pos, negsuc, pos_part, ltb_ℤ,
  leb_ℤ, ◌==◌, Text,
}
use real_time_paper_trading.Base.Assoc.{lookup, contains, emplace}
use real_time_paper_trading.Ticks.{Price, Quantity, ◌-q◌}
use real_time_paper_trading.Ticks.Amounts.{IsSize, IsAmount, sub-pos}
use real_time_paper_trading.Book.{
  BookSide, bid, ask, PriceLevel, OrderBookSide, OrderBook, size_at_price, lower_bound,
  quantity_or_zero,
}
use real_time_paper_trading.Book.Positive.{AllSizes}
use real_time_paper_trading.Matching.{
  OrderType, PaperOrder, MatchingEngine, LevelKey, same_key, any_resting_order_at, new_engine,
  own_side, resting_order, rest_order, place_order, cancel_order, reduce_level, on_book_delta,
  is_limit,
}
use real_time_paper_trading.Matching.Walk.{Keeps, walk-Keeps}
use real_time_paper_trading.Matching.Place.{
  is_acceptable, walked, left_over, accepted_lem, walked_remaining, place_order_rejected,
}
use real_time_paper_trading.Book.Positive.{IsBook, IsSideOf}
use real_time_paper_trading.Matching.Delta.{IsOrder, reduce_orders-survivors, reduce_orders-Keeps}
use real_time_paper_trading.Matching.Invariant.{
  key_of, is_at_key, same_key-IsTest, IsConsistent, IsConsistentEngine, untrack-IsConsistent,
}
use real_time_paper_trading.Matching.Preserve.{
  cancel_order-IsConsistent, assign-IsConsistent, survivors-IsConsistentBut,
}

pub new_engine-IsConsistent : (s : Text) (c : Bool) → IsConsistentEngine (new_engine s c)
unfolding new_engine
new_engine-IsConsistent s c = record {
  distinct = tt;
  orders = tt;
  tracked = tt;
  used = tt;
  amounts = tt;
}

-- The size at a price of a side of positive sizes is an amount.
quantity_or_zero-IsAmount :
    (p : Price) (ls : List PriceLevel) (i : ℕ)
    → AllSizes ls
    → IsAmount (quantity_or_zero p (get_elem? ls i))
unfolding quantity_or_zero
quantity_or_zero-IsAmount p [] i h = omega arith
quantity_or_zero-IsAmount p (l ∷ ls) zero h = ground arith
quantity_or_zero-IsAmount p (l ∷ ls) (suc i) h = quantity_or_zero-IsAmount p ls i h.1

pub size_at_price-IsAmount :
    (b : OrderBookSide) (p : Price) → AllSizes b.levels → IsAmount (size_at_price b p)
unfolding size_at_price
size_at_price-IsAmount b p v =
    quantity_or_zero-IsAmount p b.levels (lower_bound b.side p b.levels) v

contains_head :
    (k : LevelKey) (q : Quantity) (m : List (LevelKey × Quantity))
    → contains same_key k ((k, q) ∷ m) ≡ true
unfolding contains
contains_head k q m = rw ((same_key-IsTest k k).1 refl)

tracked-cons :
    (key : LevelKey) (q : Quantity) (m : List (LevelKey × Quantity)) (os : List (ℕ × PaperOrder))
    → All (λ x. contains same_key (key_of x.1) m ≡ true) os
    → All (λ x. contains same_key (key_of x.1) ((key, q) ∷ m) ≡ true) os
unfolding contains
tracked-cons key q m [] t = tt
tracked-cons key q m ((i, o) ∷ os) t = (ground arith, tracked-cons key q m os t.1)

at_own_key :
    (i : ℕ) (o : PaperOrder) (os : List (ℕ × PaperOrder))
    → any_resting_order_at (key_of o) ((i, o) ∷ os) ≡ true
unfolding any_resting_order_at
at_own_key i o os = rw (is_at_key (key_of o) o, (same_key-IsTest (key_of o) (key_of o)).1 refl)

used_more :
    (i : ℕ) (o : PaperOrder) (os : List (ℕ × PaperOrder)) (m : List (LevelKey × Quantity))
    → All (λ x. any_resting_order_at x.0 os ≡ true) m
    → All (λ x. any_resting_order_at x.0 ((i, o) ∷ os) ≡ true) m
unfolding any_resting_order_at
used_more i o os [] h = tt
used_more i o os ((k, q) ∷ m) h = (ground arith, used_more i o os m h.1)

-- A fresh order joins, and its level is followed.
join-IsConsistent :
    (id : ℕ) (o : PaperOrder) (q : Quantity) (os : List (ℕ × PaperOrder))
    (m : List (LevelKey × Quantity))
    → contains ◌==◌ id os ≡ false
    → IsOrder o
    → IsAmount q
    → IsConsistent os m
    → IsConsistent (emplace ◌==◌ id o os) (emplace same_key (key_of o) q m)
unfolding emplace
join-IsConsistent id o q os m f v a c = rw f (elim (Bool-cases (contains same_key (key_of o) m)) [
  | inl t ↦ rw t (record {
    distinct = (f, c.distinct);
    orders = (v, c.orders);
    tracked = (t, c.tracked);
    used = used_more id o os m c.used;
    amounts = c.amounts;
  })
  | inr n ↦ rw n (record {
    distinct = (f, c.distinct);
    orders = (v, c.orders);
    tracked = (contains_head (key_of o) q m, tracked-cons (key_of o) q m os c.tracked);
    used = (at_own_key id o os, used_more id o os m c.used);
    amounts = (a, c.amounts);
  })
])

rest_order-IsConsistent :
    (book : OrderBook) (e : MatchingEngine) (id : ℕ) (side : BookSide) (type : OrderType)
    (price : Price) (r : Quantity)
    → AllSizes (own_side book side).levels
    → IsSize r
    → contains ◌==◌ id e.resting_orders ≡ false
    → IsConsistentEngine e
    → IsConsistentEngine (rest_order book e id side type price r)
unfolding rest_order resting_order
rest_order-IsConsistent book e id side type price r b v f c =
    join-IsConsistent id (resting_order book e.symbol id side type price r)
      (size_at_price (own_side book side) price) e.resting_orders e.last_observed_size f
      (record { remaining = v; queue = queue }) queue c
  where
    queue : IsAmount (size_at_price (own_side book side) price)
    queue = size_at_price-IsAmount (own_side book side) price b

own_side-IsSideOf : (book : OrderBook) (s : BookSide) → IsBook book → IsSideOf s (own_side book s)
unfolding own_side
own_side-IsSideOf book bid b = b.bids
own_side-IsSideOf book ask b = b.asks

rest_positive :
    (r : Quantity) (n a : ℕ) (b : Bool)
    → r ≡ pos (n - a)
    → n < 2 ^ 63
    → (ltb_ℤ (pos 0) r && b) ≡ true
    → IsSize r
rest_positive r n a b e h t =
    let p : (ltb_ℤ (pos 0) (pos (n - a)) && b) ≡ true = rw e at t in rw e (ground arith)

IsSize-of_acceptable :
    (type : OrderType) (price : Price) (size : Quantity)
    → is_acceptable type price size ≡ true
    → IsInt64 size
    → IsSize size
IsSize-of_acceptable type price size a i = (ground arith, i)

-- Consistency is about the two maps only.
Keeps-IsConsistent :
    {e e' : MatchingEngine} → Keeps e e' → IsConsistentEngine e → IsConsistentEngine e'
Keeps-IsConsistent k c = rw (k.resting, k.observed) c

lookup-IsAmount :
    (k : LevelKey) (p : Quantity) (m : List (LevelKey × Quantity))
    → All (λ x. IsAmount x.1) m
    → lookup same_key k m ≡ some p
    → IsAmount p
unfolding lookup
lookup-IsAmount k p [] h e = cc
lookup-IsAmount k p ((j, q) ∷ m) h e = elim (Bool-cases (same_key j k)) [
  | inl s ↦ let f : some q ≡ some p = rw s at e in let g : q ≡ p = cc in subst IsAmount g h.0
  | inr n ↦ lookup-IsAmount k p m h.1 (rw n at e)
]

reduction :
    (p q : Quantity)
    → IsAmount p
    → IsAmount q
    → leb_ℤ p q ≡ false
    → p -q q ≡ pos (pos_part p - pos_part q)
reduction (pos p) (pos q) h k g = sub-pos p q (ground arith) h.1.0
reduction (negsuc p) q h k g = absurd (omega arith)
reduction (pos p) (negsuc q) h k g = absurd (omega arith)

module _ (now_nanos : ℕ → ℕ) where
  -- `placeOrder` keeps the engine consistent, for an order with a fresh identifier.
  pub place_order-IsConsistent :
      (book : OrderBook) (e : MatchingEngine) (id : ℕ) (side : BookSide) (type : OrderType)
      (price : Price) (size : Quantity)
      → IsBook book
      → IsInt64 size
      → contains ◌==◌ id e.resting_orders ≡ false
      → IsConsistentEngine e
      → IsConsistentEngine (place_order now_nanos book e id side type price size).0
  place_order-IsConsistent book e id side type price size b i f c =
      elim (Bool-cases (is_acceptable type price size)) [
        | inr n ↦ rw (place_order_rejected now_nanos book e id side type price size n).0 c
        | inl a ↦
            rw (accepted_lem now_nanos book e id side type price size a).0 (elim (Bool-cases over) [
              | inr w ↦ rw w kept
              | inl o ↦ rw o (
                  rest_order-IsConsistent book walk_result.1 id side type price walk_result.0
                    (own_side-IsSideOf book side b).sizes
                    (rest_positive walk_result.0 (pos_part size) _ (is_limit type)
                      (walked_remaining now_nanos book e id side type price size b
                        (IsSize-of_acceptable type price size a i))
                      i.0 o)
                    (rw keeps.resting f) kept)
            ])
      ]
    where
      walk_result : Quantity × MatchingEngine
      walk_result = walked now_nanos book e id side type price size

      over : Bool
      over = left_over now_nanos book e id side type price size

      keeps : Keeps e walk_result.1
      keeps = walk-Keeps now_nanos id side type price _ size e

      kept : IsConsistentEngine walk_result.1
      kept = Keeps-IsConsistent keeps c

  reduce_level-IsConsistent :
      (key : LevelKey) (n : ℕ) (e : MatchingEngine)
      → n < 2 ^ 63
      → IsConsistentEngine e
      → IsConsistentEngine (reduce_level now_nanos key (pos n) e)
  unfolding reduce_level
  reduce_level-IsConsistent key n e h c = untrack-IsConsistent key _ (
      rw
        (
          reduce_orders-survivors now_nanos key n e.resting_orders e h c.orders c.distinct,
          (reduce_orders-Keeps now_nanos key (pos n) e.resting_orders e).observed,
        )
        (survivors-IsConsistentBut key n e.resting_orders e.last_observed_size c))

  -- `onBookDelta` keeps the engine consistent, for a size that is not negative.
  pub on_book_delta-IsConsistent :
      (e : MatchingEngine) (side : BookSide) (price : Price) (q : Quantity)
      → IsAmount q
      → IsConsistentEngine e
      → IsConsistentEngine (on_book_delta now_nanos e side price q)
  unfolding on_book_delta
  on_book_delta-IsConsistent e side price q a c =
      elim (Option-cases (lookup same_key (side, price) e.last_observed_size)) [
        | inl n ↦ rw (n, on_book_delta) c
        | inr (p, s) ↦
            let was : IsAmount p =
              lookup-IsAmount (side, price) p e.last_observed_size c.amounts s in
            let noted = assign-IsConsistent (side, price) q e a c in
            rw (s, on_book_delta)
              (elim (Bool-cases (leb_ℤ p q)) [
                | inl g ↦ rw g noted
                | inr g ↦
                    rw (g, reduction p q was a g)
                      (reduce_level-IsConsistent (side, price) (pos_part p - pos_part q) _
                        (omega arith) noted)
              ])
      ]

  -- The calls that the thread of a symbol makes of its engine.
  pub data Step : MatchingEngine → MatchingEngine → Type 0 where
    place :
        (e : MatchingEngine) (book : OrderBook) (id : ℕ) (side : BookSide) (type : OrderType)
        (price : Price) (size : Quantity)
        → IsBook book
        → IsInt64 size
        → contains ◌==◌ id e.resting_orders ≡ false
        → Step e (place_order now_nanos book e id side type price size).0
    cancel : (e : MatchingEngine) (id : ℕ) → Step e (cancel_order e id).0
    delta :
        (e : MatchingEngine) (side : BookSide) (price : Price) (q : Quantity)
        → IsAmount q
        → Step e (on_book_delta now_nanos e side price q)

  pub data Reach (e : MatchingEngine) : MatchingEngine → Type 0 where
    here : Reach e e
    next : {e₁ e₂ : MatchingEngine} → Reach e e₁ → Step e₁ e₂ → Reach e e₂

  Step-IsConsistent :
      {e₁ e₂ : MatchingEngine} → Step e₁ e₂ → IsConsistentEngine e₁ → IsConsistentEngine e₂
  Step-IsConsistent (place e book id side type price size b i f) c =
      place_order-IsConsistent book e id side type price size b i f c
  Step-IsConsistent (cancel e id) c = cancel_order-IsConsistent e id c
  Step-IsConsistent (delta e side price q a) c = on_book_delta-IsConsistent e side price q a c

  Reach-keeps :
      {e₁ e₂ : MatchingEngine} → Reach e₁ e₂ → IsConsistentEngine e₁ → IsConsistentEngine e₂
  Reach-keeps here c = c
  Reach-keeps (next r s) c = Step-IsConsistent s (Reach-keeps r c)

  -- Whatever placements with fresh identifiers, cancellations and book changes a new engine has seen,
  -- each resting order has a positive rest, stands once in the table and has its level followed, and
  -- each level that is followed has a resting order.
  pub Reach-IsConsistent :
      (symbol : Text) (on_fill : Bool) {e : MatchingEngine}
      → Reach (new_engine symbol on_fill) e
      → IsConsistentEngine e
  Reach-IsConsistent symbol on_fill r = Reach-keeps r (new_engine-IsConsistent symbol on_fill)
