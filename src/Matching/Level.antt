-- ===== src/Matching/Level.antt =====
-- `onBookDelta` as a whole (engine/src/matching/matching_engine.cpp).
use real_time_paper_trading.Base.{
  ℕ, ◌-◌, ◌^◌, ◌<◌, ◌≡◌, ◌∙◌, true, false, some, none, List, ◌++◌, arith, map, pos, leb_ℤ, ◌==◌,
}
use real_time_paper_trading.Base.Assoc.{lookup, assign, Distinct}
use real_time_paper_trading.Ticks.{Price, Quantity}
use real_time_paper_trading.Ticks.Amounts.{sub-pos}
use real_time_paper_trading.Book.{BookSide}
use real_time_paper_trading.Matching.{
  Fill, MatchingEngine, LevelKey, same_key, untrack_if_unused, reduce_level, on_book_delta,
}
use real_time_paper_trading.Matching.Delta.{
  AllOrders, survivors, deals, deal_of, reduce_orders-survivors, reduce_orders-deals,
}

not_grown : (p q : ℕ) → q < p → leb_ℤ (pos p) (pos q) ≡ false
not_grown p q h = ground arith

pub resting-untrack :
    (key : LevelKey) (e : MatchingEngine)
    → (untrack_if_unused key e).resting_orders ≡ e.resting_orders
unfolding untrack_if_unused
resting-untrack key e = ground arith

pub fills-untrack :
    (key : LevelKey) (e : MatchingEngine) → (untrack_if_unused key e).fills ≡ e.fills
unfolding untrack_if_unused
fills-untrack key e = ground arith

module _ (now_nanos : ℕ → ℕ) (e : MatchingEngine) (side : BookSide) (price : Price) where
  -- A level that no resting order waits at is not followed.
  pub on_book_delta_untracked :
      (q : Quantity)
      → lookup same_key (side, price) e.last_observed_size ≡ none
      → on_book_delta now_nanos e side price q ≡ e
  unfolding on_book_delta
  on_book_delta_untracked q h = rw (h, on_book_delta)

  -- A level that grows, or stays, fills nothing; its new size is noted.
  pub on_book_delta_grows :
      (p q : Quantity)
      → lookup same_key (side, price) e.last_observed_size ≡ some p
      → leb_ℤ p q ≡ true
      → on_book_delta now_nanos e side price q
        ≡ record e { last_observed_size = assign same_key (side, price) q e.last_observed_size }
  unfolding on_book_delta
  on_book_delta_grows p q h g = rw (h, on_book_delta) (rw g)

  -- A tracked level that shrinks from `p` to `q` serves the queue of each order at it first; what
  -- overflows the queue fills the order, and a filled order leaves. The fills are reported in the
  -- order of the table.
  pub on_book_delta_shrinks :
      (p q : ℕ)
      → lookup same_key (side, price) e.last_observed_size ≡ some (pos p)
      → q < p
      → p < 2 ^ 63
      → AllOrders e.resting_orders
      → Distinct ◌==◌ e.resting_orders
      → e.on_fill ≡ true
      → let e' = on_book_delta now_nanos e side price (pos q) in
        (e'.resting_orders ≡ survivors (side, price) (p - q) e.resting_orders)
        × ((ns : List Fill) × (e'.fills ≡ e.fills ++ ns)
            × (map deal_of ns ≡ deals (side, price) (p - q) e.resting_orders))
  unfolding on_book_delta reduce_level
  on_book_delta_shrinks p q h l b v d c =
      let e₁ : MatchingEngine = record e {
        last_observed_size = assign same_key (side, price) (pos q) e.last_observed_size;
      } in
      let (ns, fs, ds) =
        reduce_orders-deals now_nanos (side, price) (p - q) e.resting_orders e₁ (omega arith) v c in
      rw (h, on_book_delta)
        (rw (not_grown p q l, sub-pos p q (omega arith) b)
          (
            resting-untrack (side, price) _
                ∙ reduce_orders-survivors now_nanos (side, price) (p - q) e.resting_orders e₁
                    (omega arith) v d,
            (ns, fills-untrack (side, price) _ ∙ fs, ds),
          ))
