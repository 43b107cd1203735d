-- ===== src/Matching/Cancel.antt =====
-- What `cancelOrder` promises (engine/src/matching/matching_engine.cpp).
use real_time_paper_trading.Base.{
  ℕ, ◌≡◌, refl, ap, inl, inr, ◌⊎◌, true, false, some, none, if◌then◌else◌, Option-cases, ◌==◌,
  ==_iff, ◌∙◌,
}
use real_time_paper_trading.Base.Assoc.{lookup, lookup-erase_if}
use real_time_paper_trading.Matching.{PaperOrder, MatchingEngine, reject, accept, cancel_order}
use real_time_paper_trading.Matching.Level.{resting-untrack, fills-untrack}

-- Cancelling an order succeeds exactly if it rests; it then rests no longer, every other order rests
-- as it did, and nothing is filled. Otherwise the engine stays as it was.
pub cancel_order_lem :
    (e : MatchingEngine) (id : ℕ)
    → let (e', result) = cancel_order e id in
      ((lookup ◌==◌ id e.resting_orders ≡ none) × (result.accepted ≡ false) × (e' ≡ e))
      ⊎ ((o : PaperOrder) × (lookup ◌==◌ id e.resting_orders ≡ some o)
          × (result.accepted ≡ true)
          × (result.order_id ≡ id)
          × (e'.fills ≡ e.fills)
          × ((j : ℕ)
              → lookup ◌==◌ j e'.resting_orders
                ≡ (if id == j then none else lookup ◌==◌ j e.resting_orders)))
unfolding cancel_order reject accept
cancel_order_lem e id = elim (Option-cases (lookup ◌==◌ id e.resting_orders)) [
  | inl n ↦ rw (n, cancel_order) (inl (refl, refl, refl))
  | inr (o, s) ↦
      rw (s, cancel_order)
        (inr (
          o,
          refl,
          refl,
          refl,
          fills-untrack (o.side, o.price) _,
          λ j.
              ap (lookup ◌==◌ j) (resting-untrack (o.side, o.price) _)
              ∙ lookup-erase_if ◌==◌ ==_iff j id e.resting_orders,
        ))
]
