-- ===== src/Matching/Invariant.antt =====
-- The state of a matching engine stays consistent (engine/src/matching/matching_engine.cpp): its
-- resting orders and the levels that it follows belong together.
use real_time_paper_trading.Base.{
  ℕ, ◌≡◌, refl, ap, subst, inl, inr, true, false, ◌||◌, List, [], ◌∷◌, arith, Bool-cases, All,
  eqb_ℤ→eq, eqb_ℤ_refl, ◌==◌,
}
use real_time_paper_trading.Base.Assoc.{IsTest, contains, erase, Distinct, contains-erase}
use real_time_paper_trading.Ticks.{Quantity}
use real_time_paper_trading.Ticks.Amounts.{IsAmount}
use real_time_paper_trading.Book.{BookSide, bid, ask}
use real_time_paper_trading.Matching.{
  PaperOrder, MatchingEngine, LevelKey, same_key, is_at, any_resting_order_at, untrack_if_unused,
}
use real_time_paper_trading.Matching.Delta.{AllOrders}

pub same_key-IsTest : IsTest same_key
unfolding same_key
same_key-IsTest (s, p) (t, q) = (there s t, λ e. subst (λ k. same_key (s, p) k ≡ true) e (here s))
  where
    there : (u v : BookSide) → same_key (u, p) (v, q) ≡ true → ◌≡◌ {A = LevelKey} (u, p) (v, q)
    there bid bid h = ap (λ x. (bid, x)) (eqb_ℤ→eq p q h)
    there bid ask h = cc
    there ask bid h = cc
    there ask ask h = ap (λ x. (ask, x)) (eqb_ℤ→eq p q h)

    here : (u : BookSide) → same_key (u, p) (u, p) ≡ true
    here bid = eqb_ℤ_refl p
    here ask = eqb_ℤ_refl p

abbrev pub key_of : PaperOrder → LevelKey
key_of o = (o.side, o.price)

pub is_at_key : (k : LevelKey) (o : PaperOrder) → is_at k o ≡ same_key (key_of o) k
unfolding is_at same_key
is_at_key (s, p) o = refl

-- Every resting order has a positive rest, its identifier once, and its level followed; every level
-- that is followed has a resting order.
pub record IsConsistent (os : List (ℕ × PaperOrder)) (m : List (LevelKey × Quantity)) : Type 0 where
  pub distinct : Distinct ◌==◌ os
  pub orders : AllOrders os
  pub tracked : All (λ x. contains same_key (key_of x.1) m ≡ true) os
  pub used : All (λ x. any_resting_order_at x.0 os ≡ true) m
  pub amounts : All (λ x. IsAmount x.1) m

abbrev pub IsConsistentEngine : MatchingEngine → Type 0
IsConsistentEngine e = IsConsistent e.resting_orders e.last_observed_size

-- As `IsConsistent`, but the level at `key` may be followed for no order.
pub record IsConsistentBut (key : LevelKey) (os : List (ℕ × PaperOrder))
    (m : List (LevelKey × Quantity)) : Type 0 where
  pub distinct : Distinct ◌==◌ os
  pub orders : AllOrders os
  pub tracked : All (λ x. contains same_key (key_of x.1) m ≡ true) os
  pub used : All (λ x. (same_key key x.0 || any_resting_order_at x.0 os) ≡ true) m
  pub amounts : All (λ x. IsAmount x.1) m

-- Nothing rests at the key: no order's key is that key.
tracked-erase :
    (key : LevelKey) (os : List (ℕ × PaperOrder)) (m : List (LevelKey × Quantity))
    → any_resting_order_at key os ≡ false
    → All (λ x. contains same_key (key_of x.1) m ≡ true) os
    → All (λ x. contains same_key (key_of x.1) (erase same_key key m) ≡ true) os
unfolding any_resting_order_at
tracked-erase key [] m h t = tt
tracked-erase key ((id, o) ∷ os) m h t = (
  ground (
    arith,
    contains-erase same_key same_key-IsTest (key_of o) key m,
    is_at_key key o,
    same_key-IsTest (key_of o) key,
    same_key-IsTest key (key_of o),
  ),
  tracked-erase key os m (ground arith) t.1,
)

used-erase :
    (key : LevelKey) (os : List (ℕ × PaperOrder)) (m : List (LevelKey × Quantity))
    → All (λ x. (same_key key x.0 || any_resting_order_at x.0 os) ≡ true) m
    → All (λ x. any_resting_order_at x.0 os ≡ true) (erase same_key key m)
unfolding erase
used-erase key os [] h = tt
used-erase key os ((k, q) ∷ m) h =
    ground (arith, used-erase key os m h.1, same_key-IsTest k key, same_key-IsTest key k)

amounts-erase :
    (key : LevelKey) (m : List (LevelKey × Quantity))
    → All (λ x. IsAmount x.1) m
    → All (λ x. IsAmount x.1) (erase same_key key m)
unfolding erase
amounts-erase key [] h = tt
amounts-erase key ((k, q) ∷ m) h = ground (arith, amounts-erase key m h.1)

used_at-All :
    (key : LevelKey) (os : List (ℕ × PaperOrder)) (m : List (LevelKey × Quantity))
    → any_resting_order_at key os ≡ true
    → All (λ x. (same_key key x.0 || any_resting_order_at x.0 os) ≡ true) m
    → All (λ x. any_resting_order_at x.0 os ≡ true) m
used_at-All key os [] a h = tt
used_at-All key os ((k, q) ∷ m) a h = (
  elim (Bool-cases (same_key key k)) [
    | inl s ↦ subst (λ j. any_resting_order_at j os ≡ true) ((same_key-IsTest key k).0 s) a
    | inr n ↦ rw n at h.0
  ],
  used_at-All key os m a h.1,
)

-- Unfollowing the level, if nothing rests there, makes up for it.
pub untrack-IsConsistent :
    (key : LevelKey) (e : MatchingEngine)
    → IsConsistentBut key e.resting_orders e.last_observed_size
    → IsConsistentEngine (untrack_if_unused key e)
unfolding untrack_if_unused
untrack-IsConsistent key e c = elim (Bool-cases (any_resting_order_at key e.resting_orders)) [
  | inl a ↦ rw a (record {
    distinct = c.distinct;
    orders = c.orders;
    tracked = c.tracked;
    used = used_at-All key _ _ a c.used;
    amounts = c.amounts;
  })
  | inr n ↦ rw n (record {
    distinct = c.distinct;
    orders = c.orders;
    tracked = tracked-erase key _ _ n c.tracked;
    used = used-erase key _ _ c.used;
    amounts = amounts-erase key _ c.amounts;
  })
]
