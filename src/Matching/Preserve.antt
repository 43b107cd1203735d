-- ===== src/Matching/Preserve.antt =====
-- `cancelOrder` and the loops of `onBookDelta` keep the orders and the followed levels consistent
-- (engine/src/matching/matching_engine.cpp).
use real_time_paper_trading.Base.{
  ℕ, ◌≡◌, refl, subst, ◌∙◌, inl, inr, Bool, true, false, ◌||◌, some, List, [], ◌∷◌, arith,
  if◌then◌else◌, Bool-cases, Option-cases, All, ◌==◌, ==_iff,
}
use real_time_paper_trading.Base.Assoc.{
  lookup, contains, erase, assign, Distinct, contains-erase, contains-assign, erase_absent,
}
use real_time_paper_trading.Ticks.{Quantity}
use real_time_paper_trading.Ticks.Amounts.{IsAmount}
use real_time_paper_trading.Matching.{
  PaperOrder, MatchingEngine, LevelKey, same_key, is_at, any_resting_order_at, cancel_order,
}
use real_time_paper_trading.Matching.Delta.{IsOrder, AllOrders, survivors, reduced, is_filled}
use real_time_paper_trading.Matching.Invariant.{
  key_of, is_at_key, same_key-IsTest, IsConsistent, IsConsistentEngine, IsConsistentBut,
  untrack-IsConsistent,
}

-- A level without the erased order is followed for another, or it is the order's.
any_resting-erase :
    (k : LevelKey) (id : ℕ) (o : PaperOrder) (os : List (ℕ × PaperOrder))
    → Distinct ◌==◌ os
    → lookup ◌==◌ id os ≡ some o
    → any_resting_order_at k os ≡ true
    → (same_key (key_of o) k || any_resting_order_at k (erase ◌==◌ id os)) ≡ true
unfolding any_resting_order_at erase lookup
any_resting-erase k id o [] d l a = cc
any_resting-erase k id o ((i, p) ∷ os) d l a = elim (Bool-cases (i == id)) [
  | inl e ↦
      let found : some p ≡ some o = rw e at l in
      let same : p ≡ o = cc in
      let gone : contains ◌==◌ id os ≡ false =
        subst (λ j. contains ◌==◌ j os ≡ false) ((==_iff i id).0 e) d.0 in
      rw (e, erase_absent ◌==◌ id os gone)
        (subst (λ x. (same_key (key_of x) k || any_resting_order_at k os) ≡ true) same
          (rw (is_at_key k p) at a))
  | inr n ↦ rw n (ground (arith, any_resting-erase k id o os d.1 (rw n at l)))
]

All-erase {ℓ} :
    (P : ℕ × PaperOrder → Type ℓ) (id : ℕ) (os : List (ℕ × PaperOrder))
    → All P os
    → All P (erase ◌==◌ id os)
unfolding erase
All-erase P id [] h = tt
All-erase P id ((i, p) ∷ os) h = elim (Bool-cases (i == id)) [
  | inl e ↦ rw e (All-erase P id os h.1)
  | inr n ↦ rw n (h.0, All-erase P id os h.1)
]

Distinct-erase :
    (id : ℕ) (os : List (ℕ × PaperOrder)) → Distinct ◌==◌ os → Distinct ◌==◌ (erase ◌==◌ id os)
unfolding erase
Distinct-erase id [] d = tt
Distinct-erase id ((i, p) ∷ os) d =
    ground (arith, Distinct-erase id os d.1, contains-erase ◌==◌ ==_iff i id os)

used_but-erase :
    (id : ℕ) (o : PaperOrder) (os : List (ℕ × PaperOrder)) (m : List (LevelKey × Quantity))
    → Distinct ◌==◌ os
    → lookup ◌==◌ id os ≡ some o
    → All (λ x. any_resting_order_at x.0 os ≡ true) m
    → All (λ x. (same_key (key_of o) x.0 || any_resting_order_at x.0 (erase ◌==◌ id os)) ≡ true) m
used_but-erase id o os [] d l h = tt
used_but-erase id o os ((k, q) ∷ m) d l h =
    (any_resting-erase k id o os d l h.0, used_but-erase id o os m d l h.1)

-- `cancelOrder` keeps the engine consistent.
pub cancel_order-IsConsistent :
    (e : MatchingEngine) (id : ℕ) → IsConsistentEngine e → IsConsistentEngine (cancel_order e id).0
unfolding cancel_order
cancel_order-IsConsistent e id c = elim (Option-cases (lookup ◌==◌ id e.resting_orders)) [
  | inl n ↦ rw (n, cancel_order) c
  | inr (o, s) ↦
      rw (s, cancel_order)
        (untrack-IsConsistent (key_of o)
          (record e { resting_orders = erase ◌==◌ id e.resting_orders })
          (record {
            distinct = Distinct-erase id e.resting_orders c.distinct;
            orders = All-erase _ id e.resting_orders c.orders;
            tracked = All-erase _ id e.resting_orders c.tracked;
            used = used_but-erase id o e.resting_orders e.last_observed_size c.distinct s c.used;
            amounts = c.amounts;
          }))
]

contains-survivors :
    (j : ℕ) (key : LevelKey) (n : ℕ) (os : List (ℕ × PaperOrder))
    → contains ◌==◌ j os ≡ false
    → contains ◌==◌ j (survivors key n os) ≡ false
unfolding survivors contains
contains-survivors j key n [] h = refl
contains-survivors j key n ((i, o) ∷ os) h = ground (arith, contains-survivors j key n os)

Distinct-survivors :
    (key : LevelKey) (n : ℕ) (os : List (ℕ × PaperOrder))
    → Distinct ◌==◌ os
    → Distinct ◌==◌ (survivors key n os)
unfolding survivors
Distinct-survivors key n [] d = tt
Distinct-survivors key n ((i, o) ∷ os) d =
    ground (arith, Distinct-survivors key n os d.1, contains-survivors i key n os d.0)

reduced-IsOrder :
    (n : ℕ) (o : PaperOrder) → IsOrder o → is_filled n o ≡ false → IsOrder (reduced n o)
reduced-IsOrder n o v f = ground arith

AllOrders-survivors :
    (key : LevelKey) (n : ℕ) (os : List (ℕ × PaperOrder))
    → AllOrders os
    → AllOrders (survivors key n os)
unfolding survivors
AllOrders-survivors key n [] v = tt
AllOrders-survivors key n ((i, o) ∷ os) v = elim (Bool-cases (is_at key o)) [
  | inr a ↦ rw a (v.0, AllOrders-survivors key n os v.1)
  | inl a ↦ rw a (elim (Bool-cases (is_filled n o)) [
    | inl f ↦ rw f (AllOrders-survivors key n os v.1)
    | inr f ↦ rw f (reduced-IsOrder n o v.0 f, AllOrders-survivors key n os v.1)
  ])
]

tracked-survivors :
    (key : LevelKey) (n : ℕ) (os : List (ℕ × PaperOrder)) (m : List (LevelKey × Quantity))
    → All (λ x. contains same_key (key_of x.1) m ≡ true) os
    → All (λ x. contains same_key (key_of x.1) m ≡ true) (survivors key n os)
unfolding survivors
tracked-survivors key n [] m t = tt
tracked-survivors key n ((i, o) ∷ os) m t = elim (Bool-cases (is_at key o)) [
  | inr a ↦ rw a (t.0, tracked-survivors key n os m t.1)
  | inl a ↦ rw a (elim (Bool-cases (is_filled n o)) [
    | inl f ↦ rw f (tracked-survivors key n os m t.1)
    | inr f ↦ rw f (t.0, tracked-survivors key n os m t.1)
  ])
]

any_resting-survivors :
    (k key : LevelKey) (n : ℕ) (os : List (ℕ × PaperOrder))
    → any_resting_order_at k os ≡ true
    → (same_key key k || any_resting_order_at k (survivors key n os)) ≡ true
unfolding survivors any_resting_order_at
any_resting-survivors k key n [] a = cc
any_resting-survivors k key n ((i, o) ∷ os) a = ground (
  arith,
  any_resting-survivors k key n os,
  is_at_key k o,
  is_at_key key o,
  is_at_key k (reduced n o),
  same_key-IsTest (key_of o) k,
  same_key-IsTest (key_of o) key,
  same_key-IsTest key k,
)

used_but-survivors :
    (key : LevelKey) (n : ℕ) (os : List (ℕ × PaperOrder)) (m : List (LevelKey × Quantity))
    → All (λ x. any_resting_order_at x.0 os ≡ true) m
    → All (λ x. (same_key key x.0 || any_resting_order_at x.0 (survivors key n os)) ≡ true) m
used_but-survivors key n os [] h = tt
used_but-survivors key n os ((k, q) ∷ m) h =
    (any_resting-survivors k key n os h.0, used_but-survivors key n os m h.1)

-- What a new size of a followed level leaves as it was.
pub tracked-assign :
    (key : LevelKey) (q : Quantity) (m : List (LevelKey × Quantity)) (os : List (ℕ × PaperOrder))
    → All (λ x. contains same_key (key_of x.1) m ≡ true) os
    → All (λ x. contains same_key (key_of x.1) (assign same_key key q m) ≡ true) os
tracked-assign key q m [] t = tt
tracked-assign key q m ((i, o) ∷ os) t =
    (contains-assign same_key (key_of o) key q m ∙ t.0, tracked-assign key q m os t.1)

pub used-assign :
    (key : LevelKey) (q : Quantity) (m : List (LevelKey × Quantity)) (os : List (ℕ × PaperOrder))
    → All (λ x. any_resting_order_at x.0 os ≡ true) m
    → All (λ x. any_resting_order_at x.0 os ≡ true) (assign same_key key q m)
unfolding assign
used-assign key q [] os h = tt
used-assign key q ((k, r) ∷ m) os h = (h.0, used-assign key q m os h.1)

pub amounts-assign :
    (key : LevelKey) (q : Quantity) (m : List (LevelKey × Quantity))
    → IsAmount q
    → All (λ x. IsAmount x.1) m
    → All (λ x. IsAmount x.1) (assign same_key key q m)
unfolding assign
amounts-assign key q [] a h = tt
amounts-assign key q ((k, r) ∷ m) a h =
    (if_IsAmount (same_key k key) q r a h.0, amounts-assign key q m a h.1)
  where
    if_IsAmount :
        (b : Bool) (x y : Quantity) → IsAmount x → IsAmount y → IsAmount (if b then x else y)
    if_IsAmount true x y h k = h
    if_IsAmount false x y h k = k

-- After a new size of a followed level, whether or not its orders are reduced.
pub assign-IsConsistent :
    (key : LevelKey) (q : Quantity) (e : MatchingEngine)
    → IsAmount q
    → IsConsistentEngine e
    → IsConsistent e.resting_orders (assign same_key key q e.last_observed_size)
assign-IsConsistent key q e a c = record {
  distinct = c.distinct;
  orders = c.orders;
  tracked = tracked-assign key q e.last_observed_size e.resting_orders c.tracked;
  used = used-assign key q e.last_observed_size e.resting_orders c.used;
  amounts = amounts-assign key q e.last_observed_size a c.amounts;
}

pub survivors-IsConsistentBut :
    (key : LevelKey) (n : ℕ) (os : List (ℕ × PaperOrder)) (m : List (LevelKey × Quantity))
    → IsConsistent os m
    → IsConsistentBut key (survivors key n os) m
survivors-IsConsistentBut key n os m c = record {
  distinct = Distinct-survivors key n os c.distinct;
  orders = AllOrders-survivors key n os c.orders;
  tracked = tracked-survivors key n os m c.tracked;
  used = used_but-survivors key n os m c.used;
  amounts = c.amounts;
}
