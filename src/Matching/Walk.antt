-- ===== src/Matching/Walk.antt =====
-- The walk of `placeOrder` over the opposite side (engine/src/matching/matching_engine.cpp).
use real_time_paper_trading.Base.{
  ℕ, ◌+◌, ◌-◌, ◌≤◌, ◌<◌, ◌^◌, ◌≡◌, refl, sym, ap, ◌∙◌, inl, inr, Bool, true, false, not, ◌||◌, List,
  [], ◌∷◌, ◌++◌, append-nil, append_assoc, arith, if◌then◌else◌, Bool-cases, length, All, pos,
  pos_part, leb_ℤ, min_ℤ,
}
use real_time_paper_trading.Ticks.{Price, Quantity, ◌-q◌}
use real_time_paper_trading.Ticks.Amounts.{
  IsSize, IsSize-IsAmount, sub-min, min-IsSize, min-pos_part,
}
use real_time_paper_trading.Book.{BookSide, bid, ask, PriceLevel, better}
use real_time_paper_trading.Book.Sorted.{AllWorse, Sorted}
use real_time_paper_trading.Book.Positive.{AllSizes}
use real_time_paper_trading.Matching.{
  OrderType, market, limit, Fill, MatchingEngine, crossed, emit_fill, walk,
}

-- The other side of the book is sorted the other way.
abbrev pub other : BookSide → BookSide
other bid = ask
other ask = bid

-- The sum of the sizes of all levels that the order may take, wherever they stand.
unfoldable pub available : BookSide → OrderType → Price → List PriceLevel → ℕ
available side type price [] = 0
available side type price (l ∷ ls) =
    let rest = available side type price ls in
    if crossed side type price l.price then pos_part l.quantity + rest else rest

worse_not_crossed :
    (s : BookSide) (t : OrderType) (p x y : Price)
    → crossed s t p x ≡ false
    → better (other s) x y ≡ true
    → crossed s t p y ≡ false
unfolding crossed better
worse_not_crossed s market p x y e b = e
worse_not_crossed bid limit p x y e b = ground arith
worse_not_crossed ask limit p x y e b = ground arith

-- Behind a level that the order may not take there is none that it may.
available_beyond :
    (side : BookSide) (type : OrderType) (price a : Price) (ls : List PriceLevel)
    → crossed side type price a ≡ false
    → AllWorse (other side) a ls
    → available side type price ls ≡ 0
unfolding available
available_beyond side type price a [] h k = refl
available_beyond side type price a (l ∷ ls) h k =
    rw (worse_not_crossed side type price a l.price h k.0)
      (available_beyond side type price a ls h k.1)

-- The engines are the same but for the fills.
pub record Keeps (e e' : MatchingEngine) : Type 0 where
  pub symbol : e'.symbol ≡ e.symbol
  pub on_fill : e'.on_fill ≡ e.on_fill
  pub resting : e'.resting_orders ≡ e.resting_orders
  pub observed : e'.last_observed_size ≡ e.last_observed_size

pub Keeps-refl : (e : MatchingEngine) → Keeps e e
Keeps-refl e = record { symbol = refl; on_fill = refl; resting = refl; observed = refl }

pub Keeps-trans : {e₁ e₂ e₃ : MatchingEngine} → Keeps e₁ e₂ → Keeps e₂ e₃ → Keeps e₁ e₃
Keeps-trans h k = record {
  symbol = k.symbol ∙ h.symbol;
  on_fill = k.on_fill ∙ h.on_fill;
  resting = k.resting ∙ h.resting;
  observed = k.observed ∙ h.observed;
}

-- A fill of the order, of a positive size, at a price that the order allows.
pub record IsGoodFill (id : ℕ) (side : BookSide) (type : OrderType) (price : Price) (f : Fill)
    : Type 0 where
  pub own : f.order_id ≡ id
  pub allowed : crossed side type price f.price ≡ true
  pub positive : IsSize f.size

unfoldable pub total : List Fill → ℕ
total [] = 0
total (f ∷ fs) = pos_part f.size + total fs

or_not_right : (a b : Bool) → (a || not b) ≡ false → b ≡ true
or_not_right a b h = ground arith

positive_of_test :
    (n : ℕ) → n < 2 ^ 63 → (b : Bool) → (leb_ℤ (pos n) (pos 0) || b) ≡ false → IsSize (pos n)
positive_of_test n h b e = ground arith

module _ (now_nanos : ℕ → ℕ) where
  -- The walk takes the smaller of the order and all that it may take.
  pub walk_remaining :
      (id : ℕ) (side : BookSide) (type : OrderType) (price : Price) (ls : List PriceLevel) (n : ℕ)
      (e : MatchingEngine)
      → n < 2 ^ 63
      → AllSizes ls
      → Sorted (other side) ls
      → (walk now_nanos id side type price ls (pos n) e).0 ≡ pos (n - available side type price ls)
  unfolding walk available
  walk_remaining id side type price [] n e h k s = ap pos (omega arith)
  walk_remaining id side type price (l ∷ ls) n e h k s = elim (Bool-cases (leb_ℤ (pos n) (pos 0))) [
    | inl z ↦ rw z (ap pos (ground arith))
    | inr nz ↦ rw nz (elim (Bool-cases (crossed side type price l.price)) [
      | inl c ↦
          rw (c, sub-min n l.quantity h (IsSize-IsAmount l.quantity k.0))
            (walk_remaining id side type price ls (n - pos_part l.quantity)
                (emit_fill now_nanos e id l.price (min_ℤ (pos n) l.quantity)) (omega arith) k.1 s.1
              ∙ ap pos (omega arith))
      | inr d ↦ rw (d, available_beyond side type price l.price ls d s.0) (ap pos (omega arith))
    ])
  ]

  abbrev pub fill_of : MatchingEngine → ℕ → Price → Quantity → Fill
  fill_of e id price size = record {
    order_id = id;
    price = price;
    size = size;
    timestamp = now_nanos (length e.fills);
  }

  pub emit_fill_fills :
      (e : MatchingEngine) (id : ℕ) (price : Price) (size : Quantity)
      → e.on_fill ≡ true
      → (emit_fill now_nanos e id price size).fills ≡ e.fills ++ (fill_of e id price size ∷ [])
  unfolding emit_fill
  emit_fill_fills e id price size c = rw c

  pub emit_fill-Keeps :
      (e : MatchingEngine) (id : ℕ) (price : Price) (size : Quantity)
      → Keeps e (emit_fill now_nanos e id price size)
  unfolding emit_fill
  emit_fill-Keeps e id price size = ground arith

  -- Only the fills of the engine change.
  pub walk-Keeps :
      (id : ℕ) (side : BookSide) (type : OrderType) (price : Price) (ls : List PriceLevel)
      (r : Quantity) (e : MatchingEngine)
      → Keeps e (walk now_nanos id side type price ls r e).1
  unfolding walk emit_fill
  walk-Keeps id side type price [] r e = Keeps-refl e
  walk-Keeps id side type price (l ∷ ls) r e =
      let f : Quantity = min_ℤ r l.quantity in
      ground (arith, walk-Keeps id side type price ls (r -q f) (emit_fill now_nanos e id l.price f))

  -- The walk reports fills of the order, at prices that it allows, whose sizes sum to what it takes.
  pub walk_fills :
      (id : ℕ) (side : BookSide) (type : OrderType) (price : Price) (ls : List PriceLevel) (n : ℕ)
      (e : MatchingEngine)
      → n < 2 ^ 63
      → AllSizes ls
      → e.on_fill ≡ true
      → (ns : List Fill) × ((walk now_nanos id side type price ls (pos n) e).1.fills
          ≡ e.fills ++ ns)
        × All (IsGoodFill id side type price) ns
        × ((walk now_nanos id side type price ls (pos n) e).0 ≡ pos (n - total ns))
        × (total ns ≤ n)
  unfolding walk total
  walk_fills id side type price [] n e h k c =
      ([], sym (append-nil e.fills), tt, ap pos (omega arith), omega arith)
  walk_fills id side type price (l ∷ ls) n e h k c =
      elim (Bool-cases (leb_ℤ (pos n) (pos 0) || not (crossed side type price l.price))) [
        | inl z ↦ rw z ([], sym (append-nil e.fills), tt, ap pos (omega arith), omega arith)
        | inr nz ↦
            let s : Quantity = min_ℤ (pos n) l.quantity in
            let (ns, p, g, r, t) =
              walk_fills id side type price ls (n - pos_part l.quantity)
                (emit_fill now_nanos e id l.price s) (omega arith) k.1
                ((emit_fill-Keeps e id l.price s).on_fill ∙ c) in
            rw (nz, sub-min n l.quantity h (IsSize-IsAmount l.quantity k.0))
              (
                fill_of e id l.price s ∷ ns,
                p
                    ∙ ap (λ fs. fs ++ ns) (emit_fill_fills e id l.price s c)
                    ∙ append_assoc e.fills (fill_of e id l.price s ∷ []) ns,
                (
                  record {
                    own = refl;
                    allowed = or_not_right _ _ nz;
                    positive = min-IsSize (pos n) l.quantity (positive_of_test n h _ nz) k.0;
                  },
                  g,
                ),
                r ∙ ap pos (omega (arith, min-pos_part n l.quantity)),
                omega (arith, min-pos_part n l.quantity),
              )
      ]
