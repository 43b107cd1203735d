-- ===== src/Client/Mirror.antt =====
-- A receiver of the callbacks that keeps the sizes that it is told has those of the book
-- (engine/src/market_data/kraken_book_client.cpp).
use real_time_paper_trading.Base.{
  ◌+◌, ◌%◌, ◌^◌, ◌≡◌, refl, sym, ap, ◌∙◌, inl, inr, true, ◌&&◌, Option, none, some, List, [], ◌∷◌,
  ◌++◌, pos, if◌then◌else◌, Bool-cases, arith, eqb_ℤ,
}
use real_time_paper_trading.Ticks.{Price, Quantity}
use real_time_paper_trading.Book.{
  BookSide, bid, ask, PriceLevel, OrderBookSide, OrderBook, apply_delta, size_at_price,
}
use real_time_paper_trading.Book.Sizes.{size_of, is_evicted, size_at_price-apply_delta}
use real_time_paper_trading.Book.Positive.{IsBook}
use real_time_paper_trading.Matching.{same_side}
use real_time_paper_trading.Client.{
  BookMessage, BookMessageType, snapshot, update, Event, on_delta, on_snapshot, subscribed,
  unsubscribed, on_tick, Client, emit, emit_if, book_side, with_side, report, report_evicted,
  apply_level, apply_levels, cleared_for, apply_both,
}
use real_time_paper_trading.Client.Sides.{
  AllAmounts, book_side-IsSideOf, SameSides, report-SameSides, report_evicted-SameSides,
  apply_level-IsBook, apply_levels-IsBook,
}

-- The sizes that a receiver holds.
abbrev pub View : Type 0
View = BookSide → Price → Quantity

unfoldable pub levels_for : BookSide → List PriceLevel → List PriceLevel → List PriceLevel
levels_for bid bs as_ = bs
levels_for ask bs as_ = as_

-- A delta sets the size at its price, a snapshot replaces them all.
unfoldable pub heard : Event → View → View
heard (on_delta s p q n) v t x = if same_side s t && eqb_ℤ p x then q else v t x
heard (on_snapshot bs as_ n) v t x = size_of x (levels_for t bs as_)
heard subscribed v t x = v t x
heard unsubscribed v t x = v t x
heard on_tick v t x = v t x

unfoldable pub view_from : View → List Event → View
view_from v [] = v
view_from v (ev ∷ evs) = view_from (heard ev v) evs

-- What a receiver of all events of the client holds.
unfoldable pub view : Client → View
view c = view_from (λ t x. pos 0) c.events

pub view_from-snoc :
    (v : View) (evs : List Event) (ev : Event)
    → view_from v (evs ++ (ev ∷ [])) ≡ heard ev (view_from v evs)
unfolding view_from
view_from-snoc v [] ev = refl
view_from-snoc v (e ∷ evs) ev = view_from-snoc (heard e v) evs ev

-- Both callbacks are set.
pub record Listens (c : Client) : Type 0 where
  pub deltas : c.has_on_delta ≡ true
  pub snapshots : c.has_on_snapshot ≡ true

pub record InStep (c : Client) : Type 0 where
  pub same : (t : BookSide) (x : Price) → view c t x ≡ size_at_price (book_side c.book t) x

view-report :
    (s : BookSide) (p : Price) (q : Quantity) (c : Client)
    → c.has_on_delta ≡ true
    → (t : BookSide) (x : Price)
    → view (report s p q c) t x ≡ (if same_side s t && eqb_ℤ p x then q else view c t x)
unfolding report emit_if emit view heard
view-report s p q c h t x =
    rw (h, view_from-snoc (λ t x. pos 0) c.events (on_delta s p q ((c.book.last_seq + 1) % 2 ^ 64)))
      refl

view-report_evicted :
    (s : BookSide) (o : Option Price) (c : Client)
    → c.has_on_delta ≡ true
    → (t : BookSide) (x : Price)
    → view (report_evicted s o c) t x
      ≡ (if same_side s t && is_evicted x o then pos 0 else view c t x)
unfolding report_evicted
view-report_evicted s none c h t x = ground arith
view-report_evicted s (some e) c h t x = view-report s e (pos 0) c h t x

Listens-report :
    (s : BookSide) (p : Price) (q : Quantity) (c : Client) → Listens c → Listens (report s p q c)
unfolding report emit_if emit
Listens-report s p q c l = record {
  deltas = ground (arith, l.deltas);
  snapshots = ground (arith, l.snapshots);
}

Listens-report_evicted :
    (s : BookSide) (o : Option Price) (c : Client) → Listens c → Listens (report_evicted s o c)
unfolding report_evicted
Listens-report_evicted s none c l = l
Listens-report_evicted s (some e) c l = Listens-report s e (pos 0) c l

Listens-apply_level :
    (s : BookSide) (c : Client) (l : PriceLevel) → Listens c → Listens (apply_level s c l)
unfolding apply_level
Listens-apply_level s c l h =
    Listens-report_evicted s _ _ (
      Listens-report s l.price l.quantity _ (record { deltas = h.deltas; snapshots = h.snapshots }))

Listens-apply_levels :
    (s : BookSide) (c : Client) (ls : List PriceLevel) → Listens c → Listens (apply_levels s c ls)
unfolding apply_levels
Listens-apply_levels s c [] h = h
Listens-apply_levels s c (l ∷ ls) h =
    Listens-apply_levels s (apply_level s c l) ls (Listens-apply_level s c l h)

-- The sizes of the book after one side is replaced.
size-with_side :
    (book : OrderBook) (s : BookSide) (b : OrderBookSide) (t : BookSide) (x : Price)
    → size_at_price (book_side (with_side book s b) t) x
      ≡ (if same_side s t then size_at_price b x else size_at_price (book_side book t) x)
unfolding book_side with_side same_side
size-with_side book bid b bid x = refl
size-with_side book bid b ask x = refl
size-with_side book ask b bid x = refl
size-with_side book ask b ask x = refl

same_side-eq : (s t : BookSide) → same_side s t ≡ true → s ≡ t
unfolding same_side
same_side-eq bid bid e = refl
same_side-eq bid ask e = cc
same_side-eq ask bid e = cc
same_side-eq ask ask e = refl

book_side-Same :
    (b b' : OrderBook) → SameSides b b' → (t : BookSide) → book_side b' t ≡ book_side b t
unfolding book_side
book_side-Same b b' s bid = s.bids
book_side-Same b b' s ask = s.asks

size-apply_level :
    (s : BookSide) (c : Client) (l : PriceLevel) (t : BookSide) (x : Price)
    → let (b, evicted) = apply_delta (book_side c.book s) l.price l.quantity in
      size_at_price (book_side (apply_level s c l).book t) x
      ≡ (if same_side s t then size_at_price b x else size_at_price (book_side c.book t) x)
unfolding apply_level
size-apply_level s c l t x =
    ap (λ b. size_at_price b x)
      (book_side-Same _ _ (report_evicted-SameSides s _ _) t
        ∙ book_side-Same _ _ (report-SameSides s l.price l.quantity _) t)
    ∙ size-with_side c.book s _ t x

view-apply_level :
    (s : BookSide) (c : Client) (l : PriceLevel)
    → Listens c
    → (t : BookSide) (x : Price)
    → let (b, evicted) = apply_delta (book_side c.book s) l.price l.quantity in
      view (apply_level s c l) t x ≡ (
        if same_side s t && is_evicted x evicted
        then pos 0
        else if same_side s t && eqb_ℤ l.price x
        then l.quantity
        else view c t x)
unfolding apply_level view
view-apply_level s c l h t x =
    view-report_evicted s _ _
      (Listens-report s l.price l.quantity
        (record c {
          book = with_side c.book s (apply_delta (book_side c.book s) l.price l.quantity).0;
        })
        (record { deltas = h.deltas; snapshots = h.snapshots })).deltas
      t x
    ∙ ap
        (λ q.
          if same_side s t && is_evicted x (apply_delta (book_side c.book s) l.price l.quantity).1
          then pos 0
          else q)
        (view-report s l.price l.quantity
          (record c {
            book = with_side c.book s (apply_delta (book_side c.book s) l.price l.quantity).0;
          })
          h.deltas t x)

apply_level-InStep :
    (s : BookSide) (c : Client) (l : PriceLevel)
    → Listens c
    → IsBook c.book
    → InStep c
    → InStep (apply_level s c l)
apply_level-InStep s c l h v i = record {
  same = λ t x. view-apply_level s c l h t x ∙ elim (Bool-cases (same_side s t)) [
    | inl y ↦
        (let e = same_side-eq s t y in
          rw
            (
              size-apply_level s c l t x,
              y,
              size_at_price-apply_delta (book_side c.book s) l.price l.quantity x
                  (book_side-IsSideOf c.book s v).valid,
              i.same t x,
              sym e,
            )
            refl)
    | inr n ↦ rw (size-apply_level s c l t x, n) (i.same t x)
  ];
}

apply_levels-InStep :
    (s : BookSide) (c : Client) (ls : List PriceLevel)
    → AllAmounts ls
    → Listens c
    → IsBook c.book
    → InStep c
    → InStep (apply_levels s c ls)
unfolding apply_levels
apply_levels-InStep s c [] a h v i = i
apply_levels-InStep s c (l ∷ ls) a h v i =
    apply_levels-InStep s (apply_level s c l) ls a.1 (Listens-apply_level s c l h)
      (apply_level-IsBook s c l a.0 v) (apply_level-InStep s c l h v i)

pub Listens-apply_both : (m : BookMessage) (c : Client) → Listens c → Listens (apply_both m c)
unfolding apply_both cleared_for
Listens-apply_both m c h =
    Listens-apply_levels ask _ m.asks (Listens-apply_levels bid _ m.bids (cleared m.type))
  where
    cleared : (t : BookMessageType) → Listens (cleared_for t c)
    cleared snapshot = record { deltas = h.deltas; snapshots = h.snapshots }
    cleared update = h

-- The levels of an update keep the receiver in step.
pub apply_both-InStep :
    (m : BookMessage) (c : Client)
    → m.type ≡ update
    → AllAmounts m.bids
    → AllAmounts m.asks
    → Listens c
    → IsBook c.book
    → InStep c
    → InStep (apply_both m c)
unfolding apply_both cleared_for
apply_both-InStep m c u a b h v i = rw u (
    apply_levels-InStep ask (apply_levels bid c m.bids) m.asks b
      (Listens-apply_levels bid c m.bids h) (apply_levels-IsBook bid c m.bids a v)
      (apply_levels-InStep bid c m.bids a h v i))
