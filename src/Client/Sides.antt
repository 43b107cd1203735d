-- ===== src/Client/Sides.antt =====
-- Every message leaves a book of two sorted, bounded sides of positive sizes
-- (engine/src/market_data/kraken_book_client.cpp).
use real_time_paper_trading.Base.{
  ℕ, ◌≡◌, refl, inl, inr, Bool, true, false, Option, none, some, List, [], ◌∷◌, All, pos,
  Bool-cases, ◌==◌, arith, Text,
}
use real_time_paper_trading.Ticks.{Price, Quantity}
use real_time_paper_trading.Ticks.Amounts.{IsAmount}
use real_time_paper_trading.Book.{BookSide, bid, ask, PriceLevel, OrderBookSide, OrderBook}
use real_time_paper_trading.Book.Positive.{IsSideOf, IsBook, apply_delta-IsSideOf, clear-IsSideOf}
use real_time_paper_trading.Client.{
  BookMessage, BookMessageType, snapshot, update, Event, Client, emit_if, book_side, with_side,
  report, report_evicted, apply_level, apply_levels, clear_book, subscribe, resubscribe_and_rebuild,
  publish_snapshot, maybe_publish_snapshot, cleared_for, publish_for, same_text, apply_both,
  computed_checksum, apply_message, Writes, client_of, write, and_then, emit, subscribed,
  unsubscribed,
}

-- The sizes of a message are not negative.
abbrev pub AllAmounts : List PriceLevel → Type 0
AllAmounts = All (λ l. IsAmount l.quantity)

pub book_side-IsSideOf :
    (book : OrderBook) (s : BookSide) → IsBook book → IsSideOf s (book_side book s)
unfolding book_side
book_side-IsSideOf book bid v = v.bids
book_side-IsSideOf book ask v = v.asks

pub with_side-IsBook :
    (book : OrderBook) (s : BookSide) (b : OrderBookSide)
    → IsBook book
    → IsSideOf s b
    → IsBook (with_side book s b)
unfolding with_side
with_side-IsBook book bid b v w = record { bids = w; asks = v.asks }
with_side-IsBook book ask b v w = record { bids = v.bids; asks = w }

-- What is about the two sides only.
pub record SameSides (b b' : OrderBook) : Type 0 where
  pub bids : b'.bids ≡ b.bids
  pub asks : b'.asks ≡ b.asks

pub SameSides-IsBook : {b b' : OrderBook} → SameSides b b' → IsBook b → IsBook b'
SameSides-IsBook s v = record { bids = rw s.bids v.bids; asks = rw s.asks v.asks }

pub report-SameSides :
    (s : BookSide) (p : Price) (q : Quantity) (c : Client) → SameSides c.book (report s p q c).book
unfolding report
report-SameSides s p q c = ground arith

pub report_evicted-SameSides :
    (s : BookSide) (o : Option Price) (c : Client) → SameSides c.book (report_evicted s o c).book
unfolding report_evicted
report_evicted-SameSides s none c = record { bids = refl; asks = refl }
report_evicted-SameSides s (some p) c = report-SameSides s p (pos 0) c

pub apply_level-IsBook :
    (s : BookSide) (c : Client) (l : PriceLevel)
    → IsAmount l.quantity
    → IsBook c.book
    → IsBook (apply_level s c l).book
unfolding apply_level
apply_level-IsBook s c l a v = SameSides-IsBook (report_evicted-SameSides s _ _) (
    SameSides-IsBook (report-SameSides s l.price l.quantity _) (
      with_side-IsBook c.book s _ v (
        apply_delta-IsSideOf s (book_side c.book s) l.price l.quantity a
          (book_side-IsSideOf c.book s v))))

pub apply_levels-IsBook :
    (s : BookSide) (c : Client) (ls : List PriceLevel)
    → AllAmounts ls
    → IsBook c.book
    → IsBook (apply_levels s c ls).book
unfolding apply_levels
apply_levels-IsBook s c [] a v = v
apply_levels-IsBook s c (l ∷ ls) a v =
    apply_levels-IsBook s (apply_level s c l) ls a.1 (apply_level-IsBook s c l a.0 v)

pub clear_book-IsBook : (book : OrderBook) → IsBook book → IsBook (clear_book book)
unfolding clear_book
clear_book-IsBook book v = record {
  bids = clear-IsSideOf bid _ v.bids.side;
  asks = clear-IsSideOf ask _ v.asks.side;
}

pub cleared_for-IsBook :
    (t : BookMessageType) (c : Client) → IsBook c.book → IsBook (cleared_for t c).book
unfolding cleared_for
cleared_for-IsBook snapshot c v = clear_book-IsBook c.book v
cleared_for-IsBook update c v = v

-- The levels of a message are applied to a book of this kind, and leave one.
pub apply_both-IsBook :
    (m : BookMessage) (c : Client)
    → AllAmounts m.bids
    → AllAmounts m.asks
    → IsBook c.book
    → IsBook (apply_both m c).book
unfolding apply_both
apply_both-IsBook m c a b v =
    apply_levels-IsBook ask _ m.asks b
      (apply_levels-IsBook bid _ m.bids a (cleared_for-IsBook m.type c v))

pub noted-IsBook :
    (book : OrderBook) (n : ℕ) → IsBook book → IsBook (record book { last_check_sum = n })
noted-IsBook book n v = record { bids = v.bids; asks = v.asks }

pub book-emit_if : (b : Bool) (ev : Event) (c : Client) → (emit_if b ev c).book ≡ c.book
unfolding emit_if
book-emit_if true ev c = refl
book-emit_if false ev c = refl

pub book-publish_snapshot : (j : ℕ) (c : Client) → (publish_snapshot j c).book ≡ c.book
unfolding publish_snapshot
book-publish_snapshot j c = book-emit_if _ _ c

pub book-publish_for :
    (t : BookMessageType) (i j : ℕ) (c : Client) → (publish_for t i j c).book ≡ c.book
unfolding publish_for maybe_publish_snapshot
book-publish_for snapshot i j c = book-publish_snapshot j c
book-publish_for update i j c = ground (arith, book-publish_snapshot j c)

resubscribe_and_rebuild-IsBook :
    (w : Writes) (c : Client)
    → IsBook c.book
    → IsBook (client_of (resubscribe_and_rebuild w c)).book
unfolding resubscribe_and_rebuild subscribe write and_then emit client_of
resubscribe_and_rebuild-IsBook w c v = by_write c.has_socket w.takes_unsubscribe w.takes_subscribe
  where
    written :
        (b taken : Bool) (c' : Client)
        → IsBook c'.book
        → IsBook
            (client_of (write b taken subscribed (record c' { book = clear_book c'.book }))).book
    written false taken c' h = clear_book-IsBook _ h
    written true true c' h = clear_book-IsBook _ h
    written true false c' h = clear_book-IsBook _ h

    -- The client has a socket or not, and each of its writes throws or not.
    by_write :
        (b taken taken' : Bool)
        → IsBook
            (client_of (
              and_then (write b taken unsubscribed c) (λ c'.
                write c'.has_socket taken' subscribed
                  (record c' { book = clear_book c'.book })))).book
    by_write false taken taken' = written c.has_socket taken' c v
    by_write true true taken' = written c.has_socket taken' (emit unsubscribed c) v
    by_write true false taken' = v

module _ (crc32 : Text → ℕ) where
  -- A message whose sizes are not negative leaves a book whose two sides are sorted, the best price
  -- first, are not deeper than the bound, and hold positive sizes only, if the book was one: also
  -- where the message is for another symbol, and where its checksum is wrong, whether the requests are
  -- written or a write throws.
  pub apply_message-IsBook :
      (i j : ℕ) (w : Writes) (m : BookMessage) (c : Client)
      → AllAmounts m.bids
      → AllAmounts m.asks
      → IsBook c.book
      → IsBook (client_of (apply_message crc32 i j w m c)).book
  unfolding apply_message client_of
  apply_message-IsBook i j w m c a b v = elim (Bool-cases (same_text m.symbol c.symbol)) [
    | inr n ↦ rw n v
    | inl y ↦ rw y (elim (Bool-cases (computed_checksum crc32 (apply_both m c) == m.checksum)) [
      | inl e ↦
          rw
            (
              e,
              book-publish_for m.type i j (record (apply_both m c) {
                book = record (apply_both m c).book {
                  last_check_sum = computed_checksum crc32 (apply_both m c);
                };
              }),
            )
            (noted-IsBook _ _ (apply_both-IsBook m c a b v))
      | inr d ↦
          rw d (resubscribe_and_rebuild-IsBook w _ (noted-IsBook _ _ (apply_both-IsBook m c a b v)))
    ])
  ]
