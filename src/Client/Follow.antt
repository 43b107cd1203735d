-- ===== src/Client/Follow.antt =====
-- A message whose checksum is right leaves the receiver of the callbacks in step with the book
-- (engine/src/market_data/kraken_book_client.cpp).
use real_time_paper_trading.Base.{
  ℕ, ◌-◌, ◌^◌, ◌≡◌, ◌⊎◌, refl, sym, ap, ◌∙◌, inl, inr, true, pos, ◌==◌, arith, Text, length, min,
  take_all,
}
use real_time_paper_trading.Ticks.{Price}
use real_time_paper_trading.Book.{
  BookSide, bid, ask, OrderBookSide, OrderBook, size_at_price, depth,
}
use real_time_paper_trading.Book.Sorted.{IsValid}
use real_time_paper_trading.Book.Sizes.{size_of, size_at_price-eq-size_of}
use real_time_paper_trading.Book.Positive.{IsBook}
use real_time_paper_trading.Client.{
  BookMessage, BookMessageType, snapshot, update, on_snapshot, Client, emit, emit_if, book_side,
  publish_snapshot, maybe_publish_snapshot, publish_for, same_text, apply_both, computed_checksum,
  apply_message, Writes, client_of,
}
use real_time_paper_trading.Client.Sides.{
  AllAmounts, book_side-IsSideOf, apply_both-IsBook, noted-IsBook,
}
use real_time_paper_trading.Client.Mirror.{
  levels_for, heard, view, view_from-snoc, Listens, InStep, Listens-apply_both, apply_both-InStep,
}

-- Every level of a side is in its depth.
depth_all : (b : OrderBookSide) → IsValid b → depth b (2 ^ 64 - 1) ≡ b.levels
unfolding depth
depth_all b v = take_all (min (2 ^ 64 - 1) (length b.levels)) b.levels (omega (arith, v.bounded))

levels_for-depth :
    (book : OrderBook) (t : BookSide)
    → IsBook book
    → levels_for t (depth book.bids (2 ^ 64 - 1)) (depth book.asks (2 ^ 64 - 1))
      ≡ (book_side book t).levels
unfolding levels_for book_side
levels_for-depth book bid v = depth_all book.bids v.bids.valid
levels_for-depth book ask v = depth_all book.asks v.asks.valid

size-levels :
    (book : OrderBook) (t : BookSide) (x : Price)
    → IsBook book
    → size_of x (book_side book t).levels ≡ size_at_price (book_side book t) x
size-levels book t x v = sym (
    size_at_price-eq-size_of (book_side book t).side x (book_side book t).levels
      (book_side-IsSideOf book t v).valid.sorted)

-- A snapshot brings any receiver in step.
publish_snapshot-InStep :
    (j : ℕ) (c : Client) → c.has_on_snapshot ≡ true → IsBook c.book → InStep (publish_snapshot j c)
unfolding publish_snapshot emit_if emit view heard
publish_snapshot-InStep j c h v = record {
  same = λ t x.
      rw
        (
          h,
          view_from-snoc (λ t x. pos 0) c.events
              (on_snapshot (depth c.book.bids (2 ^ 64 - 1)) (depth c.book.asks (2 ^ 64 - 1))
                c.book.last_seq),
        )
        (ap (size_of x) (levels_for-depth c.book t v) ∙ size-levels c.book t x v);
}

update_not_snapshot : update ≡ snapshot → ⊥
update_not_snapshot e = cc

publish_for-InStep :
    (k : BookMessageType) (i j : ℕ) (c : Client)
    → c.has_on_snapshot ≡ true
    → IsBook c.book
    → (k ≡ snapshot) ⊎ InStep c
    → InStep (publish_for k i j c)
unfolding publish_for maybe_publish_snapshot
publish_for-InStep snapshot i j c h v s = publish_snapshot-InStep j c h v
publish_for-InStep update i j c h v (inr s) = ground (arith, publish_snapshot-InStep j c h v, s)
publish_for-InStep update i j c h v (inl e) = absurd (update_not_snapshot e)

noted-InStep :
    (n : ℕ) (c : Client)
    → InStep c
    → InStep (record c { book = record c.book { last_check_sum = n } })
unfolding book_side view
noted-InStep n c i = record { same = same }
  where
    same :
        (t : BookSide) (x : Price)
        → view c t x ≡ size_at_price (book_side (record c.book { last_check_sum = n }) t) x
    same bid x = i.same bid x
    same ask x = i.same ask x

module _ (crc32 : Text → ℕ) where
  -- A message for the client's symbol whose checksum is the computed one leaves a receiver of all
  -- callbacks with the sizes of the book, at every price of both sides: after an update if it was in
  -- step before, and after a snapshot in any case. The callbacks are set, the sizes of the message are
  -- not negative, and the book is one of sorted, bounded sides of positive sizes.
  pub apply_message-InStep :
      (i j : ℕ) (w : Writes) (m : BookMessage) (c : Client)
      → same_text m.symbol c.symbol ≡ true
      → (computed_checksum crc32 (apply_both m c) == m.checksum) ≡ true
      → AllAmounts m.bids
      → AllAmounts m.asks
      → Listens c
      → IsBook c.book
      → (m.type ≡ snapshot) ⊎ InStep c
      → InStep (client_of (apply_message crc32 i j w m c))
  unfolding apply_message client_of view
  apply_message-InStep i j w m c e k a b h v s =
      let c' = apply_both m c in
      let v' = apply_both-IsBook m c a b v in
      rw (e, k)
        (publish_for-InStep m.type i j
          (record c' { book = record c'.book { last_check_sum = computed_checksum crc32 c' } })
          (Listens-apply_both m c h).snapshots (noted-IsBook _ _ v') (started m.type refl s))
    where
      started :
          (t : BookMessageType)
          → m.type ≡ t
          → (m.type ≡ snapshot) ⊎ InStep c
          → (m.type ≡ snapshot)
            ⊎ InStep (record (apply_both m c) {
              book = record (apply_both m c).book {
                last_check_sum = computed_checksum crc32 (apply_both m c);
              };
            })
      started t u (inl z) = inl z
      started snapshot u (inr z) = inl u
      started update u (inr z) = inr (noted-InStep _ _ (apply_both-InStep m c u a b h v z))
