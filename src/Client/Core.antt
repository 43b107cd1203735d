-- ===== src/Client/Core.antt =====
-- What a client keeps that decides its book: the readings of the clock, the callbacks and the counts
-- since the last snapshot do not (engine/src/market_data/kraken_book_client.cpp).
use real_time_paper_trading.Base.{
  ℕ, ◌+◌, ◌%◌, ◌^◌, ap, ◌∙◌, ◌≡◌, refl, inl, inr, Bool, true, false, not, ◌&&◌, ◌||◌, Option, none,
  some, List, [], ◌∷◌, pos, Bool-cases, ◌==◌, if◌then◌else◌, arith, Text,
}
use real_time_paper_trading.Ticks.{Price, Quantity}
use real_time_paper_trading.Book.{BookSide, bid, ask, PriceLevel, OrderBook, apply_delta, depth}
use real_time_paper_trading.Checksum.{checksum_depth, compute_book_checksum}
use real_time_paper_trading.Client.{
  BookMessage, BookMessageType, snapshot, update, Event, Client, Frame, message, other_message,
  malformed, emit_if, book_side, with_side, report, report_evicted, apply_level, apply_levels,
  clear_book, subscribe, resubscribe_and_rebuild, publish_snapshot, maybe_publish_snapshot,
  cleared_for, publish_for, same_text, apply_both, computed_checksum, apply_message, handle_message,
  Written, finished, aborted, if_finished, and_then, write, emit, Writes, all_taken, on_tick,
}

pub record Core : Type 0 where
  pub symbol : Text
  pub book : OrderBook
  pub price_decimals : ℕ
  pub quantity_decimals : ℕ
  pub has_socket : Bool

abbrev pub core : Client → Core
core c = record {
  symbol = c.symbol;
  book = c.book;
  price_decimals = c.price_decimals;
  quantity_decimals = c.quantity_decimals;
  has_socket = c.has_socket;
}

-- The operations of the client on what decides its book.
abbrev bumped : Core → Core
bumped k = record k { book = record k.book { last_seq = (k.book.last_seq + 1) % 2 ^ 64 } }

abbrev pub bumped_if : Option Price → Core → Core
bumped_if none k = k
bumped_if (some p) k = bumped k

abbrev pub core_level : BookSide → Core → PriceLevel → Core
core_level side k l =
    let (b, evicted) = apply_delta (book_side k.book side) l.price l.quantity in
    bumped_if evicted (bumped (record k { book = with_side k.book side b }))

abbrev pub core_levels : BookSide → Core → List PriceLevel → Core
core_levels side k [] = k
core_levels side k (l ∷ ls) = core_levels side (core_level side k l) ls

abbrev pub core_cleared : BookMessageType → Core → Core
core_cleared snapshot k = record k { book = clear_book k.book }
core_cleared update k = k

abbrev pub core_both : BookMessage → Core → Core
core_both m k = core_levels ask (core_levels bid (core_cleared m.type k) m.bids) m.asks

core-emit_if : (b : Bool) (ev : Event) (c : Client) → core (emit_if b ev c) ≡ core c
unfolding emit_if
core-emit_if true ev c = refl
core-emit_if false ev c = refl

core-report :
    (s : BookSide) (p : Price) (q : Quantity) (c : Client) → core (report s p q c) ≡ bumped (core c)
unfolding report
core-report s p q c = core-emit_if _ _ _

core-report_evicted :
    (s : BookSide) (o : Option Price) (c : Client)
    → core (report_evicted s o c) ≡ bumped_if o (core c)
unfolding report_evicted
core-report_evicted s none c = refl
core-report_evicted s (some p) c = core-report s p (pos 0) c

core-apply_level :
    (s : BookSide) (c : Client) (l : PriceLevel)
    → core (apply_level s c l) ≡ core_level s (core c) l
unfolding apply_level
core-apply_level s c l =
    let applied = apply_delta (book_side c.book s) l.price l.quantity in
    core-report_evicted s applied.1 _
    ∙ ap (bumped_if applied.1)
        (core-report s l.price l.quantity (record c { book = with_side c.book s applied.0 }))

core-apply_levels :
    (s : BookSide) (c : Client) (ls : List PriceLevel)
    → core (apply_levels s c ls) ≡ core_levels s (core c) ls
unfolding apply_levels
core-apply_levels s c [] = refl
core-apply_levels s c (l ∷ ls) =
    core-apply_levels s (apply_level s c l) ls
    ∙ ap (λ k. core_levels s k ls) (core-apply_level s c l)

core-cleared_for :
    (t : BookMessageType) (c : Client) → core (cleared_for t c) ≡ core_cleared t (core c)
unfolding cleared_for
core-cleared_for snapshot c = refl
core-cleared_for update c = refl

core-apply_both : (m : BookMessage) (c : Client) → core (apply_both m c) ≡ core_both m (core c)
unfolding apply_both
core-apply_both m c =
    core-apply_levels ask _ m.asks
    ∙ ap (λ k. core_levels ask k m.asks)
        (core-apply_levels bid _ m.bids
          ∙ ap (λ k. core_levels bid k m.bids) (core-cleared_for m.type c))

core-publish_for :
    (t : BookMessageType) (i j : ℕ) (c : Client) → core (publish_for t i j c) ≡ core c
unfolding publish_for maybe_publish_snapshot publish_snapshot
core-publish_for snapshot i j c = core-emit_if _ _ c
core-publish_for update i j c = grind (arith, core-emit_if)

-- How a call ends, and what decides the book after it.
abbrev pub ending : Written → Bool × Core
ending (finished c) = (true, core c)
ending (aborted c) = (false, core c)

abbrev pub core_rebuilt : Writes → Core → Bool × Core
core_rebuilt w k =
    if k.has_socket && not w.takes_unsubscribe
    then (false, k)
    else (not k.has_socket || w.takes_subscribe, record k { book = clear_book k.book })

ending-resubscribe_and_rebuild :
    (w : Writes) (c : Client) → ending (resubscribe_and_rebuild w c) ≡ core_rebuilt w (core c)
unfolding resubscribe_and_rebuild subscribe write and_then emit
ending-resubscribe_and_rebuild w c = elim (Bool-cases c.has_socket) [
  | inr n ↦ rw n refl
  | inl y ↦ elim (Bool-cases w.takes_unsubscribe) [
    | inr n ↦ rw (y, n) refl
    | inl t ↦ elim (Bool-cases w.takes_subscribe) [
      | inr n ↦ rw (y, t, n) refl
      | inl t' ↦ rw (y, t, t') refl
    ]
  ]
]

module _ (crc32 : Text → ℕ) where
  abbrev pub core_checksum : Core → ℕ
  core_checksum k =
      compute_book_checksum crc32 (depth k.book.asks checksum_depth)
        (depth k.book.bids checksum_depth) k.price_decimals k.quantity_decimals

  abbrev pub noted : Core → Core
  noted k = record k { book = record k.book { last_check_sum = core_checksum k } }

  -- After the levels of a message.
  abbrev pub core_settled : Writes → BookMessage → Core → Bool × Core
  core_settled w m k =
      if not (core_checksum k == m.checksum) then core_rebuilt w (noted k) else (true, noted k)

  abbrev pub core_message : Writes → BookMessage → Core → Bool × Core
  core_message w m k =
      if not (same_text m.symbol k.symbol) then (true, k) else core_settled w m (core_both m k)

  -- A client with the checksum noted.
  abbrev noted_client : Client → Client
  noted_client c = record c { book = record c.book { last_check_sum = computed_checksum crc32 c } }

  ending-settled :
      (i j : ℕ) (w : Writes) (m : BookMessage) (c : Client)
      → ending (
          if not (computed_checksum crc32 c == m.checksum)
          then resubscribe_and_rebuild w (noted_client c)
          else finished (publish_for m.type i j (noted_client c)))
        ≡ core_settled w m (core c)
  unfolding computed_checksum
  ending-settled i j w m c = elim (Bool-cases (core_checksum (core c) == m.checksum)) [
    | inl e ↦ rw e (ap (λ k. (true, k)) (core-publish_for m.type i j (noted_client c)))
    | inr d ↦ rw d (ending-resubscribe_and_rebuild w (noted_client c))
  ]

  ending-apply_message :
      (i j : ℕ) (w : Writes) (m : BookMessage) (c : Client)
      → ending (apply_message crc32 i j w m c) ≡ core_message w m (core c)
  unfolding apply_message
  ending-apply_message i j w m c = elim (Bool-cases (same_text m.symbol c.symbol)) [
    | inr n ↦ rw n refl
    | inl y ↦
        rw y (ending-settled i j w m (apply_both m c) ∙ ap (core_settled w m) (core-apply_both m c))
  ]

  -- A frame on what decides the book, and whether the call returns.
  abbrev pub core_ending : Writes → Frame → Core → Bool × Core
  core_ending w (message m) k = core_message w m k
  core_ending w other_message k = (true, k)
  core_ending w malformed k = (false, k)

  ending-ticked :
      (o : Written)
      → ending (and_then o (λ c'. finished (emit_if c'.has_on_tick on_tick c'))) ≡ ending o
  unfolding and_then
  ending-ticked (finished c) = ap (λ k. (true, k)) (core-emit_if _ _ c)
  ending-ticked (aborted c) = refl

  pub ending-handle_message :
      (i j : ℕ) (w : Writes) (f : Frame) (c : Client)
      → ending (handle_message crc32 i j w f c) ≡ core_ending w f (core c)
  unfolding handle_message
  ending-handle_message i j w (message m) c =
      ending-ticked (apply_message crc32 i j w m c) ∙ ending-apply_message i j w m c
  ending-handle_message i j w other_message c = ap (λ k. (true, k)) (core-emit_if _ _ c)
  ending-handle_message i j w malformed c = refl

  abbrev if_returned : Bool × Core → Option Core
  if_returned (b, k) = if b then some k else none

  -- A frame on what decides the book, where each write succeeds: `none` for an exception.
  abbrev pub core_frame : Frame → Core → Option Core
  core_frame f k = if_returned (core_ending all_taken f k)

  abbrev pub core_of : Option Client → Option Core
  core_of none = none
  core_of (some c) = some (core c)

  core_of-if_finished : (o : Written) → core_of (if_finished o) ≡ if_returned (ending o)
  core_of-if_finished (finished c) = refl
  core_of-if_finished (aborted c) = refl

  pub core-handle_message :
      (i j : ℕ) (f : Frame) (c : Client)
      → core_of (if_finished (handle_message crc32 i j all_taken f c)) ≡ core_frame f (core c)
  core-handle_message i j f c =
      core_of-if_finished (handle_message crc32 i j all_taken f c)
      ∙ ap if_returned (ending-handle_message i j all_taken f c)
