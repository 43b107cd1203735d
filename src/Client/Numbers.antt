-- ===== src/Client/Numbers.antt =====
-- The numbers of the deltas that the client reports
-- (engine/src/market_data/kraken_book_client.cpp).
use real_time_paper_trading.Base.{
  ℕ, ◌+◌, ◌*◌, ◌%◌, ◌^◌, ◌≤◌, ◌≡◌, refl, sym, ap, ◌∙◌, true, Option, none, some, List, [], ◌∷◌,
  ◌++◌, length, length-append, append_assoc, append-nil, arith, pos,
}
use real_time_paper_trading.Ticks.{Price, Quantity}
use real_time_paper_trading.Book.{BookSide, bid, ask, PriceLevel, OrderBookSide, apply_delta}
use real_time_paper_trading.Client.{
  BookMessage, BookMessageType, snapshot, update, Event, on_delta, on_snapshot, subscribed,
  unsubscribed, on_tick, Client, emit, emit_if, book_side, with_side, report, report_evicted,
  apply_level, apply_levels, cleared_for, clear_book, apply_both,
}

-- All are deltas, each with the number after the one before it, from `n` to `n'`.
pub Numbered : ℕ → List Event → ℕ → Type 0
Numbered n [] n' = n' ≡ n
Numbered n (on_delta s p q k ∷ evs) n' = (k ≡ (n + 1) % 2 ^ 64) × Numbered k evs n'
Numbered n (on_snapshot bs as_ k ∷ evs) n' = ⊥
Numbered n (subscribed ∷ evs) n' = ⊥
Numbered n (unsubscribed ∷ evs) n' = ⊥
Numbered n (on_tick ∷ evs) n' = ⊥

-- `c'` has reported from `lo` to `hi` more deltas than `c`.
pub record Reports (lo hi : ℕ) (c c' : Client) : Type 0 where
  pub deltas : List Event
  pub events : c'.events ≡ c.events ++ deltas
  pub numbered : Numbered c.book.last_seq deltas c'.book.last_seq
  pub least : lo ≤ length deltas
  pub most : length deltas ≤ hi
  pub listens : c.has_on_delta ≡ true → c'.has_on_delta ≡ true

Numbered-append :
    (n k m : ℕ) (es fs : List Event) → Numbered n es k → Numbered k fs m → Numbered n (es ++ fs) m
unfolding Numbered
Numbered-append n k m [] fs h g = rw (sym h) g
Numbered-append n k m (on_delta s p q j ∷ es) fs h g = (h.0, Numbered-append j k m es fs h.1 g)
Numbered-append n k m (on_snapshot _ _ _ ∷ es) fs h g = elim h [ ]
Numbered-append n k m (subscribed ∷ es) fs h g = elim h [ ]
Numbered-append n k m (unsubscribed ∷ es) fs h g = elim h [ ]
Numbered-append n k m (on_tick ∷ es) fs h g = elim h [ ]

Reports-trans :
    {a b a' b' : ℕ} {c d e : Client}
    → Reports a b c d
    → Reports a' b' d e
    → Reports (a + a') (b + b') c e
Reports-trans {a} {b} {a'} {b'} {c} {d} {e} r s = record {
  deltas = r.deltas ++ s.deltas;
  events =
      s.events ∙ ap (λ evs. evs ++ s.deltas) r.events ∙ append_assoc c.events r.deltas s.deltas;
  numbered =
      Numbered-append c.book.last_seq d.book.last_seq e.book.last_seq r.deltas s.deltas r.numbered
        s.numbered;
  least = omega (arith, length-append r.deltas s.deltas, r.least, s.least);
  most = omega (arith, length-append r.deltas s.deltas, r.most, s.most);
  listens = λ h. s.listens (r.listens h);
}

report-Reports :
    (s : BookSide) (p : Price) (q : Quantity) (c : Client)
    → c.has_on_delta ≡ true
    → Reports 1 1 c (report s p q c)
unfolding report emit_if emit Numbered
report-Reports s p q c h = record {
  deltas = on_delta s p q ((c.book.last_seq + 1) % 2 ^ 64) ∷ [];
  events = rw h refl;
  numbered = (refl, rw h refl);
  least = omega arith;
  most = omega arith;
  listens = λ g. rw h refl;
}

-- Another client with the same number, events and callback.
Reports-none :
    (c d : Client)
    → d.events ≡ c.events
    → d.book.last_seq ≡ c.book.last_seq
    → d.has_on_delta ≡ c.has_on_delta
    → Reports 0 0 c d
unfolding Numbered
Reports-none c d e n l = record {
  deltas = [];
  events = e ∙ sym (append-nil c.events);
  numbered = n;
  least = omega arith;
  most = omega arith;
  listens = λ h. l ∙ h;
}

Reports-within :
    {a b a' b' : ℕ} {c d : Client} → Reports a b c d → a' ≤ a → b ≤ b' → Reports a' b' c d
Reports-within r h k = record {
  deltas = r.deltas;
  events = r.events;
  numbered = r.numbered;
  least = omega (arith, r.least);
  most = omega (arith, r.most);
  listens = r.listens;
}

report_evicted-Reports :
    (s : BookSide) (o : Option Price) (c : Client)
    → c.has_on_delta ≡ true
    → Reports 0 1 c (report_evicted s o c)
unfolding report_evicted
report_evicted-Reports s none c h =
    Reports-within (Reports-none c c refl refl refl) (omega arith) (omega arith)
report_evicted-Reports s (some p) c h =
    Reports-within (report-Reports s p (pos 0) c h) (omega arith) (omega arith)

apply_level-Reports :
    (s : BookSide) (c : Client) (l : PriceLevel)
    → c.has_on_delta ≡ true
    → Reports 1 2 c (apply_level s c l)
unfolding apply_level with_side
apply_level-Reports s c l h =
    let b = (apply_delta (book_side c.book s) l.price l.quantity).0 in
    let c' = record c { book = with_side c.book s b } in
    let r =
      Reports-trans (Reports-none c c' refl (seq s b) refl)
        (report-Reports s l.price l.quantity c' h) in
    Reports-trans r (report_evicted-Reports s _ _ (r.listens h))
  where
    seq : (t : BookSide) (b : OrderBookSide) → (with_side c.book t b).last_seq ≡ c.book.last_seq
    seq bid b = refl
    seq ask b = refl

apply_levels-Reports :
    (s : BookSide) (c : Client) (ls : List PriceLevel)
    → c.has_on_delta ≡ true
    → Reports (length ls) (2 * length ls) c (apply_levels s c ls)
unfolding apply_levels
apply_levels-Reports s c [] h = Reports-none c c refl refl refl
apply_levels-Reports s c (l ∷ ls) h =
    let r = apply_level-Reports s c l h in
    Reports-within (Reports-trans r (apply_levels-Reports s (apply_level s c l) ls (r.listens h)))
      (omega arith) (omega arith)

-- The levels of a message are reported as deltas only, from one to two for each level, that carry
-- consecutive numbers, from the one after the last number of the book to its new last number, if the
-- callback is set.
pub apply_both-Reports :
    (m : BookMessage) (c : Client)
    → c.has_on_delta ≡ true
    → let n = length m.bids + length m.asks in Reports n (2 * n) c (apply_both m c)
unfolding apply_both cleared_for clear_book
apply_both-Reports m c h =
    let r =
      Reports-trans (cleared m.type)
        (apply_levels-Reports bid (cleared_for m.type c) m.bids ((cleared m.type).listens h)) in
    let r' = Reports-trans r (apply_levels-Reports ask _ m.asks (r.listens h)) in
    Reports-within r' (omega arith) (omega arith)
  where
    cleared : (t : BookMessageType) → Reports 0 0 c (cleared_for t c)
    cleared snapshot = Reports-none c _ refl refl refl
    cleared update = Reports-none c _ refl refl refl
