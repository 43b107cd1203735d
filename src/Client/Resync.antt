-- ===== src/Client/Resync.antt =====
-- What follows the checksum of a message: a new subscription, or a snapshot when it is due
-- (engine/src/market_data/kraken_book_client.cpp).
use real_time_paper_trading.Base.{
  ℕ, ◌-◌, ◌^◌, ◌≤◌, ◌<◌, ◌≡◌, refl, sym, Bool, true, false, not, ◌&&◌, ◌||◌, List, [], ◌∷◌, ◌++◌,
  leb, ◌==◌, if◌then◌else◌, arith, Text, append_assoc, append-nil, Bool-cases, inl, inr,
}
use real_time_paper_trading.Book.{OrderBook, clear, depth}
use real_time_paper_trading.Client.{
  BookMessage, BookMessageType, snapshot, update, Event, on_snapshot, subscribed, unsubscribed,
  Client, emit, emit_if, clear_book, Written, finished, aborted, client_of, and_then, write,
  subscribe, Writes, resubscribe_and_rebuild, publish_snapshot, maybe_publish_snapshot, publish_for,
  snapshot_interval, snapshot_delta_threshold, same_text, apply_both, computed_checksum,
  apply_message,
}

-- Whether a call was left by an exception.
abbrev pub is_aborted : Written → Bool
is_aborted (finished c) = false
is_aborted (aborted c) = true

-- The requests of a new subscription that go out: up to the first write that throws, and none
-- without a socket.
abbrev pub requests : Bool → Bool → Bool → List Event
requests true true true = unsubscribed ∷ subscribed ∷ []
requests true true false = unsubscribed ∷ []
requests true false taken = []
requests false taken taken' = []

-- What a new subscription makes of a client.
abbrev pub Resubscribed : Writes → Client → Written → Type 0
Resubscribed w c o =
    (is_aborted o ≡ (c.has_socket && not (w.takes_unsubscribe && w.takes_subscribe)))
    × ((client_of o).book
        ≡ (if c.has_socket && not w.takes_unsubscribe then c.book else clear_book c.book))
    × ((client_of o).events
        ≡ c.events ++ requests c.has_socket w.takes_unsubscribe w.takes_subscribe)

resubscribe_lem : (w : Writes) (c : Client) → Resubscribed w c (resubscribe_and_rebuild w c)
unfolding resubscribe_and_rebuild subscribe write and_then emit client_of
resubscribe_lem w c = elim (Bool-cases c.has_socket) [
  | inr n ↦ rw n (refl, refl, sym (append-nil c.events))
  | inl y ↦ elim (Bool-cases w.takes_unsubscribe) [
    | inr n ↦ rw (y, n) (refl, refl, sym (append-nil c.events))
    | inl t ↦ elim (Bool-cases w.takes_subscribe) [
      | inr n ↦ rw (y, t, n) (refl, refl, refl)
      | inl t' ↦ rw (y, t, t') (refl, refl, append_assoc c.events _ _)
    ]
  ]
]

-- After a snapshot in any case.
abbrev pub or_snapshot : BookMessageType → Bool → Bool
or_snapshot snapshot due = true
or_snapshot update due = due

-- Whether a snapshot is due after a message: after an update by the count or by the age of the last one.
abbrev pub is_due : BookMessageType → ℕ → Client → Bool
is_due k i c = or_snapshot k (
    leb snapshot_delta_threshold c.deltas_since_snapshot
    || leb snapshot_interval (i - c.last_snapshot_time))

-- The call of the callback with both sides.
abbrev pub snapshot_of : OrderBook → Event
snapshot_of book =
    on_snapshot (depth book.bids (2 ^ 64 - 1)) (depth book.asks (2 ^ 64 - 1)) book.last_seq

abbrev pub when : Bool → Event → List Event
when true ev = ev ∷ []
when false ev = []

-- What the end of a message makes of a client.
abbrev pub Published : BookMessageType → ℕ → ℕ → Client → Client → Type 0
Published k i j c c' =
    (c'.events ≡ c.events ++ when (is_due k i c && c.has_on_snapshot) (snapshot_of c.book))
    × (c'.deltas_since_snapshot ≡ (if is_due k i c then 0 else c.deltas_since_snapshot))
    × (c'.last_snapshot_time ≡ (if is_due k i c then j else c.last_snapshot_time))

publish_snapshot_lem :
    (j : ℕ) (c : Client)
    → let c' = publish_snapshot j c in
      (c'.events ≡ c.events ++ when c.has_on_snapshot (snapshot_of c.book))
      × (c'.deltas_since_snapshot ≡ 0)
      × (c'.last_snapshot_time ≡ j)
unfolding publish_snapshot emit_if emit
publish_snapshot_lem j c = elim (Bool-cases c.has_on_snapshot) [
  | inl y ↦ rw y (refl, refl, refl)
  | inr n ↦ rw n (sym (append-nil c.events), refl, refl)
]

publish_for_lem :
    (k : BookMessageType) (i j : ℕ) (c : Client) → Published k i j c (publish_for k i j c)
unfolding publish_for maybe_publish_snapshot
publish_for_lem snapshot i j c = publish_snapshot_lem j c
publish_for_lem update i j c = elim (Bool-cases (is_due update i c)) [
  | inl y ↦ rw y (publish_snapshot_lem j c)
  | inr n ↦ rw n (sym (append-nil c.events), refl, refl)
]

-- Few deltas since the last snapshot, which is young.
abbrev pub Recent : ℕ → Client → Type 0
Recent i c =
    (c.deltas_since_snapshot < snapshot_delta_threshold)
    × (i - c.last_snapshot_time < snapshot_interval)

publish_for_fresh :
    (k : BookMessageType) (i j : ℕ) (c : Client) → i ≤ j → Recent i (publish_for k i j c)
unfolding publish_for publish_snapshot maybe_publish_snapshot
publish_for_fresh snapshot i j c h = (omega arith, omega arith)
publish_for_fresh update i j c h = ground arith

module _ (crc32 : Text → ℕ) where
  -- After a message for the client's symbol whose checksum is not the computed one, without a socket,
  -- or where it takes both requests, the call returns, both sides are empty and the subscription was
  -- taken back and then asked for again on the socket. Where the first request is not taken the
  -- exception leaves the sides as the levels of the message made them and nothing goes out; where the
  -- second is not taken, it leaves them empty, with the first request sent. The number of the last delta
  -- stays, and no snapshot is published.
  pub apply_message_mismatch :
      (i j : ℕ) (w : Writes) (m : BookMessage) (c : Client)
      → same_text m.symbol c.symbol ≡ true
      → (computed_checksum crc32 (apply_both m c) == m.checksum) ≡ false
      → let a = apply_both m c in
        let o = apply_message crc32 i j w m c in
        let c' = client_of o in
        let kept = a.has_socket && not w.takes_unsubscribe in
        (is_aborted o ≡ (a.has_socket && not (w.takes_unsubscribe && w.takes_subscribe)))
        × (c'.book.bids.levels ≡ (if kept then a.book.bids.levels else []))
        × (c'.book.asks.levels ≡ (if kept then a.book.asks.levels else []))
        × (c'.book.last_seq ≡ a.book.last_seq)
        × (c'.events ≡ a.events ++ requests a.has_socket w.takes_unsubscribe w.takes_subscribe)
  unfolding apply_message clear_book clear
  apply_message_mismatch i j w m c e k =
      let a = apply_both m c in
      let (x, b, evs) =
        resubscribe_lem w
          (record a { book = record a.book { last_check_sum = computed_checksum crc32 a } }) in
      elim (Bool-cases (a.has_socket && not w.takes_unsubscribe)) [
        | inl y ↦ rw (e, k, b, y) (x, refl, refl, refl, evs)
        | inr n ↦ rw (e, k, b, n) (x, refl, refl, refl, evs)
      ]

  -- After a message for the client's symbol whose checksum is the computed one the call returns; if it
  -- is a snapshot, or an update after which the deltas since the last snapshot reach the threshold or
  -- that snapshot the age of the interval, the callback, where one is set, gets both sides and the
  -- number of the last delta, the count is zero and the time is noted, and otherwise these are as the
  -- levels left them. So fewer deltas than the threshold have come since the last snapshot, and it is
  -- younger than the interval, if the clock does not run backwards between its two readings.
  pub apply_message_fresh :
      (i j : ℕ) (w : Writes) (m : BookMessage) (c : Client)
      → same_text m.symbol c.symbol ≡ true
      → (computed_checksum crc32 (apply_both m c) == m.checksum) ≡ true
      → i ≤ j
      → let o = apply_message crc32 i j w m c in
        (is_aborted o ≡ false)
        × Published m.type i j (apply_both m c) (client_of o)
        × Recent i (client_of o)
  unfolding apply_message client_of
  apply_message_fresh i j w m c e k h =
      let a = apply_both m c in
      let noted = record a {
        book = record a.book { last_check_sum = computed_checksum crc32 a };
      } in
      rw (e, k) (refl, publish_for_lem m.type i j noted, publish_for_fresh m.type i j noted h)
