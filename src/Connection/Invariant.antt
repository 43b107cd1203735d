-- ===== src/Connection/Invariant.antt =====
-- What the two threads keep, in every interleaving (engine/src/market_data/kraken_book_client.cpp).
use real_time_paper_trading.Base.{
  ℕ, Bool, true, false, Bool-cases, inl, inr, ap, ◌≡◌, ◌≢◌, refl, sym, subst, ◌∙◌, Text, arith,
}
use real_time_paper_trading.Client.{
  Client, Written, finished, client_of, write, emit, Writes, subscribe, Frame, handle_message,
}
use real_time_paper_trading.Client.Socket.{has_socket-handle_message}
use real_time_paper_trading.Parser.{Simdjson, parse_book_message}
use real_time_paper_trading.Connection.{
  Point, at_loop, at_resolve, at_emplace, at_connect, at_handshake, at_subscribe, at_read_loop,
  at_read, at_handle, at_after, at_test, at_sleep, asleep, at_double, ended, Stopper, calm,
  requested, notified, returned, System, Stopping, request, notify, close, Dial, Move, dial, enter,
  leave, resolved, emplaced, connected, shaken, subscribed, more, no_more, received, handled,
  refused, thrown, stopped, waits, told, untold, sleep, wake, time_out, doubled, Reach, start, move,
  stop,
}

-- The points from `ws_.emplace` to the end of the connection.
abbrev pub HasSocket : Point → Bool → Type 0
HasSocket at_connect b = b ≡ true
HasSocket at_handshake b = b ≡ true
HasSocket at_subscribe b = b ≡ true
HasSocket at_read_loop b = b ≡ true
HasSocket at_read b = b ≡ true
HasSocket (at_handle raw) b = b ≡ true
HasSocket at_loop b = Unit {0}
HasSocket at_resolve b = Unit {0}
HasSocket at_emplace b = Unit {0}
HasSocket at_after b = Unit {0}
HasSocket at_test b = Unit {0}
HasSocket at_sleep b = Unit {0}
HasSocket asleep b = Unit {0}
HasSocket at_double b = Unit {0}
HasSocket ended b = Unit {0}

abbrev pub IsFlagged : Stopper → Bool → Type 0
IsFlagged calm b = b ≡ false
IsFlagged requested b = b ≡ true
IsFlagged notified b = b ≡ true
IsFlagged returned b = b ≡ true

-- The invariant of the two threads.
pub record Inv (s : System) : Type 0 where
  pub flagged : IsFlagged s.stopper s.stop_requested
  pub socket : HasSocket s.point s.client.has_socket
  pub shut : s.stopper ≡ returned → s.point ≡ at_read → s.socket_closed ≡ true

at_read-HasSocket : (p : Point) (b : Bool) → p ≡ at_read → HasSocket p b → b ≡ true
at_read-HasSocket p b e h = subst (λ q. HasSocket q b) e h

subscribe-has_socket : (c : Client) → (client_of (subscribe true c)).has_socket ≡ c.has_socket
unfolding subscribe write emit client_of
subscribe-has_socket c = elim (Bool-cases c.has_socket) [ inl y ↦ rw y refl | inr n ↦ rw n refl ]

Stopping-Inv : {s t : System} → Inv s → Stopping s t → Inv t
Stopping-Inv inv (request c) = record { flagged = refl; socket = inv.socket; shut = λ r p. cc }
Stopping-Inv {s} inv (notify c) = record {
  flagged = subst (λ q. IsFlagged q s.stop_requested) c inv.flagged;
  socket = inv.socket;
  shut = λ r p. cc;
}
Stopping-Inv {s} inv (close c) = record {
  flagged = subst (λ q. IsFlagged q s.stop_requested) c inv.flagged;
  socket = inv.socket;
  shut = λ r p.
      let h = at_read-HasSocket s.point s.client.has_socket p inv.socket in ground (arith, h);
}

-- A move that keeps the flag, to a point other than the read.
away :
    {s : System} (t : System)
    → Inv s
    → t.stopper ≡ s.stopper
    → t.stop_requested ≡ s.stop_requested
    → HasSocket t.point t.client.has_socket
    → t.point ≢ at_read
    → Inv t
away {s} t inv a b h n = record {
  flagged =
      subst (λ q. IsFlagged q t.stop_requested) (sym a)
        (subst (IsFlagged s.stopper) (sym b) inv.flagged);
  socket = h;
  shut = λ r p. absurd (n p);
}

-- The socket of the point before.
held : {s : System} {p : Point} → Inv s → s.point ≡ p → HasSocket p s.client.has_socket
held {s} {p} inv e = subst (λ q. HasSocket q s.client.has_socket) e inv.socket

pub flag_of_returned : (q : Stopper) (b : Bool) → IsFlagged q b → q ≡ returned → b ≡ true
flag_of_returned q b f e = subst (λ x. IsFlagged x b) e f

Dial-Inv : {s t : System} → Inv s → Dial s t → Inv t
Dial-Inv inv (resolved p) = away _ inv refl refl tt (λ e. cc)
Dial-Inv inv (emplaced p) = away _ inv refl refl refl (λ e. cc)
Dial-Inv inv (connected p) = away _ inv refl refl (held inv p) (λ e. cc)
Dial-Inv inv (shaken p o) = away _ inv refl refl (held inv p) (λ e. cc)

module _ {Value : Type 0} (json : Simdjson Value) (crc32 : Text → ℕ) where
  -- The client that a message leaves has the socket of the client before.
  ended_socket :
      (checked_at now : ℕ) (w : Writes) (f : Frame) (c c' : Client) (o : Written)
      → handle_message crc32 checked_at now w f c ≡ o
      → client_of o ≡ c'
      → c'.has_socket ≡ c.has_socket
  ended_socket checked_at now w f c c' o h e =
      ap (λ (d : Client). d.has_socket) (sym e ∙ ap client_of (sym h))
      ∙ has_socket-handle_message crc32 checked_at now w f c

  pub Move-Inv : {s t : System} → Inv s → Move json crc32 s t → Inv t
  unfolding client_of
  Move-Inv inv (enter p n) = away _ inv refl refl tt (λ e. cc)
  Move-Inv inv (leave p n) = away _ inv refl refl tt (λ e. cc)
  Move-Inv inv (dial d) = Dial-Inv inv d
  Move-Inv {s} inv (subscribed p o) =
      away _ inv refl refl (subscribe-has_socket s.client ∙ held inv p) (λ e. cc)
  Move-Inv {s} inv (more p n) = record {
    flagged = inv.flagged;
    socket = held inv p;
    shut = λ r e. let f = flag_of_returned s.stopper s.stop_requested inv.flagged r in cc;
  }
  Move-Inv inv (no_more p n) = away _ inv refl refl tt (λ e. cc)
  Move-Inv inv (received raw p o) = away _ inv refl refl (held inv p) (λ e. cc)
  Move-Inv {s} inv (handled raw checked_at now w c p k h) =
      away _ inv refl refl
        (ended_socket checked_at now w (parse_book_message json raw) s.client c (finished c) h refl
          ∙ held inv p)
        (λ e. cc)
  Move-Inv inv (refused raw checked_at now w c p k h) = away _ inv refl refl tt (λ e. cc)
  Move-Inv inv (thrown h) = away _ inv refl refl tt (λ e. cc)
  Move-Inv inv (stopped p n) = away _ inv refl refl tt (λ e. cc)
  Move-Inv inv (waits p n) = away _ inv refl refl tt (λ e. cc)
  Move-Inv inv (told p n) = away _ inv refl refl tt (λ e. cc)
  Move-Inv inv (untold p n) = away _ inv refl refl tt (λ e. cc)
  Move-Inv inv (sleep p) = away _ inv refl refl tt (λ e. cc)
  Move-Inv inv (wake p w n) = away _ inv refl refl tt (λ e. cc)
  Move-Inv inv (time_out p) = away _ inv refl refl tt (λ e. cc)
  Move-Inv inv (doubled p) = away _ inv refl refl tt (λ e. cc)

  pub Reach-Inv : {c : Client} {s : System} → Reach json crc32 c s → Inv s
  Reach-Inv start = record { flagged = refl; socket = tt; shut = λ r p. cc }
  Reach-Inv (move r m) = Move-Inv (Reach-Inv r) m
  Reach-Inv (stop r m) = Stopping-Inv (Reach-Inv r) m
