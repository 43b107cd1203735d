-- ===== src/Connection.antt =====
-- `connect`, `run` and `stop` of engine/src/market_data/kraken_book_client.cpp: the thread of a
-- symbol and a thread that stops it, their accesses to what they share interleaved in any order. The
-- network may let each operation on the socket succeed or throw, the writes of `handleMessage`
-- included; on a socket that `stop` has closed it throws, until `connect` of the stream opens it again. The watchdog of the reads closes the socket,
-- which is a read that throws. `stop` is called once. The mutex of the wait is held by the waiting
-- thread only, which is why no step of the other thread waits for it.
pub mod Invariant
pub mod Stop
pub mod Lost
mod Tests
use real_time_paper_trading.Base.{ℕ, suc, Bool, true, false, ◌||◌, ◌≡◌, none, some, Text}
use real_time_paper_trading.Client.{
  Client, finished, aborted, client_of, Writes, subscribe, handle_message, initial_backoff,
  next_backoff,
}
use real_time_paper_trading.Parser.{Simdjson, parse_book_message}

-- Where the thread of `run` stands: before the test of the outer loop, in `connect` (resolving, before
-- `ws_.emplace`, before the connection, before the handshakes), before `subscribe`, the test of the
-- inner loop, `read` and `handleMessage`, at the test after the `catch`, in `wait_for` (before its
-- test of the flag, after it, asleep), before the doubling of the backoff, or returned.
pub data Point : Type 0 where
  at_loop at_resolve at_emplace at_connect at_handshake at_subscribe at_read_loop at_read : Point
  at_handle : Text → Point
  at_after at_test at_sleep asleep at_double ended : Point

-- Where the thread of `stop` stands: before it, after the store, after `notify_one`, or returned.
pub data Stopper : Type 0 where
  calm requested notified returned : Stopper

pub record System : Type 0 where
  pub client : Client
  pub point : Point
  pub backoff : ℕ
  pub woken : Bool
  pub stop_requested : Bool
  pub stopper : Stopper
  pub socket_closed : Bool

-- The operations of `run` on the network. What `handleMessage` writes is in its own step.
pub data CanThrow : Point → Type 0 where
  in_resolve : CanThrow at_resolve
  in_connect : CanThrow at_connect
  in_handshake : CanThrow at_handshake
  in_subscribe : CanThrow at_subscribe
  in_read : CanThrow at_read

-- A closed socket takes no request.
abbrev pub TakenBy : Bool → Writes → Type 0
TakenBy closed w = closed ≡ true → (w.takes_unsubscribe ≡ false) × (w.takes_subscribe ≡ false)

-- `notify_one` reaches a thread that sleeps, and no other.
unfoldable pub woken_at : Point → Bool → Bool
woken_at asleep woken = true
woken_at at_loop woken = woken
woken_at at_resolve woken = woken
woken_at at_emplace woken = woken
woken_at at_connect woken = woken
woken_at at_handshake woken = woken
woken_at at_subscribe woken = woken
woken_at at_read_loop woken = woken
woken_at at_read woken = woken
woken_at (at_handle raw) woken = woken
woken_at at_after woken = woken
woken_at at_test woken = woken
woken_at at_sleep woken = woken
woken_at at_double woken = woken
woken_at ended woken = woken

-- Whether the thread waits until the peer sends something. Every other operation ends by itself: the guard
-- of `connect` limits the connection and the handshakes, and the lookup of the name and the writes are
-- taken to end.
unfoldable pub awaits_peer : Point → Bool
awaits_peer at_read = true
awaits_peer at_loop = false
awaits_peer at_resolve = false
awaits_peer at_emplace = false
awaits_peer at_connect = false
awaits_peer at_handshake = false
awaits_peer at_subscribe = false
awaits_peer at_read_loop = false
awaits_peer (at_handle raw) = false
awaits_peer at_after = false
awaits_peer at_test = false
awaits_peer at_sleep = false
awaits_peer asleep = false
awaits_peer at_double = false
awaits_peer ended = false

-- The steps of `stop`.
pub data Stopping (s : System) : System → Type 0 where
  request : s.stopper ≡ calm → Stopping s (record s { stop_requested = true; stopper = requested })
  notify :
      s.stopper ≡ requested
      → Stopping s (record s { woken = woken_at s.point s.woken; stopper = notified })
  close :
      s.stopper ≡ notified
      → Stopping s
          (record s { socket_closed = s.socket_closed || s.client.has_socket; stopper = returned })

-- The steps of `connect`.
pub data Dial (s : System) : System → Type 0 where
  resolved : s.point ≡ at_resolve → Dial s (record s { point = at_emplace })
  emplaced :
      s.point ≡ at_emplace
      → Dial s (record s {
        point = at_connect;
        client = record s.client { has_socket = true };
        socket_closed = false;
      })
  connected :
      s.point ≡ at_connect → Dial s (record s { point = at_handshake; socket_closed = false })
  shaken :
      s.point ≡ at_handshake → s.socket_closed ≡ false → Dial s (record s { point = at_subscribe })

-- Before `run`.
abbrev pub init : Client → System
init c = record {
  client = record c { has_socket = false };
  point = at_loop;
  backoff = initial_backoff;
  woken = false;
  stop_requested = false;
  stopper = calm;
  socket_closed = false;
}

module _ {Value : Type 0} (json : Simdjson Value) (crc32 : Text → ℕ) where
  -- The steps of the thread of `run`.
  pub data Move (s : System) : System → Type 0 where
    enter : s.point ≡ at_loop → s.stop_requested ≡ false → Move s (record s { point = at_resolve })
    leave : s.point ≡ at_loop → s.stop_requested ≡ true → Move s (record s { point = ended })
    dial : {t : System} → Dial s t → Move s t
    subscribed :
        s.point ≡ at_subscribe
        → s.socket_closed ≡ false
        → Move s (record s {
          point = at_read_loop;
          backoff = initial_backoff;
          client = client_of (subscribe true s.client);
        })
    more : s.point ≡ at_read_loop → s.stop_requested ≡ false → Move s (record s { point = at_read })
    no_more :
        s.point ≡ at_read_loop → s.stop_requested ≡ true → Move s (record s { point = at_after })
    received :
        (raw : Text)
        → s.point ≡ at_read
        → s.socket_closed ≡ false
        → Move s (record s { point = at_handle raw })
    handled :
        (raw : Text) (checked_at now : ℕ) (w : Writes) (c : Client)
        → s.point ≡ at_handle raw
        → TakenBy s.socket_closed w
        → handle_message crc32 checked_at now w (parse_book_message json raw) s.client ≡ finished c
        → Move s (record s { point = at_read_loop; client = c })
    refused :
        (raw : Text) (checked_at now : ℕ) (w : Writes) (c : Client)
        → s.point ≡ at_handle raw
        → TakenBy s.socket_closed w
        → handle_message crc32 checked_at now w (parse_book_message json raw) s.client ≡ aborted c
        → Move s (record s { point = at_after; client = c })
    thrown : CanThrow s.point → Move s (record s { point = at_after })
    stopped : s.point ≡ at_after → s.stop_requested ≡ true → Move s (record s { point = ended })
    waits : s.point ≡ at_after → s.stop_requested ≡ false → Move s (record s { point = at_test })
    told : s.point ≡ at_test → s.stop_requested ≡ true → Move s (record s { point = at_double })
    untold : s.point ≡ at_test → s.stop_requested ≡ false → Move s (record s { point = at_sleep })
    sleep : s.point ≡ at_sleep → Move s (record s { point = asleep; woken = false })
    wake :
        s.point ≡ asleep
        → s.woken ≡ true
        → s.stop_requested ≡ true
        → Move s (record s { point = at_double })
    time_out : s.point ≡ asleep → Move s (record s { point = at_double })
    doubled :
        s.point ≡ at_double
        → Move s (record s { point = at_loop; backoff = next_backoff s.backoff })

  pub data Reach (c : Client) : System → Type 0 where
    start : Reach c (init c)
    move : {s t : System} → Reach c s → Move s t → Reach c t
    stop : {s t : System} → Reach c s → Stopping s t → Reach c t

  -- A step that needs no frame from the peer: at no read, or at a read on a socket that is closed.
  pub data Unaided (s t : System) : Type 0 where
    unheld : awaits_peer s.point ≡ false → Move s t → Unaided s t
    shut : s.socket_closed ≡ true → Move s t → Unaided s t

  -- A row of steps of the thread of `run`.
  pub data Moves (s : System) : ℕ → System → Type 0 where
    here : Moves s 0 s
    there : {n : ℕ} {t u : System} → Moves s n t → Move t u → Moves s (suc n) u
