-- ===== src/Connection/Stop.antt =====
-- After `stop` has returned, `run` returns (engine/src/market_data/kraken_book_client.cpp).
use real_time_paper_trading.Base.{ℕ, ◌<◌, ◌≡◌, Text}
use real_time_paper_trading.Client.{Client}
use real_time_paper_trading.Parser.{Simdjson}
use real_time_paper_trading.Connection.{
  Point, at_loop, at_resolve, at_emplace, at_connect, at_handshake, at_subscribe, at_read_loop,
  at_read, at_handle, at_after, at_test, at_sleep, asleep, at_double, ended, System, Unaided,
}

-- How many steps are left once the flag is set and the socket of a read is closed.
pub rank : Point → ℕ
rank ended = 0
rank at_loop = 1
rank at_after = 1
rank at_read_loop = 2
rank at_read = 2
rank at_double = 2
rank at_test = 3
rank asleep = 3
rank (at_handle raw) = 3
rank at_subscribe = 3
rank at_sleep = 4
rank at_handshake = 4
rank at_connect = 5
rank at_emplace = 6
rank at_resolve = 7

-- A step once `stop` has returned.
Shrinks : System → System → Type 0
Shrinks s t = (t.stopper ≡ s.stopper) × (rank t.point < rank s.point)

module _ {Value : Type 0} (json : Simdjson Value) (crc32 : Text → ℕ) where
  -- It is at no read, or its socket is closed.
  CanMove : System → Type 0
  CanMove s = (t : System) × Unaided json crc32 s t
