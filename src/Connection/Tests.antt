-- ===== src/Connection/Tests.antt =====
-- Instances of the laws of the thread of `run`.
use real_time_paper_trading.Base.{ℕ, false, true, [], ◌∷◌, Text, min, ◌*◌, ◌^◌}
use real_time_paper_trading.Client.{Client, client_of, subscribe, initial_backoff}
use real_time_paper_trading.Parser.{Simdjson}
use real_time_paper_trading.Parser.Json.{Json, end, reader_of}
use real_time_paper_trading.Registry.{new_client}
use real_time_paper_trading.Connection.{at_read, ended, calm, returned, System, Reach}
use real_time_paper_trading.Connection.Lost.{SleepsOn, stop_lost}

abbrev reader : Simdjson Json
reader = reader_of end

abbrev crc32 : Text → ℕ
crc32 t = 9

abbrev client : Client
client = new_client (b'X' ∷ []) (record { pair_decimals = 1; lot_decimals = 8 }) 0

abbrev reading : System
reading = record {
  client = client_of (subscribe true (record client { has_socket = true }));
  point = at_read;
  backoff = initial_backoff;
  woken = false;
  stop_requested = false;
  stopper = calm;
  socket_closed = false;
}

-- A read that `stop` interrupts.
abbrev interrupted : System
interrupted = record reading { stop_requested = true; stopper = returned; socket_closed = true }

abbrev gone : System
gone = record interrupted { point = ended }

stop_lost_example :
    (s : System) × Reach reader crc32 client s × SleepsOn (min (500 * 2 ^ 6) 32000) s
stop_lost_example = stop_lost reader crc32 client 6
