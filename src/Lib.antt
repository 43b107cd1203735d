-- ===== src/Lib.antt =====
-- The matching engine of a paper-trading platform (engine/), written in C++: simulated orders are
-- matched against the order book of an exchange, and book and fills go to a Go backend.
--
-- How the parts interact. A client of the exchange's feed applies each message to the two sides of an
-- order book and reports each change of a level twice: to a ring buffer in shared memory, which the
-- backend reads, and to the matching engine of the symbol, which fills the resting orders that the
-- change reaches. New orders walk the opposite side of the same book. All prices and quantities are
-- 64-bit numbers of ticks, read from and printed as decimal texts.
--
-- Files.
-- - Base: lists, integers, texts and association lists over native numbers.
-- - Ticks: engine/include/engine/common/price_quantity.hpp. `Price` and `Quantity` are integers;
--   `int64` is the wrap-around of a result, which C++ leaves undefined for signed numbers and the
--   hardware performs. Ticks/Decimal holds `parseFixedPoint` and `formatFixedPoint` over character
--   codes, exceptions as values of `Parsed`.
-- - Book: engine/include/engine/book/ and engine/src/book/order_book.cpp. A side is a record with the
--   vector of its levels; `lower_bound` is the contract of `std::lower_bound`, an index.
-- - Matching: engine/include/engine/matching/ and engine/src/matching/matching_engine.cpp. `walk` is
--   the loop of `placeOrder`, `reduce_orders` that of `onBookDelta`; the calls of the fill callback
--   are the list `fills`, and the system clock is the function `now_nanos`.
-- - Checksum: engine/src/book/checksum.cpp; `crc32` of zlib is a parameter.
-- - Client: engine/src/market_data/kraken_book_client.cpp. `Client` holds the state of the class and the
--   list `events` of its calls of the callbacks and its requests; the readings of the clock are
--   arguments, and `waits` is the row of waits of the loop of `run`. `Written` is a call that returns or that
--   a throwing write leaves, and `Writes` says which writes succeed.
-- - Session: engine/include/engine/replay/recorded_session.hpp over lists of bytes.
-- - Histogram: engine/src/observability/histogram.cpp; the product of doubles in `percentileValue` is the
--   parameter `scaled`.
-- - SharedMemory: engine/src/ipc/shared_memory_manager.cpp, and the slot of
--   engine/include/engine/ipc/snapshot_slot.hpp, its write as one step. A pointer to a slot is its
--   index, and the segment that a name opens is an argument of the constructor.
-- - Seqlock: engine/include/engine/ipc/snapshot_slot.hpp as a step relation of one writer and one reader
--   on the words of the value; `history` is a record of the values written that no step reads.
-- - Parser: engine/src/market_data/kraken_parser.cpp. `Simdjson` is what the code calls of simdjson, on a
--   type of JSON values, with `none` for an exception; `parse_book_message` gives the `Frame` that
--   `handle_message` of Client takes.
-- - Connection: `connect`, `run` and `stop` of engine/src/market_data/kraken_book_client.cpp, as the steps
--   of two threads; what a step of `run` does to the client is `subscribe` or `handle_message` of Client. The lookup
--   of the name and the writes are taken to end; a read may wait until its socket is closed.
-- - Timeouts: engine/include/engine/market_data/idle_timeout_watchdog.hpp and sync_timeout_guard.hpp.
-- - Registry: engine/src/symbol/symbol_registry.cpp. A block under a mutex is one step: `join_entry`,
--   `subscribe_locked` and `leave_entry` are those of `subscribe` and `unsubscribe`, `send_place` and
--   `finish_place` what `placeOrder` does before and after its wait. Registry/Callbacks holds the
--   callbacks of the client, Registry/Orders the orders, the inbox and the fills.
-- - Control: engine/src/control/control_server.cpp, the handlers over the registry; a round of the loop
--   of `WatchFills` is a `Round`.
-- - AssetPairs: engine/src/market_data/kraken_asset_pairs.cpp. `Https` is what the code calls of boost and
--   `AnswerJson` what it calls of simdjson; AssetPairs/Fetch is the request and the reading of its answer.
-- - Replay: engine/tools/replay/replayer.cpp. Its mode `verify` runs Session, Parser and Client;
--   Replay/Arguments holds its command line, and Replay/Live `replaySessionIntoClient` of
--   engine/src/symbol/symbol_registry.cpp. Client/Core separates what decides the book from the clock
--   and the callbacks.
-- - Recorder: engine/tools/replay/recorder.cpp; an iteration of its loop is a `Beat`.
-- - Ring: engine/include/engine/ipc/ring_buffer.hpp, its indices as words modulo 2 ^ 64.
-- - Spsc: the same file, tryPush and tryPop as the steps of two threads, interleaved in any order.
--
-- Bounds and fuel. The fuel of `decimal` is twenty digits, enough for a 64-bit number, and that of
-- `read_frames` the length of the stream, of which each frame takes twelve bytes at least. All other
-- functions recur on lists or on a number of bits or bytes. A reference count of the registry is a 32-bit
-- `int`, whose overflow, undefined in C++, wraps around in the model.
--
-- Not modelled. Sockets, TLS, gRPC, HTTPS, shared-memory mapping and the creation and joining of
-- threads are outside the model, and so are the address of the server and the mode `bench` of the
-- replayer, which only measures; the Go backend and the user interface are other programs.
pub mod Base
pub mod Ticks
pub mod Book
pub mod Matching
pub mod Ring
pub mod Checksum
pub mod Client
pub mod Session
pub mod Histogram
pub mod SharedMemory
pub mod Seqlock
pub mod Parser
pub mod Registry
pub mod Control
pub mod AssetPairs
pub mod Replay
pub mod Connection
pub mod Timeouts
pub mod Recorder
pub mod Spsc
