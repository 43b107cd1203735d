-- ===== src/Ring.antt =====
-- engine/include/engine/ipc/ring_buffer.hpp: the queue of book deltas in shared memory, between the
-- thread of a symbol and the backend. The indices are 64-bit words that wrap; an operation is read as
-- one step, as its only thread sees it. A `char` array is the list of its codes.
pub mod Window
pub mod Refine
mod Tests
use real_time_paper_trading.Base.{
  ℕ, ◌+◌, ◌-◌, ◌%◌, ◌^◌, Bool, true, false, Option, none, some, List, [], ◌++◌, leb, ◌==◌,
  if◌then◌else◌, length, get_elem?, set, replicate, ℤ, pos, Text,
}
use real_time_paper_trading.Ticks.{Price, Quantity}
use real_time_paper_trading.Book.{BookSide, bid, ask}

abbrev pub ring_buffer_capacity : ℕ
ring_buffer_capacity = 4096

pub record BookDelta : Type 0 where
  pub symbol : Text
  pub seq : ℕ
  pub engine_ts_nanos : ℕ
  pub side : ℕ
  pub price : Price
  pub size : Quantity

unfoldable pub to_wire_side : BookSide → ℕ
to_wire_side bid = 0
to_wire_side ask = 1

-- The bytes of a fixed-width field after `memset` and `memcpy`; `none` where the source throws.
unfoldable pub symbol_field : Text → Option Text
symbol_field symbol =
    if leb 16 (length symbol) then none else some (symbol ++ replicate (16 - length symbol) 0)

unfoldable pub set_symbol : BookDelta → Text → Option BookDelta
set_symbol delta symbol = elim (symbol_field symbol) [
  | none ↦ none
  | some field ↦ some (record delta { symbol = field })
]

pub record RingBuffer : Type 0 where
  pub write_index : ℕ
  pub read_index : ℕ
  pub dropped_count : ℕ
  pub slots : List BookDelta

unfoldable pub reset : RingBuffer → RingBuffer
reset b = record b { write_index = 0; read_index = 0; dropped_count = 0 }

unfoldable pub try_push : RingBuffer → BookDelta → RingBuffer × Bool
try_push b item =
    if leb ring_buffer_capacity ((b.write_index + 2 ^ 64 - b.read_index) % 2 ^ 64)
    then (record b { dropped_count = (b.dropped_count + 1) % 2 ^ 64 }, false)
    else (
      record b {
        slots = set b.slots (b.write_index % ring_buffer_capacity) item;
        write_index = (b.write_index + 1) % 2 ^ 64;
      },
      true,
    )

-- What goes out through `out`, where the queue is not empty.
unfoldable pub try_pop : RingBuffer → RingBuffer × Option BookDelta
try_pop b = if b.read_index == b.write_index then (b, none) else (
  record b { read_index = (b.read_index + 1) % 2 ^ 64 },
  get_elem? b.slots (b.read_index % ring_buffer_capacity),
)
