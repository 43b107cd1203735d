-- ===== src/Spsc.antt =====
-- engine/include/engine/ipc/ring_buffer.hpp: the thread that pushes and the one that pops, their
-- accesses interleaved in any order. Each load and store of an index is one step; the steps are
-- sequentially consistent, which the release of an index and its acquire give for the slots. The
-- assignment of a slot is not atomic: before its last step the slot may hold anything. The copy out of a
-- slot is one step.
pub mod Elements
pub mod Invariant
pub mod Order
mod Tests
use real_time_paper_trading.Base.{
  ℕ, ◌+◌, ◌-◌, ◌%◌, ◌^◌, ◌≡◌, Bool, true, false, some, List, [], ◌∷◌, ◌++◌, leb, ◌==◌, get_elem?,
  set,
}
use real_time_paper_trading.Ring.{ring_buffer_capacity, BookDelta, RingBuffer}

-- `tryPush`: outside it, after the load of `w`, after the load of `r`, past the test, in the assignment
-- and after it.
pub data Producer : Type 0 where
  resting : Producer
  loaded : BookDelta → ℕ → Producer
  compared : BookDelta → ℕ → ℕ → Producer
  cleared writing stored : BookDelta → ℕ → Producer

-- `tryPop`: outside it, after the load of `r`, after the load of `w`, past the test and after the copy.
pub data Consumer : Type 0 where
  resting : Consumer
  loaded : ℕ → Consumer
  compared : ℕ → ℕ → Consumer
  cleared : ℕ → Consumer
  copied : ℕ → BookDelta → Consumer

-- `pushed` and `popped` hold what `tryPush` accepted and `tryPop` gave out, oldest first. No step
-- reads them.
pub record System : Type 0 where
  pub ring : RingBuffer
  pub producer : Producer
  pub consumer : Consumer
  pub pushed : List BookDelta
  pub popped : List BookDelta

-- `w - r >= RING_BUFFER_CAPACITY` on 64-bit words.
unfoldable pub is_full : ℕ → ℕ → Bool
is_full w r = leb ring_buffer_capacity ((w + 2 ^ 64 - r) % 2 ^ 64)

unfoldable pub store_slot : ℕ → BookDelta → RingBuffer → RingBuffer
store_slot w item b = record b { slots = set b.slots (w % ring_buffer_capacity) item }

-- A step of `tryPush`.
pub data Push (s : System) : System → Type 0 where
  begin :
      (item : BookDelta)
      → s.producer ≡ Producer.resting
      → Push s (record s { producer = Producer.loaded item s.ring.write_index })
  compare :
      (item : BookDelta) (w : ℕ)
      → s.producer ≡ Producer.loaded item w
      → Push s (record s { producer = Producer.compared item w s.ring.read_index })
  drop :
      (item : BookDelta) (w r : ℕ)
      → s.producer ≡ Producer.compared item w r
      → is_full w r ≡ true
      → Push s (record s {
        producer = Producer.resting;
        ring = record s.ring { dropped_count = (s.ring.dropped_count + 1) % 2 ^ 64 };
      })
  clear :
      (item : BookDelta) (w r : ℕ)
      → s.producer ≡ Producer.compared item w r
      → is_full w r ≡ false
      → Push s (record s { producer = Producer.cleared item w })
  write :
      (item torn : BookDelta) (w : ℕ)
      → s.producer ≡ Producer.cleared item w
      → Push s (record s { producer = writing item w; ring = store_slot w torn s.ring })
  finish :
      (item : BookDelta) (w : ℕ)
      → s.producer ≡ writing item w
      → Push s (record s { producer = stored item w; ring = store_slot w item s.ring })
  publish :
      (item : BookDelta) (w : ℕ)
      → s.producer ≡ stored item w
      → Push s (record s {
        producer = Producer.resting;
        ring = record s.ring { write_index = (w + 1) % 2 ^ 64 };
        pushed = s.pushed ++ (item ∷ []);
      })

-- A step of `tryPop`.
pub data Pop (s : System) : System → Type 0 where
  begin :
      s.consumer ≡ Consumer.resting
      → Pop s (record s { consumer = Consumer.loaded s.ring.read_index })
  compare :
      (r : ℕ)
      → s.consumer ≡ Consumer.loaded r
      → Pop s (record s { consumer = Consumer.compared r s.ring.write_index })
  empty :
      (r w : ℕ)
      → s.consumer ≡ Consumer.compared r w
      → (r == w) ≡ true
      → Pop s (record s { consumer = Consumer.resting })
  clear :
      (r w : ℕ)
      → s.consumer ≡ Consumer.compared r w
      → (r == w) ≡ false
      → Pop s (record s { consumer = Consumer.cleared r })
  copy :
      (r : ℕ) (out : BookDelta)
      → s.consumer ≡ Consumer.cleared r
      → get_elem? s.ring.slots (r % ring_buffer_capacity) ≡ some out
      → Pop s (record s { consumer = copied r out })
  advance :
      (r : ℕ) (out : BookDelta)
      → s.consumer ≡ copied r out
      → Pop s (record s {
        consumer = Consumer.resting;
        ring = record s.ring { read_index = (r + 1) % 2 ^ 64 };
        popped = s.popped ++ (out ∷ []);
      })

-- After `reset`, with whatever the slots hold.
abbrev pub init : List BookDelta → System
init slots = record {
  ring = record { write_index = 0; read_index = 0; dropped_count = 0; slots = slots };
  producer = Producer.resting;
  consumer = Consumer.resting;
  pushed = [];
  popped = [];
}

pub data Reach (slots : List BookDelta) : System → Type 0 where
  start : Reach slots (init slots)
  push : {s t : System} → Reach slots s → Push s t → Reach slots t
  pop : {s t : System} → Reach slots s → Pop s t → Reach slots t
