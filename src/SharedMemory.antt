-- ===== src/SharedMemory.antt =====
-- engine/include/engine/ipc/shared_memory_manager.hpp, snapshot_slot.hpp and
-- engine/src/ipc/shared_memory_manager.cpp: the pool of slots in shared memory. A pointer to a slot is
-- its index; `segment_bytes` is the size of the layout, and what a name opens is an argument.
pub mod Slots
pub mod Reuse
mod Tests
use real_time_paper_trading.Base.{
  ℕ, zero, suc, ◌+◌, ◌-◌, ◌%◌, ◌^◌, Bool, true, false, ◌&&◌, Option, none, some, List, [], ◌∷◌,
  ◌++◌, leb, ◌==◌, if◌then◌else◌, length, replicate, pos, map, Text,
}
use real_time_paper_trading.Book.{PriceLevel}
use real_time_paper_trading.Ring.{BookDelta, RingBuffer, ring_buffer_capacity}
use real_time_paper_trading.Ring

abbrev pub symbol_slot_pool_size : ℕ
symbol_slot_pool_size = 32

abbrev pub shared_memory_segment_version : ℕ
shared_memory_segment_version = 1

abbrev pub shared_memory_magic : ℕ
shared_memory_magic = 0x50545253

pub record BookSnapshot : Type 0 where
  pub symbol : Text
  pub seq : ℕ
  pub engine_ts_nanos : ℕ
  pub num_bid_levels : ℕ
  pub num_ask_levels : ℕ
  pub bids : List PriceLevel
  pub asks : List PriceLevel

pub record SeqlockSlot : Type 0 where
  pub version : ℕ
  pub value : BookSnapshot

pub record SymbolSlot : Type 0 where
  pub claimed : ℕ
  pub symbol : Text
  pub delta_queue : RingBuffer
  pub snapshot_slot : SeqlockSlot

pub record SharedMemorySegment : Type 0 where
  pub magic : ℕ
  pub version : ℕ
  pub slots : List SymbolSlot

-- `T{}`
abbrev pub empty_snapshot : BookSnapshot
empty_snapshot = record {
  symbol = replicate 16 0;
  seq = 0;
  engine_ts_nanos = 0;
  num_bid_levels = 0;
  num_ask_levels = 0;
  bids = replicate 100 (record { price = pos 0; quantity = pos 0 });
  asks = replicate 100 (record { price = pos 0; quantity = pos 0 });
}

unfoldable pub reset_snapshot : SeqlockSlot → SeqlockSlot
reset_snapshot s = record { version = 0; value = empty_snapshot }

unfoldable pub write_snapshot : SeqlockSlot → BookSnapshot → SeqlockSlot
write_snapshot s value =
    let begun = record s { version = (s.version + 1) % 2 ^ 32 } in
    let written = record begun { value = value } in
    record written { version = (written.version + 1) % 2 ^ 32 }

-- `none` where the source throws.
unfoldable pub set_slot_symbol : SymbolSlot → Text → Option SymbolSlot
set_slot_symbol slot symbol =
    if leb 16 (length symbol)
    then none
    else some (record slot { symbol = symbol ++ replicate (16 - length symbol) 0 })

pub data Claim : Type 0 where
  slot_at : ℕ → Claim
  no_slot symbol_too_long : Claim

-- The slot that a claim takes, before its symbol is set.
unfoldable pub cleaned : SymbolSlot → SymbolSlot
cleaned slot = record slot {
  delta_queue = Ring.reset slot.delta_queue;
  snapshot_slot = reset_snapshot slot.snapshot_slot;
}

-- The loop of `claimSlot` from the slot `i`.
unfoldable pub claim_from : ℕ → List SymbolSlot → Text → List SymbolSlot × Claim
claim_from i [] symbol = ([], no_slot)
claim_from i (slot ∷ slots) symbol =
    let rest = claim_from (i + 1) slots symbol in
    if slot.claimed == 0
    then (elim (set_slot_symbol (cleaned slot) symbol) [
      | none ↦ (cleaned slot ∷ slots, symbol_too_long)
      | some slot' ↦ (record slot' { claimed = 1 } ∷ slots, slot_at i)
    ])
    else (slot ∷ rest.0, rest.1)

unfoldable pub claim_slot : SharedMemorySegment → Text → SharedMemorySegment × Claim
claim_slot layout symbol =
    let (slots, claim) = claim_from 0 layout.slots symbol in
    (record layout { slots = slots }, claim)

unfoldable pub released : SymbolSlot → SymbolSlot
released slot = record slot { symbol = replicate 16 0; claimed = 0 }

unfoldable pub release_at : List SymbolSlot → ℕ → List SymbolSlot
release_at [] i = []
release_at (slot ∷ slots) zero = released slot ∷ slots
release_at (slot ∷ slots) (suc i) = slot ∷ release_at slots i

unfoldable pub release_slot : SharedMemorySegment → ℕ → SharedMemorySegment
release_slot layout i = record layout { slots = release_at layout.slots i }

abbrev pub empty_delta : BookDelta
empty_delta = record {
  symbol = replicate 16 0;
  seq = 0;
  engine_ts_nanos = 0;
  side = 0;
  price = pos 0;
  size = pos 0;
}

unfoldable pub new_slot : SymbolSlot
new_slot = record {
  claimed = 0;
  symbol = replicate 16 0;
  delta_queue = record {
    write_index = 0;
    read_index = 0;
    dropped_count = 0;
    slots = replicate ring_buffer_capacity empty_delta;
  };
  snapshot_slot = record { version = 0; value = empty_snapshot };
}

unfoldable pub release_all : List SymbolSlot → List SymbolSlot
release_all [] = []
release_all (slot ∷ slots) = released slot ∷ release_all slots

module _ (segment_bytes : ℕ) where
  unfoldable pub has_valid_header : SharedMemorySegment → ℕ → Bool
  has_valid_header layout mapped_bytes =
      leb segment_bytes mapped_bytes
      && (layout.magic == shared_memory_magic)
      && (layout.version == shared_memory_segment_version)

  unfoldable pub new_segment : SharedMemorySegment
  new_segment = record {
    magic = shared_memory_magic;
    version = shared_memory_segment_version;
    slots = replicate symbol_slot_pool_size new_slot;
  }

  -- The constructor: on the segment of the name and its mapped size, or on `none` where there is none.
  unfoldable pub open_segment : Option (SharedMemorySegment × ℕ) → SharedMemorySegment
  open_segment none = new_segment
  open_segment (some (layout, mapped_bytes)) =
      if has_valid_header layout mapped_bytes
      then record layout { slots = release_all layout.slots }
      else new_segment
