-- ===== src/SharedMemory/Tests.antt =====
-- Instances of the laws of the pool of slots, and runs of its operations.
use real_time_paper_trading.Base.{
  ℕ, ◌≡◌, ◌⊎◌, refl, none, some, [], ◌∷◌, get_elem?, set, take, length, arith, Text,
}
use real_time_paper_trading.SharedMemory.{
  SymbolSlot, SharedMemorySegment, slot_at, no_slot, cleaned, claim_from, claim_slot,
  set_slot_symbol, new_slot, new_segment, open_segment,
}
use real_time_paper_trading.SharedMemory.Slots.{
  AllClaimed, claimed_for, claim_slot_lem, IsReady, open_segment-IsReady,
}

abbrev first : Text
first = b'A' ∷ []

abbrev second : Text
second = b'B' ∷ []

abbrev pool : SharedMemorySegment
pool = new_segment 1000

abbrev pool' : SharedMemorySegment
pool' = (claim_slot pool first).0

abbrev pool'' : SharedMemorySegment
pool'' = (claim_slot pool' second).0

claim_first : claim_slot pool first ≡ (pool', slot_at 0)
unfolding claim_slot claim_from new_segment new_slot set_slot_symbol cleaned
claim_first = refl

claim_second : claim_slot pool' second ≡ (pool'', slot_at 1)
unfolding claim_slot claim_from new_segment new_slot set_slot_symbol cleaned
claim_second = refl

claim_slot_example :
    ((claim_slot pool first ≡ (pool, no_slot)) × AllClaimed pool.slots)
    ⊎ ((k : ℕ) × (s : SymbolSlot) × (get_elem? pool.slots k ≡ some s)
        × (s.claimed ≡ 0)
        × AllClaimed (take k pool.slots)
        × (claim_slot pool first
            ≡ (record pool { slots = set pool.slots k (claimed_for first s) }, slot_at k)))
claim_slot_example = claim_slot_lem pool first (omega arith)

thirty_two : length pool'.slots ≡ 32
unfolding claim_slot claim_from new_segment new_slot set_slot_symbol cleaned
thirty_two = refl

open_segment-IsReady_example :
    IsReady (open_segment 1000 none) × IsReady (open_segment 1000 (some (pool', 1000)))
open_segment-IsReady_example = open_segment-IsReady 1000 pool' 1000 thirty_two
