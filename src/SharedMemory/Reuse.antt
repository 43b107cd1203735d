-- ===== src/SharedMemory/Reuse.antt =====
-- A released slot is taken again (engine/src/ipc/shared_memory_manager.cpp).
use real_time_paper_trading.Base.{
  ℕ, zero, suc, ◌+◌, ◌<◌, ◌≡◌, refl, sym, ap, ◌∙◌, false, some, some-injective, List, [], ◌∷◌, leb,
  length, get_elem?, set, take, arith, Text,
}
use real_time_paper_trading.SharedMemory.{
  SymbolSlot, SharedMemorySegment, slot_at, cleaned, set_slot_symbol, claim_from, claim_slot,
  released, release_at, release_slot, reset_snapshot,
}
use real_time_paper_trading.Ring
use real_time_paper_trading.SharedMemory.Slots.{
  AllClaimed, claimed_for, claimed_at_lem, index_bounded,
}

release_at-set :
    (ss : List SymbolSlot) (i : ℕ) (v : SymbolSlot)
    → i < length ss
    → release_at (set ss i v) i ≡ set ss i (released v)
unfolding release_at
release_at-set [] i v h = refl
release_at-set (x ∷ ss) zero v h = refl
release_at-set (x ∷ ss) (suc i) v h = ap (◌∷◌ x) (release_at-set ss i v (omega arith))

-- The first free slot of a pool into which one is set.
claim_from-set :
    (n : ℕ) (ss : List SymbolSlot) (i : ℕ) (v : SymbolSlot) (symbol : Text)
    → length symbol < 16
    → i < length ss
    → v.claimed ≡ 0
    → AllClaimed (take i ss)
    → claim_from n (set ss i v) symbol ≡ (set ss i (claimed_for symbol v), slot_at (n + i))
unfolding claim_from set_slot_symbol claimed_for cleaned
claim_from-set n [] i v symbol h k c a = absurd (omega arith)
claim_from-set n (x ∷ ss) zero v symbol h k c a =
    let f : leb 16 (length symbol) ≡ false = ground arith in
    let z : n ≡ n + 0 = omega arith in
    rw (c, f) (ap (λ j. (claimed_for symbol v ∷ ss, slot_at j)) z)
claim_from-set n (x ∷ ss) (suc i) v symbol h k c a =
    let z : n + 1 + i ≡ n + suc i = omega arith in
    rw (a.0, claim_from-set (n + 1) ss i v symbol h (omega arith) c a.1)
      (ap (λ j. (x ∷ set ss i (claimed_for symbol v), slot_at j)) z)

set_self :
    (ss : List SymbolSlot) (i : ℕ) (s : SymbolSlot) → get_elem? ss i ≡ some s → set ss i s ≡ ss
set_self [] i s h = refl
set_self (x ∷ ss) zero s h = ap (λ y. y ∷ ss) (sym (some-injective x s h))
set_self (x ∷ ss) (suc i) s h = ap (◌∷◌ x) (set_self ss i s h)

-- A slot that is claimed and then released is the one that the next claim takes, for any symbols of
-- at most 15 characters, and it is left as if the second symbol had claimed it at once.
pub claim_slot-release_slot :
    (l l' : SharedMemorySegment) (a b : Text) (i : ℕ)
    → length a < 16
    → length b < 16
    → claim_slot l a ≡ (l', slot_at i)
    → ((claim_slot (release_slot l' i) b).1 ≡ slot_at i)
      × ((claim_slot (release_slot l' i) b).0.slots ≡ (claim_slot l b).0.slots)
unfolding claim_slot release_slot claimed_for released cleaned reset_snapshot Ring.reset
claim_slot-release_slot l l' a b i h k e =
    let (s, g, c, u, p) = claimed_at_lem l l' a i h e in
    let n = index_bounded l.slots i s g in
    let v = claimed_for a s in
    let q : release_at l'.slots i ≡ set l.slots i (released v) =
      ap (λ ss. release_at ss i) p ∙ release_at-set l.slots i v n in
    let first : claim_from 0 (release_at l'.slots i) b
        ≡ (set l.slots i (claimed_for b (released v)), slot_at i) =
      ap (λ ss. claim_from 0 ss b) q
      ∙ claim_from-set 0 l.slots i (released v) b k n refl u
      ∙ ap (λ j. (set l.slots i (claimed_for b (released v)), slot_at j)) (omega arith) in
    let again : claim_from 0 l.slots b ≡ (set l.slots i (claimed_for b s), slot_at (0 + i)) =
      ap (λ ss. claim_from 0 ss b) (sym (set_self l.slots i s g))
      ∙ claim_from-set 0 l.slots i s b k n c u in
    (ap (λ r. r.1) first, ap (λ r. r.0) first ∙ sym (ap (λ r. r.0) again))
