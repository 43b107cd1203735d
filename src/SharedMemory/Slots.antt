-- ===== src/SharedMemory/Slots.antt =====
-- Which slot a claim takes, and what it leaves of the others
-- (engine/src/ipc/shared_memory_manager.cpp).
use real_time_paper_trading.Base.{
  ℕ, zero, suc, ◌+◌, ◌-◌, ◌<◌, ◌≡◌, ◌≢◌, ◌⊎◌, inl, inr, refl, sym, ap, ◌∙◌, Bool-cases, false, none,
  some, List, [], ◌∷◌, ◌++◌, leb, ◌==◌, length, get_elem?, set, take, replicate, All, arith, Text,
}
use real_time_paper_trading.SharedMemory.{
  SymbolSlot, SharedMemorySegment, Claim, slot_at, no_slot, symbol_too_long, cleaned,
  set_slot_symbol, claim_from, claim_slot, released, new_slot, release_all, new_segment,
  open_segment, has_valid_header, shared_memory_magic, shared_memory_segment_version,
  symbol_slot_pool_size,
}

abbrev pub AllClaimed : List SymbolSlot → Type 0
AllClaimed = All (λ s. (s.claimed == 0) ≡ false)

-- A slot as a claim leaves it: an empty queue, no snapshot, and the symbol padded with zeros.
unfoldable pub claimed_for : Text → SymbolSlot → SymbolSlot
claimed_for symbol s = record (cleaned s) {
  claimed = 1;
  symbol = symbol ++ replicate (16 - length symbol) 0;
}

claim_from_lem :
    (i : ℕ) (ss : List SymbolSlot) (symbol : Text)
    → length symbol < 16
    → ((claim_from i ss symbol ≡ (ss, no_slot)) × AllClaimed ss)
      ⊎ ((k : ℕ) × (s : SymbolSlot) × (get_elem? ss k ≡ some s)
          × (s.claimed ≡ 0)
          × AllClaimed (take k ss)
          × (claim_from i ss symbol ≡ (set ss k (claimed_for symbol s), slot_at (i + k))))
unfolding claim_from set_slot_symbol claimed_for cleaned
claim_from_lem i [] symbol h = inl (refl, tt)
claim_from_lem i (x ∷ ss) symbol h = elim (Bool-cases (x.claimed == 0)) [
  | inl y ↦
      (let f : leb 16 (length symbol) ≡ false = ground arith in
        let z : i ≡ i + 0 = omega arith in
        inr (
          0,
          x,
          refl,
          ground arith,
          tt,
          rw (y, f) (ap (λ j. (claimed_for symbol x ∷ ss, slot_at j)) z),
        ))
  | inr n ↦ elim (claim_from_lem (i + 1) ss symbol h) [
    | inl (e, a) ↦ inl (rw (n, e) refl, (n, a))
    | inr (k, s, g, c, a, e) ↦
        (let z : i + 1 + k ≡ i + suc k = omega arith in
          inr (
            suc k,
            s,
            g,
            c,
            (n, a),
            rw (n, e) (ap (λ j. (x ∷ set ss k (claimed_for symbol s), slot_at j)) z),
          ))
  ]
]

-- A claim for a symbol of at most 15 characters takes the first slot that is not claimed, cleans it,
-- sets its symbol and marks it, and leaves the other slots as they are; it takes none, and changes
-- nothing, only if all slots are claimed.
pub claim_slot_lem :
    (layout : SharedMemorySegment) (symbol : Text)
    → length symbol < 16
    → ((claim_slot layout symbol ≡ (layout, no_slot)) × AllClaimed layout.slots)
      ⊎ ((k : ℕ) × (s : SymbolSlot) × (get_elem? layout.slots k ≡ some s)
          × (s.claimed ≡ 0)
          × AllClaimed (take k layout.slots)
          × (claim_slot layout symbol
              ≡ (record layout { slots = set layout.slots k (claimed_for symbol s) }, slot_at k)))
unfolding claim_slot
claim_slot_lem layout symbol h = elim (claim_from_lem 0 layout.slots symbol h) [
  | inl (e, a) ↦ inl (rw e refl, a)
  | inr (k, s, g, c, a, e) ↦
      (let z : 0 + k ≡ k = omega arith in
        inr (
          k,
          s,
          g,
          c,
          a,
          rw e (
              ap
                (λ j.
                  (record layout { slots = set layout.slots k (claimed_for symbol s) }, slot_at j))
                z),
        ))
]

pub AllFree : List SymbolSlot → Type 0
AllFree = All (λ s. s.claimed ≡ 0)

release_all-AllFree : (ss : List SymbolSlot) → AllFree (release_all ss)
unfolding release_all released AllFree
release_all-AllFree [] = tt
release_all-AllFree (s ∷ ss) = (refl, release_all-AllFree ss)

new-AllFree : (n : ℕ) → AllFree (replicate n new_slot)
unfolding new_slot AllFree
new-AllFree zero = tt
new-AllFree (suc n) = (refl, new-AllFree n)

length-release_all : (ss : List SymbolSlot) → length (release_all ss) ≡ length ss
unfolding release_all
length-release_all [] = refl
length-release_all (s ∷ ss) = ap suc (length-release_all ss)

-- A valid header and a pool of 32 slots, all unclaimed.
pub record IsReady (l : SharedMemorySegment) : Type 0 where
  pub magic : l.magic ≡ shared_memory_magic
  pub version : l.version ≡ shared_memory_segment_version
  pub free : AllFree l.slots
  pub pool : length l.slots ≡ symbol_slot_pool_size

new_segment-IsReady : (n : ℕ) → IsReady (new_segment n)
unfolding new_segment
new_segment-IsReady n = record {
  magic = refl;
  version = refl;
  free = new-AllFree symbol_slot_pool_size;
  pool = refl;
}

-- The constructor leaves a valid header and the whole pool unclaimed, where it finds no segment and
-- where it finds one, of a valid header and size or not.
pub open_segment-IsReady :
    (segment_bytes : ℕ) (layout : SharedMemorySegment) (mapped_bytes : ℕ)
    → length layout.slots ≡ symbol_slot_pool_size
    → IsReady (open_segment segment_bytes none)
      × IsReady (open_segment segment_bytes (some (layout, mapped_bytes)))
unfolding open_segment has_valid_header
open_segment-IsReady n layout mapped_bytes h = (
  new_segment-IsReady n,
  elim (Bool-cases (has_valid_header n layout mapped_bytes)) [
    | inl y ↦ rw y (record {
      magic = ground arith;
      version = ground arith;
      free = release_all-AllFree layout.slots;
      pool = length-release_all layout.slots ∙ h;
    })
    | inr f ↦ rw f (new_segment-IsReady n)
  ],
)

distinct :
    (ss : List SymbolSlot) (k j : ℕ) (v t : SymbolSlot)
    → v.claimed ≡ 1
    → get_elem? (set ss k v) j ≡ some t
    → t.claimed ≡ 0
    → k < length ss
    → k ≢ j
distinct [] k j v t c g f h = absurd (omega arith)
distinct (x ∷ ss) zero zero v t c g f h = λ e. cc
distinct (x ∷ ss) zero (suc j) v t c g f h = λ e. absurd (omega arith)
distinct (x ∷ ss) (suc k) zero v t c g f h = λ e. absurd (omega arith)
distinct (x ∷ ss) (suc k) (suc j) v t c g f h =
    λ e. distinct ss k j v t c g f (omega arith) (omega arith)

pub index_bounded :
    (ss : List SymbolSlot) (k : ℕ) (s : SymbolSlot) → get_elem? ss k ≡ some s → k < length ss
index_bounded [] k s h = cc
index_bounded (x ∷ ss) zero s h = omega arith
index_bounded (x ∷ ss) (suc k) s h = omega (arith, index_bounded ss k s h)

pub claimed_at_lem :
    (layout layout' : SharedMemorySegment) (symbol : Text) (i : ℕ)
    → length symbol < 16
    → claim_slot layout symbol ≡ (layout', slot_at i)
    → (s : SymbolSlot) × (get_elem? layout.slots i ≡ some s)
      × (s.claimed ≡ 0)
      × AllClaimed (take i layout.slots)
      × (layout'.slots ≡ set layout.slots i (claimed_for symbol s))
claimed_at_lem layout layout' symbol i h e = elim (claim_slot_lem layout symbol h) [
  | inl (e', a) ↦ absurd (no_slot_at i (ap (λ r. r.1) (sym e' ∙ e)))
  | inr (k, s, g, c, a, e') ↦
      (let p : k ≡ i = ap (λ r. index_of r.1) (sym e' ∙ e) in
        let q : set layout.slots k (claimed_for symbol s) ≡ layout'.slots =
          ap (λ r. r.0.slots) (sym e' ∙ e) in
        (s, rw (sym p) g, c, rw (sym p) a, rw (sym p) (sym q)))
]
  where
    index_of : Claim → ℕ
    index_of (slot_at j) = j
    index_of no_slot = 0
    index_of symbol_too_long = 0

    no_slot_at : (j : ℕ) → no_slot ≡ slot_at j → ⊥
    no_slot_at j e = cc

-- Two claims in a row, for symbols of at most 15 characters, never take the same slot.
claim_slot_distinct :
    (l l' l'' : SharedMemorySegment) (a b : Text) (i j : ℕ)
    → length a < 16
    → length b < 16
    → claim_slot l a ≡ (l', slot_at i)
    → claim_slot l' b ≡ (l'', slot_at j)
    → i ≢ j
unfolding claimed_for
claim_slot_distinct l l' l'' a b i j h k e f =
    let (s, g, c, u, p) = claimed_at_lem l l' a i h e in
    let (t, g', c', u', p') = claimed_at_lem l' l'' b j k f in
    distinct l.slots i j (claimed_for a s) t refl (rw (sym p) g') c' (index_bounded l.slots i s g)
