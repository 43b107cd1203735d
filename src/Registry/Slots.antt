-- ===== src/Registry/Slots.antt =====
-- Which slots are claimed, and by which symbols (engine/src/symbol/symbol_registry.cpp).
use real_time_paper_trading.Base.{
  ℕ, zero, suc, ◌+◌, ◌≤◌, ◌≡◌, ◌⊎◌, refl, sym, ap, ◌∙◌, inl, inr, true, false, Bool-cases, some,
  some-injective, List, [], ◌∷◌, leb, ◌==◌, if◌then◌else◌, All, length, get_elem?, set, arith, Text,
}
use real_time_paper_trading.Base.Assoc.{lookup, contains, assign, Distinct}
use real_time_paper_trading.SharedMemory.{
  SymbolSlot, SharedMemorySegment, Claim, slot_at, no_slot, symbol_too_long, set_slot_symbol,
  cleaned, claim_from, claim_slot, released, release_at,
}
use real_time_paper_trading.SharedMemory.Slots.{claimed_for, claim_slot_lem}
use real_time_paper_trading.Client.{same_text}
use real_time_paper_trading.Registry.Keys.{same_text-IsTest}
use real_time_paper_trading.Registry.{Entry, SymbolRegistry}

-- The flag `claimed` of each slot.
abbrev pub flags : List SymbolSlot → List ℕ
flags [] = []
flags (s ∷ ss) = s.claimed ∷ flags ss

abbrev pub claims : List ℕ → ℕ
claims [] = 0
claims (f ∷ fs) = (if f == 0 then 0 else 1) + claims fs

abbrev pub slots_of : List (Text × Entry) → List ℕ
slots_of [] = []
slots_of ((k, e) ∷ m) = e.slot ∷ slots_of m

-- Each slot is claimed, and stands once.
abbrev pub Owned : List ℕ → List ℕ → Type 0
Owned fs [] = Unit
Owned fs (i ∷ is) = (get_elem? fs i ≡ some 1) × All (λ j. (j == i) ≡ false) is × Owned fs is

-- The symbols of the registry hold different slots, each of which is claimed, and no other slot is.
pub record HasSlots (r : SymbolRegistry) : Type 0 where
  pub distinct : Distinct same_text r.entries
  pub owned : Owned (flags r.shared_memory.slots) (slots_of r.entries)
  pub counted : claims (flags r.shared_memory.slots) ≡ length r.entries

flags-set :
    (ss : List SymbolSlot) (k : ℕ) (s : SymbolSlot)
    → flags (set ss k s) ≡ set (flags ss) k s.claimed
flags-set [] k s = refl
flags-set (x ∷ ss) zero s = refl
flags-set (x ∷ ss) (suc k) s = ap (◌∷◌ x.claimed) (flags-set ss k s)

pub flags-release_at : (ss : List SymbolSlot) (k : ℕ) → flags (release_at ss k) ≡ set (flags ss) k 0
unfolding release_at released
flags-release_at [] k = refl
flags-release_at (x ∷ ss) zero = refl
flags-release_at (x ∷ ss) (suc k) = ap (◌∷◌ x.claimed) (flags-release_at ss k)

get_elem?-flags :
    (ss : List SymbolSlot) (k : ℕ) (s : SymbolSlot)
    → get_elem? ss k ≡ some s
    → get_elem? (flags ss) k ≡ some s.claimed
get_elem?-flags [] k s h = cc
get_elem?-flags (x ∷ ss) zero s h = ap (λ (o : SymbolSlot). some o.claimed) (some-injective x s h)
get_elem?-flags (x ∷ ss) (suc k) s h = get_elem?-flags ss k s h

pub get_elem?-set_ne :
    (fs : List ℕ) (i k v : ℕ) → (i == k) ≡ false → get_elem? (set fs k v) i ≡ get_elem? fs i
get_elem?-set_ne [] i k v h = refl
get_elem?-set_ne (f ∷ fs) zero zero v h = cc
get_elem?-set_ne (f ∷ fs) zero (suc k) v h = refl
get_elem?-set_ne (f ∷ fs) (suc i) zero v h = refl
get_elem?-set_ne (f ∷ fs) (suc i) (suc k) v h = get_elem?-set_ne fs i k v (ground arith)

pub get_elem?-set_here :
    (fs : List ℕ) (k v w : ℕ) → get_elem? fs k ≡ some w → get_elem? (set fs k v) k ≡ some v
get_elem?-set_here [] k v w h = cc
get_elem?-set_here (f ∷ fs) zero v w h = refl
get_elem?-set_here (f ∷ fs) (suc k) v w h = get_elem?-set_here fs k v w h

pub claims-set :
    (fs : List ℕ) (k v w : ℕ)
    → get_elem? fs k ≡ some w
    → claims (set fs k v) + (if w == 0 then 0 else 1) ≡ claims fs + (if v == 0 then 0 else 1)
claims-set [] k v w h = cc
claims-set (f ∷ fs) zero v w h = let e : f ≡ w = some-injective f w h in rw e (omega arith)
claims-set (f ∷ fs) (suc k) v w h = omega (arith, claims-set fs k v w h)

-- Slots that are not `k` are left alone.
pub Owned-set :
    (fs : List ℕ) (k v : ℕ) (is : List ℕ)
    → All (λ j. (j == k) ≡ false) is
    → Owned fs is
    → Owned (set fs k v) is
Owned-set fs k v [] a o = tt
Owned-set fs k v (i ∷ is) a o =
    (get_elem?-set_ne fs i k v a.0 ∙ o.0, o.1, Owned-set fs k v is a.1 o.2)

-- A free slot is none of them.
pub Owned-free :
    (fs : List ℕ) (k : ℕ) (is : List ℕ)
    → get_elem? fs k ≡ some 0
    → Owned fs is
    → All (λ j. (j == k) ≡ false) is
Owned-free fs k [] h o = tt
Owned-free fs k (i ∷ is) h o = (
  elim (Bool-cases (i == k)) [
    | inl y ↦
        let e : i ≡ k = ground arith in
        absurd (one_not_zero (some-injective 1 0 (sym o.0 ∙ ap (get_elem? fs) e ∙ h)))
    | inr n ↦ n
  ],
  Owned-free fs k is h o.2,
)
  where
    one_not_zero : ◌≡◌ {A = ℕ} 1 0 → ⊥
    one_not_zero e = omega arith

claim_from_long :
    (i : ℕ) (ss : List SymbolSlot) (symbol : Text)
    → 16 ≤ length symbol
    → (flags (claim_from i ss symbol).0 ≡ flags ss)
      × (((claim_from i ss symbol).1 ≡ no_slot) ⊎ ((claim_from i ss symbol).1 ≡ symbol_too_long))
unfolding claim_from set_slot_symbol cleaned
claim_from_long i [] symbol h = (refl, inl refl)
claim_from_long i (x ∷ ss) symbol h = elim (Bool-cases (x.claimed == 0)) [
  | inl y ↦ (let f : leb 16 (length symbol) ≡ true = ground arith in rw (y, f) (refl, inr refl))
  | inr n ↦ (let (a, b) = claim_from_long (i + 1) ss symbol h in rw n (ap (◌∷◌ x.claimed) a, b))
]

-- A claim takes a free slot, or leaves the flags.
pub claim_slot-flags :
    (layout : SharedMemorySegment) (symbol : Text)
    → let (layout', c) = claim_slot layout symbol in
      ((k : ℕ) × (c ≡ slot_at k)
        × (get_elem? (flags layout.slots) k ≡ some 0)
        × (flags layout'.slots ≡ set (flags layout.slots) k 1))
      ⊎ ((flags layout'.slots ≡ flags layout.slots) × ((c ≡ no_slot) ⊎ (c ≡ symbol_too_long)))
unfolding claim_slot claimed_for
claim_slot-flags layout symbol = elim (Bool-cases (leb 16 (length symbol))) [
  | inl y ↦ inr (claim_from_long 0 layout.slots symbol (ground arith))
  | inr n ↦ elim (claim_slot_lem layout symbol (ground arith)) [
    | inl (e, a) ↦ inr (
      ap (λ (r : SharedMemorySegment × Claim). flags r.0.slots) e,
      inl (ap (λ (r : SharedMemorySegment × Claim). r.1) e),
    )
    | inr (k, s, g, c, a, e) ↦ inl (
      k,
      ap (λ (r : SharedMemorySegment × Claim). r.1) e,
      get_elem?-flags layout.slots k s g ∙ ap some c,
      ap (λ (r : SharedMemorySegment × Claim). flags r.0.slots) e
          ∙ flags-set layout.slots k (claimed_for symbol s),
    )
  ]
]

slots_of-absent :
    (key : Text) (entry' : Entry) (m : List (Text × Entry))
    → contains same_text key m ≡ false
    → slots_of (assign same_text key entry' m) ≡ slots_of m
unfolding assign contains
slots_of-absent key entry' [] h = refl
slots_of-absent key entry' ((j, f) ∷ m) h = elim (Bool-cases (same_text j key)) [
  | inl y ↦ cc
  | inr n ↦ rw n (ap (◌∷◌ f.slot) (slots_of-absent key entry' m (rw n at h)))
]

-- The slots of the entries after a change of one that keeps its slot.
pub slots_of-assign :
    (key : Text) (entry entry' : Entry) (m : List (Text × Entry))
    → Distinct same_text m
    → entry'.slot ≡ entry.slot
    → lookup same_text key m ≡ some entry
    → slots_of (assign same_text key entry' m) ≡ slots_of m
unfolding lookup assign contains
slots_of-assign key entry entry' [] d e h = refl
slots_of-assign key entry entry' ((j, f) ∷ m) d e h = elim (Bool-cases (same_text j key)) [
  | inl y ↦
      (let g : f ≡ entry = some-injective f entry (rw y at h) in
        rw (y, e, g)
          (ap (◌∷◌ entry.slot)
            (slots_of-absent key entry' m (rw ((same_text-IsTest j key).0 y) at d.0))))
  | inr n ↦ rw n (ap (◌∷◌ f.slot) (slots_of-assign key entry entry' m d.1 e (rw n at h)))
]
