-- ===== src/Registry/Shutdown.antt =====
-- `~SymbolRegistry` of engine/src/symbol/symbol_registry.cpp. A `join` returns; the clients are gone
-- with the registry, and what is left is the shared memory.
use real_time_paper_trading.Base.{
  ℕ, zero, suc, ◌≡◌, refl, ap, sym, none, ◌∙◌, List, [], ◌∷◌, All, length, arith, Text, false,
}
use real_time_paper_trading.SharedMemory.{SharedMemorySegment, release_slot}
use real_time_paper_trading.Registry.{Entry, SymbolRegistry, subscribe, unsubscribe}
use real_time_paper_trading.Registry.History.{Call, subscribing, unsubscribing, called, call_all}
use real_time_paper_trading.Registry.Pool.{registry-HasSlots}
use real_time_paper_trading.Registry.Slots.{
  flags, claims, slots_of, Owned, HasSlots, flags-release_at, claims-set, Owned-set,
}

-- The first loop.
unfoldable pub stop_each : List (Text × Entry) → List (Text × Entry)
stop_each [] = []
stop_each ((key, entry) ∷ m) = (key, record entry { running = false }) ∷ stop_each m

-- The second.
unfoldable pub release_each : SharedMemorySegment → List (Text × Entry) → SharedMemorySegment
release_each memory [] = memory
release_each memory ((key, entry) ∷ m) = release_each (release_slot memory entry.slot) m

unfoldable pub destroy : SymbolRegistry → SharedMemorySegment
destroy r = release_each r.shared_memory (stop_each r.entries)

slots_of-stop_each : (m : List (Text × Entry)) → slots_of (stop_each m) ≡ slots_of m
unfolding stop_each
slots_of-stop_each [] = refl
slots_of-stop_each ((key, entry) ∷ m) = ap (◌∷◌ entry.slot) (slots_of-stop_each m)

claims_none : (fs : List ℕ) → claims fs ≡ 0 → All (λ f. f ≡ 0) fs
claims_none [] h = tt
claims_none (zero ∷ fs) h = (refl, claims_none fs (omega (arith, h)))
claims_none (suc f ∷ fs) h = absurd (grind (arith, h))

released_each :
    (memory : SharedMemorySegment) (m : List (Text × Entry))
    → Owned (flags memory.slots) (slots_of m)
    → claims (flags memory.slots) ≡ length (slots_of m)
    → claims (flags (release_each memory m).slots) ≡ 0
unfolding release_each release_slot
released_each memory [] o c = c
released_each memory ((key, entry) ∷ m) o c =
    let e = flags-release_at memory.slots entry.slot in
    let n = claims-set (flags memory.slots) entry.slot 0 1 o.0 in
    released_each (release_slot memory entry.slot) m
      (rw e (Owned-set (flags memory.slots) entry.slot 0 (slots_of m) o.1 o.2))
      (ap claims e ∙ omega (arith, n, c))

length-slots_of : (m : List (Text × Entry)) → length (slots_of m) ≡ length m
length-slots_of [] = refl
length-slots_of ((key, entry) ∷ m) = ap suc (length-slots_of m)

destroyed : (r : SymbolRegistry) → HasSlots r → All (λ f. f ≡ 0) (flags (destroy r).slots)
unfolding destroy
destroyed r h = claims_none (flags (destroy r).slots) (
    released_each r.shared_memory (stop_each r.entries) (rw (slots_of-stop_each r.entries) h.owned)
      (h.counted ∙ sym (ap length (slots_of-stop_each r.entries) ∙ length-slots_of r.entries)))

call_all-HasSlots :
    (r : SymbolRegistry) (calls : List Call) → HasSlots r → HasSlots (call_all r calls)
unfolding call_all called
call_all-HasSlots r [] h = h
call_all-HasSlots r (subscribing key precision now ∷ calls) h =
    call_all-HasSlots (subscribe r key precision now).0 calls
      (registry-HasSlots r key precision now h).0
call_all-HasSlots r (unsubscribing key ∷ calls) h =
    call_all-HasSlots (unsubscribe r key).0 calls (registry-HasSlots r key none 0 h).2

-- No slot is leaked: after any row of calls of `subscribe` and `unsubscribe`, whatever they answered,
-- the destructor leaves no slot of the shared memory claimed, if at first each claimed slot belonged to
-- one symbol and each symbol had its own.
pub destroy_lem :
    (r : SymbolRegistry) (calls : List Call)
    → HasSlots r
    → All (λ f. f ≡ 0) (flags (destroy (call_all r calls)).slots)
destroy_lem r calls h = destroyed (call_all r calls) (call_all-HasSlots r calls h)
