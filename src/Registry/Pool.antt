-- ===== src/Registry/Pool.antt =====
-- No two symbols share a slot, and no slot is lost (engine/src/symbol/symbol_registry.cpp).
use real_time_paper_trading.Base.{
  ℕ, suc, ◌≡◌, refl, sym, ap, subst, ◌∙◌, inl, inr, false, not, ◌||◌, Bool-cases, Option, none,
  some, some-injective, List, [], ◌∷◌, ◌==◌, All, length, get_elem?, set, arith, Text,
}
use real_time_paper_trading.Base.Assoc.{
  lookup, contains, erase, emplace, assign, Distinct, erase_absent, contains-erase, contains-assign,
}
use real_time_paper_trading.Ticks.{price_scale_supports, quantity_scale_supports}
use real_time_paper_trading.SharedMemory.{release_slot}
use real_time_paper_trading.Client.{same_text}
use real_time_paper_trading.Registry.{
  incremented, decremented, is_positive, SymbolPrecision, Entry, SymbolRegistry, new_entry,
  create_entry, subscribe_locked, subscribe, leave_entry, tear_down, unsubscribe,
}
use real_time_paper_trading.Registry.Keys.{same_text-IsTest, contains_missing}
use real_time_paper_trading.Registry.Counts.{Option-cases, join_entry_found, join_entry_missing}
use real_time_paper_trading.Registry.Slots.{
  flags, slots_of, Owned, HasSlots, flags-release_at, get_elem?-set_here, get_elem?-set_ne,
  claims-set, Owned-set, Owned-free, claim_slot-flags, slots_of-assign,
}

Distinct-erase :
    (key : Text) (m : List (Text × Entry))
    → Distinct same_text m
    → Distinct same_text (erase same_text key m)
unfolding erase contains
Distinct-erase key [] d = tt
Distinct-erase key ((j, e) ∷ m) d = elim (Bool-cases (same_text j key)) [
  | inl y ↦ rw y (Distinct-erase key m d.1)
  | inr n ↦
      rw n (
        ground (arith, contains-erase same_text same_text-IsTest j key m),
        Distinct-erase key m d.1,
      )
]

Distinct-assign :
    (key : Text) (e : Entry) (m : List (Text × Entry))
    → Distinct same_text m
    → Distinct same_text (assign same_text key e m)
unfolding assign
Distinct-assign key e [] d = tt
Distinct-assign key e ((j, f) ∷ m) d =
    (contains-assign same_text j key e m ∙ d.0, Distinct-assign key e m d.1)

length-assign :
    (key : Text) (e : Entry) (m : List (Text × Entry))
    → length (assign same_text key e m) ≡ length m
unfolding assign
length-assign key e [] = refl
length-assign key e ((j, f) ∷ m) = ap suc (length-assign key e m)

slot_differs :
    (key : Text) (entry : Entry) (i : ℕ) (m : List (Text × Entry))
    → All (λ j. (j == i) ≡ false) (slots_of m)
    → lookup same_text key m ≡ some entry
    → (i == entry.slot) ≡ false
unfolding lookup
slot_differs key entry i [] a h = cc
slot_differs key entry i ((j, f) ∷ m) a h = elim (Bool-cases (same_text j key)) [
  | inl y ↦
      (let g : f ≡ entry = some-injective f entry (rw y at h) in
        let s : f.slot ≡ entry.slot = ap (λ (e : Entry). e.slot) g in ground arith)
  | inr n ↦ slot_differs key entry i m a.1 (rw n at h)
]

slots-erase :
    (key : Text) (i : ℕ) (m : List (Text × Entry))
    → All (λ j. (j == i) ≡ false) (slots_of m)
    → All (λ j. (j == i) ≡ false) (slots_of (erase same_text key m))
unfolding erase
slots-erase key i [] a = tt
slots-erase key i ((j, f) ∷ m) a = elim (Bool-cases (same_text j key)) [
  | inl y ↦ rw y (slots-erase key i m a.1)
  | inr n ↦ rw n (a.0, slots-erase key i m a.1)
]

Owned-erase :
    (fs : List ℕ) (key : Text) (entry : Entry) (m : List (Text × Entry))
    → Distinct same_text m
    → lookup same_text key m ≡ some entry
    → Owned fs (slots_of m)
    → Owned (set fs entry.slot 0) (slots_of (erase same_text key m))
      × (length m ≡ suc (length (erase same_text key m)))
      × (get_elem? fs entry.slot ≡ some 1)
unfolding lookup erase contains
Owned-erase fs key entry [] d h o = cc
Owned-erase fs key entry ((j, f) ∷ m) d h o = elim (Bool-cases (same_text j key)) [
  | inl y ↦
      (let g : f ≡ entry = some-injective f entry (rw y at h) in
        let s : entry.slot ≡ f.slot = ap (λ (e : Entry). e.slot) (sym g) in
        let c : contains same_text key m ≡ false = rw ((same_text-IsTest j key).0 y) at d.0 in
        rw (y, s, erase_absent same_text key m c)
          (Owned-set fs f.slot 0 (slots_of m) o.1 o.2, refl, o.0))
  | inr n ↦
      (let (a, l, g) = Owned-erase fs key entry m d.1 (rw n at h) o.2 in
        rw n (
          (
            get_elem?-set_ne fs f.slot entry.slot 0
                  (slot_differs key entry f.slot m o.1 (rw n at h))
                ∙ o.0,
            slots-erase key f.slot m o.1,
            a,
          ),
          ap suc l,
          g,
        ))
]

join-HasSlots :
    (r : SymbolRegistry) (key : Text) (entry entry' : Entry)
    → lookup same_text key r.entries ≡ some entry
    → entry'.slot ≡ entry.slot
    → HasSlots r
    → HasSlots (record r { entries = assign same_text key entry' r.entries })
join-HasSlots r key entry entry' h e v = record {
  distinct = Distinct-assign key entry' r.entries v.distinct;
  owned =
      subst (Owned (flags r.shared_memory.slots))
        (sym (slots_of-assign key entry entry' r.entries v.distinct e h)) v.owned;
  counted = v.counted ∙ sym (length-assign key entry' r.entries);
}

create_entry-HasSlots :
    (r : SymbolRegistry) (key : Text) (precision : SymbolPrecision) (now : ℕ)
    → lookup same_text key r.entries ≡ none
    → HasSlots r
    → HasSlots (create_entry r key precision now).0
unfolding create_entry new_entry emplace
create_entry-HasSlots r key precision now h v = elim (claim_slot-flags r.shared_memory key) [
  | inl (k, c, g, f) ↦
      (let n = claims-set (flags r.shared_memory.slots) k 1 0 g in
        rw (create_entry, c, emplace, contains_missing key r.entries h)
          (record {
            distinct = (contains_missing key r.entries h, v.distinct);
            owned =
                subst (λ fs. Owned fs (k ∷ slots_of r.entries)) (sym f)
                  (
                    get_elem?-set_here (flags r.shared_memory.slots) k 1 0 g,
                    Owned-free (flags r.shared_memory.slots) k (slots_of r.entries) g v.owned,
                    Owned-set (flags r.shared_memory.slots) k 1 (slots_of r.entries)
                        (Owned-free (flags r.shared_memory.slots) k (slots_of r.entries) g v.owned)
                        v.owned,
                  );
            counted = rw f (omega (arith, n, v.counted));
          }))
  | inr (f, inl c) ↦
      rw (create_entry, c)
        (record {
          distinct = v.distinct;
          owned = subst (λ fs. Owned fs (slots_of r.entries)) (sym f) v.owned;
          counted = rw f v.counted;
        })
  | inr (f, inr c) ↦
      rw (create_entry, c)
        (record {
          distinct = v.distinct;
          owned = subst (λ fs. Owned fs (slots_of r.entries)) (sym f) v.owned;
          counted = rw f v.counted;
        })
]

pub subscribe_locked-HasSlots :
    (r : SymbolRegistry) (key : Text) (precision : Option SymbolPrecision) (now : ℕ)
    → HasSlots r
    → HasSlots (subscribe_locked r key precision now).0
unfolding subscribe_locked
subscribe_locked-HasSlots r key none now v = v
subscribe_locked-HasSlots r key (some p) now v =
    elim (Bool-cases (
      not (price_scale_supports p.pair_decimals) || not (quantity_scale_supports p.lot_decimals))) [
        | inl y ↦ rw y v
        | inr n ↦ rw n (elim (Option-cases (lookup same_text key r.entries)) [
          | inl h ↦ rw (join_entry_missing r key h) (create_entry-HasSlots r key p now h v)
          | inr (entry, h) ↦ rw (join_entry_found r key entry h) (
              join-HasSlots r key entry (record entry { refcount = incremented entry.refcount }) h
                refl v)
        ])
      ]

-- The calls of `subscribe` and `unsubscribe`, and the part of `subscribe` under the second lock, keep
-- this: the symbols of the registry are different and hold different slots of the pool, the slot of
-- each is claimed, and there are as many claimed slots as symbols, so none is lost.
pub registry-HasSlots :
    (r : SymbolRegistry) (key : Text) (precision : Option SymbolPrecision) (now : ℕ)
    → HasSlots r
    → HasSlots (subscribe r key precision now).0
      × HasSlots (subscribe_locked r key precision now).0
      × HasSlots (unsubscribe r key).0
unfolding subscribe unsubscribe leave_entry tear_down release_slot
registry-HasSlots r key precision now v = elim (Option-cases (lookup same_text key r.entries)) [
  | inl h ↦ (
    rw (subscribe, join_entry_missing r key h) (subscribe_locked-HasSlots r key precision now v),
    subscribe_locked-HasSlots r key precision now v,
    rw (unsubscribe, leave_entry, h) v,
  )
  | inr (entry, h) ↦ (
    rw (subscribe, join_entry_found r key entry h)
        (join-HasSlots r key entry (record entry { refcount = incremented entry.refcount }) h refl
          v),
    subscribe_locked-HasSlots r key precision now v,
    elim (Bool-cases (is_positive (decremented entry.refcount))) [
      | inl y ↦
          rw (unsubscribe, leave_entry, h, y)
            (join-HasSlots r key entry (record entry { refcount = decremented entry.refcount }) h
              refl v)
      | inr n ↦
          (let (o, l, g) =
              Owned-erase (flags r.shared_memory.slots) key entry r.entries v.distinct h v.owned in
            let c = claims-set (flags r.shared_memory.slots) entry.slot 0 1 g in
            let f = flags-release_at r.shared_memory.slots entry.slot in
            rw (unsubscribe, leave_entry, h, n)
              (record {
                distinct = Distinct-erase key r.entries v.distinct;
                owned = rw f o;
                counted = rw f (omega (arith, c, l, v.counted));
              }))
    ],
  )
]
