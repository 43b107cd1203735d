-- ===== src/Registry/Used.antt =====
-- That every symbol of the registry has a subscriber, and that their counts fit an `int`, is kept by the
-- calls (engine/src/symbol/symbol_registry.cpp).
use real_time_paper_trading.Base.{
  ℕ, zero, suc, ◌≡◌, refl, inl, inr, true, not, ◌||◌, Bool-cases, Option, none, some, List, [], ◌∷◌,
  All, arith, Text,
}
use real_time_paper_trading.Base.Assoc.{lookup, contains, erase, emplace, assign}
use real_time_paper_trading.Ticks.{price_scale_supports, quantity_scale_supports}
use real_time_paper_trading.SharedMemory.{Claim, slot_at, no_slot, symbol_too_long, claim_slot}
use real_time_paper_trading.Client.{same_text}
use real_time_paper_trading.Registry.{
  incremented, decremented, is_positive, SymbolPrecision, Entry, SymbolRegistry, new_entry,
  create_entry, subscribe_locked, subscribe, leave_entry, tear_down, unsubscribe,
}
use real_time_paper_trading.Registry.Counts.{
  IsCount, IsUsed, lookup-All, decremented_lem, Option-cases, join_entry_found, join_entry_missing,
}

abbrev AllUsed : ℕ → List (Text × Entry) → Type 0
AllUsed n = All (λ x. IsCount n x.1.refcount)

-- Room for one more is room.
AllUsed-suc : (n : ℕ) (m : List (Text × Entry)) → AllUsed (suc n) m → AllUsed n m
AllUsed-suc n [] a = tt
AllUsed-suc n (x ∷ m) a = ((a.0.0, omega (arith, a.0.1)), AllUsed-suc n m a.1)

pub IsUsed-suc : (n : ℕ) (r : SymbolRegistry) → IsUsed (suc n) r → IsUsed n r
IsUsed-suc n r v = record { room = omega (arith, v.room); used = AllUsed-suc n r.entries v.used }

incremented-IsCount : (n k : ℕ) → IsCount (suc n) k → IsCount n (incremented k)
unfolding incremented
incremented-IsCount n k h = (omega (arith, h.0, h.1), omega (arith, h.0, h.1))

decremented-IsCount :
    (n k : ℕ) → IsCount n k → is_positive (decremented k) ≡ true → IsCount n (decremented k)
unfolding is_positive
decremented-IsCount n k h e =
    let d = decremented_lem k (h.0, omega (arith, h.1)) in
    (ground (arith, e), omega (arith, d, h.1))

AllUsed-assign :
    (n : ℕ) (k : Text) (e : Entry) (m : List (Text × Entry))
    → IsCount n e.refcount
    → AllUsed n m
    → AllUsed n (assign same_text k e m)
unfolding assign
AllUsed-assign n k e [] h a = tt
AllUsed-assign n k e ((j, f) ∷ m) h a = (
  elim (Bool-cases (same_text j k)) [ inl y ↦ rw y h | inr d ↦ rw d a.0 ],
  AllUsed-assign n k e m h a.1,
)

AllUsed-erase :
    (n : ℕ) (k : Text) (m : List (Text × Entry)) → AllUsed n m → AllUsed n (erase same_text k m)
unfolding erase
AllUsed-erase n k [] a = tt
AllUsed-erase n k ((j, f) ∷ m) a = elim (Bool-cases (same_text j k)) [
  | inl y ↦ rw y (AllUsed-erase n k m a.1)
  | inr d ↦ rw d (a.0, AllUsed-erase n k m a.1)
]

AllUsed-emplace :
    (n : ℕ) (k : Text) (e : Entry) (m : List (Text × Entry))
    → IsCount n e.refcount
    → AllUsed n m
    → AllUsed n (emplace same_text k e m)
unfolding emplace
AllUsed-emplace n k e m h a = elim (Bool-cases (contains same_text k m)) [
  | inl y ↦ rw y a
  | inr d ↦ rw d (h, a)
]

create_entry-IsUsed :
    (n : ℕ) (r : SymbolRegistry) (key : Text) (precision : SymbolPrecision) (now : ℕ)
    → IsUsed (suc n) r
    → IsUsed n (create_entry r key precision now).0
unfolding create_entry new_entry
create_entry-IsUsed n r key precision now v = by_claim (claim_slot r.shared_memory key).1 refl
  where
    by_claim :
        (c : Claim)
        → (claim_slot r.shared_memory key).1 ≡ c
        → IsUsed n (create_entry r key precision now).0
    by_claim symbol_too_long e =
        let u = IsUsed-suc n r v in rw (create_entry, e) (record { room = u.room; used = u.used })
    by_claim no_slot e =
        let u = IsUsed-suc n r v in rw (create_entry, e) (record { room = u.room; used = u.used })
    by_claim (slot_at slot) e =
        let u = IsUsed-suc n r v in
        rw (create_entry, e)
          (record {
            room = u.room;
            used =
                AllUsed-emplace n key (new_entry key slot precision now) r.entries
                  (omega arith, omega (arith, u.room)) u.used;
          })

join-IsUsed :
    (n : ℕ) (r : SymbolRegistry) (key : Text) (entry : Entry)
    → lookup same_text key r.entries ≡ some entry
    → IsUsed (suc n) r
    → IsUsed n (record r {
      entries =
          assign same_text key (record entry { refcount = incremented entry.refcount }) r.entries;
    })
join-IsUsed n r key entry h v =
    let u = IsUsed-suc n r v in
    record {
      room = u.room;
      used =
          AllUsed-assign n key (record entry { refcount = incremented entry.refcount }) r.entries
            (incremented-IsCount n entry.refcount (lookup-All (suc n) key entry r.entries v.used h))
            u.used;
    }

subscribe_locked-IsUsed :
    (n : ℕ) (r : SymbolRegistry) (key : Text) (precision : Option SymbolPrecision) (now : ℕ)
    → IsUsed (suc n) r
    → IsUsed n (subscribe_locked r key precision now).0
unfolding subscribe_locked
subscribe_locked-IsUsed n r key none now v = IsUsed-suc n r v
subscribe_locked-IsUsed n r key (some p) now v =
    elim (Bool-cases (
      not (price_scale_supports p.pair_decimals) || not (quantity_scale_supports p.lot_decimals))) [
        | inl y ↦ rw y (IsUsed-suc n r v)
        | inr d ↦ rw d (elim (Option-cases (lookup same_text key r.entries)) [
          | inl h ↦ rw (join_entry_missing r key h) (create_entry-IsUsed n r key p now v)
          | inr (entry, h) ↦ rw (join_entry_found r key entry h) (join-IsUsed n r key entry h v)
        ])
      ]

pub subscribe-IsUsed :
    (n : ℕ) (r : SymbolRegistry) (key : Text) (precision : Option SymbolPrecision) (now : ℕ)
    → IsUsed (suc n) r
    → IsUsed n (subscribe r key precision now).0
unfolding subscribe
subscribe-IsUsed n r key precision now v = elim (Option-cases (lookup same_text key r.entries)) [
  | inl h ↦
      rw (subscribe, join_entry_missing r key h) (subscribe_locked-IsUsed n r key precision now v)
  | inr (entry, h) ↦ rw (subscribe, join_entry_found r key entry h) (join-IsUsed n r key entry h v)
]

pub unsubscribe-IsUsed :
    (n : ℕ) (r : SymbolRegistry) (key : Text) → IsUsed n r → IsUsed n (unsubscribe r key).0
unfolding unsubscribe leave_entry tear_down
unsubscribe-IsUsed n r key v = elim (Option-cases (lookup same_text key r.entries)) [
  | inl h ↦ rw (unsubscribe, leave_entry, h) v
  | inr (entry, h) ↦ elim (Bool-cases (is_positive (decremented entry.refcount))) [
    | inl y ↦
        rw (unsubscribe, leave_entry, h, y)
          (record {
            room = v.room;
            used =
                AllUsed-assign n key (record entry { refcount = decremented entry.refcount })
                  r.entries
                  (decremented-IsCount n entry.refcount (lookup-All n key entry r.entries v.used h)
                    y)
                  v.used;
          })
    | inr d ↦
        rw (unsubscribe, leave_entry, h, d)
          (record { room = v.room; used = AllUsed-erase n key r.entries v.used })
  ]
]

-- Room for some calls is room for none, and for one.
pub IsUsed-less : (n : ℕ) (r : SymbolRegistry) → IsUsed n r → IsUsed 0 r
IsUsed-less zero r v = v
IsUsed-less (suc n) r v = IsUsed-less n r (IsUsed-suc n r v)

pub IsUsed-one : (n : ℕ) (r : SymbolRegistry) → IsUsed (suc n) r → IsUsed 1 r
IsUsed-one zero r v = v
IsUsed-one (suc n) r v = IsUsed-one n r (IsUsed-suc (suc n) r v)
