-- ===== src/Registry/Counts.antt =====
-- The reference counts of the symbols (engine/src/symbol/symbol_registry.cpp).
use real_time_paper_trading.Base.{
  ℕ, ◌+◌, ◌-◌, ◌^◌, ◌≤◌, ◌<◌, ◌≡◌, ◌⊎◌, refl, sym, ap, subst, ◌∙◌, inl, inr, Bool, true, false, not,
  ◌&&◌, ◌||◌, Bool-cases, Option, none, some, some-injective, List, [], ◌∷◌, ltb, if◌then◌else◌,
  All, arith, Text,
}
use real_time_paper_trading.Base.Assoc.{
  lookup, erase, assign, lookup-erase_if, lookup-emplace_fresh,
}
use real_time_paper_trading.Ticks.{price_scale_supports, quantity_scale_supports}
use real_time_paper_trading.SharedMemory.{Claim, slot_at, no_slot, symbol_too_long, claim_slot}
use real_time_paper_trading.Client.{same_text}
use real_time_paper_trading.Registry.{
  incremented, decremented, is_positive, SymbolPrecision, SubscribeResult, Entry, SymbolRegistry,
  new_entry, join_entry, create_entry, subscribe_locked, subscribe, leave_entry, tear_down,
  unsubscribe, subscribed_ok, refused,
}
use real_time_paper_trading.Registry.Keys.{same_text-IsTest, lookup-assign, contains_missing}

abbrev pub refcount_or_zero : Option Entry → ℕ
refcount_or_zero none = 0
refcount_or_zero (some entry) = entry.refcount

-- How often a symbol is subscribed.
abbrev pub count_of : SymbolRegistry → Text → ℕ
count_of r x = refcount_or_zero (lookup same_text x r.entries)

-- A count above 0, with room for `k` more subscribers.
abbrev pub IsCount : ℕ → ℕ → Type 0
IsCount k n = (1 ≤ n) × (n + k < 2 ^ 31)

-- No entry without a subscriber, and room for `k` more at each symbol.
pub record IsUsed (k : ℕ) (r : SymbolRegistry) : Type 0 where
  pub room : k + 1 < 2 ^ 31
  pub used : All (λ x. IsCount k x.1.refcount) r.entries

pub Option-cases : {A : Type 0} → (o : Option A) → (o ≡ none) ⊎ ((a : A) × (o ≡ some a))
Option-cases none = inl refl
Option-cases (some a) = inr (a, refl)

if-some :
    (b : Bool) (e : Entry) (o : Option Entry)
    → refcount_or_zero (if b then some e else o) ≡ (if b then e.refcount else refcount_or_zero o)
if-some true e o = refl
if-some false e o = refl

pub join_entry_found :
    (r : SymbolRegistry) (key : Text) (entry : Entry)
    → lookup same_text key r.entries ≡ some entry
    → join_entry r key
      ≡ some (record r {
        entries =
            assign same_text key (record entry { refcount = incremented entry.refcount }) r.entries;
      })
unfolding join_entry
join_entry_found r key entry h = rw (join_entry, h) refl

pub join_entry_missing :
    (r : SymbolRegistry) (key : Text)
    → lookup same_text key r.entries ≡ none
    → join_entry r key ≡ none
unfolding join_entry
join_entry_missing r key h = rw (join_entry, h) refl

-- The count after a change of one entry.
count-assign :
    (r : SymbolRegistry) (key : Text) (entry entry' : Entry) (x : Text)
    → lookup same_text key r.entries ≡ some entry
    → count_of (record r { entries = assign same_text key entry' r.entries }) x
      ≡ (if same_text key x then entry'.refcount else count_of r x)
count-assign r key entry entry' x h =
    ap refcount_or_zero (lookup-assign x key entry' entry r.entries h)
    ∙ if-some (same_text key x) entry' (lookup same_text x r.entries)

pub lookup-All :
    (n : ℕ) (k : Text) (entry : Entry) (m : List (Text × Entry))
    → All (λ x. IsCount n x.1.refcount) m
    → lookup same_text k m ≡ some entry
    → IsCount n entry.refcount
unfolding lookup
lookup-All n k entry [] a h = cc
lookup-All n k entry ((j, e) ∷ m) a h = elim (Bool-cases (same_text j k)) [
  | inl y ↦ subst (λ (x : Entry). IsCount n x.refcount) (some-injective e entry (rw y at h)) a.0
  | inr d ↦ lookup-All n k entry m a.1 (rw d at h)
]

-- The count under a test of the key.
count_there :
    (r : SymbolRegistry) (key x : Text) (o : Option Entry)
    → same_text key x ≡ true
    → lookup same_text key r.entries ≡ o
    → count_of r x ≡ refcount_or_zero o
count_there r key x o e h =
    ap (λ k. refcount_or_zero (lookup same_text k r.entries)) (sym ((same_text-IsTest key x).0 e))
    ∙ ap refcount_or_zero h

-- What a subscription does to the counts.
abbrev Joined : SymbolRegistry → Text → SymbolRegistry × SubscribeResult → Type 0
Joined r key (r', res) =
    (x : Text)
    → count_of r' x ≡ (if res.ok && same_text key x then count_of r x + 1 else count_of r x)

join_entry_counts :
    (r : SymbolRegistry) (key : Text) (entry : Entry)
    → lookup same_text key r.entries ≡ some entry
    → entry.refcount + 1 < 2 ^ 31
    → Joined r key (
      record r {
        entries =
            assign same_text key (record entry { refcount = incremented entry.refcount }) r.entries;
      },
      subscribed_ok,
    )
unfolding subscribed_ok incremented
join_entry_counts r key entry h b x =
    count-assign r key entry (record entry { refcount = incremented entry.refcount }) x h
    ∙ elim (Bool-cases (same_text key x)) [
      | inl y ↦ rw y (
          let c : count_of r x ≡ entry.refcount = count_there r key x (some entry) y h in
          omega (arith, c, b))
      | inr n ↦ rw n refl
    ]

create_entry_counts :
    (r : SymbolRegistry) (key : Text) (precision : SymbolPrecision) (now : ℕ)
    → lookup same_text key r.entries ≡ none
    → Joined r key (create_entry r key precision now)
unfolding create_entry subscribed_ok refused new_entry
create_entry_counts r key precision now h x = by_claim (claim_slot r.shared_memory key).1 refl
  where
    by_claim :
        (c : Claim)
        → (claim_slot r.shared_memory key).1 ≡ c
        → let (r', res) = create_entry r key precision now in
          count_of r' x ≡ (if res.ok && same_text key x then count_of r x + 1 else count_of r x)
    by_claim symbol_too_long e = rw (create_entry, e) refl
    by_claim no_slot e = rw (create_entry, e) refl
    by_claim (slot_at slot) e =
        rw (create_entry, e)
          (ap refcount_or_zero (
              lookup-emplace_fresh same_text x key (new_entry key slot precision now) r.entries
                (contains_missing key r.entries h))
            ∙ if-some (same_text key x) (new_entry key slot precision now)
                (lookup same_text x r.entries)
            ∙ elim (Bool-cases (same_text key x)) [
              | inl y ↦ rw y (
                  ap (λ o. refcount_or_zero o + 1)
                    (sym (
                      ap (λ k. lookup same_text k r.entries) (sym ((same_text-IsTest key x).0 y))
                      ∙ h)))
              | inr n ↦ rw n refl
            ])

Joined-refused :
    (r : SymbolRegistry) (key : Text) (res : SubscribeResult)
    → res.ok ≡ false
    → Joined r key (r, res)
Joined-refused r key res e x = rw e refl

-- The second block finds the entry that another thread has made in the meantime.
subscribe_locked_counts :
    (r : SymbolRegistry) (key : Text) (precision : Option SymbolPrecision) (now : ℕ)
    → IsUsed 1 r
    → Joined r key (subscribe_locked r key precision now)
unfolding subscribe_locked subscribed_ok refused
subscribe_locked_counts r key none now v x = refl
subscribe_locked_counts r key (some p) now v x =
    elim (Bool-cases (
      not (price_scale_supports p.pair_decimals) || not (quantity_scale_supports p.lot_decimals))) [
        | inl y ↦ rw y refl
        | inr n ↦ rw n (elim (Option-cases (lookup same_text key r.entries)) [
          | inl h ↦ rw (join_entry_missing r key h) (create_entry_counts r key p now h x)
          | inr (entry, h) ↦
              rw (join_entry_found r key entry h)
                (join_entry_counts r key entry h (lookup-All 1 key entry r.entries v.used h).1 x)
        ])
      ]

-- A subscription that succeeds counts one more for its symbol, one that is refused counts nothing,
-- and no other symbol's count changes, if an `int` holds one more for each; a symbol that is subscribed already is never refused. The same
-- holds of the part of `subscribe` under the second lock, in whatever state other threads have left
-- the registry in the meantime.
pub subscribe_counts :
    (r : SymbolRegistry) (key : Text) (precision : Option SymbolPrecision) (now : ℕ) (x : Text)
    → IsUsed 1 r
    → let counts = λ (c : SymbolRegistry × SubscribeResult).
      count_of c.0 x ≡ (if c.1.ok && same_text key x then count_of r x + 1 else count_of r x) in
      counts (subscribe r key precision now)
      × counts (subscribe_locked r key precision now)
      × (1 ≤ count_of r key → (subscribe r key precision now).1.ok ≡ true)
unfolding subscribe subscribed_ok
subscribe_counts r key precision now x v = elim (Option-cases (lookup same_text key r.entries)) [
  | inl h ↦
      rw (subscribe, join_entry_missing r key h)
        (
          subscribe_locked_counts r key precision now v x,
          subscribe_locked_counts r key precision now v x,
          λ c. absurd (omega (arith, ap refcount_or_zero h, c)),
        )
  | inr (entry, h) ↦
      rw (subscribe, join_entry_found r key entry h)
        (
          join_entry_counts r key entry h (lookup-All 1 key entry r.entries v.used h).1 x,
          subscribe_locked_counts r key precision now v x,
          λ c. refl,
        )
]

leave_last :
    (r : SymbolRegistry) (key x : Text) (entry : Entry)
    → lookup same_text key r.entries ≡ some entry
    → entry.refcount ≡ 1
    → count_of (record r { entries = erase same_text key r.entries }) x
      ≡ (if same_text key x then count_of r x - 1 else count_of r x)
leave_last r key x entry h e =
    ap refcount_or_zero (lookup-erase_if same_text same_text-IsTest x key r.entries)
    ∙ elim (Bool-cases (same_text key x)) [
      | inl y ↦ rw y (
          sym (
            ap (λ o. refcount_or_zero o - 1)
              (sym (ap (λ k. lookup same_text k r.entries) ((same_text-IsTest key x).0 y)) ∙ h)
            ∙ ap (λ n. n - 1) e))
      | inr n ↦ rw n refl
    ]

above_zero : (n : ℕ) → 1 ≤ n → ltb 0 n ≡ true
above_zero n h = ground arith

pub decremented_lem : (n : ℕ) → IsCount 0 n → decremented n ≡ n - 1
unfolding decremented
decremented_lem n h = omega (arith, h.0, h.1)

last_count : (n : ℕ) → IsCount 0 n → is_positive (decremented n) ≡ false → n ≡ 1
unfolding is_positive
last_count n h e = let d = decremented_lem n h in ground (arith, h.0, h.1, d, e)

-- `unsubscribe` succeeds just for a symbol that is subscribed, and counts one less for it; no other
-- symbol's count changes, if no entry is without a subscriber.
pub unsubscribe_counts :
    (r : SymbolRegistry) (key x : Text)
    → IsUsed 0 r
    → let (r', res) = unsubscribe r key in
      (res.ok ≡ ltb 0 (count_of r key))
      × (count_of r' x ≡ (if same_text key x then count_of r x - 1 else count_of r x))
unfolding unsubscribe leave_entry tear_down subscribed_ok refused
unsubscribe_counts r key x v = elim (Option-cases (lookup same_text key r.entries)) [
  | inl h ↦
      rw (unsubscribe, leave_entry, h)
        (
          refl,
          elim (Bool-cases (same_text key x)) [
            | inl y ↦ rw y (let z : count_of r x ≡ 0 = count_there r key x none y h in omega arith)
            | inr n ↦ rw n refl
          ],
        )
  | inr (entry, h) ↦
      (let u = lookup-All 0 key entry r.entries v.used h in
        elim (Bool-cases (is_positive (decremented entry.refcount))) [
          | inl y ↦
              rw (unsubscribe, leave_entry, h, y)
                (
                  sym (above_zero entry.refcount u.0),
                  count-assign r key entry (record entry { refcount = decremented entry.refcount })
                        x h
                      ∙ elim (Bool-cases (same_text key x)) [
                        | inl e ↦ rw e (
                            decremented_lem entry.refcount u
                            ∙ ap (λ n. n - 1) (sym (count_there r key x (some entry) e h)))
                        | inr d ↦ rw d refl
                      ],
                )
          | inr n ↦
              rw (unsubscribe, leave_entry, h, n)
                (
                  sym (above_zero entry.refcount u.0),
                  leave_last r key x entry h (last_count entry.refcount u n),
                )
        ])
]
