-- ===== src/Seqlock/Progress.antt =====
-- A read that no writer disturbs returns (engine/include/engine/ipc/snapshot_slot.hpp).
use real_time_paper_trading.Base.{
  ℕ, zero, suc, ◌+◌, ◌-◌, ◌*◌, ◌%◌, ◌≤◌, ◌<◌, ◌≡◌, ◌≢◌, ◌⊎◌, inl, inr, refl, sym, ap, subst, ◌∙◌,
  Bool-cases, true, false, none, some, List, [], ◌∷◌, ◌++◌, append_assoc, append-nil, length,
  length-append, get_elem?, take, drop, ◌==◌, if◌then◌else◌, arith,
}
use real_time_paper_trading.Seqlock.{
  Memory, resting, Reader, loading, copying, done, System, Step, load_odd, load_even, fetch,
  same_version, other_version, Reach,
}
use real_time_paper_trading.Seqlock.Invariant.{latest, ticks, IsWritten, IsRead, Inv}
use real_time_paper_trading.Seqlock.Safety.{IsCounted, Reach-Inv}

-- The next access of the reader, as its code makes it; none after the return.
unfoldable pub next_access : Memory → Reader → Reader
next_access m loading = if m.version % 2 == 1 then loading else copying m.version []
next_access m (copying before acc) = elim (get_elem? m.value (length acc)) [
  | none ↦ if m.version == before then done acc else loading
  | some w ↦ copying before (acc ++ (w ∷ []))
]
next_access m (done r) = done r

unfoldable pub accesses : ℕ → Memory → Reader → Reader
accesses zero m r = r
accesses (suc n) m r = accesses n m (next_access m r)

accesses-add :
    (a b : ℕ) (m : Memory) (r : Reader) → accesses (a + b) m r ≡ accesses b m (accesses a m r)
unfolding accesses
accesses-add zero b m r = let e : 0 + b ≡ b = omega arith in ap (λ n. accesses n m r) e
accesses-add (suc a) b m r =
    let e : suc a + b ≡ suc (a + b) = omega arith in
    ap (λ n. accesses n m r) e ∙ accesses-add a b m (next_access m r)

drop_cons :
    (value : List ℕ) (n : ℕ)
    → n < length value
    → (w : ℕ) × (get_elem? value n ≡ some w) × (drop n value ≡ w ∷ drop (suc n) value)
drop_cons [] n h = absurd (omega arith)
drop_cons (x ∷ value) zero h = (x, refl, refl)
drop_cons (x ∷ value) (suc n) h = drop_cons value n (omega arith)

drop_all : (value : List ℕ) (n : ℕ) → length value ≡ n → drop n value ≡ []
drop_all [] zero h = refl
drop_all [] (suc n) h = refl
drop_all (x ∷ value) zero h = absurd (omega arith)
drop_all (x ∷ value) (suc n) h = drop_all value n (omega arith)

none_past : (value : List ℕ) (n : ℕ) → length value ≡ n → get_elem? value n ≡ none
none_past [] n h = refl
none_past (x ∷ value) zero h = absurd (omega arith)
none_past (x ∷ value) (suc n) h = none_past value n (omega arith)

-- The copy of the words that are left.
accesses-copying :
    (k : ℕ) (m : Memory) (before : ℕ) (acc : List ℕ)
    → length acc + k ≡ length m.value
    → accesses k m (copying before acc) ≡ copying before (acc ++ drop (length acc) m.value)
unfolding accesses next_access
accesses-copying zero m before acc h =
    ap (copying before)
      (sym (ap (◌++◌ acc) (drop_all m.value (length acc) (omega arith)) ∙ append-nil acc))
accesses-copying (suc k) m before acc h =
    let (w, g, d) = drop_cons m.value (length acc) (omega arith) in
    let n : length (acc ++ (w ∷ [])) ≡ suc (length acc) =
      omega (arith, length-append acc (w ∷ [])) in
    rw (accesses, next_access, g)
      (accesses-copying k m before (acc ++ (w ∷ [])) (omega arith)
        ∙ ap (copying before)
            (append_assoc acc (w ∷ []) _ ∙ ap (◌++◌ acc) (ap (λ j. w ∷ drop j m.value) n ∙ sym d)))

take-drop : (value : List ℕ) (n : ℕ) → take n value ++ drop n value ≡ value
take-drop [] zero = refl
take-drop [] (suc n) = refl
take-drop (x ∷ value) zero = refl
take-drop (x ∷ value) (suc n) = ap (◌∷◌ x) (take-drop value n)

-- The comparison after the copy.
compare_lem :
    (m : Memory) (before : ℕ) (acc : List ℕ)
    → length acc ≡ length m.value
    → accesses 1 m (copying before acc) ≡ (if m.version == before then done acc else loading)
unfolding accesses next_access
compare_lem m before acc h = rw (accesses, next_access, none_past m.value (length acc) (sym h)) refl

length-rest :
    (acc value : List ℕ)
    → length acc ≤ length value
    → length (acc ++ drop (length acc) value) ≡ length value
length-rest [] value h = refl
length-rest (a ∷ acc) [] h = absurd (omega arith)
length-rest (a ∷ acc) (x ∷ value) h = ap suc (length-rest acc value (omega arith))

-- The rest of the copy, and the comparison.
copy_lem :
    (m : Memory) (before : ℕ) (acc : List ℕ)
    → length acc ≤ length m.value
    → accesses (length m.value - length acc + 1) m (copying before acc)
      ≡ (if m.version == before then done (acc ++ drop (length acc) m.value) else loading)
copy_lem m before acc h =
    accesses-add (length m.value - length acc) 1 m (copying before acc)
    ∙ ap (accesses 1 m) (accesses-copying (length m.value - length acc) m before acc (omega arith))
    ∙ compare_lem m before (acc ++ drop (length acc) m.value) (length-rest acc m.value h)

from_loading :
    (m : Memory) → m.version % 2 ≡ 0 → accesses (length m.value + 2) m loading ≡ done m.value
unfolding accesses next_access
from_loading m e =
    let n : length m.value + 2 ≡ suc (length m.value - 0 + 1) = omega arith in
    let even : (m.version % 2 == 1) ≡ false = ground arith in
    let same : (m.version == m.version) ≡ true = ground arith in
    ap (λ k. accesses k m loading) n
    ∙ ap (accesses (length m.value - 0 + 1) m) (rw even refl)
    ∙ copy_lem m m.version [] (omega arith)
    ∙ rw same refl

fresh_words :
    (value acc : List ℕ) → acc ≡ take (length acc) value → acc ++ drop (length acc) value ≡ value
fresh_words value acc e = ap (λ a. a ++ drop (length acc) value) e ∙ take-drop value (length acc)

module _ {first : List ℕ} {s : System} (b : IsCounted s) (inv : Inv first s)
    (e : s.writer ≡ resting) where
  now : ticks s.writer s.history ≡ 2 * length s.history
  now = ap (λ w. ticks w s.history) e

  value-latest : s.mem.value ≡ latest first s.history
  value-latest = subst (λ w. IsWritten (latest first s.history) w s.mem.value) e inv.written

  even : s.mem.version % 2 ≡ 0
  even = omega (arith, inv.counted, now)

  from_copying :
      (before : ℕ) (acc : List ℕ)
      → s.reader ≡ copying before acc
      → (n : ℕ) × (n ≤ 2 * length s.mem.value + 3)
        × (accesses n s.mem (copying before acc) ≡ done s.mem.value)
  from_copying before acc c =
      let r = subst (IsRead first s.history (ticks s.writer s.history) s.mem.value) c inv.read in
      let k = length s.mem.value - length acc + 1 in
      elim (Bool-cases (s.mem.version == before)) [
        | inl y ↦
            (let same : s.mem.version ≡ before = ground arith in
              let t : ticks s.writer s.history ≡ 2 * r.writes =
                omega (arith, r.loaded, r.past, inv.counted, b) in
              (
                k,
                omega arith,
                copy_lem s.mem before acc r.within
                    ∙ rw y (ap done (fresh_words s.mem.value acc (r.fresh t))),
              ))
        | inr n ↦ (
          k + (length s.mem.value + 2),
          omega arith,
          accesses-add k (length s.mem.value + 2) s.mem (copying before acc)
              ∙ ap (accesses (length s.mem.value + 2) s.mem)
                  (copy_lem s.mem before acc r.within ∙ rw n refl)
              ∙ from_loading s.mem even,
        )
      ]

  returns :
      (r : Reader)
      → s.reader ≡ r
      → ((v : List ℕ) → r ≢ done v)
      → (n : ℕ) × (n ≤ 2 * length s.mem.value + 3)
        × (accesses n s.mem r ≡ done (latest first s.history))
  returns loading c out =
      (length s.mem.value + 2, omega arith, from_loading s.mem even ∙ ap done value-latest)
  returns (copying before acc) c out =
      let (n, l, p) = from_copying before acc c in (n, l, p ∙ ap done value-latest)
  returns (done v) c out = absurd (out v refl)

-- A `read` in progress while no `write` is returns the value of the last `write`, after at most three
-- accesses more than twice the words of the value, from every reachable state, if there were fewer
-- than 2 ^ 32 versions and the writer stays at rest.
pub read_returns :
    {first : List ℕ} {s : System}
    → IsCounted s
    → Reach first s
    → s.writer ≡ resting
    → ((v : List ℕ) → s.reader ≢ done v)
    → (n : ℕ) × (n ≤ 2 * length s.mem.value + 3)
      × (accesses n s.mem s.reader ≡ done (latest first s.history))
read_returns {first} {s} b h e out = returns b (Reach-Inv b h) e s.reader refl out

elem_cases :
    (value : List ℕ) (n : ℕ)
    → n ≤ length value
    → ((n ≡ length value) × (get_elem? value n ≡ none)) ⊎ ((w : ℕ) × (get_elem? value n ≡ some w))
elem_cases [] zero h = inl (refl, refl)
elem_cases [] (suc n) h = absurd (omega arith)
elem_cases (x ∷ value) zero h = inr (x, refl)
elem_cases (x ∷ value) (suc n) h = elim (elem_cases value n (omega arith)) [
  | inl (e, g) ↦ inl (ap suc e, g)
  | inr (w, g) ↦ inr (w, g)
]

-- An access that the reader makes is a step of the system.
pub next_access-Step :
    {first : List ℕ} {s : System}
    → Inv first s
    → (r : Reader) → s.reader ≡ r
    → ((v : List ℕ) → r ≢ done v)
    → Step s (record s { reader = next_access s.mem r })
unfolding next_access
next_access-Step {s} inv loading c out = elim (Bool-cases (s.mem.version % 2 == 1)) [
  | inl y ↦ rw y (subst (λ r. Step s (record s { reader = r })) c (load_odd c (ground arith)))
  | inr n ↦ rw n (load_even c (ground arith))
]
next_access-Step {first} {s} inv (copying before acc) c out =
    let r = subst (IsRead first s.history (ticks s.writer s.history) s.mem.value) c inv.read in
    elim (elem_cases s.mem.value (length acc) r.within) [
      | inr (w, g) ↦ rw (next_access, g) (fetch before acc w c g)
      | inl (l, g) ↦ elim (Bool-cases (s.mem.version == before)) [
        | inl y ↦ rw (next_access, g, y) (same_version before acc c l (ground arith))
        | inr n ↦ rw (next_access, g, n) (other_version before acc c l (λ e. ground arith))
      ]
    ]
next_access-Step inv (done v) c out = absurd (out v refl)
