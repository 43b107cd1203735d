-- ===== src/Seqlock/Preserve.antt =====
-- Every step keeps the invariant (engine/include/engine/ipc/snapshot_slot.hpp).
use real_time_paper_trading.Base.{
  ℕ, suc, ◌+◌, ◌*◌, ◌%◌, ◌^◌, ◌≤◌, ◌<◌, ◌≡◌, refl, sym, ap, subst, ◌∙◌, some, List, [], ◌∷◌, ◌++◌,
  length, length-append, length-set, get_elem?, set, take, drop, take_all, arith,
}
use real_time_paper_trading.Seqlock.{
  Writer, resting, writing, loading, copying, done, System, Step, begin, store, commit, load_odd,
  load_even, fetch, same_version, other_version, again, bump_version, store_word,
}
use real_time_paper_trading.Seqlock.Invariant.{
  latest, ticks, IsWritten, WasWritten, IsRead, Inv, WasWritten-latest, IsRead-moved, IsRead-more,
  set-mix, get_elem?-bounded, mix_done, take-snoc,
}

Inv-begin :
    (first : List ℕ) (s : System) (v : List ℕ)
    → s.writer ≡ resting
    → length v ≡ length s.mem.value
    → Inv first s
    → Inv first (record s { mem = bump_version s.mem; writer = writing v 0 })
unfolding bump_version
Inv-begin first s v e l i =
    let w : IsWritten (latest first s.history) resting s.mem.value =
      subst (λ x. IsWritten (latest first s.history) x s.mem.value) e i.written in
    let c : s.mem.version ≡ 2 * length s.history % 2 ^ 32 =
      i.counted ∙ ap (λ x. ticks x s.history % 2 ^ 32) e in
    let r : IsRead first s.history (2 * length s.history) s.mem.value s.reader =
      subst (λ x. IsRead first s.history (ticks x s.history) s.mem.value s.reader) e i.read in
    record {
      counted = omega arith;
      sized = i.sized;
      last_sized = i.last_sized;
      written = (l ∙ ap length w, omega arith, w);
      read =
          IsRead-moved first s.history (2 * length s.history) (2 * length s.history + 1) s.mem.value
            s.mem.value s.reader (omega arith) (λ k p q. omega arith) refl r;
    }

Inv-store :
    (first : List ℕ) (s : System) (v : List ℕ) (i w : ℕ)
    → s.writer ≡ writing v i
    → get_elem? v i ≡ some w
    → Inv first s
    → Inv first (record s { mem = store_word i w s.mem; writer = writing v (suc i) })
unfolding store_word
Inv-store first s v i w e g inv =
    let (l, b, m) = subst (λ x. IsWritten (latest first s.history) x s.mem.value) e inv.written in
    let c = inv.counted ∙ ap (λ x. ticks x s.history % 2 ^ 32) e in
    let r =
      subst (λ x. IsRead first s.history (ticks x s.history) s.mem.value s.reader) e inv.read in
    record {
      counted = c;
      sized = length-set s.mem.value i w ∙ inv.sized;
      last_sized = inv.last_sized;
      written = (
        l,
        get_elem?-bounded v i w g,
        ap (λ x. set x i w) m ∙ set-mix v (latest first s.history) i w l g,
      );
      read =
          IsRead-moved first s.history (2 * length s.history + 1) (2 * length s.history + 1)
            s.mem.value (set s.mem.value i w) s.reader (omega arith) (λ k p q. omega arith)
            (length-set s.mem.value i w) r;
    }

Inv-commit :
    (first : List ℕ) (s : System) (v : List ℕ) (i : ℕ)
    → s.writer ≡ writing v i
    → i ≡ length v
    → Inv first s
    → Inv first (record s { mem = bump_version s.mem; writer = resting; history = v ∷ s.history })
unfolding bump_version
Inv-commit first s v i e g inv =
    let (l, b, m) = subst (λ x. IsWritten (latest first s.history) x s.mem.value) e inv.written in
    let c = inv.counted ∙ ap (λ x. ticks x s.history % 2 ^ 32) e in
    let r =
      subst (λ x. IsRead first s.history (ticks x s.history) s.mem.value s.reader) e inv.read in
    record {
      counted = omega arith;
      sized = inv.sized;
      last_sized = l ∙ inv.last_sized;
      written =
          m
          ∙ ap (λ j. take j v ++ drop j (latest first s.history)) g
          ∙ mix_done v (latest first s.history) l;
      read = IsRead-more first v s.history _ s.mem.value s.reader (
          IsRead-moved first s.history (2 * length s.history + 1) (2 * length (v ∷ s.history))
            s.mem.value s.mem.value s.reader (omega arith) (λ k p q. omega arith) refl r);
    }

-- An even version: no write is in progress.
even-resting :
    (w : Writer) (h : List (List ℕ)) → ticks w h % 2 ^ 32 % 2 ≡ 0 → ticks w h ≡ 2 * length h
even-resting resting h e = refl
even-resting (writing v i) h e = absurd (omega arith)

Inv-load_even :
    (first : List ℕ) (s : System)
    → s.mem.version % 2 ≡ 0
    → Inv first s
    → Inv first (record s { reader = copying s.mem.version [] })
Inv-load_even first s e inv =
    let t : ticks s.writer s.history ≡ 2 * length s.history =
      even-resting s.writer s.history (ap (λ x. x % 2) (sym inv.counted) ∙ e) in
    record {
      counted = inv.counted;
      sized = inv.sized;
      last_sized = inv.last_sized;
      written = inv.written;
      read = record {
        writes = length s.history;
        loaded = inv.counted ∙ ap (λ x. x % 2 ^ 32) t;
        past = omega arith;
        within = omega arith;
        fresh = λ p. refl;
      };
    }

Inv-fetch :
    (first : List ℕ) (s : System) (before : ℕ) (acc : List ℕ) (w : ℕ)
    → s.reader ≡ copying before acc
    → get_elem? s.mem.value (length acc) ≡ some w
    → Inv first s
    → Inv first (record s { reader = copying before (acc ++ (w ∷ [])) })
Inv-fetch first s before acc w e g inv =
    let r = subst (IsRead first s.history (ticks s.writer s.history) s.mem.value) e inv.read in
    let n : length (acc ++ (w ∷ [])) ≡ suc (length acc) =
      omega (arith, length-append acc (w ∷ [])) in
    record {
      counted = inv.counted;
      sized = inv.sized;
      last_sized = inv.last_sized;
      written = inv.written;
      read = record {
        writes = r.writes;
        loaded = r.loaded;
        past = r.past;
        within = omega (arith, n, get_elem?-bounded s.mem.value (length acc) w g);
        fresh = λ p.
            ap (λ a. a ++ (w ∷ [])) (r.fresh p)
            ∙ take-snoc s.mem.value (length acc) w g
            ∙ ap (λ j. take j s.mem.value) (sym n);
      };
    }

resting_value :
    (w : Writer) (h : List (List ℕ)) (last value : List ℕ) (k : ℕ)
    → IsWritten last w value
    → ticks w h ≡ 2 * k
    → (w ≡ resting) × (value ≡ last)
resting_value resting h last value k i e = (refl, i)
resting_value (writing v j) h last value k i e = absurd (omega arith)

-- A read whose two loads of the version agree returns the value of the last `write`, and no `write`
-- is in progress.
pub same_version_lem :
    (first : List ℕ) (s : System) (before : ℕ) (acc : List ℕ)
    → ticks s.writer s.history < 2 ^ 32
    → s.reader ≡ copying before acc
    → length acc ≡ length s.mem.value
    → s.mem.version ≡ before
    → Inv first s
    → (s.writer ≡ resting) × (acc ≡ latest first s.history)
same_version_lem first s before acc b e l d inv =
    let r = subst (IsRead first s.history (ticks s.writer s.history) s.mem.value) e inv.read in
    let t : ticks s.writer s.history ≡ 2 * r.writes =
      omega (arith, r.loaded, r.past, inv.counted) in
    let (w, v) =
      resting_value s.writer s.history (latest first s.history) s.mem.value r.writes inv.written
        t in
    (w, r.fresh t ∙ take_all (length acc) s.mem.value (omega arith) ∙ v)

Inv-done :
    (first : List ℕ) (s : System) (acc : List ℕ)
    → acc ≡ latest first s.history
    → Inv first s
    → Inv first (record s { reader = done acc })
Inv-done first s acc e inv = record {
  counted = inv.counted;
  sized = inv.sized;
  last_sized = inv.last_sized;
  written = inv.written;
  read = subst (WasWritten first s.history) (sym e) (WasWritten-latest first s.history);
}

Inv-loading :
    (first : List ℕ) (s : System) → Inv first s → Inv first (record s { reader = loading })
Inv-loading first s inv = record {
  counted = inv.counted;
  sized = inv.sized;
  last_sized = inv.last_sized;
  written = inv.written;
  read = tt;
}

pub Step-Inv :
    {first : List ℕ} {s t : System}
    → ticks s.writer s.history < 2 ^ 32
    → Step s t
    → Inv first s
    → Inv first t
Step-Inv {first} {s} b (begin v e l) i = Inv-begin first s v e l i
Step-Inv {first} {s} b (store v j w e g) i = Inv-store first s v j w e g i
Step-Inv {first} {s} b (commit v j e g) i = Inv-commit first s v j e g i
Step-Inv b (load_odd e o) i = i
Step-Inv {first} {s} b (load_even e o) i = Inv-load_even first s o i
Step-Inv {first} {s} b (fetch before acc w e g) i = Inv-fetch first s before acc w e g i
Step-Inv {first} {s} b (same_version before acc e l d) i =
    Inv-done first s acc (same_version_lem first s before acc b e l d i).1 i
Step-Inv {first} {s} b (other_version before acc e l d) i = Inv-loading first s i
Step-Inv {first} {s} b (again r e) i = Inv-loading first s i

pub ticks-Step : {s t : System} → Step s t → ticks s.writer s.history ≤ ticks t.writer t.history
ticks-Step {s} (begin v e l) = omega (arith, ap (λ w. ticks w s.history) e)
ticks-Step {s} (store v j w e g) = omega (arith, ap (λ w. ticks w s.history) e)
ticks-Step {s} (commit v j e g) = omega (arith, ap (λ w. ticks w s.history) e)
ticks-Step (load_odd e o) = omega arith
ticks-Step (load_even e o) = omega arith
ticks-Step (fetch before acc w e g) = omega arith
ticks-Step (same_version before acc e l d) = omega arith
ticks-Step (other_version before acc e l d) = omega arith
ticks-Step (again r e) = omega arith
