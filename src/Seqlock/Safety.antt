-- ===== src/Seqlock/Safety.antt =====
-- No reader of a slot returns a mix of two values (engine/include/engine/ipc/snapshot_slot.hpp).
use real_time_paper_trading.Base.{ℕ, ◌^◌, ◌<◌, ◌≡◌, refl, subst, List, arith}
use real_time_paper_trading.Seqlock.{
  resting, copying, done, System, Step, begin, store, commit, load_odd, load_even, fetch,
  same_version, other_version, again, init, Reach, start, later,
}
use real_time_paper_trading.Seqlock.Invariant.{latest, ticks, WasWritten, IsRead, Inv}
use real_time_paper_trading.Seqlock.Preserve.{same_version_lem, Step-Inv, ticks-Step}

Inv-init : (first : List ℕ) → Inv first (init first)
Inv-init first = record {
  counted = refl;
  sized = refl;
  last_sized = refl;
  written = refl;
  read = tt;
}

-- The versions so far fit the counter.
abbrev pub IsCounted : System → Type 0
IsCounted s = ticks s.writer s.history < 2 ^ 32

pub Reach-Inv : {first : List ℕ} {s : System} → IsCounted s → Reach first s → Inv first s
Reach-Inv {first} b start = Inv-init first
Reach-Inv b (later {s} r st) =
    let before : IsCounted s = omega (arith, ticks-Step st) in
    Step-Inv before st (Reach-Inv before r)

-- What a `read` has returned is one of the values that were written, or the first one, whole: words
-- of different values are never mixed, in whatever order the accesses of the writer and of the reader
-- come, if there were fewer than 2 ^ 32 versions.
pub no_torn_read :
    {first : List ℕ} {s : System} (r : List ℕ)
    → IsCounted s
    → Reach first s
    → s.reader ≡ done r
    → WasWritten first s.history r
no_torn_read {first} {s} r b h e =
    subst (IsRead first s.history (ticks s.writer s.history) s.mem.value) e (Reach-Inv b h).read

-- The step by which a `read` returns finds no `write` in progress, and what it returns is the value of
-- the last `write` that has returned, if there were fewer than 2 ^ 32 versions.
pub read_returns_latest :
    {first : List ℕ} {s t : System} (before : ℕ) (acc r : List ℕ)
    → IsCounted s
    → Reach first s
    → Step s t
    → s.reader ≡ copying before acc
    → t.reader ≡ done r
    → (s.writer ≡ resting) × (r ≡ latest first s.history)
read_returns_latest before acc r b h (begin v e l) c d = cc
read_returns_latest before acc r b h (store v j w e g) c d = cc
read_returns_latest before acc r b h (commit v j e g) c d = cc
read_returns_latest before acc r b h (load_odd e o) c d = cc
read_returns_latest before acc r b h (load_even e o) c d = cc
read_returns_latest before acc r b h (fetch before' acc' w e g) c d = cc
read_returns_latest {first} {s} before acc r b h (same_version before' acc' e l v) c d =
    let (w, p) = same_version_lem first s before' acc' b e l v (Reach-Inv b h) in (w, cc)
read_returns_latest before acc r b h (other_version before' acc' e l v) c d = cc
read_returns_latest before acc r b h (again r' e) c d = cc
