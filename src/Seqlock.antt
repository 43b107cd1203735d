-- ===== src/Seqlock.antt =====
-- engine/include/engine/ipc/snapshot_slot.hpp: one writer and one reader of a `SeqlockSlot`, their
-- accesses interleaved in any order. A trivially copyable value is the list of its words, which both
-- sides copy one by one; an access is one atomic step, and the steps are sequentially consistent. The
-- reader's test of a version that it has loaded is part of the load.
pub mod Invariant
pub mod Preserve
pub mod Safety
pub mod Progress
mod Tests
use real_time_paper_trading.Base.{
  ℕ, suc, ◌+◌, ◌%◌, ◌^◌, ◌≡◌, ◌≢◌, Option, none, some, List, [], ◌∷◌, ◌++◌, length, get_elem?, set,
}

pub record Memory : Type 0 where
  pub version : ℕ
  pub value : List ℕ

-- Outside `write`, or inside it after its first `fetch_add`, with so many words copied.
pub data Writer : Type 0 where
  resting : Writer
  writing : List ℕ → ℕ → Writer

-- Before the load of `before`, in the copy with the words so far, or after the return.
pub data Reader : Type 0 where
  loading : Reader
  copying : ℕ → List ℕ → Reader
  done : List ℕ → Reader

-- `history` holds the values whose `write` has returned, the last one first. No step reads it.
pub record System : Type 0 where
  pub mem : Memory
  pub writer : Writer
  pub reader : Reader
  pub history : List (List ℕ)

-- `version_.fetch_add(1)`
unfoldable pub bump_version : Memory → Memory
bump_version m = record m { version = (m.version + 1) % 2 ^ 32 }

unfoldable pub store_word : ℕ → ℕ → Memory → Memory
store_word i w m = record m { value = set m.value i w }

pub data Step (s : System) : System → Type 0 where
  begin :
      (v : List ℕ)
      → s.writer ≡ resting
      → length v ≡ length s.mem.value
      → Step s (record s { mem = bump_version s.mem; writer = writing v 0 })
  store :
      (v : List ℕ) (i w : ℕ)
      → s.writer ≡ writing v i
      → get_elem? v i ≡ some w
      → Step s (record s { mem = store_word i w s.mem; writer = writing v (suc i) })
  commit :
      (v : List ℕ) (i : ℕ)
      → s.writer ≡ writing v i
      → i ≡ length v
      → Step s (record s { mem = bump_version s.mem; writer = resting; history = v ∷ s.history })
  load_odd : s.reader ≡ loading → s.mem.version % 2 ≡ 1 → Step s s
  load_even :
      s.reader ≡ loading
      → s.mem.version % 2 ≡ 0
      → Step s (record s { reader = copying s.mem.version [] })
  fetch :
      (before : ℕ) (acc : List ℕ) (w : ℕ)
      → s.reader ≡ copying before acc
      → get_elem? s.mem.value (length acc) ≡ some w
      → Step s (record s { reader = copying before (acc ++ (w ∷ [])) })
  same_version :
      (before : ℕ) (acc : List ℕ)
      → s.reader ≡ copying before acc
      → length acc ≡ length s.mem.value
      → s.mem.version ≡ before
      → Step s (record s { reader = done acc })
  other_version :
      (before : ℕ) (acc : List ℕ)
      → s.reader ≡ copying before acc
      → length acc ≡ length s.mem.value
      → s.mem.version ≢ before
      → Step s (record s { reader = loading })
  again : (r : List ℕ) → s.reader ≡ done r → Step s (record s { reader = loading })

-- After `reset`, with the value `T{}`.
abbrev pub init : List ℕ → System
init value = record {
  mem = record { version = 0; value = value };
  writer = resting;
  reader = loading;
  history = [];
}

pub data Reach (value : List ℕ) : System → Type 0 where
  start : Reach value (init value)
  later : {s t : System} → Reach value s → Step s t → Reach value t
