-- ===== src/Seqlock/Tests.antt =====
-- Instances of the laws of the slot: a run of one writer and one reader.
use real_time_paper_trading.Base.{ℕ, ◌+◌, ◌*◌, ◌≤◌, ◌≡◌, refl, List, [], ◌∷◌, length, arith}
use real_time_paper_trading.Seqlock.{
  bump_version, store_word, resting, loading, copying, done, System, Step, begin, store, commit,
  load_even, fetch, same_version, Reach, start, later,
}
use real_time_paper_trading.Seqlock.Invariant.{latest, WasWritten}
use real_time_paper_trading.Seqlock.Safety.{no_torn_read, read_returns_latest}
use real_time_paper_trading.Seqlock.Progress.{accesses, read_returns}

abbrev old : List ℕ
old = 0 ∷ 0 ∷ []

abbrev new : List ℕ
new = 7 ∷ 8 ∷ []

-- The state after one `write`, with the reader in the state given.
abbrev written : System
written = record {
  mem = record { version = 2; value = new };
  writer = resting;
  reader = loading;
  history = new ∷ [];
}

written-Reach : Reach old written
unfolding bump_version store_word
written-Reach =
    later
      (later (later (later start (begin new refl refl)) (store new 0 7 refl refl))
        (store new 1 8 refl refl))
      (commit new 2 refl refl)

abbrev copied : System
copied = record written { reader = copying 2 new }

copied-Reach : Reach old copied
copied-Reach =
    later (later (later written-Reach (load_even refl refl)) (fetch 2 [] 7 refl refl))
      (fetch 2 (7 ∷ []) 8 refl refl)

abbrev returned : System
returned = record written { reader = done new }

returning : Step copied returned
returning = same_version 2 new refl refl refl

no_torn_read_example : WasWritten old (new ∷ []) new
no_torn_read_example =
    no_torn_read {s = returned} new (omega arith) (later copied-Reach returning) refl

read_returns_latest_example : (returned.writer ≡ resting) × (new ≡ latest old (new ∷ []))
read_returns_latest_example =
    read_returns_latest {s = copied} {t = returned} 2 new new (omega arith) copied-Reach returning
      refl refl

read_returns_example :
    (n : ℕ) × (n ≤ 2 * length new + 3) × (accesses n written.mem loading ≡ done new)
read_returns_example = read_returns {s = written} (omega arith) written-Reach refl (λ v. cc)
