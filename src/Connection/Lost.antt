-- ===== src/Connection/Lost.antt =====
-- A notification of `stop` that no thread receives (engine/src/market_data/kraken_book_client.cpp).
use real_time_paper_trading.Base.{ℕ, zero, suc, ◌*◌, ◌^◌, ◌≡◌, refl, subst, false, min, Text, arith}
use real_time_paper_trading.Client.{Client, next_backoff}
use real_time_paper_trading.Parser.{Simdjson}
use real_time_paper_trading.Connection.{
  asleep, at_sleep, returned, System, in_resolve, woken_at, request, notify, close, enter, thrown,
  waits, untold, sleep, time_out, doubled, init, Reach, start, move, stop,
}

-- A thread that sleeps through a wait of so many milliseconds although `stop` has returned.
pub record SleepsOn (wait : ℕ) (s : System) : Type 0 where
  pub stopped : s.stopper ≡ returned
  pub sleeping : s.point ≡ asleep
  pub unnoticed : s.woken ≡ false
  pub waiting : s.backoff ≡ wait

-- Before a round, where no connection was made yet.
abbrev failing : Client → ℕ → System
failing c b = record (init c) { backoff = b }

abbrev failed_wait : ℕ → ℕ
failed_wait k = min (500 * 2 ^ k) 32000

next_failed : (k : ℕ) → next_backoff (failed_wait k) ≡ failed_wait (suc k)
unfolding next_backoff
next_failed k = grind arith

module _ {Value : Type 0} (json : Simdjson Value) (crc32 : Text → ℕ) where
  -- A round in which the name is not resolved, up to the test of the flag.
  before_sleep :
      {c : Client} (b : ℕ)
      → Reach json crc32 c (failing c b)
      → Reach json crc32 c (record (failing c b) { point = at_sleep })
  before_sleep b r =
      move (move (move (move r (enter refl refl)) (thrown in_resolve)) (waits refl refl))
        (untold refl refl)

  next_round :
      {c : Client} (b : ℕ)
      → Reach json crc32 c (failing c b)
      → Reach json crc32 c (failing c (next_backoff b))
  next_round b r = move (move (move (before_sleep b r) (sleep refl)) (time_out refl)) (doubled refl)

  rounds : (c : Client) (k : ℕ) → Reach json crc32 c (failing c (failed_wait k))
  rounds c zero = start
  rounds c (suc k) =
      subst (λ b. Reach json crc32 c (failing c b)) (next_failed k)
        (next_round (failed_wait k) (rounds c k))

  -- The notification of `stop` can be lost: for every client and every number `k` of rounds that have
  -- failed there is an interleaving after which `stop` has returned and the thread of `run` sleeps, not
  -- woken, through its whole wait of 500 · 2 ^ k milliseconds, 32000 at most.
  pub stop_lost :
      (c : Client) (k : ℕ)
      → (s : System) × Reach json crc32 c s × SleepsOn (min (500 * 2 ^ k) 32000) s
  unfolding woken_at
  stop_lost c k = (
    _,
    move
        (stop (stop (stop (before_sleep (failed_wait k) (rounds c k)) (request refl)) (notify refl))
          (close refl))
        (sleep refl),
    record { stopped = refl; sleeping = refl; unnoticed = refl; waiting = refl },
  )
