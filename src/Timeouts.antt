-- ===== src/Timeouts.antt =====
-- engine/include/engine/market_data/idle_timeout_watchdog.hpp and sync_timeout_guard.hpp: a thread
-- that closes a socket after a time. The thread holds the mutex from each wake to its next wait, so a
-- wake with its tests is one step, and so is each block of the owner; the clock may advance between
-- them. A wake is a notification, the end of the wait or spurious: the code does not tell them apart.
pub mod Idle
mod Tests
use real_time_paper_trading.Base.{ℕ, ◌+◌, Bool, true, false, ◌≡◌, leb, if◌then◌else◌}

pub data Phase : Type 0 where
  unstarted waiting ended : Phase

-- `reset` is the time of the last `kick` or of the start of the wait. No step reads it.
pub record Watchdog : Type 0 where
  pub now : ℕ
  pub deadline : ℕ
  pub done : Bool
  pub phase : Phase
  pub closed : Bool
  pub reset : ℕ

-- The rest of the loop after a wait, by the two tests.
unfoldable pub woken_when : Bool → Bool → Watchdog → Watchdog
woken_when true late w = record w { phase = ended }
woken_when false true w = record w { closed = true; phase = ended }
woken_when false false w = w

unfoldable pub woken : Watchdog → Watchdog
woken w = woken_when w.done (leb w.deadline w.now) w

-- `run` up to its first wait.
unfoldable pub started : ℕ → Watchdog → Watchdog
started timeout w = record w {
  deadline = w.now + timeout;
  reset = w.now;
  phase = if w.done then ended else waiting;
}

unfoldable pub kick : ℕ → Watchdog → Watchdog
kick timeout w = record w { deadline = w.now + timeout; reset = w.now }

-- The block of the destructor.
unfoldable pub finish : Watchdog → Watchdog
finish w = record w { done = true }

-- An `IdleTimeoutWatchdog` with this timeout.
pub data Step (timeout : ℕ) (w : Watchdog) : Watchdog → Type 0 where
  tick : (d : ℕ) → Step timeout w (record w { now = w.now + d })
  begin : w.phase ≡ unstarted → Step timeout w (started timeout w)
  wake : w.phase ≡ waiting → Step timeout w (woken w)
  kicked : w.done ≡ false → Step timeout w (kick timeout w)
  finished : Step timeout w (finish w)

-- A `SyncTimeoutGuard`: `wait_for` tests `done_` before it waits and after each wake, and is over
-- once the timeout has passed.
pub data GuardStep (timeout : ℕ) (w : Watchdog) : Watchdog → Type 0 where
  tick : (d : ℕ) → GuardStep timeout w (record w { now = w.now + d })
  begin : w.phase ≡ unstarted → GuardStep timeout w (started timeout w)
  wake : w.phase ≡ waiting → GuardStep timeout w (woken w)
  finished : GuardStep timeout w (finish w)

abbrev pub constructed : ℕ → Watchdog
constructed now = record {
  now = now;
  deadline = 0;
  done = false;
  phase = unstarted;
  closed = false;
  reset = now;
}

pub data Reach (timeout : ℕ) : Watchdog → Type 0 where
  start : (now : ℕ) → Reach timeout (constructed now)
  later : {w v : Watchdog} → Reach timeout w → Step timeout w v → Reach timeout v

pub data GuardReach (timeout : ℕ) : Watchdog → Type 0 where
  start : (now : ℕ) → GuardReach timeout (constructed now)
  later : {w v : Watchdog} → GuardReach timeout w → GuardStep timeout w v → GuardReach timeout v
