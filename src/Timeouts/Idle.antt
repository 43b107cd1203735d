-- ===== src/Timeouts/Idle.antt =====
-- When a watchdog or a guard closes its socket (engine/include/engine/market_data/
-- idle_timeout_watchdog.hpp and sync_timeout_guard.hpp).
use real_time_paper_trading.Base.{
  ℕ, ◌+◌, ◌≤◌, Bool, true, false, ◌≡◌, ◌≢◌, refl, leb, leb→le, inl, inr, ◌⊎◌, ◌↔◌, arith,
}
use real_time_paper_trading.Timeouts.{
  unstarted, waiting, ended, Watchdog, woken, started, kick, finish, woken_when, kicked, Step,
  GuardStep, constructed, Reach, GuardReach,
}

record Inv (timeout : ℕ) (w : Watchdog) : Type 0 where
  unclosed : w.phase ≢ ended → w.closed ≡ false
  waits : w.phase ≡ waiting → w.deadline ≡ w.reset + timeout
  past : w.reset ≤ w.now

constructed-Inv : (timeout now : ℕ) → Inv timeout (constructed now)
constructed-Inv timeout now = record { unclosed = λ h. refl; waits = λ p. cc; past = omega arith }

tick-Inv :
    (timeout d : ℕ) (w : Watchdog) → Inv timeout w → Inv timeout (record w { now = w.now + d })
tick-Inv timeout d w i = record {
  unclosed = i.unclosed;
  waits = i.waits;
  past = omega (arith, i.past);
}

started-Inv :
    (timeout : ℕ) (w : Watchdog)
    → Inv timeout w
    → w.phase ≡ unstarted
    → Inv timeout (started timeout w)
unfolding started
started-Inv timeout w i p = record {
  unclosed = λ h. i.unclosed (λ e. cc);
  waits = λ e. refl;
  past = omega arith;
}

woken_when-Inv :
    (timeout : ℕ) (done late : Bool) (w : Watchdog)
    → Inv timeout w
    → Inv timeout (woken_when done late w)
unfolding woken_when
woken_when-Inv timeout true late w i = record {
  unclosed = λ h. absurd (h refl);
  waits = λ p. cc;
  past = i.past;
}
woken_when-Inv timeout false true w i = record {
  unclosed = λ h. absurd (h refl);
  waits = λ p. cc;
  past = i.past;
}
woken_when-Inv timeout false false w i = i

kick-Inv : (timeout : ℕ) (w : Watchdog) → Inv timeout w → Inv timeout (kick timeout w)
unfolding kick
kick-Inv timeout w i = record { unclosed = i.unclosed; waits = λ e. refl; past = omega arith }

finish-Inv : (timeout : ℕ) (w : Watchdog) → Inv timeout w → Inv timeout (finish w)
unfolding finish
finish-Inv timeout w i = record { unclosed = i.unclosed; waits = i.waits; past = i.past }

Step-Inv : (timeout : ℕ) {w v : Watchdog} → Inv timeout w → Step timeout w v → Inv timeout v
Step-Inv timeout {w} i (Step.tick d) = tick-Inv timeout d w i
Step-Inv timeout {w} i (Step.begin p) = started-Inv timeout w i p
Step-Inv timeout {w} i (Step.wake p) =
    unfold woken in woken_when-Inv timeout w.done (leb w.deadline w.now) w i
Step-Inv timeout {w} i (kicked n) = kick-Inv timeout w i
Step-Inv timeout {w} i Step.finished = finish-Inv timeout w i

Reach-Inv : (timeout : ℕ) {w : Watchdog} → Reach timeout w → Inv timeout w
Reach-Inv timeout (Reach.start now) = constructed-Inv timeout now
Reach-Inv timeout (Reach.later r m) = Step-Inv timeout (Reach-Inv timeout r) m

-- A guard is a watchdog that nobody kicks.
Step-GuardStep : (timeout : ℕ) {w v : Watchdog} → GuardStep timeout w v → Step timeout w v
Step-GuardStep timeout (GuardStep.tick d) = Step.tick d
Step-GuardStep timeout (GuardStep.begin p) = Step.begin p
Step-GuardStep timeout (GuardStep.wake p) = Step.wake p
Step-GuardStep timeout GuardStep.finished = Step.finished

pub guard-Reach : (timeout : ℕ) {w : Watchdog} → GuardReach timeout w → Reach timeout w
guard-Reach timeout (GuardReach.start now) = Reach.start now
guard-Reach timeout (GuardReach.later r m) =
    Reach.later (guard-Reach timeout r) (Step-GuardStep timeout m)

-- The clock is at or past the timeout after the last reset, and the owner has not destroyed it.
pub IsIdle : ℕ → Watchdog → Type 0
IsIdle timeout w = (w.reset + timeout ≤ w.now) × (w.done ≡ false)

woken_when_idle :
    (done late : Bool) (w : Watchdog)
    → w.closed ≡ false
    → (woken_when done late w).closed ≡ true
    → (done ≡ false) × (late ≡ true)
unfolding woken_when
woken_when_idle true late w c h = absurd (cc)
woken_when_idle false true w c h = (refl, refl)
woken_when_idle false false w c h = absurd (cc)

woken-IsIdle :
    (timeout : ℕ) (w : Watchdog)
    → Inv timeout w
    → w.phase ≡ waiting
    → (woken w).closed ≡ true
    → IsIdle timeout w
unfolding woken IsIdle
woken-IsIdle timeout w i p h =
    let open_ = i.unclosed (λ e. cc) in
    let (d, l) = woken_when_idle w.done (leb w.deadline w.now) w open_ h in
    (omega (arith, leb→le w.deadline w.now l, i.waits p), d)

closed_of_idle :
    (timeout : ℕ) (w : Watchdog)
    → Inv timeout w
    → w.phase ≡ waiting
    → IsIdle timeout w
    → (woken w).closed ≡ true
unfolding woken woken_when IsIdle
closed_of_idle timeout w i p h =
    let d = i.waits p in
    let l : leb w.deadline w.now ≡ true = ground (arith, d, h.0) in rw (h.1, l) refl

-- In every interleaving, the waiting thread of a watchdog or of a guard, woken by whatever cause,
-- closes the socket exactly where the timeout has passed since the last `kick` or the start of the
-- wait, and the destructor has not begun.
pub wake_closes :
    {timeout : ℕ} {w : Watchdog}
    → Reach timeout w ⊎ GuardReach timeout w
    → w.phase ≡ waiting
    → ((woken w).closed ≡ true) ↔ ((w.reset + timeout ≤ w.now) × (w.done ≡ false))
unfolding IsIdle
wake_closes {timeout} {w} r p =
    let i = Reach-Inv timeout (either-Reach r) in
    (woken-IsIdle timeout w i p, closed_of_idle timeout w i p)
  where
    either-Reach : {t : ℕ} {v : Watchdog} → Reach t v ⊎ GuardReach t v → Reach t v
    either-Reach (inl s) = s
    either-Reach {t} (inr s) = guard-Reach t s
