-- ===== src/Timeouts/Tests.antt =====
-- Instances of the laws of the timeouts.
use real_time_paper_trading.Base.{◌+◌, ◌≤◌, ◌≡◌, refl, false, true, inl, ◌↔◌}
use real_time_paper_trading.Timeouts.{waiting, Watchdog, woken, started, kick, kicked, Step, Reach}
use real_time_paper_trading.Timeouts.Idle.{wake_closes}

-- Started at 5, kicked at 45, and at 105 not kicked again.
abbrev idle : Watchdog
idle = record {
  now = 105;
  deadline = 105;
  done = false;
  phase = waiting;
  closed = false;
  reset = 45;
}

idle-Reach : Reach 60 idle
unfolding started kick
idle-Reach =
    Reach.later
      (Reach.later (Reach.later (Reach.later (Reach.start 5) (Step.begin refl)) (Step.tick 40))
        (kicked refl))
      (Step.tick 60)

wake_closes_example :
    ((woken idle).closed ≡ true) ↔ ((idle.reset + 60 ≤ idle.now) × (idle.done ≡ false))
wake_closes_example = wake_closes (inl idle-Reach) refl
