-- ===== src/Ring/Tests.antt =====
-- Instances of the laws of the ring buffer, at indices that are about to wrap.
use real_time_paper_trading.Base.{
  ◌-◌, ◌^◌, ◌≡◌, none, some, [], ◌∷◌, true, arith, length-replicate, replicate,
}
use real_time_paper_trading.Ring.{BookDelta, RingBuffer, ring_buffer_capacity}
use real_time_paper_trading.Ring.Window.{blank, window}
use real_time_paper_trading.Ring.Refine.{
  IsValid, push, pop, run, run_refines, queue_run, queue_push, queue_pop,
}

-- Both indices at the last word.
abbrev late : RingBuffer
late = record {
  write_index = 2 ^ 64 - 1;
  read_index = 2 ^ 64 - 1;
  dropped_count = 0;
  slots = replicate ring_buffer_capacity blank;
}

abbrev second : BookDelta
second = record blank { seq = 2 }

late-IsValid : IsValid late
late-IsValid = record {
  full_length = length-replicate ring_buffer_capacity blank;
  write_word = omega arith;
  read_word = omega arith;
  fits = omega arith;
}

run_refines_example :
    run late (push second ∷ pop ∷ pop ∷ []) ≡ (true, none) ∷ (true, some second) ∷ (true, none) ∷ []
unfolding queue_run queue_push queue_pop window
run_refines_example = run_refines (push second ∷ pop ∷ pop ∷ []) late late-IsValid
