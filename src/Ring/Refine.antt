-- ===== src/Ring/Refine.antt =====
-- The ring buffer implements a queue of at most 4096 deltas that refuses what does not fit
-- (engine/include/engine/ipc/ring_buffer.hpp).
use real_time_paper_trading.Base.{
  ℕ, suc, ◌+◌, ◌-◌, ◌%◌, ◌^◌, ◌≤◌, ◌<◌, ◌≡◌, ◌≢◌, refl, ap, ap₂, ◌∙◌, inl, inr, Bool, true, false,
  Option, none, some, List, [], ◌∷◌, ◌++◌, arith, leb, ◌==◌, ==_iff, if◌then◌else◌, Bool-cases,
  length, length-set, get_elem?, set,
}
use real_time_paper_trading.Ring.{
  BookDelta, RingBuffer, ring_buffer_capacity, reset, try_push, try_pop,
}
use real_time_paper_trading.Ring.Window.{
  get_elem?-eq-get_or, window, length-window, window_mod, window-set,
}

-- The number of deltas in the buffer, as the code computes it.
abbrev pub count : RingBuffer → ℕ
count b = (b.write_index + 2 ^ 64 - b.read_index) % 2 ^ 64

pub record IsValid (b : RingBuffer) : Type 0 where
  pub full_length : length b.slots ≡ ring_buffer_capacity
  pub write_word : b.write_index < 2 ^ 64
  pub read_word : b.read_index < 2 ^ 64
  pub fits : count b ≤ ring_buffer_capacity

abbrev pub contents : RingBuffer → List BookDelta
contents b = window b.slots b.read_index (count b)

-- The queue that a client sees.
abbrev pub Queue : Type 0
Queue = List BookDelta

unfoldable pub queue_push : Queue → BookDelta → Queue × Bool
queue_push q x = if leb ring_buffer_capacity (length q) then (q, false) else (q ++ (x ∷ []), true)

unfoldable pub queue_pop : Queue → Queue × Option BookDelta
queue_pop [] = ([], none)
queue_pop (x ∷ q) = (q, some x)

pub reset-IsValid :
    (b : RingBuffer)
    → length b.slots ≡ ring_buffer_capacity
    → IsValid (reset b) × (contents (reset b) ≡ [])
unfolding reset window
reset-IsValid b l = (
  record { full_length = l; write_word = omega arith; read_word = omega arith; fits = omega arith },
  refl,
)

pub try_push-IsValid : (b : RingBuffer) (x : BookDelta) → IsValid b → IsValid (try_push b x).0
unfolding try_push
try_push-IsValid b x v = ground (arith, length-set b.slots (b.write_index % ring_buffer_capacity) x)

try_pop-IsValid : (b : RingBuffer) → IsValid b → IsValid (try_pop b).0
unfolding try_pop
try_pop-IsValid b v = ground arith

-- The slot that is written is the one behind the window.
write_slot :
    (w r : ℕ)
    → w < 2 ^ 64
    → r < 2 ^ 64
    → w % ring_buffer_capacity ≡ (r + (w + 2 ^ 64 - r) % 2 ^ 64) % ring_buffer_capacity
write_slot w r h k = omega arith

count_push :
    (w r : ℕ)
    → w < 2 ^ 64
    → r < 2 ^ 64
    → (w + 2 ^ 64 - r) % 2 ^ 64 < ring_buffer_capacity
    → ((w + 1) % 2 ^ 64 + 2 ^ 64 - r) % 2 ^ 64 ≡ suc ((w + 2 ^ 64 - r) % 2 ^ 64)
count_push w r h k l = omega arith

leb_false→lt : (a b : ℕ) → leb a b ≡ false → b < a
leb_false→lt a b h = ground arith

-- A push refuses a full buffer, and appends to any other.
pub try_push_refines :
    (b : RingBuffer) (x : BookDelta)
    → IsValid b
    → (contents (try_push b x).0, (try_push b x).1) ≡ queue_push (contents b) x
unfolding try_push queue_push
try_push_refines b x v =
    rw (length-window b.slots b.read_index (count b))
      (elim (Bool-cases (leb ring_buffer_capacity (count b))) [
        | inl f ↦ rw f
        | inr n ↦
            let room : count b < ring_buffer_capacity = leb_false→lt _ _ n in
            rw n (
              ap (λ q. (q, true))
                (ap (window (set b.slots (b.write_index % ring_buffer_capacity) x) b.read_index)
                    (count_push b.write_index b.read_index v.write_word v.read_word room)
                  ∙ window-set b.slots b.read_index (count b) (b.write_index % ring_buffer_capacity)
                      x v.full_length room
                      (write_slot b.write_index b.read_index v.write_word v.read_word)))
      ])

ne_of_test : (a b : ℕ) → (a == b) ≡ false → a ≢ b
ne_of_test a b h = ground arith

count_empty : (w r : ℕ) → w < 2 ^ 64 → r ≡ w → (w + 2 ^ 64 - r) % 2 ^ 64 ≡ 0
count_empty w r h e = omega arith

count_pop :
    (w r : ℕ)
    → w < 2 ^ 64
    → r < 2 ^ 64
    → r ≢ w
    → (w + 2 ^ 64 - r) % 2 ^ 64 ≡ suc ((w + 2 ^ 64 - (r + 1) % 2 ^ 64) % 2 ^ 64)
count_pop w r h k n = omega arith

-- A pop finds nothing in an empty buffer, and takes the oldest delta of any other.
pub try_pop_refines :
    (b : RingBuffer) → IsValid b → (contents (try_pop b).0, (try_pop b).1) ≡ queue_pop (contents b)
unfolding try_pop
try_pop_refines b v = elim (Bool-cases (b.read_index == b.write_index)) [
  | inl e ↦
      rw e (
        pop_empty (count b)
          (count_empty b.write_index b.read_index v.write_word ((==_iff _ _).0 e)))
  | inr n ↦ rw n (
      pop_some (count b) _
        (count_pop b.write_index b.read_index v.write_word v.read_word (ne_of_test _ _ n)))
]
  where
    pop_empty :
        (k : ℕ)
        → k ≡ 0
        → ◌≡◌ {A = Queue × Option BookDelta}
            (window b.slots b.read_index k, none)
            (queue_pop (window b.slots b.read_index k))
    pop_empty k e = rw e (unfold window queue_pop in refl)

    pop_some :
        (k m : ℕ)
        → k ≡ suc m
        → ◌≡◌ {A = Queue × Option BookDelta}
            (
              window b.slots ((b.read_index + 1) % 2 ^ 64) m,
              get_elem? b.slots (b.read_index % ring_buffer_capacity),
            )
            (queue_pop (window b.slots b.read_index k))
    pop_some k m e = rw e (
        unfold window queue_pop in
        ap₂ (λ q o. (q, o))
          (window_mod b.slots ((b.read_index + 1) % 2 ^ 64) (suc b.read_index) m (omega arith))
          (get_elem?-eq-get_or b.slots (b.read_index % ring_buffer_capacity)
            (omega (arith, v.full_length))))

-- A client's calls in order, and what they return.
pub data Op : Type 0 where
  push : BookDelta → Op
  pop : Op

abbrev pub Reply : Type 0
Reply = Bool × Option BookDelta

unfoldable pub run : RingBuffer → List Op → List Reply
run b [] = []
run b (push x ∷ ops) = let (b', done) = try_push b x in (done, none) ∷ run b' ops
run b (pop ∷ ops) = let (b', out) = try_pop b in (true, out) ∷ run b' ops

unfoldable pub queue_run : Queue → List Op → List Reply
queue_run q [] = []
queue_run q (push x ∷ ops) = let (q', done) = queue_push q x in (done, none) ∷ queue_run q' ops
queue_run q (pop ∷ ops) = let (q', out) = queue_pop q in (true, out) ∷ queue_run q' ops

-- No sequence of pushes and pops tells a valid buffer from the bounded queue of its contents,
-- also where the 64-bit indices wrap.
pub run_refines :
    (ops : List Op) (b : RingBuffer) → IsValid b → run b ops ≡ queue_run (contents b) ops
unfolding run queue_run
run_refines [] b v = refl
run_refines (push x ∷ ops) b v =
    rw (run_refines ops (try_push b x).0 (try_push-IsValid b x v), ← try_push_refines b x v)
run_refines (pop ∷ ops) b v =
    rw (run_refines ops (try_pop b).0 (try_pop-IsValid b v), ← try_pop_refines b v)
