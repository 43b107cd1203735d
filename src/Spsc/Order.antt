-- ===== src/Spsc/Order.antt =====
-- The two threads see a queue (engine/include/engine/ipc/ring_buffer.hpp).
use real_time_paper_trading.Base.{
  ℕ, ◌+◌, ◌%◌, ◌≤◌, ◌<◌, ◌≡◌, refl, sym, ap, ◌∙◌, some, List, [], ◌∷◌, length, length-append,
  get_elem?, take, arith,
}
use real_time_paper_trading.Ring.{BookDelta}
use real_time_paper_trading.Spsc.{
  Producer, Consumer, writing, stored, System, store_slot, Push, drop, write, finish, publish, Pop,
  empty, copy, advance, Reach, start, push, pop,
}
use real_time_paper_trading.Spsc.Elements.{get_elem?-set_same}
use real_time_paper_trading.Spsc.Invariant.{
  IsCounted, Inv, with_producer, with_consumer, with_slot, not_full, producer_at, consumer_at,
  publish-Inv, advance-Inv,
}

finish-slot :
    {s : System} (item : BookDelta) (w : ℕ)
    → Inv s
    → get_elem? (store_slot w item s.ring).slots (w % 4096) ≡ some item
unfolding store_slot
finish-slot {s} item w i =
    get_elem?-set_same s.ring.slots (w % 4096) item (omega (arith, i.full_length))

Push-Inv : {s t : System} → IsCounted t → Inv s → Push s t → Inv t
Push-Inv b i (Push.begin item e) = with_producer _ i i.write_at
Push-Inv b i (Push.compare item w e) = with_producer _ i (producer_at i e, omega (arith, i.read_at))
Push-Inv b i (drop item w r e f) =
    let j = with_producer Producer.resting i tt in
    record {
      bounded = j.bounded;
      fits = j.fits;
      write_at = j.write_at;
      read_at = j.read_at;
      full_length = j.full_length;
      held = j.held;
      in_order = j.in_order;
      producer = tt;
      consumer = j.consumer;
    }
Push-Inv {s} b i (Push.clear item w r e f) =
    let at = producer_at i e in
    with_producer _ i
      (at.0, not_full (length s.pushed) (length s.popped) w r at.0 b i.bounded at.1 f)
Push-Inv b i (write item torn w e) =
    let at = producer_at i e in with_slot w torn (writing item w) i at.0 at.1 at
Push-Inv b i (finish item w e) =
    let at = producer_at i e in
    with_slot w item (stored item w) i at.0 at.1 (at.0, at.1, finish-slot item w i)
Push-Inv {s} b i (publish item w e) =
    publish-Inv item w i e (omega (arith, length-append s.pushed (item ∷ []), b))

Pop-Inv : {s t : System} → IsCounted t → Inv s → Pop s t → Inv t
Pop-Inv b i (Pop.begin e) = with_consumer _ i i.read_at
Pop-Inv b i (Pop.compare r e) =
    with_consumer _ i
      (consumer_at i e, omega (arith, i.write_at, i.bounded), omega (arith, i.write_at))
Pop-Inv b i (empty r w e f) = with_consumer Consumer.resting i tt
Pop-Inv b i (Pop.clear r w e f) =
    let at = consumer_at i e in with_consumer _ i (at.0, ground (arith, at.0, at.1, at.2, f))
Pop-Inv {s} b i (copy r out e g) =
    let at = consumer_at i e in
    with_consumer _ i (
      at.0,
      at.1,
      sym (i.held (length s.popped) (omega arith) at.1)
          ∙ ap (λ n. get_elem? s.ring.slots (n % 4096)) (sym at.0)
          ∙ g,
    )
Pop-Inv b i (advance r out e) = advance-Inv r out i e b

-- A step only adds to what was pushed.
Push-IsCounted : {s t : System} → IsCounted t → Push s t → IsCounted s
Push-IsCounted b (Push.begin item e) = b
Push-IsCounted b (Push.compare item w e) = b
Push-IsCounted b (drop item w r e f) = b
Push-IsCounted b (Push.clear item w r e f) = b
Push-IsCounted b (write item torn w e) = b
Push-IsCounted b (finish item w e) = b
Push-IsCounted {s} b (publish item w e) = omega (arith, length-append s.pushed (item ∷ []), b)

Pop-IsCounted : {s t : System} → IsCounted t → Pop s t → IsCounted s
Pop-IsCounted b (Pop.begin e) = b
Pop-IsCounted b (Pop.compare r e) = b
Pop-IsCounted b (empty r w e f) = b
Pop-IsCounted b (Pop.clear r w e f) = b
Pop-IsCounted b (copy r out e g) = b
Pop-IsCounted b (advance r out e) = b

Reach-Inv :
    {slots : List BookDelta} {s : System}
    → length slots ≡ 4096
    → IsCounted s
    → Reach slots s
    → Inv s
Reach-Inv l b start = record {
  bounded = omega arith;
  fits = omega arith;
  write_at = refl;
  read_at = refl;
  full_length = l;
  held = λ j h k. absurd (omega arith);
  in_order = refl;
  producer = tt;
  consumer = tt;
}
Reach-Inv l b (push r m) = Push-Inv b (Reach-Inv l (Push-IsCounted b m) r) m
Reach-Inv l b (pop r m) = Pop-Inv b (Reach-Inv l (Pop-IsCounted b m) r) m

-- The elements that went out are the first that went in, and the slot that is being read holds the next
-- one.
pub record IsQueue (s : System) : Type 0 where
  pub in_order : s.popped ≡ take (length s.popped) s.pushed
  pub bounded : length s.popped ≤ length s.pushed
  pub fits : length s.pushed ≤ length s.popped + 4096
  pub unspoilt :
      (r : ℕ)
      → s.consumer ≡ Consumer.cleared r
      → (length s.popped < length s.pushed)
        × (get_elem? s.ring.slots (r % 4096) ≡ get_elem? s.pushed (length s.popped))

-- In every interleaving of a thread that pushes and one that pops, the elements that are popped are
-- those that were pushed, in their order, none lost or doubled, and at most 4096 are queued; while an
-- element is read its slot holds it, whatever the other thread writes. The ring has 4096 slots, and
-- fewer than 2 ^ 64 elements were pushed.
pub queue_lem :
    {slots : List BookDelta} {s : System}
    → length slots ≡ 4096
    → IsCounted s
    → Reach slots s
    → IsQueue s
queue_lem {s} l b h =
    let i = Reach-Inv l b h in
    record {
      in_order = i.in_order;
      bounded = i.bounded;
      fits = i.fits;
      unspoilt = λ r e.
          let at = consumer_at i e in
          (
            at.1,
            ap (λ n. get_elem? s.ring.slots (n % 4096)) at.0
                ∙ i.held (length s.popped) (omega arith) at.1,
          );
    }
