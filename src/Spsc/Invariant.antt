-- ===== src/Spsc/Invariant.antt =====
-- What holds in every interleaving of the two threads (engine/include/engine/ipc/ring_buffer.hpp).
use real_time_paper_trading.Base.{
  ℕ, suc, ◌+◌, ◌-◌, ◌%◌, ◌^◌, ◌≤◌, ◌<◌, ◌≡◌, ◌≢◌, sym, ap, subst, ◌∙◌, false, inl, inr, Bool-cases,
  ==_iff, some, List, [], ◌∷◌, ◌++◌, ◌==◌, length, length-append, length-set, get_elem?, take,
  arith,
}
use real_time_paper_trading.Ring.{BookDelta}
use real_time_paper_trading.Spsc.{
  Producer, Consumer, writing, stored, copied, System, is_full, store_slot,
}
use real_time_paper_trading.Spsc.Elements.{
  get_elem?-append_left, get_elem?-snoc, get_elem?-set_other, take_snoc, take-append,
}

-- The producer, after `p` accepted pushes and `c` pops.
abbrev pub IsProducer : ℕ → ℕ → List BookDelta → Producer → Type 0
IsProducer p c slots Producer.resting = Unit {0}
IsProducer p c slots (Producer.loaded item w) = w ≡ p
IsProducer p c slots (Producer.compared item w r) = (w ≡ p) × (r ≤ c)
IsProducer p c slots (Producer.cleared item w) = (w ≡ p) × (p < c + 4096)
IsProducer p c slots (writing item w) = (w ≡ p) × (p < c + 4096)
IsProducer p c slots (stored item w) =
    (w ≡ p) × (p < c + 4096) × (get_elem? slots (w % 4096) ≡ some item)

abbrev pub IsConsumer : ℕ → List BookDelta → Consumer → Type 0
IsConsumer c pushed Consumer.resting = Unit {0}
IsConsumer c pushed (Consumer.loaded r) = r ≡ c
IsConsumer c pushed (Consumer.compared r w) = (r ≡ c) × (c ≤ w) × (w ≤ length pushed)
IsConsumer c pushed (Consumer.cleared r) = (r ≡ c) × (c < length pushed)
IsConsumer c pushed (copied r out) = (r ≡ c) × (c < length pushed) × (get_elem? pushed c ≡ some out)

pub record Inv (s : System) : Type 0 where
  pub bounded : length s.popped ≤ length s.pushed
  pub fits : length s.pushed ≤ length s.popped + 4096
  pub write_at : s.ring.write_index ≡ length s.pushed
  pub read_at : s.ring.read_index ≡ length s.popped
  pub full_length : length s.ring.slots ≡ 4096
  pub held :
      (i : ℕ)
      → length s.popped ≤ i
      → i < length s.pushed
      → get_elem? s.ring.slots (i % 4096) ≡ get_elem? s.pushed i
  pub in_order : s.popped ≡ take (length s.popped) s.pushed
  pub producer : IsProducer (length s.pushed) (length s.popped) s.ring.slots s.producer
  pub consumer : IsConsumer (length s.popped) s.pushed s.consumer

-- Fewer pushes than the indices can count.
abbrev pub IsCounted : System → Type 0
IsCounted s = length s.pushed < 2 ^ 64

pub with_producer :
    {s : System} (q : Producer)
    → Inv s
    → IsProducer (length s.pushed) (length s.popped) s.ring.slots q
    → Inv (record s { producer = q })
with_producer q i h = record {
  bounded = i.bounded;
  fits = i.fits;
  write_at = i.write_at;
  read_at = i.read_at;
  full_length = i.full_length;
  held = i.held;
  in_order = i.in_order;
  producer = h;
  consumer = i.consumer;
}

pub with_consumer :
    {s : System} (q : Consumer)
    → Inv s
    → IsConsumer (length s.popped) s.pushed q
    → Inv (record s { consumer = q })
with_consumer q i h = record {
  bounded = i.bounded;
  fits = i.fits;
  write_at = i.write_at;
  read_at = i.read_at;
  full_length = i.full_length;
  held = i.held;
  in_order = i.in_order;
  producer = i.producer;
  consumer = h;
}

-- The slot of the next push is none of those that hold what is queued.
other_slot : (i p c : ℕ) → c ≤ i → i < p → p < c + 4096 → i % 4096 ≢ p % 4096
other_slot i p c h k l e = omega arith

pub with_slot :
    {s : System} (w : ℕ) (v : BookDelta) (q : Producer)
    → Inv s
    → w ≡ length s.pushed
    → length s.pushed < length s.popped + 4096
    → IsProducer (length s.pushed) (length s.popped) (store_slot w v s.ring).slots q
    → Inv (record s { producer = q; ring = store_slot w v s.ring })
unfolding store_slot
with_slot {s} w v q i e l h = record {
  bounded = i.bounded;
  fits = i.fits;
  write_at = i.write_at;
  read_at = i.read_at;
  full_length = length-set s.ring.slots (w % 4096) v ∙ i.full_length;
  held = λ j a b.
      get_elem?-set_other s.ring.slots (j % 4096) (w % 4096) v
        (λ k. other_slot j (length s.pushed) (length s.popped) a b l (k ∙ ap (λ n. n % 4096) e))
      ∙ i.held j a b;
  in_order = i.in_order;
  producer = h;
  consumer = i.consumer;
}

pub not_full :
    (p c w r : ℕ) → w ≡ p → p < 2 ^ 64 → c ≤ p → r ≤ c → is_full w r ≡ false → p < c + 4096
unfolding is_full
not_full p c w r e b h k f =
    let n : (w + 2 ^ 64 - r) % 2 ^ 64 < 4096 = ground (arith, f) in omega (arith, n, e)

pub producer_at :
    {s : System} {q : Producer}
    → Inv s
    → s.producer ≡ q
    → IsProducer (length s.pushed) (length s.popped) s.ring.slots q
producer_at {s} i e =
    subst (IsProducer (length s.pushed) (length s.popped) s.ring.slots) e i.producer

pub consumer_at :
    {s : System} {q : Consumer} → Inv s → s.consumer ≡ q → IsConsumer (length s.popped) s.pushed q
consumer_at {s} i e = subst (IsConsumer (length s.popped) s.pushed) e i.consumer

length-snoc : (xs : List BookDelta) (x : BookDelta) → length (xs ++ (x ∷ [])) ≡ suc (length xs)
length-snoc xs x = omega (arith, length-append xs (x ∷ []))

consumer_grows :
    (c : ℕ) (pushed : List BookDelta) (item : BookDelta) (q : Consumer)
    → IsConsumer c pushed q
    → IsConsumer c (pushed ++ (item ∷ [])) q
consumer_grows c pushed item Consumer.resting h = tt
consumer_grows c pushed item (Consumer.loaded r) h = h
consumer_grows c pushed item (Consumer.compared r w) h =
    (h.0, h.1, omega (arith, length-snoc pushed item, h.2))
consumer_grows c pushed item (Consumer.cleared r) h =
    (h.0, omega (arith, length-snoc pushed item, h.1))
consumer_grows c pushed item (copied r out) h = (
  h.0,
  omega (arith, length-snoc pushed item, h.1),
  get_elem?-append_left pushed (item ∷ []) c h.1 ∙ h.2,
)

producer_moves :
    (p c d : ℕ) (slots : List BookDelta) (q : Producer)
    → c ≤ d
    → IsProducer p c slots q
    → IsProducer p d slots q
producer_moves p c d slots Producer.resting k h = tt
producer_moves p c d slots (Producer.loaded item w) k h = h
producer_moves p c d slots (Producer.compared item w r) k h = (h.0, omega (arith, h.1))
producer_moves p c d slots (Producer.cleared item w) k h = (h.0, omega (arith, h.1))
producer_moves p c d slots (writing item w) k h = (h.0, omega (arith, h.1))
producer_moves p c d slots (stored item w) k h = (h.0, omega (arith, h.1), h.2)

pub publish-Inv :
    {s : System} (item : BookDelta) (w : ℕ)
    → Inv s
    → s.producer ≡ stored item w
    → length s.pushed + 1 < 2 ^ 64
    → Inv (record s {
      producer = Producer.resting;
      ring = record s.ring { write_index = (w + 1) % 2 ^ 64 };
      pushed = s.pushed ++ (item ∷ []);
    })
publish-Inv {s} item w i e b =
    let at = producer_at i e in
    let n = length-snoc s.pushed item in
    record {
      bounded = omega (arith, n, i.bounded);
      fits = omega (arith, n, at.1);
      write_at = omega (arith, n, at.0);
      read_at = i.read_at;
      full_length = i.full_length;
      held = λ j a k. elim (Bool-cases (j == length s.pushed)) [
        | inl y ↦
            (let same : j ≡ length s.pushed = (==_iff j (length s.pushed)).0 y in
              ap (λ m. get_elem? s.ring.slots (m % 4096)) (same ∙ sym at.0)
              ∙ at.2
              ∙ sym (ap (get_elem? (s.pushed ++ (item ∷ []))) same ∙ get_elem?-snoc s.pushed item))
        | inr z ↦
            (let below : j < length s.pushed = grind (arith, n, k, z) in
              i.held j a below ∙ sym (get_elem?-append_left s.pushed (item ∷ []) j below))
      ];
      in_order = i.in_order ∙ sym (take-append s.pushed (item ∷ []) (length s.popped) i.bounded);
      producer = tt;
      consumer = consumer_grows (length s.popped) s.pushed item s.consumer i.consumer;
    }

pub advance-Inv :
    {s : System} (r : ℕ) (out : BookDelta)
    → Inv s
    → s.consumer ≡ copied r out
    → length s.pushed < 2 ^ 64
    → Inv (record s {
      consumer = Consumer.resting;
      ring = record s.ring { read_index = (r + 1) % 2 ^ 64 };
      popped = s.popped ++ (out ∷ []);
    })
advance-Inv {s} r out i e b =
    let at = consumer_at i e in
    let n = length-snoc s.popped out in
    record {
      bounded = omega (arith, n, at.1);
      fits = omega (arith, n, i.fits);
      write_at = i.write_at;
      read_at = omega (arith, n, at.0, at.1, b);
      full_length = i.full_length;
      held = λ j a k. i.held j (omega (arith, n, a)) k;
      in_order =
          ap (λ l. l ++ (out ∷ [])) i.in_order
          ∙ sym (take_snoc s.pushed (length s.popped) out at.2)
          ∙ ap (λ m. take m s.pushed) (sym n);
      producer =
          producer_moves (length s.pushed) (length s.popped) (length (s.popped ++ (out ∷ [])))
            s.ring.slots s.producer (omega (arith, n)) i.producer;
      consumer = tt;
    }
