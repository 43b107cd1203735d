-- ===== src/Control/Watch.antt =====
-- What a call of `WatchFills` sends (engine/src/control/control_server.cpp).
use real_time_paper_trading.Base.{
  Bool, true, false, Bool-cases, ◌||◌, List, [], ◌∷◌, ◌++◌, ◌≡◌, refl, ap, sym, ◌∙◌, inl, inr, All,
  append-nil, append_assoc, arith,
}
use real_time_paper_trading.Matching.{Fill}
use real_time_paper_trading.Registry.{SymbolRegistry}
use real_time_paper_trading.Registry.Orders.{wait_for_fill, take_fill}
use real_time_paper_trading.Registry.Inbox.{push_fills_lem}
use real_time_paper_trading.Control.{
  FillEvent, Round, Watching, fill_event, write_fill, watch_round, watch_rounds, watch_fills,
}

abbrev pub fill_events : List Fill → List FillEvent
fill_events [] = []
fill_events (f ∷ fs) = fill_event f ∷ fill_events fs

-- The fills that the threads of the symbols push in a row of rounds.
abbrev pub pushed_in : List Round → List Fill
pushed_in [] = []
pushed_in (round ∷ rounds) = round.pushed ++ pushed_in rounds

abbrev pub events_of : List (FillEvent × Bool) → List FillEvent
events_of [] = []
events_of (e ∷ es) = e.0 ∷ events_of es

unfoldable pub OnlyLastFails : List (FillEvent × Bool) → Type 0
OnlyLastFails [] = Unit {0}
OnlyLastFails (e ∷ []) = Unit {0}
OnlyLastFails (e ∷ f ∷ es) = (e.1 ≡ true) × OnlyLastFails (f ∷ es)

-- The events that stand for fills: those written, then those still in the queue.
abbrev told : Watching → List FillEvent
told w = events_of w.written ++ fill_events w.registry.fill_queue

fill_events-append : (fs gs : List Fill) → fill_events (fs ++ gs) ≡ fill_events fs ++ fill_events gs
fill_events-append [] gs = refl
fill_events-append (f ∷ fs) gs = ap (◌∷◌ (fill_event f)) (fill_events-append fs gs)

events_of-snoc :
    (es : List (FillEvent × Bool)) (e : FillEvent) (b : Bool) (ds : List FillEvent)
    → events_of (es ++ ((e, b) ∷ [])) ++ ds ≡ events_of es ++ (e ∷ ds)
events_of-snoc [] e b ds = refl
events_of-snoc (x ∷ es) e b ds = ap (◌∷◌ (x.0)) (events_of-snoc es e b ds)

OnlyLastFails-snoc :
    (es : List (FillEvent × Bool)) (e : FillEvent × Bool)
    → All (λ x. x.1 ≡ true) es
    → OnlyLastFails (es ++ (e ∷ []))
unfolding OnlyLastFails
OnlyLastFails-snoc [] e a = tt
OnlyLastFails-snoc (x ∷ []) e a = (a.0, tt)
OnlyLastFails-snoc (x ∷ y ∷ es) e a = (a.0, OnlyLastFails-snoc (y ∷ es) e a.1)

All-snoc :
    (es : List (FillEvent × Bool)) (e : FillEvent)
    → All (λ x. x.1 ≡ true) es
    → All (λ (x : FillEvent × Bool). x.1 ≡ true) (es ++ ((e, true) ∷ []))
All-snoc [] e a = (refl, tt)
All-snoc (x ∷ es) e a = (a.0, All-snoc es e a.1)

-- What holds in each round: nothing but the queue of the registry has changed, and no write has
-- failed while the loop goes on.
record Held (r : SymbolRegistry) (w : Watching) : Type 0 where
  only_queue : w.registry ≡ record r { fill_queue = w.registry.fill_queue }
  only_last_fails : OnlyLastFails w.written
  open_connected : w.left ≡ false → All (λ x. x.1 ≡ true) w.written

-- The registry with another queue.
abbrev with_queue : SymbolRegistry → List Fill → SymbolRegistry
with_queue r q = record r { fill_queue = q }

told-write_fill :
    (b : Bool) (w : Watching) (r : SymbolRegistry) (q : List Fill)
    → told (write_fill b w (wait_for_fill (with_queue r q))) ≡ events_of w.written ++ fill_events q
unfolding write_fill wait_for_fill take_fill
told-write_fill b w r [] = refl
told-write_fill b w r (f ∷ fs) = events_of-snoc w.written (fill_event f) b (fill_events fs)

write_fill-Held :
    (b : Bool) (w : Watching) (r : SymbolRegistry) (q : List Fill)
    → Held r w
    → w.left ≡ false
    → Held r (write_fill b w (wait_for_fill (with_queue w.registry q)))
unfolding write_fill wait_for_fill take_fill
write_fill-Held b w r [] h open_ = record {
  only_queue = ap (λ s. with_queue s []) h.only_queue;
  only_last_fails = h.only_last_fails;
  open_connected = h.open_connected;
}
write_fill-Held true w r (f ∷ fs) h open_ = record {
  only_queue = ap (λ s. with_queue s fs) h.only_queue;
  only_last_fails = OnlyLastFails-snoc w.written (fill_event f, true) (h.open_connected open_);
  open_connected = λ e. All-snoc w.written (fill_event f) (h.open_connected open_);
}
write_fill-Held false w r (f ∷ fs) h open_ = record {
  only_queue = ap (λ s. with_queue s fs) h.only_queue;
  only_last_fails = OnlyLastFails-snoc w.written (fill_event f, false) (h.open_connected open_);
  open_connected = λ e. ground arith;
}

regroup :
    (es : List FillEvent) (q p : List Fill)
    → es ++ fill_events (q ++ p) ≡ (es ++ fill_events q) ++ fill_events p
regroup es q p =
    ap (λ fs. es ++ fs) (fill_events-append q p)
    ∙ sym (append_assoc es (fill_events q) (fill_events p))

told-watch_round :
    (w : Watching) (round : Round)
    → told (watch_round w round)
      ≡ events_of w.written ++ fill_events (w.registry.fill_queue ++ round.pushed)
unfolding watch_round
told-watch_round w round = elim (Bool-cases (w.left || round.cancelled)) [
  | inl e ↦ rw (e, push_fills_lem w.registry round.pushed) refl
  | inr e ↦
      rw (e, push_fills_lem w.registry round.pushed)
        (told-write_fill round.connected w w.registry (w.registry.fill_queue ++ round.pushed))
]

watch_round-Held :
    (w : Watching) (round : Round) (r : SymbolRegistry) → Held r w → Held r (watch_round w round)
unfolding watch_round
watch_round-Held w round r h = elim (Bool-cases (w.left || round.cancelled)) [
  | inl e ↦
      rw (e, push_fills_lem w.registry round.pushed)
        (record {
          only_queue = ap (λ s. with_queue s (w.registry.fill_queue ++ round.pushed)) h.only_queue;
          only_last_fails = h.only_last_fails;
          open_connected = λ e. ground arith;
        })
  | inr e ↦
      rw (e, push_fills_lem w.registry round.pushed)
        (write_fill-Held round.connected w r (w.registry.fill_queue ++ round.pushed) h
          (ground arith))
]

watch_rounds-Held :
    (w : Watching) (rounds : List Round) (r : SymbolRegistry)
    → Held r w
    → Held r (watch_rounds w rounds)
unfolding watch_rounds
watch_rounds-Held w [] r h = h
watch_rounds-Held w (round ∷ rounds) r h =
    watch_rounds-Held (watch_round w round) rounds r (watch_round-Held w round r h)

told-watch_rounds :
    (w : Watching) (rounds : List Round)
    → told (watch_rounds w rounds)
      ≡ events_of w.written ++ fill_events (w.registry.fill_queue ++ pushed_in rounds)
unfolding watch_rounds
told-watch_rounds w [] =
    ap (λ q. events_of w.written ++ fill_events q) (sym (append-nil w.registry.fill_queue))
told-watch_rounds w (round ∷ rounds) =
    told-watch_rounds (watch_round w round) rounds
    ∙ regroup (events_of (watch_round w round).written) (watch_round w round).registry.fill_queue
        (pushed_in rounds)
    ∙ ap (λ es. es ++ fill_events (pushed_in rounds)) (told-watch_round w round)
    ∙ sym (regroup (events_of w.written) (w.registry.fill_queue ++ round.pushed) (pushed_in rounds))
    ∙ ap (λ q. events_of w.written ++ fill_events q)
        (append_assoc w.registry.fill_queue round.pushed (pushed_in rounds))

-- What a row of rounds sends, from a registry `r`.
pub record IsSent (r : SymbolRegistry) (rounds : List Round) (w : Watching) : Type 0 where
  pub in_order :
      events_of w.written ++ fill_events w.registry.fill_queue
      ≡ fill_events (r.fill_queue ++ pushed_in rounds)
  pub only_last_fails : OnlyLastFails w.written
  pub only_queue : w.registry ≡ with_queue r w.registry.fill_queue

-- In every row of rounds, `WatchFills` writes each fill of the queue and of those pushed meanwhile
-- once and in the order of the queue: the events written, then those of the fills still queued, are
-- the events of all of them. No write but the last has failed, and of the registry only the queue has
-- changed.
pub watch_fills_lem :
    (r : SymbolRegistry) (rounds : List Round) → IsSent r rounds (watch_fills r rounds)
unfolding watch_fills OnlyLastFails
watch_fills_lem r rounds =
    let started : Watching = record { registry = r; written = []; left = false } in
    let h =
      watch_rounds-Held started rounds r
        (record { only_queue = refl; only_last_fails = tt; open_connected = λ e. tt }) in
    record {
      in_order = told-watch_rounds started rounds;
      only_last_fails = h.only_last_fails;
      only_queue = h.only_queue;
    }
