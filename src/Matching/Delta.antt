-- ===== src/Matching/Delta.antt =====
-- What a change of a book level does to the orders that rest there: `onBookDelta`
-- (engine/src/matching/matching_engine.cpp).
use real_time_paper_trading.Base.{
  ℕ, ◌-◌, ◌^◌, ◌<◌, ◌≡◌, refl, sym, ap, ◌∙◌, inl, inr, Bool, true, false, not, ◌&&◌, ◌||◌, List, [],
  ◌∷◌, ◌++◌, append-nil, append_assoc, arith, if◌then◌else◌, Bool-cases, min, All, map, pos,
  pos_part, ltb, leb, ◌==◌, min_ℤ,
}
use real_time_paper_trading.Base.Assoc.{contains, erase, Distinct, erase_absent}
use real_time_paper_trading.Ticks.{Price, Quantity, ◌-q◌}
use real_time_paper_trading.Ticks.Amounts.{
  IsSize, IsAmount, amount_eq, absorbed_rest, absorbed_overflow, min-share, sub-share,
}
use real_time_paper_trading.Matching.{
  PaperOrder, Fill, MatchingEngine, LevelKey, is_at, erase_all, emit_fill, reduce_one,
  reduce_orders,
}
use real_time_paper_trading.Matching.Walk.{
  Keeps, Keeps-refl, Keeps-trans, emit_fill-Keeps, emit_fill_fills, fill_of,
}

-- What an order keeps to.
pub record IsOrder (o : PaperOrder) : Type 0 where
  pub remaining : IsSize o.remaining_size
  pub queue : IsAmount o.queue_ahead_size

abbrev pub AllOrders : List (ℕ × PaperOrder) → Type 0
AllOrders = All (λ x. IsOrder x.1)

-- How much of a reduction by `n` reaches an order behind its queue.
abbrev pub overflow : ℕ → PaperOrder → ℕ
overflow n o = n - pos_part o.queue_ahead_size

abbrev pub is_filled : ℕ → PaperOrder → Bool
is_filled n o = leb (pos_part o.remaining_size) (overflow n o)

-- The order after a reduction by `n`: its queue is served first.
abbrev pub reduced : ℕ → PaperOrder → PaperOrder
reduced n o = record o {
  queue_ahead_size = pos (pos_part o.queue_ahead_size - n);
  remaining_size = pos (pos_part o.remaining_size - overflow n o);
}

-- The orders after a reduction by `n` of the level at `key`.
unfoldable pub survivors : LevelKey → ℕ → List (ℕ × PaperOrder) → List (ℕ × PaperOrder)
survivors key n [] = []
survivors key n ((id, o) ∷ os) =
    let rest = survivors key n os in
    if not (is_at key o)
    then (id, o) ∷ rest
    else if is_filled n o
    then rest
    else (id, reduced n o) ∷ rest

-- The identifier, price and size of a fill.
abbrev pub Deal : Type 0
Deal = ℕ × Price × Quantity

abbrev pub deal_of : Fill → Deal
deal_of f = (f.order_id, f.price, f.size)

-- The fills of a reduction by `n`: each order at the level takes what overflows its queue.
unfoldable pub deals : LevelKey → ℕ → List (ℕ × PaperOrder) → List Deal
deals key n [] = []
deals key n ((id, o) ∷ os) =
    let rest = deals key n os in
    if is_at key o && ltb 0 (overflow n o)
    then (id, o.price, pos (min (overflow n o) (pos_part o.remaining_size))) ∷ rest
    else rest

pub mem : ℕ → List ℕ → Bool
mem j [] = false
mem j (i ∷ is) = i == j || mem j is

-- Erasing other identifiers keeps an order.
erase_all_cons :
    (ids : List ℕ) (id : ℕ) (o : PaperOrder) (os : List (ℕ × PaperOrder))
    → mem id ids ≡ false
    → erase_all ids ((id, o) ∷ os) ≡ (id, o) ∷ erase_all ids os
unfolding erase_all mem erase
erase_all_cons [] id o os h = refl
erase_all_cons (i ∷ is) id o os h = ground (arith, erase_all_cons is id o (erase ◌==◌ i os))

erase_all_nil : (ids : List ℕ) → erase_all ids [] ≡ []
unfolding erase_all erase
erase_all_nil [] = refl
erase_all_nil (i ∷ is) = erase_all_nil is

-- Erasing the first order.
erase_all_first :
    (ids : List ℕ) (id : ℕ) (o : PaperOrder) (os : List (ℕ × PaperOrder))
    → contains ◌==◌ id os ≡ false
    → erase_all (id ∷ ids) ((id, o) ∷ os) ≡ erase_all ids os
unfolding erase_all erase
erase_all_first ids id o os h = ground (arith, erase_absent ◌==◌ id os h)

module _ (now_nanos : ℕ → ℕ) where
  -- One order of the level, in numbers.
  pub reduce_one_at :
      (key : LevelKey) (n id : ℕ) (o : PaperOrder) (e : MatchingEngine)
      → n < 2 ^ 63
      → IsOrder o
      → is_at key o ≡ true
      → reduce_one now_nanos key (pos n) id o e ≡ (
        reduced n o,
        if ltb 0 (overflow n o)
            then emit_fill now_nanos e id o.price
                (pos (min (overflow n o) (pos_part o.remaining_size)))
            else e,
        is_filled n o,
      )
  unfolding reduce_one
  reduce_one_at key n id o e h v a =
      rw
        (
          a,
          absorbed_rest o.queue_ahead_size n v.queue,
          absorbed_overflow o.queue_ahead_size n h v.queue,
          min-share (overflow n o) o.remaining_size v.remaining,
          sub-share (overflow n o) o.remaining_size v.remaining,
        )
        (ground (arith, amount_eq o.remaining_size))

  reduce_one-Keeps :
      (key : LevelKey) (r : Quantity) (id : ℕ) (o : PaperOrder) (e : MatchingEngine)
      → Keeps e (reduce_one now_nanos key r id o e).1
  unfolding reduce_one
  reduce_one-Keeps key r id o e = ground (
    arith,
    emit_fill-Keeps now_nanos e id o.price
        (min_ℤ (r -q min_ℤ o.queue_ahead_size r) o.remaining_size),
  )

  pub reduce_one_elsewhere :
      (key : LevelKey) (r : Quantity) (id : ℕ) (o : PaperOrder) (e : MatchingEngine)
      → is_at key o ≡ false
      → reduce_one now_nanos key r id o e ≡ (o, e, false)
  unfolding reduce_one
  reduce_one_elsewhere key r id o e a = rw a

  -- The identifiers of the filled orders are identifiers of orders.
  filled_absent :
      (j : ℕ) (key : LevelKey) (r : Quantity) (os : List (ℕ × PaperOrder)) (e : MatchingEngine)
      → contains ◌==◌ j os ≡ false
      → mem j (reduce_orders now_nanos key r os e).1 ≡ false
  unfolding reduce_orders contains mem
  filled_absent j key r [] e h = refl
  filled_absent j key r ((id, o) ∷ os) e h =
      ground (arith, filled_absent j key r os (reduce_one now_nanos key r id o e).1)

  pub contains-reduce_orders :
      (j : ℕ) (key : LevelKey) (r : Quantity) (os : List (ℕ × PaperOrder)) (e : MatchingEngine)
      → contains ◌==◌ j (reduce_orders now_nanos key r os e).0 ≡ contains ◌==◌ j os
  unfolding reduce_orders contains
  contains-reduce_orders j key r [] e = refl
  contains-reduce_orders j key r ((id, o) ∷ os) e =
      ap (λ b. id == j || b)
        (contains-reduce_orders j key r os (reduce_one now_nanos key r id o e).1)

  -- The loop with the erasure of the filled orders leaves the survivors.
  pub reduce_orders-survivors :
      (key : LevelKey) (n : ℕ) (os : List (ℕ × PaperOrder)) (e : MatchingEngine)
      → n < 2 ^ 63
      → AllOrders os
      → Distinct ◌==◌ os
      → let (os', ids, e') = reduce_orders now_nanos key (pos n) os e in
        erase_all ids os' ≡ survivors key n os
  unfolding reduce_orders survivors
  reduce_orders-survivors key n [] e h v d = erase_all_nil []
  reduce_orders-survivors key n ((id, o) ∷ os) e h v d = elim (Bool-cases (is_at key o)) [
    | inl a ↦
        let e₁ : MatchingEngine =
          if ltb 0 (overflow n o)
          then emit_fill now_nanos e id o.price
              (pos (min (overflow n o) (pos_part o.remaining_size)))
          else e in
        let rest = reduce_orders now_nanos key (pos n) os e₁ in
        let ih = reduce_orders-survivors key n os e₁ h v.1 d.1 in
        let gone : contains ◌==◌ id rest.0 ≡ false =
          contains-reduce_orders id key (pos n) os e₁ ∙ d.0 in
        rw (reduce_one_at key n id o e h v.0 a, a)
          (elim (Bool-cases (is_filled n o)) [
            | inl f ↦ rw f (erase_all_first rest.1 id (reduced n o) rest.0 gone ∙ ih)
            | inr f ↦ rw f (
                erase_all_cons rest.1 id (reduced n o) rest.0
                  (filled_absent id key (pos n) os e₁ d.0)
                ∙ ap (λ xs. (id, reduced n o) ∷ xs) ih)
          ])
    | inr a ↦
        rw (reduce_one_elsewhere key (pos n) id o e a, a)
          (erase_all_cons (reduce_orders now_nanos key (pos n) os e).1 id o
              (reduce_orders now_nanos key (pos n) os e).0 (filled_absent id key (pos n) os e d.0)
            ∙ ap (λ xs. (id, o) ∷ xs) (reduce_orders-survivors key n os e h v.1 d.1))
  ]

  -- The loop reports the deals, in the order of the orders.
  pub reduce_orders-deals :
      (key : LevelKey) (n : ℕ) (os : List (ℕ × PaperOrder)) (e : MatchingEngine)
      → n < 2 ^ 63
      → AllOrders os
      → e.on_fill ≡ true
      → (ns : List Fill) × ((reduce_orders now_nanos key (pos n) os e).2.fills ≡ e.fills ++ ns)
        × (map deal_of ns ≡ deals key n os)
  unfolding reduce_orders deals
  reduce_orders-deals key n [] e h v c = ([], sym (append-nil e.fills), refl)
  reduce_orders-deals key n ((id, o) ∷ os) e h v c = elim (Bool-cases (is_at key o)) [
    | inl a ↦
        rw (reduce_one_at key n id o e h v.0 a, a)
          (elim (Bool-cases (ltb 0 (overflow n o))) [
            | inl f ↦
                let s : Quantity = pos (min (overflow n o) (pos_part o.remaining_size)) in
                let (ns, p, q) =
                  reduce_orders-deals key n os (emit_fill now_nanos e id o.price s) h v.1
                    ((emit_fill-Keeps now_nanos e id o.price s).on_fill ∙ c) in
                rw f (
                  fill_of now_nanos e id o.price s ∷ ns,
                  p
                      ∙ ap (λ fs. fs ++ ns) (emit_fill_fills now_nanos e id o.price s c)
                      ∙ append_assoc e.fills (fill_of now_nanos e id o.price s ∷ []) ns,
                  ap (λ ds. (id, o.price, s) ∷ ds) q,
                )
            | inr f ↦ rw f (reduce_orders-deals key n os e h v.1 c)
          ])
    | inr a ↦
        rw (reduce_one_elsewhere key (pos n) id o e a, a) (reduce_orders-deals key n os e h v.1 c)
  ]

  -- The loop changes no engine field but the fills.
  pub reduce_orders-Keeps :
      (key : LevelKey) (r : Quantity) (os : List (ℕ × PaperOrder)) (e : MatchingEngine)
      → Keeps e (reduce_orders now_nanos key r os e).2
  unfolding reduce_orders
  reduce_orders-Keeps key r [] e = Keeps-refl e
  reduce_orders-Keeps key r ((id, o) ∷ os) e =
      Keeps-trans (reduce_one-Keeps key r id o e)
        (reduce_orders-Keeps key r os (reduce_one now_nanos key r id o e).1)
