-- ===== src/Book/Sorted.antt =====
-- The levels of a side stay strictly sorted, best price first, and within the depth
-- (engine/src/book/order_book.cpp).
use real_time_paper_trading.Base.{
  ℕ, zero, suc, ◌+◌, ◌≤◌, ◌<◌, ◌≡◌, inl, inr, true, false, Option, none, List, [], ◌∷◌, arith,
  if◌then◌else◌, ltb, ltb→lt, ltb_false→le, Bool-cases, length, take, length-take, All, All-take,
  pos, eqb_ℤ, le_trans,
}
use real_time_paper_trading.Ticks.{Price, Quantity}
use real_time_paper_trading.Book.{
  BookSide, bid, ask, PriceLevel, OrderBookSide, book_depth, better, lower_bound, back_price,
  erase_at, insert_at, set_quantity_at, erased, upserted, apply_delta, clear,
}

-- Every price of the levels is worse than `p`.
abbrev pub AllWorse : BookSide → Price → List PriceLevel → Type 0
AllWorse s p = All (λ l. better s p l.price ≡ true)

-- Strictly sorted, best first; so no price stands twice.
abbrev pub Sorted : BookSide → List PriceLevel → Type 0
Sorted s [] = Unit {0}
Sorted s (l ∷ ls) = AllWorse s l.price ls × Sorted s ls

pub better_trans :
    (s : BookSide) (a b c : Price) → better s a b ≡ true → better s b c ≡ true → better s a c ≡ true
unfolding better
better_trans bid a b c h k = ground arith
better_trans ask a b c h k = ground arith

pub better_asymm :
    (s : BookSide) (a b : Price)
    → better s a b ≡ true
    → (better s b a ≡ false) × (eqb_ℤ a b ≡ false)
unfolding better
better_asymm bid a b h = ground arith
better_asymm ask a b h = ground arith

-- Neither better nor equal is worse.
pub better_total :
    (s : BookSide) (a b : Price) → better s a b ≡ false → eqb_ℤ a b ≡ false → better s b a ≡ true
unfolding better
better_total bid a b h k = ground arith
better_total ask a b h k = ground arith

pub better_eq_left :
    (s : BookSide) (a b c : Price) → eqb_ℤ a b ≡ true → better s a c ≡ true → better s b c ≡ true
unfolding better
better_eq_left bid a b c h k = ground arith
better_eq_left ask a b c h k = ground arith

pub better_eq_right :
    (s : BookSide) (a b c : Price) → eqb_ℤ b c ≡ true → better s a b ≡ true → better s a c ≡ true
unfolding better
better_eq_right bid a b c h k = ground arith
better_eq_right ask a b c h k = ground arith

pub better_irrefl : (s : BookSide) (a : Price) → better s a a ≡ false
unfolding better
better_irrefl bid a = ground arith
better_irrefl ask a = ground arith

pub AllWorse-trans :
    (s : BookSide) (a b : Price) (ls : List PriceLevel)
    → better s a b ≡ true
    → AllWorse s b ls
    → AllWorse s a ls
AllWorse-trans s a b [] h k = tt
AllWorse-trans s a b (l ∷ ls) h k =
    (better_trans s a b l.price h k.0, AllWorse-trans s a b ls h k.1)

pub AllWorse-eq :
    (s : BookSide) (a b : Price) (ls : List PriceLevel)
    → eqb_ℤ a b ≡ true
    → AllWorse s a ls
    → AllWorse s b ls
AllWorse-eq s a b [] h k = tt
AllWorse-eq s a b (l ∷ ls) h k = (better_eq_left s a b l.price h k.0, AllWorse-eq s a b ls h k.1)

-- The edits as recursions along the levels.
pub upserted_cons :
    (s : BookSide) (p : Price) (q : Quantity) (l : PriceLevel) (ls : List PriceLevel)
    → upserted s p q (l ∷ ls) ≡ (
        if better s l.price p
        then l ∷ upserted s p q ls
        else if eqb_ℤ l.price p
        then record l { quantity = q } ∷ ls
        else record { price = p; quantity = q } ∷ l ∷ ls)
unfolding upserted lower_bound set_quantity_at insert_at
upserted_cons s p q l ls = ground arith

pub erased_cons :
    (s : BookSide) (p : Price) (l : PriceLevel) (ls : List PriceLevel)
    → erased s p (l ∷ ls)
      ≡ (if better s l.price p then l ∷ erased s p ls else if eqb_ℤ l.price p then ls else l ∷ ls)
unfolding erased lower_bound erase_at
erased_cons s p l ls = ground arith

upserted-AllWorse :
    (s : BookSide) (a p : Price) (q : Quantity) (ls : List PriceLevel)
    → better s a p ≡ true
    → AllWorse s a ls
    → AllWorse s a (upserted s p q ls)
unfolding upserted lower_bound insert_at
upserted-AllWorse s a p q [] h k = (h, tt)
upserted-AllWorse s a p q (l ∷ ls) h k =
    rw (upserted_cons s p q l ls) (ground (arith, upserted-AllWorse s a p q ls h k.1))

erased-AllWorse :
    (s : BookSide) (a p : Price) (ls : List PriceLevel)
    → AllWorse s a ls
    → AllWorse s a (erased s p ls)
unfolding erased lower_bound erase_at
erased-AllWorse s a p [] k = tt
erased-AllWorse s a p (l ∷ ls) k =
    rw (erased_cons s p l ls) (ground (arith, erased-AllWorse s a p ls k.1))

pub upserted-Sorted :
    (s : BookSide) (p : Price) (q : Quantity) (ls : List PriceLevel)
    → Sorted s ls
    → Sorted s (upserted s p q ls)
unfolding upserted lower_bound insert_at
upserted-Sorted s p q [] h = (tt, tt)
upserted-Sorted s p q (l ∷ ls) h =
    rw (upserted_cons s p q l ls) (elim (Bool-cases (better s l.price p)) [
      | inl b ↦ rw b (upserted-AllWorse s l.price p q ls b h.0, upserted-Sorted s p q ls h.1)
      | inr n ↦ rw n (elim (Bool-cases (eqb_ℤ l.price p)) [
        | inl e ↦ rw e h
        | inr d ↦ rw d (
          (
            better_total s l.price p n d,
            AllWorse-trans s p l.price ls (better_total s l.price p n d) h.0,
          ),
          h,
        )
      ])
    ])

pub erased-Sorted :
    (s : BookSide) (p : Price) (ls : List PriceLevel) → Sorted s ls → Sorted s (erased s p ls)
unfolding erased lower_bound erase_at
erased-Sorted s p [] h = tt
erased-Sorted s p (l ∷ ls) h =
    rw (erased_cons s p l ls)
      (ground (arith, erased-Sorted s p ls h.1, erased-AllWorse s l.price p ls h.0))

pub take-Sorted : (s : BookSide) (n : ℕ) (ls : List PriceLevel) → Sorted s ls → Sorted s (take n ls)
take-Sorted s zero ls h = tt
take-Sorted s (suc n) [] h = tt
take-Sorted s (suc n) (l ∷ ls) h = (All-take _ n ls h.0, take-Sorted s n ls h.1)

pub length-upserted :
    (s : BookSide) (p : Price) (q : Quantity) (ls : List PriceLevel)
    → length (upserted s p q ls) ≤ length ls + 1
unfolding upserted lower_bound insert_at
length-upserted s p q [] = omega arith
length-upserted s p q (l ∷ ls) =
    rw (upserted_cons s p q l ls) (ground (arith, length-upserted s p q ls))

pub length-erased :
    (s : BookSide) (p : Price) (ls : List PriceLevel) → length (erased s p ls) ≤ length ls
unfolding erased lower_bound erase_at
length-erased s p [] = omega arith
length-erased s p (l ∷ ls) = rw (erased_cons s p l ls) (ground (arith, length-erased s p ls))

-- What every operation keeps of a side.
pub record IsValid (b : OrderBookSide) : Type 0 where
  pub sorted : Sorted b.side b.levels
  pub bounded : length b.levels ≤ book_depth

-- The three ways through `apply_delta`.
pub apply_delta_cases {ℓ} :
    (P : OrderBookSide × Option Price → Type ℓ) (b : OrderBookSide) (p : Price) (q : Quantity)
    → (eqb_ℤ q (pos 0) ≡ true → P (record b { levels = erased b.side p b.levels }, none))
    → (eqb_ℤ q (pos 0) ≡ false
        → length (upserted b.side p q b.levels) ≤ book_depth
        → P (record b { levels = upserted b.side p q b.levels }, none))
    → (eqb_ℤ q (pos 0) ≡ false
        → book_depth < length (upserted b.side p q b.levels)
        → P (
          record b { levels = take book_depth (upserted b.side p q b.levels) },
          back_price (upserted b.side p q b.levels),
        ))
    → P (apply_delta b p q)
unfolding apply_delta
apply_delta_cases P b p q none_left within over = elim (Bool-cases (eqb_ℤ q (pos 0))) [
  | inl z ↦ rw z (none_left z)
  | inr nz ↦ rw nz (elim (Bool-cases (ltb book_depth (length (upserted b.side p q b.levels)))) [
    | inl o ↦ rw o (over nz (ltb→lt _ _ o))
    | inr w ↦ rw w (within nz (ltb_false→le _ _ w))
  ])
]

-- `apply_delta` keeps a side strictly sorted, best first, and within the depth.
pub apply_delta-IsValid :
    (b : OrderBookSide) (p : Price) (q : Quantity) → IsValid b → IsValid (apply_delta b p q).0
apply_delta-IsValid b p q v =
    apply_delta_cases (λ r. IsValid r.0) b p q
      (λ z. record {
        sorted = erased-Sorted b.side p b.levels v.sorted;
        bounded = le_trans (length-erased b.side p b.levels) v.bounded;
      })
      (λ nz w. record { sorted = kept; bounded = w })
      (λ nz o. record {
        sorted = take-Sorted b.side book_depth _ kept;
        bounded = omega (arith, length-take book_depth (upserted b.side p q b.levels));
      })
  where
    kept : Sorted b.side (upserted b.side p q b.levels)
    kept = upserted-Sorted b.side p q b.levels v.sorted

pub clear-IsValid : (b : OrderBookSide) → IsValid (clear b)
unfolding clear
clear-IsValid b = record { sorted = tt; bounded = omega arith }
