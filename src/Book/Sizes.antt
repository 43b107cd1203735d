-- ===== src/Book/Sizes.antt =====
-- A side as a map from prices to sizes, with at most `book_depth` prices
-- (engine/src/book/order_book.cpp).
use real_time_paper_trading.Base.{
  ℕ, zero, suc, ◌<◌, ◌≡◌, refl, sym, ap, ◌∙◌, ◌⊎◌, Bool, inl, inr, true, false, Option, some, none,
  List, [], ◌∷◌, arith, if◌then◌else◌, Bool-cases, length, get_elem?, take, length-take, All, pos,
  eqb_ℤ, eqb_ℤ_refl, eqb_ℤ_comm, eqb_ℤ→eq,
}
use real_time_paper_trading.Ticks.{Price, Quantity}
use real_time_paper_trading.Book.{
  BookSide, PriceLevel, OrderBookSide, book_depth, better, lower_bound, back_price, erase_at,
  insert_at, erased, upserted, apply_delta, top, size_at_price,
}
use real_time_paper_trading.Book.Sorted.{
  AllWorse, Sorted, IsValid, better_irrefl, better_asymm, better_total, better_eq_left,
  better_eq_right, AllWorse-eq, AllWorse-trans, upserted_cons, erased_cons, erased-Sorted,
  upserted-Sorted, take-Sorted, length-upserted, apply_delta_cases,
}

-- The size at a price, by a search of all levels.
pub size_of : Price → List PriceLevel → Quantity
size_of p [] = pos 0
size_of p (l ∷ ls) = if eqb_ℤ l.price p then l.quantity else size_of p ls

size_of_worse :
    (s : BookSide) (p : Price) (ls : List PriceLevel) → AllWorse s p ls → size_of p ls ≡ pos 0
unfolding size_of
size_of_worse s p [] h = refl
size_of_worse s p (l ∷ ls) h =
    ground (arith, better_asymm s p l.price h.0, eqb_ℤ_comm l.price p, size_of_worse s p ls h.1)

-- The binary search finds the same size as the full search.
pub size_at_price-eq-size_of :
    (s : BookSide) (p : Price) (ls : List PriceLevel)
    → Sorted s ls
    → size_at_price (record { side = s; levels = ls }) p ≡ size_of p ls
unfolding size_at_price size_of lower_bound
size_at_price-eq-size_of s p [] h = refl
size_at_price-eq-size_of s p (l ∷ ls) h = elim (Bool-cases (better s l.price p)) [
  | inl b ↦ rw (b, (better_asymm s l.price p b).1) (size_at_price-eq-size_of s p ls h.1)
  | inr n ↦ rw n (elim (Bool-cases (eqb_ℤ l.price p)) [
    | inl e ↦ rw e
    | inr d ↦ rw d (
        sym
          (size_of_worse s p ls (AllWorse-trans s p l.price ls (better_total s l.price p n d) h.0)))
  ])
]

size_of-upserted :
    (s : BookSide) (p : Price) (q : Quantity) (x : Price) (ls : List PriceLevel)
    → size_of x (upserted s p q ls) ≡ (if eqb_ℤ p x then q else size_of x ls)
unfolding upserted size_of lower_bound insert_at
size_of-upserted s p q x [] = refl
size_of-upserted s p q x (l ∷ ls) =
    rw (upserted_cons s p q l ls)
      (ground (arith, better_asymm s l.price p, size_of-upserted s p q x ls))

size_of-erased :
    (s : BookSide) (p x : Price) (ls : List PriceLevel)
    → Sorted s ls
    → size_of x (erased s p ls) ≡ (if eqb_ℤ p x then pos 0 else size_of x ls)
unfolding erased size_of lower_bound erase_at
size_of-erased s p x [] h = ground arith
size_of-erased s p x (l ∷ ls) h = rw (erased_cons s p l ls) (
    ground (
      arith,
      better_asymm s l.price p,
      better_total s l.price p,
      size_of-erased s p x ls h.1,
      AllWorse-eq s l.price x ls,
      AllWorse-trans s x l.price ls,
      better_eq_left s p x l.price,
      size_of_worse s x ls,
    ))

abbrev pub is_evicted : Price → Option Price → Bool
is_evicted x none = false
is_evicted x (some e) = eqb_ℤ e x

back_worse :
    (s : BookSide) (a x : Price) (ls : List PriceLevel)
    → AllWorse s a ls
    → is_evicted x (back_price ls) ≡ true
    → better s a x ≡ true
unfolding back_price
back_worse s a x [] h e = cc
back_worse s a x (l ∷ []) h e = better_eq_right s a l.price x e h.0
back_worse s a x (l ∷ m ∷ ls) h e = back_worse s a x (m ∷ ls) h.1 e

-- What remains of sorted levels without the last is better than the last.
take-better_back :
    (s : BookSide) (n : ℕ) (e : Price) (ls : List PriceLevel)
    → Sorted s ls
    → n < length ls
    → back_price ls ≡ some e
    → All (λ l. better s l.price e ≡ true) (take n ls)
unfolding back_price
take-better_back s zero e ls h k c = tt
take-better_back s (suc n) e [] h k c = tt
take-better_back s (suc n) e (l ∷ []) h k c = absurd (omega arith)
take-better_back s (suc n) e (l ∷ m ∷ ls) h k c = (
  back_worse s l.price e (m ∷ ls) h.0 (rw c (eqb_ℤ_refl e)),
  take-better_back s n e (m ∷ ls) h.1 (omega arith) c,
)

AllWorse-not_better :
    (s : BookSide) (a : Price) (ls : List PriceLevel)
    → AllWorse s a ls
    → All (λ m. better s m.price a ≡ false) ls
AllWorse-not_better s a [] h = tt
AllWorse-not_better s a (l ∷ ls) h =
    ((better_asymm s a l.price h.0).0, AllWorse-not_better s a ls h.1)

size_of-take :
    (s : BookSide) (n : ℕ) (x : Price) (ls : List PriceLevel)
    → Sorted s ls
    → length ls ≡ suc n
    → size_of x (take n ls) ≡ (if is_evicted x (back_price ls) then pos 0 else size_of x ls)
unfolding size_of back_price
size_of-take s n x [] h e = absurd (omega arith)
size_of-take s zero x (l ∷ []) h e = ground arith
size_of-take s (suc n) x (l ∷ []) h e = absurd (omega arith)
size_of-take s zero x (l ∷ m ∷ ls) h e = absurd (omega arith)
size_of-take s (suc n) x (l ∷ m ∷ ls) h e = ground (
  arith,
  size_of-take s n x (m ∷ ls) h.1 (omega arith),
  back_worse s l.price x (m ∷ ls) h.0,
  better_asymm s l.price x,
)

-- After `apply_delta` the side holds the new size at the given price and the old size at every
-- other, but for the evicted price, where it holds none.
pub size_at_price-apply_delta :
    (b : OrderBookSide) (p : Price) (q : Quantity) (x : Price)
    → IsValid b
    → let (b', evicted) = apply_delta b p q in
      size_at_price b' x
      ≡ (if is_evicted x evicted then pos 0 else if eqb_ℤ p x then q else size_at_price b x)
size_at_price-apply_delta b p q x v =
    apply_delta_cases
      (λ r.
        size_at_price r.0 x
        ≡ (if is_evicted x r.1 then pos 0 else if eqb_ℤ p x then q else size_at_price b x))
      b p q
      (λ z.
        size_at_price-eq-size_of b.side x _ (erased-Sorted b.side p b.levels v.sorted)
        ∙ size_of-erased b.side p x b.levels v.sorted
        ∙ rw (size_at_price-eq-size_of b.side x b.levels v.sorted)
            (ap (λ t. if eqb_ℤ p x then t else size_of x b.levels) (sym (eqb_ℤ→eq q (pos 0) z))))
      (λ nz w.
        size_at_price-eq-size_of b.side x _ (upserted-Sorted b.side p q b.levels v.sorted)
        ∙ size_of-upserted b.side p q x b.levels
        ∙ rw (size_at_price-eq-size_of b.side x b.levels v.sorted))
      (λ nz o.
        size_at_price-eq-size_of b.side x _
          (take-Sorted b.side book_depth _ (upserted-Sorted b.side p q b.levels v.sorted))
        ∙ size_of-take b.side book_depth x _ (upserted-Sorted b.side p q b.levels v.sorted)
            (omega (arith, length-upserted b.side p q b.levels, v.bounded))
        ∙ rw (
          size_of-upserted b.side p q x b.levels,
          size_at_price-eq-size_of b.side x b.levels v.sorted,
        ))

-- The evicted price is worse than every price that the side keeps, and the side is then full.
pub apply_delta_evicts_worst :
    (b : OrderBookSide) (p : Price) (q : Quantity) (e : Price)
    → IsValid b
    → (apply_delta b p q).1 ≡ some e
    → let b' = (apply_delta b p q).0 in
      All (λ l. better b.side l.price e ≡ true) b'.levels × (length b'.levels ≡ book_depth)
apply_delta_evicts_worst b p q e v =
    apply_delta_cases
      (λ r.
        r.1 ≡ some e
        → All (λ l. better b.side l.price e ≡ true) r.0.levels × (length r.0.levels ≡ book_depth))
      b p q (λ z c. cc) (λ nz w c. cc)
      (λ nz o c. (
        take-better_back b.side book_depth e _ (upserted-Sorted b.side p q b.levels v.sorted)
            (omega (arith, o)) c,
        omega (arith, o, length-take book_depth (upserted b.side p q b.levels)),
      ))

-- `top` fails on the empty side only, and no level is better than the one that it returns.
pub top_is_best :
    (b : OrderBookSide)
    → IsValid b
    → ((top b ≡ none) × (b.levels ≡ []))
      ⊎ ((l : PriceLevel) × (top b ≡ some l)
          × All (λ m. better b.side m.price l.price ≡ false) b.levels)
unfolding top
top_is_best b v = best b.side b.levels v.sorted
  where
    best :
        (s : BookSide) (ls : List PriceLevel)
        → Sorted s ls
        → ((get_elem? ls 0 ≡ none) × (ls ≡ []))
          ⊎ ((l : PriceLevel) × (get_elem? ls 0 ≡ some l)
              × All (λ m. better s m.price l.price ≡ false) ls)
    best s [] h = inl (refl, refl)
    best s (l ∷ ls) h =
        inr (l, refl, (better_irrefl s l.price, AllWorse-not_better s l.price ls h.0))
