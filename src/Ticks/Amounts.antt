-- ===== src/Ticks/Amounts.antt =====
-- Quantities that are not negative, as numbers
-- (engine/include/engine/common/price_quantity.hpp).
use real_time_paper_trading.Base.{
  ℕ, ◌-◌, ◌^◌, ◌≤◌, ◌<◌, ◌≡◌, refl, ap, ◌∙◌, min, pos, negsuc, pos_part, min_ℤ, ◌≤ℤ◌, ◌<ℤ◌, pos-sub,
  int64_of_fits, IsInt64, arith,
}
use real_time_paper_trading.Ticks.{Quantity, ◌-q◌}

-- A positive 64-bit quantity.
abbrev pub IsSize : Quantity → Type 0
IsSize q = (pos 0 <ℤ q) × IsInt64 q

-- A 64-bit quantity that may be zero.
abbrev pub IsAmount : Quantity → Type 0
IsAmount q = (pos 0 ≤ℤ q) × IsInt64 q

pub IsSize-IsAmount : (q : Quantity) → IsSize q → IsAmount q
IsSize-IsAmount q h = omega arith

pub amount_eq : (q : Quantity) → pos 0 ≤ℤ q → q ≡ pos (pos_part q)
amount_eq (pos n) h = refl
amount_eq (negsuc n) h = absurd (omega arith)

pub min-pos : (m n : ℕ) → min_ℤ (pos m) (pos n) ≡ pos (min m n)
min-pos m n = ground arith

pub sub-pos : (m n : ℕ) → n ≤ m → m < 2 ^ 63 → pos m -q pos n ≡ pos (m - n)
unfolding ◌-q◌
sub-pos m n h k = rw (pos-sub m n h) (int64_of_fits (pos (m - n)) (omega arith))

-- What the smaller of two amounts leaves of the first.
pub sub-min :
    (n : ℕ) (q : Quantity)
    → n < 2 ^ 63
    → IsAmount q
    → pos n -q min_ℤ (pos n) q ≡ pos (n - pos_part q)
sub-min n (pos m) h k =
    rw (min-pos n m) (sub-pos n (min n m) (omega arith) h ∙ ap pos (omega arith))
sub-min n (negsuc m) h k = absurd (omega arith)

-- The smaller of two positive sizes is one.
pub min-IsSize : (r q : Quantity) → IsSize r → IsSize q → IsSize (min_ℤ r q)
min-IsSize r q h k = ground arith

pub min-pos_part : (n : ℕ) (q : Quantity) → pos_part (min_ℤ (pos n) q) ≡ min n (pos_part q)
min-pos_part n (pos m) = rw (min-pos n m)
min-pos_part n (negsuc m) = ground arith

-- Taking away what a deduction left gives what was deducted.
pub sub_rest :
    (q : Quantity) (a : ℕ) → IsSize q → q -q pos (pos_part q - a) ≡ pos (min (pos_part q) a)
sub_rest (pos n) a h = sub-pos n (n - a) (omega arith) h.1.0 ∙ ap pos (omega arith)
sub_rest (negsuc n) a h = absurd (omega arith)

-- A queue of `x` that gives way to a reduction by `m`, and what overflows it.
pub absorbed_rest :
    (x : Quantity) (m : ℕ) → IsAmount x → x -q min_ℤ x (pos m) ≡ pos (pos_part x - m)
absorbed_rest (pos q) m h =
    rw (min-pos q m) (sub-pos q (min q m) (omega arith) h.1.0 ∙ ap pos (omega arith))
absorbed_rest (negsuc q) m h = absurd (omega arith)

pub absorbed_overflow :
    (x : Quantity) (m : ℕ)
    → m < 2 ^ 63
    → IsAmount x
    → pos m -q min_ℤ x (pos m) ≡ pos (m - pos_part x)
absorbed_overflow (pos q) m k h =
    rw (min-pos q m) (sub-pos m (min q m) (omega arith) k ∙ ap pos (omega arith))
absorbed_overflow (negsuc q) m k h = absurd (omega arith)

pub min-share : (m : ℕ) (x : Quantity) → IsSize x → min_ℤ (pos m) x ≡ pos (min m (pos_part x))
min-share m (pos r) h = min-pos m r
min-share m (negsuc r) h = absurd (omega arith)

pub sub-share :
    (m : ℕ) (x : Quantity) → IsSize x → x -q pos (min m (pos_part x)) ≡ pos (pos_part x - m)
sub-share m (pos r) h = sub-pos r (min m r) (omega arith) h.1.0 ∙ ap pos (omega arith)
sub-share m (negsuc r) h = absurd (omega arith)
