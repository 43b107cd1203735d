-- ===== src/Ticks/RoundTrip.antt =====
-- Printing a price or a quantity and reading it back
-- (engine/include/engine/common/price_quantity.hpp).
use native.Mathlib.Nat.{pow-suc}
use real_time_paper_trading.Base.{
  ℕ, zero, suc, ◌+◌, ◌-◌, ◌*◌, ◌/◌, ◌%◌, ◌^◌, ◌≤◌, ◌<◌, ◌≡◌, refl, ap, ◌∙◌, inl, inr, true, false,
  [], ◌∷◌, ◌++◌, arith, ltb, ltb→lt, Bool-cases, ◌==◌, length, length-append, length-replicate,
  replicate, All, ℤ, pos, negsuc, ltb_ℤ, ◌+ℤ◌, ◌-ℤ◌, ◌*ℤ◌, int64, int64_of_fits, pos-add, pos-mul,
  IsInt64, bits64, Text, to_string, decimal, IsDigit, decimal-IsDigit, length-decimal, find_after,
  take-length, drop-length,
}
use real_time_paper_trading.Ticks.{Price, Quantity}
use real_time_paper_trading.Ticks.Decimal.{
  parsed, ◌>>=◌, digits_from, take_sign, parse_unsigned, parse_fixed_point, pad_zeros, abs_ticks,
  format_fixed_point, price_from_decimal_string, price_to_decimal_string,
  quantity_from_decimal_string, quantity_to_decimal_string, is_empty,
}

digits_from-append :
    (v : ℤ) (s r : Text) → digits_from v (s ++ r) ≡ (digits_from v s >>= λ w. digits_from w r)
unfolding digits_from
digits_from-append v [] r = refl
digits_from-append v (c ∷ s) r =
    ground (arith, digits_from-append (int64 (v *ℤ pos 10 +ℤ pos (c - b'0'))) s r)

-- One more digit, where the value fits.
push_digit : (m d : ℕ) → m * 10 + d < 2 ^ 63 → int64 (pos m *ℤ pos 10 +ℤ pos d) ≡ pos (m * 10 + d)
push_digit m d h = rw (pos-mul, pos-add) (int64_of_fits (pos (m * 10 + d)) (h, omega arith))

digits_from_digit :
    (m d : ℕ)
    → d < 10
    → m * 10 + d < 2 ^ 63
    → digits_from (pos m) ((b'0' + d) ∷ []) ≡ parsed (pos (m * 10 + d))
unfolding digits_from
digits_from_digit m d h k =
    ground (arith, push_digit m d k, ap (λ t. int64 (pos m *ℤ pos 10 +ℤ pos t)) (code_digit d))
  where
    code_digit : (e : ℕ) → b'0' + e - b'0' ≡ e
    code_digit e = omega arith

-- Reading the digits of a number gives the number.
digits_from-decimal :
    (f n : ℕ) → n < 10 ^ f → n < 2 ^ 63 → digits_from (pos 0) (decimal f n) ≡ parsed (pos n)
unfolding decimal
digits_from-decimal zero n h k = unfold digits_from in ap (λ t. parsed (pos t)) (omega arith)
digits_from-decimal (suc f) n h k = elim (Bool-cases (ltb n 10)) [
  | inl e ↦
      rw e (
        digits_from_digit 0 n (ltb→lt n 10 e) (omega arith)
        ∙ ap (λ t. parsed (pos t)) (omega arith))
  | inr e ↦
      rw
        (
          e,
          digits_from-append (pos 0) (decimal f (n / 10)) ((b'0' + n % 10) ∷ []),
          digits_from-decimal f (n / 10) (omega (arith, pow-suc 10 f)) (omega arith),
        )
        (digits_from_digit (n / 10) (n % 10) (omega arith) (omega arith)
          ∙ ap (λ t. parsed (pos t)) (omega arith))
]

-- Leading zeros change nothing.
digits_from-replicate :
    (k : ℕ) (s : Text) → digits_from (pos 0) (replicate k b'0' ++ s) ≡ digits_from (pos 0) s
unfolding digits_from
digits_from-replicate zero s = refl
digits_from-replicate (suc k) s = rw (push_digit 0 0 (omega arith)) (digits_from-replicate k s)

digits_from-pad_zeros :
    (n : ℕ) (s : Text) → digits_from (pos 0) (pad_zeros n s) ≡ digits_from (pos 0) s
unfolding pad_zeros
digits_from-pad_zeros n s = ground (arith, digits_from-replicate (n - length s) s)

length-pad_zeros : (n : ℕ) (s : Text) → length s ≤ n → length (pad_zeros n s) ≡ n
unfolding pad_zeros
length-pad_zeros n s h = ground (
  arith,
  length-append (replicate (n - length s) b'0') s,
  length-replicate {A = ℕ} (n - length s) b'0',
)

-- A digit is no dot.
digits_no_dot : (s : Text) → All IsDigit s → All (λ d. (d == b'.') ≡ false) s
digits_no_dot [] h = tt
digits_no_dot (d ∷ s) h = (ground arith, digits_no_dot s h.1)

-- Reading the two parts that `formatFixedPoint` writes.
parse_unsigned_parts :
    (i fr scale k : ℕ)
    → i < 2 ^ 63
    → fr < 10 ^ suc k
    → fr < 2 ^ 63
    → suc k ≤ 19
    → parse_unsigned (to_string i ++ (b'.' ∷ pad_zeros (suc k) (to_string fr))) scale (suc k)
      ≡ parsed (int64 (int64 (pos i *ℤ pos scale) +ℤ pos fr))
unfolding parse_unsigned to_string
parse_unsigned_parts i fr scale k hi hf hg hk =
    rw
      (
        find_after b'.' (decimal 20 i) (pad_zeros (suc k) (decimal 20 fr))
            (digits_no_dot _ (decimal-IsDigit 20 i)),
        take-length (decimal 20 i) (b'.' ∷ pad_zeros (suc k) (decimal 20 fr)),
        drop-length (decimal 20 i) b'.' (pad_zeros (suc k) (decimal 20 fr)),
        length-pad_zeros (suc k) (decimal 20 fr) (length-decimal 20 k fr hf),
      )
      (rw (
        ltb_irrefl (suc k),
        sub_self (suc k),
        digits_from-decimal 20 i (omega arith) hi,
        digits_from-pad_zeros (suc k) (decimal 20 fr),
        digits_from-decimal 20 fr (omega arith) hg,
      ))
  where
    ltb_irrefl : (n : ℕ) → ltb n n ≡ false
    ltb_irrefl n = ground arith

    sub_self : (n : ℕ) → n - n ≡ 0
    sub_self n = omega arith

-- A text that begins with a digit has no sign.
take_sign_digits :
    (s r : Text) → All IsDigit s → 0 < length s → take_sign (s ++ r) ≡ (false, s ++ r)
unfolding take_sign
take_sign_digits [] r h k = absurd (omega arith)
take_sign_digits (d ∷ s) r h k = ground arith

decimal_nonempty : (f n : ℕ) → 0 < f → 0 < length (decimal f n)
unfolding decimal
decimal_nonempty zero n h = h
decimal_nonempty (suc f) n h =
    ground (arith, length-append (decimal f (n / 10)) ((b'0' + n % 10) ∷ []))

to_string-IsDigit : (n : ℕ) → All IsDigit (to_string n)
unfolding to_string
to_string-IsDigit n = decimal-IsDigit 20 n

to_string_nonempty : (n : ℕ) → 0 < length (to_string n)
unfolding to_string
to_string_nonempty n = decimal_nonempty 20 n (omega arith)

take_sign_minus : (s : Text) → take_sign (b'-' ∷ s) ≡ (true, s)
unfolding take_sign
take_sign_minus s = refl

is_empty_cons : (c : ℕ) (s : Text) → is_empty (c ∷ s) ≡ false
unfolding is_empty
is_empty_cons c s = refl

is_empty_digits : (s r : Text) (c : ℕ) → is_empty (s ++ (c ∷ r)) ≡ false
unfolding is_empty
is_empty_digits [] r c = refl
is_empty_digits (d ∷ s) r c = refl

-- The magnitude of an `int64_t` is at most 2 ^ 63, and signs give the value back.
abs_ticks_le : (t : ℤ) → IsInt64 t → abs_ticks t ≤ 2 ^ 63
unfolding abs_ticks bits64 int64 ◌-ℤ◌
abs_ticks_le (pos n) h = ground arith
abs_ticks_le (negsuc n) h = ground arith

abs_ticks_pos : (n : ℕ) → n < 2 ^ 63 → int64 (pos (abs_ticks (pos n))) ≡ pos n
unfolding abs_ticks bits64 int64
abs_ticks_pos n h = ground arith

abs_ticks_neg :
    (n : ℕ) → suc n ≤ 2 ^ 63 → int64 (pos 0 -ℤ int64 (pos (abs_ticks (negsuc n)))) ≡ negsuc n
unfolding abs_ticks bits64 int64 ◌-ℤ◌
abs_ticks_neg n h = ground arith

-- The magnitude is read back, up to the wrap-around at 2 ^ 63.
parse_unsigned_magnitude :
    (m : ℕ)
    → m ≤ 2 ^ 63
    → parse_unsigned
        (to_string (m / 10 ^ 10) ++ (b'.' ∷ pad_zeros 10 (to_string (m % 10 ^ 10))))
        (10 ^ 10)
        10
      ≡ parsed (int64 (pos m))
parse_unsigned_magnitude m h =
    parse_unsigned_parts (m / 10 ^ 10) (m % 10 ^ 10) (10 ^ 10) 9 (omega arith) (omega arith)
      (omega arith) (omega arith)
    ∙ ap parsed (
        rw (pos-mul, int64_of_fits (pos (m / 10 ^ 10 * 10 ^ 10)) (omega arith), pos-add)
          (ap (λ t. int64 (pos t)) (omega arith)))

pos_not_negative : (n : ℕ) → ltb_ℤ (pos n) (pos 0) ≡ false
pos_not_negative n = ground arith

negsuc_negative : (n : ℕ) → ltb_ℤ (negsuc n) (pos 0) ≡ true
negsuc_negative n = ground arith

-- Reading what `formatFixedPoint` prints, with ten places, of any 64-bit number gives it back.
parse_fixed_point-format_fixed_point :
    (t : ℤ)
    → IsInt64 t
    → parse_fixed_point (format_fixed_point t (10 ^ 10) 10) (10 ^ 10) 10 ≡ parsed t
unfolding parse_fixed_point format_fixed_point
parse_fixed_point-format_fixed_point (pos n) h =
    let m : ℕ = abs_ticks (pos n) in
    rw
      (
        pos_not_negative n,
        is_empty_digits (to_string (m / 10 ^ 10)) (pad_zeros 10 (to_string (m % 10 ^ 10))) b'.',
        take_sign_digits (to_string (m / 10 ^ 10)) (b'.' ∷ pad_zeros 10 (to_string (m % 10 ^ 10)))
            (to_string-IsDigit (m / 10 ^ 10)) (to_string_nonempty (m / 10 ^ 10)),
        parse_unsigned_magnitude m (abs_ticks_le (pos n) h),
      )
      (ap parsed (abs_ticks_pos n h.0))
parse_fixed_point-format_fixed_point (negsuc n) h =
    let m : ℕ = abs_ticks (negsuc n) in
    rw
      (
        negsuc_negative n,
        is_empty_cons b'-'
            (to_string (m / 10 ^ 10) ++ (b'.' ∷ pad_zeros 10 (to_string (m % 10 ^ 10)))),
        take_sign_minus
            (to_string (m / 10 ^ 10) ++ (b'.' ∷ pad_zeros 10 (to_string (m % 10 ^ 10)))),
        parse_unsigned_magnitude m (abs_ticks_le (negsuc n) h),
      )
      (ap parsed (abs_ticks_neg n h.1))

-- Reading the decimal text of any price gives the price back, the smallest `int64_t` included.
pub price_round_trip :
    (p : Price) → IsInt64 p → price_from_decimal_string (price_to_decimal_string p) ≡ parsed p
unfolding price_from_decimal_string price_to_decimal_string
price_round_trip p h = parse_fixed_point-format_fixed_point p h

pub quantity_round_trip :
    (q : Quantity)
    → IsInt64 q
    → quantity_from_decimal_string (quantity_to_decimal_string q) ≡ parsed q
unfolding quantity_from_decimal_string quantity_to_decimal_string
quantity_round_trip q h = parse_fixed_point-format_fixed_point q h
