-- ===== src/Ticks/Decimal.antt =====
-- engine/include/engine/common/price_quantity.hpp: `parseFixedPoint` and `formatFixedPoint`, and
-- their uses by `Price` and `Quantity`. A character is its code; an exception is an `thrown`.
use real_time_paper_trading.Base.{
  ℕ, zero, suc, ◌-◌, ◌/◌, ◌%◌, Bool, true, false, ◌||◌, Option, none, some, [], ◌∷◌, ◌++◌, ltb,
  ◌==◌, if◌then◌else◌, length, take, drop, replicate, ℤ, pos, ltb_ℤ, ◌+ℤ◌, ◌-ℤ◌, ◌*ℤ◌, int64,
  bits64, Text, find, to_string,
}
use real_time_paper_trading.Ticks.{
  Price, Quantity, price_scale, price_scale_digits, quantity_scale, quantity_scale_digits,
}

-- The `std::invalid_argument` exceptions of `parseFixedPoint`.
pub data ParseError : Type 0 where
  empty_string too_many_fraction_digits invalid_character : ParseError

-- A call that returns, or that throws.
pub data Parsed (A : Type 0) : Type 0 where
  thrown : ParseError → Parsed A
  parsed : A → Parsed A

infixl 5 ◌>>=◌ ◌>>◌
abbrev pub ◌>>=◌ : {A B : Type 0} → Parsed A → (A → Parsed B) → Parsed B
thrown what >>= next = thrown what
parsed value >>= next = next value

-- `if (test) throw e;`
abbrev pub throw_if : Bool → ParseError → Parsed (Unit {0})
throw_if true what = thrown what
throw_if false what = parsed tt

abbrev pub ◌>>◌ : {B : Type 0} → Parsed (Unit {0}) → Parsed B → Parsed B
check >> next = check >>= λ _. next

-- The loop of `digitsToInt`, from a value.
unfoldable pub digits_from : ℤ → Text → Parsed ℤ
digits_from value [] = parsed value
digits_from value (c ∷ s) =
    let rest = digits_from (int64 (value *ℤ pos 10 +ℤ pos (c - b'0'))) s in
    if ltb c b'0' || ltb b'9' c then thrown invalid_character else rest

unfoldable pub digits_to_int : Text → Parsed ℤ
unfolding digits_from
digits_to_int = digits_from (pos 0)

-- `for (i = fracPart.size(); i < scaleDigits; ++i) fracValue *= 10;`, on the rounds left.
unfoldable pub scale_up : ℕ → ℤ → ℤ
scale_up zero v = v
scale_up (suc n) v = scale_up n (int64 (v *ℤ pos 10))

-- Whether the text begins with `-`, and what follows its sign.
unfoldable pub take_sign : Text → Bool × Text
take_sign [] = (false, [])
take_sign (c ∷ s) = if c == b'-' || c == b'+' then (c == b'-', s) else (false, c ∷ s)

-- `intPart` and `fracPart`, from the position of the dot.
unfoldable pub parts_at : Text → Option ℕ → Text × Text
parts_at s none = (s, [])
parts_at s (some dot) = (take dot s, drop (suc dot) s)

unfoldable pub is_empty : Text → Bool
is_empty [] = true
is_empty (c ∷ s) = false

-- The part of `parseFixedPoint` behind the sign.
unfoldable pub parse_unsigned : Text → ℕ → ℕ → Parsed ℤ
unfolding parts_at digits_to_int scale_up
parse_unsigned s scale scale_digits = do
  let parts = parts_at s (find b'.' s)
  throw_if (ltb scale_digits (length parts.1)) too_many_fraction_digits
  int_value ← digits_to_int parts.0
  frac_value ← digits_to_int parts.1
  parsed (
      int64 (int64 (int_value *ℤ pos scale) +ℤ scale_up (scale_digits - length parts.1) frac_value))

unfoldable pub parse_fixed_point : Text → ℕ → ℕ → Parsed ℤ
parse_fixed_point s scale scale_digits = do
  throw_if (is_empty s) empty_string
  let signed = take_sign s
  ticks ← parse_unsigned signed.1 scale scale_digits
  parsed (if signed.0 then int64 (pos 0 -ℤ ticks) else ticks)

-- `fracStr.insert(0, scaleDigits - fracStr.size(), '0')` where it is too short.
unfoldable pub pad_zeros : ℕ → Text → Text
pad_zeros n s = if ltb (length s) n then replicate (n - length s) b'0' ++ s else s

-- `absTicks`. The negation of an `int64_t` wraps.
unfoldable pub abs_ticks : ℤ → ℕ
abs_ticks ticks = if ltb_ℤ ticks (pos 0) then bits64 (int64 (pos 0 -ℤ ticks)) else bits64 ticks

unfoldable pub format_fixed_point : ℤ → ℕ → ℕ → Text
format_fixed_point ticks scale scale_digits =
    (if ltb_ℤ ticks (pos 0) then b'-' ∷ [] else [])
    ++ (to_string (abs_ticks ticks / scale)
        ++ (b'.' ∷ pad_zeros scale_digits (to_string (abs_ticks ticks % scale))))

unfoldable pub price_from_decimal_string : Text → Parsed Price
price_from_decimal_string s = parse_fixed_point s price_scale price_scale_digits

unfoldable pub price_to_decimal_string : Price → Text
price_to_decimal_string p = format_fixed_point p price_scale price_scale_digits

unfoldable pub quantity_from_decimal_string : Text → Parsed Quantity
quantity_from_decimal_string s = parse_fixed_point s quantity_scale quantity_scale_digits

unfoldable pub quantity_to_decimal_string : Quantity → Text
quantity_to_decimal_string q = format_fixed_point q quantity_scale quantity_scale_digits
