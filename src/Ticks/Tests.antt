-- ===== src/Ticks/Tests.antt =====
-- Instances of the laws of prices and quantities, and runs of the functions.
use real_time_paper_trading.Base.{
  ◌-◌, ◌^◌, ◌≡◌, refl, [], ◌∷◌, arith, decimal, to_string, find, pos, negsuc, ◌+ℤ◌, ◌-ℤ◌, ◌*ℤ◌,
  int64, bits64,
}
use real_time_paper_trading.Ticks.Decimal.{
  parsed, thrown, invalid_character, digits_from, take_sign, is_empty, parse_unsigned,
  parse_fixed_point, pad_zeros, abs_ticks, format_fixed_point, price_from_decimal_string,
  price_to_decimal_string,
}
use real_time_paper_trading.Ticks.RoundTrip.{price_round_trip}

-- "-0.05" with ten places
minus_five_cents :
    price_to_decimal_string (negsuc 499999999)
    ≡ b'-' ∷ b'0' ∷ b'.' ∷ b'0' ∷ b'5' ∷ b'0' ∷ b'0' ∷ b'0' ∷ b'0' ∷ b'0' ∷ b'0' ∷ b'0' ∷ b'0' ∷ []
unfolding price_to_decimal_string format_fixed_point pad_zeros abs_ticks to_string decimal int64
    bits64 ◌-ℤ◌
minus_five_cents = refl

-- "12.5"
read_half : price_from_decimal_string (b'1' ∷ b'2' ∷ b'.' ∷ b'5' ∷ []) ≡ parsed (pos 125000000000)
unfolding price_from_decimal_string parse_fixed_point is_empty take_sign parse_unsigned find
    digits_from ◌*ℤ◌ ◌+ℤ◌ int64
read_half = refl

-- "1x" and ""
refused : price_from_decimal_string (b'1' ∷ b'x' ∷ []) ≡ thrown invalid_character
unfolding price_from_decimal_string parse_fixed_point is_empty take_sign parse_unsigned find
    digits_from ◌*ℤ◌ ◌+ℤ◌ int64
refused = refl

price_round_trip_example :
    price_from_decimal_string (price_to_decimal_string (negsuc (2 ^ 63 - 1)))
    ≡ parsed (negsuc (2 ^ 63 - 1))
price_round_trip_example = price_round_trip (negsuc (2 ^ 63 - 1)) (omega arith)
