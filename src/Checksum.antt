-- ===== src/Checksum.antt =====
-- engine/include/engine/book/checksum.hpp and engine/src/book/checksum.cpp: the text of the best
-- levels that the exchange sums, and its sum. `crc32` is zlib's.
pub mod Digits
mod Tests
use real_time_paper_trading.Base.{
  ℕ, ◌+◌, ◌-◌, ◌%◌, ◌^◌, Option, none, some, [], ◌∷◌, ◌++◌, List, ◌==◌, if◌then◌else◌, length, take,
  drop, min, ℤ, Text, find,
}
use real_time_paper_trading.Ticks.{
  price_scale, price_scale_digits, quantity_scale, quantity_scale_digits,
}
use real_time_paper_trading.Ticks.Decimal.{format_fixed_point}
use real_time_paper_trading.Book.{PriceLevel}

abbrev pub checksum_depth : ℕ
checksum_depth = 10

-- The loop that drops the dots.
unfoldable pub without_dots : Text → Text
without_dots [] = []
without_dots (c ∷ s) = if c == b'.' then without_dots s else c ∷ without_dots s

-- `result.substr(result.find_first_not_of('0'))`; `[]` where there is no such position.
unfoldable pub from_first_nonzero : Text → Text
from_first_nonzero [] = []
from_first_nonzero (c ∷ s) = if c == b'0' then from_first_nonzero s else c ∷ s

unfoldable pub zero_if_empty : Text → Text
zero_if_empty [] = b'0' ∷ []
zero_if_empty (c ∷ s) = c ∷ s

unfoldable pub strip_for_checksum : Text → Text
strip_for_checksum digits = zero_if_empty (from_first_nonzero (without_dots digits))

-- `std::string::npos` where there is none.
unfoldable pub position : Option ℕ → ℕ
position none = 2 ^ 64 - 1
position (some i) = i

unfoldable pub format_at_native_precision : ℤ → ℕ → ℕ → ℕ → Text
format_at_native_precision ticks scale scale_digits native_decimals =
    let full = format_fixed_point ticks scale scale_digits in
    let dot = position (find b'.' full) in
    if native_decimals == 0 then take dot full else take ((dot + 1 + native_decimals) % 2 ^ 64) full

-- What one level adds to the buffer.
unfoldable pub level_text : PriceLevel → ℕ → ℕ → Text
level_text l price_decimals quantity_decimals =
    strip_for_checksum
      (format_at_native_precision l.price price_scale price_scale_digits price_decimals)
    ++ strip_for_checksum (
        format_at_native_precision l.quantity quantity_scale quantity_scale_digits
          quantity_decimals)

unfoldable pub append_each : Text → List PriceLevel → ℕ → ℕ → Text
append_each buffer [] price_decimals quantity_decimals = buffer
append_each buffer (l ∷ ls) price_decimals quantity_decimals =
    append_each (buffer ++ level_text l price_decimals quantity_decimals) ls price_decimals
      quantity_decimals

unfoldable pub append_levels : Text → List PriceLevel → ℕ → ℕ → Text
append_levels buffer levels price_decimals quantity_decimals =
    append_each buffer (take (min (length levels) checksum_depth) levels) price_decimals
      quantity_decimals

unfoldable pub compute_book_checksum : (Text → ℕ) → List PriceLevel → List PriceLevel → ℕ → ℕ → ℕ
compute_book_checksum crc32 ask_levels bid_levels price_decimals quantity_decimals = crc32 (
    append_levels (append_levels [] ask_levels price_decimals quantity_decimals) bid_levels
      price_decimals quantity_decimals)
