-- ===== src/Ticks.antt =====
-- engine/include/engine/common/price_quantity.hpp: prices and quantities in integer ticks.
-- `Price` and `Quantity` each hold one `int64_t`, `ticks`; here they are that integer, and the
-- operators of `Quantity` wrap as the hardware does.
pub mod Decimal
pub mod RoundTrip
pub mod Amounts
mod Tests
use real_time_paper_trading.Base.{ℕ, ◌^◌, Bool, leb, ℤ, ◌+ℤ◌, ◌-ℤ◌, int64}

abbrev pub Price : Type 0
Price = ℤ

abbrev pub Quantity : Type 0
Quantity = ℤ

abbrev pub price_scale : ℕ
price_scale = 10 ^ 10

abbrev pub price_scale_digits : ℕ
price_scale_digits = 10

abbrev pub quantity_scale : ℕ
quantity_scale = 10 ^ 10

abbrev pub quantity_scale_digits : ℕ
quantity_scale_digits = 10

pub price_scale_supports : ℕ → Bool
price_scale_supports pair_decimals = leb pair_decimals price_scale_digits

pub quantity_scale_supports : ℕ → Bool
quantity_scale_supports lot_decimals = leb lot_decimals quantity_scale_digits

infixl 65 ◌-q◌ ◌+q◌
unfoldable pub ◌-q◌ : Quantity → Quantity → Quantity
a -q b = int64 (a -ℤ b)

unfoldable pub ◌+q◌ : Quantity → Quantity → Quantity
a +q b = int64 (a +ℤ b)
