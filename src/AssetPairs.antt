-- ===== src/AssetPairs.antt =====
-- engine/src/market_data/kraken_asset_pairs.cpp: the text of a symbol in the target of the request,
-- byte by byte; `std::isalnum` is that of the C locale. Fetch holds the request.
pub mod Names
pub mod Fetch
pub mod Listing
pub mod Encoding
mod Tests
use real_time_paper_trading.Base.{
  ℕ, ◌+◌, ◌-◌, ◌/◌, ◌%◌, Bool, ◌&&◌, ◌||◌, [], ◌∷◌, ◌++◌, ltb, leb, ◌==◌, if◌then◌else◌, length,
  replicate, Text,
}

unfoldable pub is_alnum : ℕ → Bool
is_alnum c = (leb b'0' c && leb c b'9') || (leb b'A' c && leb c b'Z') || (leb b'a' c && leb c b'z')

-- The bytes that are written as they are.
unfoldable pub is_kept : ℕ → Bool
is_kept c = is_alnum c || c == b'-' || c == b'_' || c == b'.' || c == b'~'

-- A digit under `std::hex << std::uppercase`.
unfoldable pub hex_digit : ℕ → ℕ
hex_digit d = if ltb d 10 then b'0' + d else b'A' + (d - 10)

-- The digits of a byte.
unfoldable pub hex : ℕ → Text
hex c = if ltb c 16 then hex_digit c ∷ [] else hex_digit (c / 16) ∷ hex_digit (c % 16) ∷ []

-- `std::setw(2) << std::setfill('0')`
unfoldable pub padded : Text → Text
padded s = replicate (2 - length s) b'0' ++ s

unfoldable pub encode_byte : ℕ → Text
encode_byte c = if is_kept c then c ∷ [] else b'%' ∷ padded (hex c)

unfoldable pub url_encode : Text → Text
url_encode [] = []
url_encode (c ∷ s) = encode_byte c ++ url_encode s
