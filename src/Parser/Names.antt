-- ===== src/Parser/Names.antt =====
-- The names of the fields and the values that engine/src/market_data/kraken_parser.cpp looks for.
use real_time_paper_trading.Base.{[], ◌∷◌, Text}

abbrev pub channel : Text
channel = b'c' ∷ b'h' ∷ b'a' ∷ b'n' ∷ b'n' ∷ b'e' ∷ b'l' ∷ []

abbrev pub book : Text
book = b'b' ∷ b'o' ∷ b'o' ∷ b'k' ∷ []

abbrev pub type : Text
type = b't' ∷ b'y' ∷ b'p' ∷ b'e' ∷ []

abbrev pub snapshot : Text
snapshot = b's' ∷ b'n' ∷ b'a' ∷ b'p' ∷ b's' ∷ b'h' ∷ b'o' ∷ b't' ∷ []

abbrev pub update : Text
update = b'u' ∷ b'p' ∷ b'd' ∷ b'a' ∷ b't' ∷ b'e' ∷ []

abbrev pub payload : Text
payload = b'd' ∷ b'a' ∷ b't' ∷ b'a' ∷ []

abbrev pub symbol : Text
symbol = b's' ∷ b'y' ∷ b'm' ∷ b'b' ∷ b'o' ∷ b'l' ∷ []

abbrev pub bids : Text
bids = b'b' ∷ b'i' ∷ b'd' ∷ b's' ∷ []

abbrev pub asks : Text
asks = b'a' ∷ b's' ∷ b'k' ∷ b's' ∷ []

abbrev pub checksum : Text
checksum = b'c' ∷ b'h' ∷ b'e' ∷ b'c' ∷ b'k' ∷ b's' ∷ b'u' ∷ b'm' ∷ []

abbrev pub price : Text
price = b'p' ∷ b'r' ∷ b'i' ∷ b'c' ∷ b'e' ∷ []

abbrev pub qty : Text
qty = b'q' ∷ b't' ∷ b'y' ∷ []
