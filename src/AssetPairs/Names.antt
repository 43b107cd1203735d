-- ===== src/AssetPairs/Names.antt =====
-- The texts of engine/src/market_data/kraken_asset_pairs.cpp: the server, the request and the fields of
-- its answer.
use real_time_paper_trading.Base.{[], ◌∷◌, Text}

abbrev pub k_host : Text
k_host =
    b'a' ∷ b'p' ∷ b'i' ∷ b'.' ∷ b'k' ∷ b'r' ∷ b'a' ∷ b'k' ∷ b'e' ∷ b'n' ∷ b'.' ∷ b'c' ∷ b'o' ∷ b'm'
    ∷ []

abbrev pub k_port : Text
k_port = b'4' ∷ b'4' ∷ b'3' ∷ []

abbrev pub query : Text
query =
    b'/' ∷ b'0' ∷ b'/' ∷ b'p' ∷ b'u' ∷ b'b' ∷ b'l' ∷ b'i' ∷ b'c' ∷ b'/' ∷ b'A' ∷ b's' ∷ b's' ∷ b'e'
    ∷ b't' ∷ b'P' ∷ b'a' ∷ b'i' ∷ b'r' ∷ b's' ∷ b'?' ∷ b'p' ∷ b'a' ∷ b'i' ∷ b'r' ∷ b'=' ∷ []

abbrev pub user_agent : Text
user_agent =
    b'p' ∷ b'a' ∷ b'p' ∷ b'e' ∷ b'r' ∷ b'-' ∷ b't' ∷ b'r' ∷ b'a' ∷ b'd' ∷ b'e' ∷ b'r' ∷ b'-' ∷ b'e'
    ∷ b'n' ∷ b'g' ∷ b'i' ∷ b'n' ∷ b'e' ∷ []

abbrev pub error : Text
error = b'e' ∷ b'r' ∷ b'r' ∷ b'o' ∷ b'r' ∷ []

abbrev pub result : Text
result = b'r' ∷ b'e' ∷ b's' ∷ b'u' ∷ b'l' ∷ b't' ∷ []

abbrev pub pair_decimals : Text
pair_decimals =
    b'p' ∷ b'a' ∷ b'i' ∷ b'r' ∷ b'_' ∷ b'd' ∷ b'e' ∷ b'c' ∷ b'i' ∷ b'm' ∷ b'a' ∷ b'l' ∷ b's' ∷ []

abbrev pub lot_decimals : Text
lot_decimals =
    b'l' ∷ b'o' ∷ b't' ∷ b'_' ∷ b'd' ∷ b'e' ∷ b'c' ∷ b'i' ∷ b'm' ∷ b'a' ∷ b'l' ∷ b's' ∷ []
