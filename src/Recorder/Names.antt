-- ===== src/Recorder/Names.antt =====
-- The texts of engine/tools/replay/recorder.cpp.
use real_time_paper_trading.Base.{[], ◌∷◌, Text}

abbrev pub btc_usd : Text
btc_usd = b'B' ∷ b'T' ∷ b'C' ∷ b'/' ∷ b'U' ∷ b'S' ∷ b'D' ∷ []

abbrev pub symbol : Text
symbol = b'-' ∷ b'-' ∷ b's' ∷ b'y' ∷ b'm' ∷ b'b' ∷ b'o' ∷ b'l' ∷ []

abbrev pub out : Text
out = b'-' ∷ b'-' ∷ b'o' ∷ b'u' ∷ b't' ∷ []

abbrev pub duration : Text
duration = b'-' ∷ b'-' ∷ b'd' ∷ b'u' ∷ b'r' ∷ b'a' ∷ b't' ∷ b'i' ∷ b'o' ∷ b'n' ∷ []
