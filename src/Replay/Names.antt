-- ===== src/Replay/Names.antt =====
-- The texts of engine/tools/replay/replayer.cpp.
use real_time_paper_trading.Base.{[], ◌∷◌, Text}

abbrev pub real : Text
real = b'r' ∷ b'e' ∷ b'a' ∷ b'l' ∷ []

abbrev pub burst : Text
burst = b'b' ∷ b'u' ∷ b'r' ∷ b's' ∷ b't' ∷ []

abbrev pub n_times : Text
n_times = b'N' ∷ b'x' ∷ []

abbrev pub bench : Text
bench = b'b' ∷ b'e' ∷ b'n' ∷ b'c' ∷ b'h' ∷ []

abbrev pub verify : Text
verify = b'v' ∷ b'e' ∷ b'r' ∷ b'i' ∷ b'f' ∷ b'y' ∷ []

abbrev pub btc_usd : Text
btc_usd = b'B' ∷ b'T' ∷ b'C' ∷ b'/' ∷ b'U' ∷ b'S' ∷ b'D' ∷ []

abbrev pub in_flag : Text
in_flag = b'-' ∷ b'-' ∷ b'i' ∷ b'n' ∷ []

abbrev pub speed : Text
speed = b'-' ∷ b'-' ∷ b's' ∷ b'p' ∷ b'e' ∷ b'e' ∷ b'd' ∷ []

abbrev pub factor : Text
factor = b'-' ∷ b'-' ∷ b'f' ∷ b'a' ∷ b'c' ∷ b't' ∷ b'o' ∷ b'r' ∷ []

abbrev pub measure_pop : Text
measure_pop =
    b'-' ∷ b'-' ∷ b'm' ∷ b'e' ∷ b'a' ∷ b's' ∷ b'u' ∷ b'r' ∷ b'e' ∷ b'-' ∷ b'p' ∷ b'o' ∷ b'p' ∷ []

abbrev pub golden : Text
golden = b'-' ∷ b'-' ∷ b'g' ∷ b'o' ∷ b'l' ∷ b'd' ∷ b'e' ∷ b'n' ∷ []

abbrev pub update_golden : Text
update_golden =
    b'-' ∷ b'-' ∷ b'u' ∷ b'p' ∷ b'd' ∷ b'a' ∷ b't' ∷ b'e' ∷ b'-' ∷ b'g' ∷ b'o' ∷ b'l' ∷ b'd' ∷ b'e'
    ∷ b'n' ∷ []

abbrev pub symbol : Text
symbol = b'-' ∷ b'-' ∷ b's' ∷ b'y' ∷ b'm' ∷ b'b' ∷ b'o' ∷ b'l' ∷ []
