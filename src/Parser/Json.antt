-- ===== src/Parser/Json.antt =====
-- Small JSON values with the accessors that engine/src/market_data/kraken_parser.cpp calls, for runs.
use real_time_paper_trading.Base.{ℕ, Option, none, some, List, [], ◌∷◌, if◌then◌else◌, Text}
use real_time_paper_trading.Client.{same_text}
use real_time_paper_trading.Parser.{Simdjson}

-- Objects and arrays are rows of members and of items.
pub data Json : Type 0 where
  quoted token : Text → Json
  number : ℕ → Json
  end : Json
  member : Text → Json → Json → Json
  item : Json → Json → Json

unfoldable pub field_of : Json → Text → Option Json
field_of (member n v rest) name =
    let found = field_of rest name in if same_text n name then some v else found
field_of (quoted t) name = none
field_of (token t) name = none
field_of (number n) name = none
field_of end name = none
field_of (item v rest) name = none

unfoldable pub string_of : Json → Option Text
string_of (quoted t) = some t
string_of (token t) = none
string_of (number n) = none
string_of end = none
string_of (member n v rest) = none
string_of (item v rest) = none

abbrev after_item : Json → Option (List Json) → Option (List Json)
after_item v none = none
after_item v (some vs) = some (v ∷ vs)

unfoldable pub items_of : Json → Option (List Json)
items_of end = some []
items_of (item v rest) = after_item v (items_of rest)
items_of (quoted t) = none
items_of (token t) = none
items_of (number n) = none
items_of (member n v rest) = none

unfoldable pub uint64_of : Json → Option ℕ
uint64_of (number n) = some n
uint64_of (quoted t) = none
uint64_of (token t) = none
uint64_of end = none
uint64_of (member n v rest) = none
uint64_of (item v rest) = none

unfoldable pub token_of : Json → Text
token_of (token t) = t
token_of (quoted t) = t
token_of (number n) = []
token_of end = []
token_of (member n v rest) = []
token_of (item v rest) = []

-- A reader for which every text is one document.
abbrev pub reader_of : Json → Simdjson Json
reader_of document = record {
  iterate = λ raw. some document;
  find_field = field_of;
  get_string = string_of;
  get_array = items_of;
  get_uint64 = uint64_of;
  raw_json_token = token_of;
}
