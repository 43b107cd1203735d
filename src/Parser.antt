-- ===== src/Parser.antt =====
-- engine/src/market_data/kraken_parser.cpp: from the text of a frame to a message of the book. The
-- calls of simdjson are the parameter `Simdjson`, on a type of JSON values; `none` is a thrown
-- `simdjson_error`. An exception of `fromDecimalString` is `none` too: both leave `parseBookMessage`.
pub mod Names
pub mod Documents
pub mod Json
mod Tests
use real_time_paper_trading.Parser.Names
use real_time_paper_trading.Base.{
  ℕ, ◌%◌, ◌^◌, Bool, not, Option, none, some, List, [], ◌∷◌, if◌then◌else◌, Text,
}
use real_time_paper_trading.Ticks.Decimal.{
  Parsed, parsed, thrown, price_from_decimal_string, quantity_from_decimal_string,
}
use real_time_paper_trading.Book.{PriceLevel}
use real_time_paper_trading.Client.{
  BookMessageType, snapshot, update, BookMessage, Frame, message, other_message, malformed,
  same_text,
}

-- The members of `simdjson::ondemand` that are called. `find_field` is `operator[]`.
pub record Simdjson (Value : Type 0) : Type 0 where
  pub iterate : Text → Option Value
  pub find_field : Value → Text → Option Value
  pub get_string : Value → Option Text
  pub get_array : Value → Option (List Value)
  pub get_uint64 : Value → Option ℕ
  pub raw_json_token : Value → Text

infixl 5 ◌>>=◌
abbrev pub ◌>>=◌ : {A B : Type 0} → Option A → (A → Option B) → Option B
none >>= next = none
some a >>= next = next a

abbrev pub returned : {A : Type 0} → Parsed A → Option A
returned (thrown e) = none
returned (parsed a) = some a

-- `at(0)`
abbrev pub first_of : {A : Type 0} → List A → Option A
first_of [] = none
first_of (a ∷ as_) = some a

unfoldable pub message_type : Text → Option BookMessageType
message_type t =
    if same_text t Names.snapshot
    then some snapshot
    else if same_text t Names.update
    then some update
    else none

module _ {Value : Type 0} (json : Simdjson Value) where
  open json use {iterate, find_field, get_string, get_array, get_uint64, raw_json_token}

  unfoldable pub parse_level : Value → Option PriceLevel
  parse_level level = do
    price_value ← find_field level Names.price
    qty_value ← find_field level Names.qty
    price ← returned (price_from_decimal_string (raw_json_token price_value))
    quantity ← returned (quantity_from_decimal_string (raw_json_token qty_value))
    some (record { price = price; quantity = quantity })

  unfoldable pub parse_levels : List Value → Option (List PriceLevel)
  parse_levels [] = some []
  parse_levels (level ∷ levels) = do l ← parse_level level; ls ← parse_levels levels; some (l ∷ ls)

  unfoldable pub channel_of : Value → Option Text
  channel_of doc = find_field doc Names.channel >>= get_string

  -- From the type on, where an exception is not caught.
  unfoldable pub book_message : Value → Option BookMessage
  book_message doc = do
    type_value ← find_field doc Names.type
    type_text ← get_string type_value
    type ← message_type type_text
    payload ← find_field doc Names.payload
    items ← get_array payload
    entry ← first_of items
    symbol_value ← find_field entry Names.symbol
    symbol ← get_string symbol_value
    bids_value ← find_field entry Names.bids
    bid_values ← get_array bids_value
    bids ← parse_levels bid_values
    asks_value ← find_field entry Names.asks
    ask_values ← get_array asks_value
    asks ← parse_levels ask_values
    checksum_value ← find_field entry Names.checksum
    checksum ← get_uint64 checksum_value
    some (record {
      symbol = symbol;
      type = type;
      bids = bids;
      asks = asks;
      checksum = checksum % 2 ^ 32;
    })

  unfoldable pub frame_of : Option BookMessage → Frame
  frame_of none = malformed
  frame_of (some m) = message m

  unfoldable pub parse_document : Value → Option Text → Frame
  parse_document doc none = other_message
  parse_document doc (some channel) =
      if not (same_text channel Names.book) then other_message else frame_of (book_message doc)

  -- From the document on; an exception of `iterate` is not caught.
  unfoldable pub parse_iterated : Option Value → Frame
  parse_iterated none = malformed
  parse_iterated (some doc) = parse_document doc (channel_of doc)

  unfoldable pub parse_book_message : Text → Frame
  parse_book_message raw = parse_iterated (iterate raw)
