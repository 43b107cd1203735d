-- ===== src/Parser/Documents.antt =====
-- Documents that stand for a message of the book, and what `parseBookMessage` makes of them
-- (engine/src/market_data/kraken_parser.cpp).
use real_time_paper_trading.Base.{
  ◌^◌, ◌<◌, ◌≡◌, refl, ap, some, List, [], ◌∷◌, Text, arith, IsInt64,
}
use real_time_paper_trading.Ticks.Decimal.{price_to_decimal_string, quantity_to_decimal_string}
use real_time_paper_trading.Ticks.RoundTrip.{price_round_trip, quantity_round_trip}
use real_time_paper_trading.Book.{PriceLevel}
use real_time_paper_trading.Client.{
  BookMessageType, snapshot, update, BookMessage, message, same_text,
}
use real_time_paper_trading.Parser.Names
use real_time_paper_trading.Parser.{
  Simdjson, message_type, parse_level, parse_levels, channel_of, book_message, frame_of,
  parse_document, parse_iterated, parse_book_message,
}

-- The text of a type.
abbrev pub type_name : BookMessageType → Text
type_name snapshot = Names.snapshot
type_name update = Names.update

message_type-type_name : (t : BookMessageType) → message_type (type_name t) ≡ some t
unfolding message_type same_text
message_type-type_name snapshot = refl
message_type-type_name update = refl

module _ {Value : Type 0} (json : Simdjson Value) where
  open json use {iterate, find_field, get_string, get_array, get_uint64, raw_json_token}

  -- An object with the two numbers of a level, as they are printed.
  pub record IsLevel (v : Value) (l : PriceLevel) : Type 0 where
    pub price_value : Value
    pub qty_value : Value
    pub price_found : find_field v Names.price ≡ some price_value
    pub price_token : raw_json_token price_value ≡ price_to_decimal_string l.price
    pub price_fits : IsInt64 l.price
    pub qty_found : find_field v Names.qty ≡ some qty_value
    pub qty_token : raw_json_token qty_value ≡ quantity_to_decimal_string l.quantity
    pub qty_fits : IsInt64 l.quantity

  unfoldable pub AreLevels : List Value → List PriceLevel → Type 0
  AreLevels [] [] = Unit {0}
  AreLevels [] (l ∷ ls) = ⊥
  AreLevels (v ∷ vs) [] = ⊥
  AreLevels (v ∷ vs) (l ∷ ls) = IsLevel v l × AreLevels vs ls

  -- A field that is an array of levels.
  pub record HasLevels (entry : Value) (name : Text) (ls : List PriceLevel) : Type 0 where
    pub value : Value
    pub items : List Value
    pub found : find_field entry name ≡ some value
    pub array : get_array value ≡ some items
    pub levels : AreLevels items ls

  -- A field that is a string.
  pub record HasString (object : Value) (name text : Text) : Type 0 where
    pub value : Value
    pub found : find_field object name ≡ some value
    pub string : get_string value ≡ some text

  pub record IsBookDocument (doc : Value) (m : BookMessage) : Type 0 where
    pub payload : Value
    pub entry : Value
    pub checksum_value : Value
    pub others : List Value
    pub channel : HasString doc Names.channel Names.book
    pub type : HasString doc Names.type (type_name m.type)
    pub payload_found : find_field doc Names.payload ≡ some payload
    pub payload_array : get_array payload ≡ some (entry ∷ others)
    pub symbol : HasString entry Names.symbol m.symbol
    pub bids : HasLevels entry Names.bids m.bids
    pub asks : HasLevels entry Names.asks m.asks
    pub checksum_found : find_field entry Names.checksum ≡ some checksum_value
    pub checksum : get_uint64 checksum_value ≡ some m.checksum
    pub checksum_fits : m.checksum < 2 ^ 32

  parse_level_lem : {v : Value} {l : PriceLevel} → IsLevel v l → parse_level json v ≡ some l
  unfolding parse_level
  parse_level_lem {v} {l} is =
      rw
        (
          is.price_found,
          is.qty_found,
          is.price_token,
          is.qty_token,
          price_round_trip l.price is.price_fits,
          quantity_round_trip l.quantity is.qty_fits,
        )
        refl

  parse_levels_lem :
      (vs : List Value) (ls : List PriceLevel) → AreLevels vs ls → parse_levels json vs ≡ some ls
  unfolding AreLevels parse_levels
  parse_levels_lem [] [] is = refl
  parse_levels_lem [] (l ∷ ls) is = elim is [ ]
  parse_levels_lem (v ∷ vs) [] is = elim is [ ]
  parse_levels_lem (v ∷ vs) (l ∷ ls) is =
      rw (parse_level_lem is.0, parse_levels_lem vs ls is.1) refl

  book_message_lem :
      {doc : Value} {m : BookMessage} → IsBookDocument doc m → book_message json doc ≡ some m
  unfolding book_message
  book_message_lem {doc} {m} is =
      rw
        (
          is.type.found,
          is.type.string,
          message_type-type_name m.type,
          is.payload_found,
          is.payload_array,
          is.symbol.found,
          is.symbol.string,
          is.bids.found,
          is.bids.array,
          parse_levels_lem is.bids.items m.bids is.bids.levels,
          is.asks.found,
          is.asks.array,
          parse_levels_lem is.asks.items m.asks is.asks.levels,
          is.checksum_found,
          is.checksum,
        )
        (ap (λ n. some (record m { checksum = n })) (omega (arith, is.checksum_fits)))

  -- Where a frame is read as a document that stands for a message, `parseBookMessage` returns that
  -- message: its symbol, its type, each price and each quantity of its levels in their order, and its
  -- checksum. The document gives the numbers of the levels as they are printed; each fits 64 bits and
  -- the checksum 32.
  pub parse_book_message_lem :
      (raw : Text) (doc : Value) (m : BookMessage)
      → iterate raw ≡ some doc
      → IsBookDocument doc m
      → parse_book_message json raw ≡ message m
  unfolding parse_book_message parse_iterated parse_document channel_of frame_of same_text
  parse_book_message_lem raw doc m read is =
      rw (read, is.channel.found, is.channel.string, book_message_lem is) refl
