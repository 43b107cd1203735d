-- ===== src/Parser/Tests.antt =====
-- A reader of small JSON values, and an instance of the law of the parser.
use real_time_paper_trading.Base.{◌≡◌, refl, arith, [], ◌∷◌, pos}
use real_time_paper_trading.Ticks.Decimal.{price_to_decimal_string, quantity_to_decimal_string}
use real_time_paper_trading.Book.{PriceLevel}
use real_time_paper_trading.Client.{update, BookMessage, message, same_text}
use real_time_paper_trading.Parser.{Simdjson, parse_book_message}
use real_time_paper_trading.Parser.Names
use real_time_paper_trading.Parser.Json.{
  Json, quoted, token, number, end, member, item, field_of, string_of, items_of, uint64_of,
  token_of, reader_of,
}
use real_time_paper_trading.Parser.Documents.{IsBookDocument, AreLevels, parse_book_message_lem}

abbrev best : PriceLevel
best = record { price = pos 45283500000000; quantity = pos 1000000000 }

abbrev told : BookMessage
told = record {
  symbol = b'X' ∷ [];
  type = update;
  bids = best ∷ [];
  asks = [];
  checksum = 3310070434;
}

abbrev level_object : Json
level_object =
    member Names.price (token (price_to_decimal_string best.price))
      (member Names.qty (token (quantity_to_decimal_string best.quantity)) end)

abbrev entry : Json
entry = member Names.symbol (quoted (b'X' ∷ [])) (
    member Names.bids (item level_object end)
      (member Names.asks end (member Names.checksum (number 3310070434) end)))

abbrev document : Json
document =
    member Names.channel (quoted Names.book)
      (member Names.type (quoted Names.update) (member Names.payload (item entry end) end))

abbrev reader : Simdjson Json
reader = reader_of document

document_stands : IsBookDocument reader document told
unfolding AreLevels field_of string_of items_of uint64_of token_of same_text
document_stands = record {
  payload = item entry end;
  entry = entry;
  others = [];
  checksum_value = number 3310070434;
  channel = record { value = quoted Names.book; found = refl; string = refl };
  type = record { value = quoted Names.update; found = refl; string = refl };
  payload_found = refl;
  payload_array = refl;
  symbol = record { value = quoted (b'X' ∷ []); found = refl; string = refl };
  bids = record {
    value = item level_object end;
    items = level_object ∷ [];
    found = refl;
    array = refl;
    levels = (
      record {
        price_value = token (price_to_decimal_string best.price);
        qty_value = token (quantity_to_decimal_string best.quantity);
        price_found = refl;
        price_token = refl;
        price_fits = (omega arith, omega arith);
        qty_found = refl;
        qty_token = refl;
        qty_fits = (omega arith, omega arith);
      },
      tt,
    );
  };
  asks = record { value = end; items = []; found = refl; array = refl; levels = tt };
  checksum_found = refl;
  checksum = refl;
  checksum_fits = omega arith;
}

parse_book_message_example : parse_book_message reader (b'{' ∷ []) ≡ message told
parse_book_message_example =
    parse_book_message_lem reader (b'{' ∷ []) document told refl document_stands
