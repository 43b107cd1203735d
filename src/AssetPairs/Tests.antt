-- ===== src/AssetPairs/Tests.antt =====
-- A server that lists one pair, an instance of the law of the fetch, and runs.
use real_time_paper_trading.Base.{
  ◌≡◌, refl, inl, inr, true, Bool-cases, if◌then◌else◌, Option, none, some, List, [], ◌∷◌, length,
  drop, arith, Text, ℤ, pos,
}
use real_time_paper_trading.Client.{same_text}
use real_time_paper_trading.Parser.Json.{
  Json, quoted, token, number, end, member, item, field_of, items_of,
}
use real_time_paper_trading.AssetPairs.Names
use real_time_paper_trading.AssetPairs.Fetch.{
  Answer, Https, AnswerJson, fetch_kraken_asset_pair_precision,
}
use real_time_paper_trading.AssetPairs.Listing.{
  Listing, unlisted, listed, precision_listed, Says, refused, found, Serves,
  fetch_kraken_asset_pair_precision_lem,
}
use real_time_paper_trading.AssetPairs.{
  is_alnum, is_kept, hex_digit, hex, padded, encode_byte, url_encode,
}
use real_time_paper_trading.AssetPairs.Encoding.{plain, decode}

abbrev pair : Text
pair = b'X' ∷ b'B' ∷ b'T' ∷ b'/' ∷ b'U' ∷ b'S' ∷ b'D' ∷ []

encode_pair : url_encode pair ≡ b'X' ∷ b'B' ∷ b'T' ∷ b'%' ∷ b'2' ∷ b'F' ∷ b'U' ∷ b'S' ∷ b'D' ∷ []
unfolding url_encode encode_byte padded hex hex_digit is_kept is_alnum
encode_pair = refl

-- The values of the members of an object.
abbrev after_member : Json → Option (List Json) → Option (List Json)
after_member v none = none
after_member v (some vs) = some (v ∷ vs)

unfoldable members_of : Json → Option (List Json)
members_of end = some []
members_of (member n v rest) = after_member v (members_of rest)
members_of (quoted t) = none
members_of (token t) = none
members_of (number n) = none
members_of (item v rest) = none

unfoldable int64_of : Json → Option ℤ
int64_of (number n) = some (pos n)
int64_of (quoted t) = none
int64_of (token t) = none
int64_of end = none
int64_of (member n v rest) = none
int64_of (item v rest) = none

abbrev decimals : Json
decimals = member Names.pair_decimals (number 1) (member Names.lot_decimals (number 8) end)

abbrev answered : Json
answered = member Names.error end (member Names.result (member pair decimals end) end)

abbrev unknown_pair : Json
unknown_pair = member Names.error (item (quoted []) end) end

-- The empty body is the answer for an unknown pair.
abbrev json : AnswerJson Json
json = record {
  iterate = λ body. some (if same_text body [] then unknown_pair else answered);
  find_field = field_of;
  get_array = items_of;
  get_object = members_of;
  get_int64 = int64_of;
}

abbrev listing : Text → Listing
listing symbol = if same_text symbol pair then listed 1 8 else unlisted

abbrev answer_to : Option Text → Option Answer
answer_to none = none
answer_to (some symbol) =
    some (record { ok = true; body = if same_text symbol pair then pair else [] })

abbrev server : Https
server = record {
  resolve = λ host port. true;
  set_host_name = λ host. true;
  exchange = λ request. answer_to (decode plain (drop (length Names.query) request.target));
}

answer-listing : (symbol : Text) → Says json (answer_to (some symbol)) (listing symbol)
unfolding same_text field_of items_of members_of int64_of
answer-listing symbol = elim (Bool-cases (same_text symbol pair)) [
  | inl e ↦ rw e (
      found {doc = answered} {pair = decimals} {pairs = []}
        (record { value = end; read = refl; found = refl; array = refl })
        (record { value = member pair decimals end; found = refl; object = refl })
        (record {
          fields = number 1 ∷ number 8 ∷ [];
          object = refl;
          pair_decimals = record {
            value = number 1;
            found = refl;
            number = refl;
            fits = omega arith;
          };
          lot_decimals = record {
            value = number 8;
            found = refl;
            number = refl;
            fits = omega arith;
          };
        }))
  | inr e ↦ rw e (
      refused {doc = unknown_pair} {error = quoted []} {errors = []}
        (record { value = item (quoted []) end; read = refl; found = refl; array = refl }))
]

server-Serves : Serves json server listing
unfolding Serves
server-Serves symbol encoded read = rw read (answer-listing symbol)

fetch_example : fetch_kraken_asset_pair_precision json server pair ≡ precision_listed (listing pair)
fetch_example =
    fetch_kraken_asset_pair_precision_lem json server listing refl refl server-Serves pair (
      omega arith,
      (omega arith, (omega arith, (omega arith, (omega arith, (omega arith, (omega arith, tt)))))),
    )
