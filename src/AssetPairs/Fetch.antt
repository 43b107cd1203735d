-- ===== src/AssetPairs/Fetch.antt =====
-- engine/src/market_data/kraken_asset_pairs.cpp: the request for the decimals of a pair, and the reading
-- of its answer. The calls of boost and of simdjson are the parameters `Https` and `AnswerJson`; `none` and
-- a false `resolve` stand for a thrown exception, all of which the function catches.
use real_time_paper_trading.Base.{
  ◌-◌, ◌%◌, ◌^◌, Bool, not, Option, none, some, List, [], ◌∷◌, ◌++◌, ltb, length, if◌then◌else◌,
  Text, ℤ, pos, negsuc, bits64,
}
use real_time_paper_trading.AssetPairs.{url_encode}
use real_time_paper_trading.AssetPairs.Names
use real_time_paper_trading.Parser.{◌>>=◌}

-- `SymbolPrecision`, with the sign that an `int` has.
pub record FetchedPrecision : Type 0 where
  pub pair_decimals : ℤ
  pub lot_decimals : ℤ

pub record Request : Type 0 where
  pub target : Text
  pub host : Text
  pub user_agent : Text

-- Whether the status is `http::status::ok`, and the body.
pub record Answer : Type 0 where
  pub ok : Bool
  pub body : Text

-- `exchange` connects, shakes hands, writes the request and reads the response, under the timeout.
pub record Https : Type 0 where
  pub resolve : Text → Text → Bool
  pub set_host_name : Text → Bool
  pub exchange : Request → Option Answer

-- `get_object` gives the values of the fields, in their order.
pub record AnswerJson (Value : Type 0) : Type 0 where
  pub iterate : Text → Option Value
  pub find_field : Value → Text → Option Value
  pub get_array : Value → Option (List Value)
  pub get_object : Value → Option (List Value)
  pub get_int64 : Value → Option ℤ

-- `static_cast<int>`
unfoldable pub int32 : ℤ → ℤ
unfolding bits64
int32 a = let w = bits64 a % 2 ^ 32 in if ltb w (2 ^ 31) then pos w else negsuc (2 ^ 32 - w - 1)

unfoldable pub request_of : Text → Request
request_of symbol = record {
  target = Names.query ++ url_encode symbol;
  host = Names.k_host;
  user_agent = Names.user_agent;
}

module _ {Value : Type 0} (json : AnswerJson Value) where
  open json use {iterate, find_field, get_array, get_object, get_int64}

  -- The loop over the fields of the result, which returns in its first round.
  unfoldable pub first_pair : List Value → Option FetchedPrecision
  first_pair [] = none
  first_pair (v ∷ vs) = do
    fields ← get_object v
    pair_value ← find_field v Names.pair_decimals
    pair ← get_int64 pair_value
    lot_value ← find_field v Names.lot_decimals
    lot ← get_int64 lot_value
    some (record { pair_decimals = int32 pair; lot_decimals = int32 lot })

  unfoldable pub read_body : Text → Option FetchedPrecision
  read_body body = do
    doc ← iterate body
    error ← find_field doc Names.error
    errors ← get_array error
    if ltb 0 (length errors)
        then none
        else find_field doc Names.result >>= get_object >>= first_pair

  unfoldable pub read_answer : Option Answer → Option FetchedPrecision
  read_answer none = none
  read_answer (some answer) = if not answer.ok then none else read_body answer.body

  unfoldable pub fetch_kraken_asset_pair_precision : Https → Text → Option FetchedPrecision
  fetch_kraken_asset_pair_precision https symbol =
      if not (https.resolve Names.k_host Names.k_port)
      then none
      else if not (https.set_host_name Names.k_host)
      then none
      else read_answer (https.exchange (request_of symbol))
