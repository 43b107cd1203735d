-- ===== src/AssetPairs/Listing.antt =====
-- What a server that lists pairs answers, and what `fetchKrakenAssetPairPrecision` makes of it
-- (engine/src/market_data/kraken_asset_pairs.cpp).
use real_time_paper_trading.Base.{
  ℕ, suc, ltb, if◌then◌else◌, ◌^◌, ◌<◌, ◌≡◌, refl, ap, true, false, Option, none, some, List, [],
  ◌∷◌, ◌++◌, length, Text, All, pos, bits64, arith,
}
use real_time_paper_trading.Parser.{◌>>=◌}
use real_time_paper_trading.AssetPairs.{url_encode}
use real_time_paper_trading.AssetPairs.Names
use real_time_paper_trading.AssetPairs.Encoding.{plain, decode, url_encode_round_trip}
use real_time_paper_trading.AssetPairs.Fetch.{
  FetchedPrecision, Answer, Https, AnswerJson, int32, request_of, first_pair, read_body,
  read_answer, fetch_kraken_asset_pair_precision,
}

-- What there is to know of a symbol: no answer, no such pair, or the decimals of its prices and its lots.
pub data Listing : Type 0 where
  unreachable unlisted : Listing
  listed : ℕ → ℕ → Listing

unfoldable pub precision_listed : Listing → Option FetchedPrecision
precision_listed unreachable = none
precision_listed unlisted = none
precision_listed (listed p l) = some (record { pair_decimals = pos p; lot_decimals = pos l })

positive_suc : (n : ℕ) → ltb 0 (suc n) ≡ true
positive_suc n = ground arith

int32_small : (n : ℕ) → n < 2 ^ 31 → int32 (pos n) ≡ pos n
unfolding int32 bits64
int32_small n h = ground arith

module _ {Value : Type 0} (json : AnswerJson Value) where
  open json use {iterate, find_field, get_array, get_object, get_int64}

  -- A document whose list of errors is `errors`.
  pub record HasErrors (body : Text) (doc : Value) (errors : List Value) : Type 0 where
    pub value : Value
    pub read : iterate body ≡ some doc
    pub found : find_field doc Names.error ≡ some value
    pub array : get_array value ≡ some errors

  -- The fields of its result.
  pub record HasResult (doc : Value) (pairs : List Value) : Type 0 where
    pub value : Value
    pub found : find_field doc Names.result ≡ some value
    pub object : get_object value ≡ some pairs

  pub record HasNumber (pair : Value) (name : Text) (n : ℕ) : Type 0 where
    pub value : Value
    pub found : find_field pair name ≡ some value
    pub number : get_int64 value ≡ some (pos n)
    pub fits : n < 2 ^ 31

  pub record IsPair (pair : Value) (p l : ℕ) : Type 0 where
    pub fields : List Value
    pub object : get_object pair ≡ some fields
    pub pair_decimals : HasNumber pair Names.pair_decimals p
    pub lot_decimals : HasNumber pair Names.lot_decimals l

  -- The answers that say what there is to know.
  pub data Says : Option Answer → Listing → Type 0 where
    lost : Says none unreachable
    failed : (body : Text) → Says (some (record { ok = false; body = body })) unreachable
    refused :
        {body : Text} {doc error : Value} {errors : List Value}
        → HasErrors body doc (error ∷ errors)
        → Says (some (record { ok = true; body = body })) unlisted
    empty :
        {body : Text} {doc : Value}
        → HasErrors body doc []
        → HasResult doc []
        → Says (some (record { ok = true; body = body })) unlisted
    found :
        {body : Text} {doc pair : Value} {pairs : List Value} {p l : ℕ}
        → HasErrors body doc []
        → HasResult doc (pair ∷ pairs)
        → IsPair pair p l
        → Says (some (record { ok = true; body = body })) (listed p l)

  first_pair_lem :
      {pair : Value} {p l : ℕ} (pairs : List Value)
      → IsPair pair p l
      → first_pair json (pair ∷ pairs) ≡ precision_listed (listed p l)
  unfolding first_pair precision_listed
  first_pair_lem {p = p} {l = l} pairs is =
      rw
        (
          is.object,
          is.pair_decimals.found,
          is.pair_decimals.number,
          is.lot_decimals.found,
          is.lot_decimals.number,
          int32_small p is.pair_decimals.fits,
          int32_small l is.lot_decimals.fits,
        )
        refl

  read_answer_lem :
      {answer : Option Answer} {listing : Listing}
      → Says answer listing
      → read_answer json answer ≡ precision_listed listing
  unfolding read_answer read_body first_pair precision_listed
  read_answer_lem lost = refl
  read_answer_lem (failed body) = refl
  read_answer_lem (refused {doc = doc} {errors = errors} e) =
      rw (e.read, e.found, e.array)
        (ap
          (λ any.
            if any then none else find_field doc Names.result >>= get_object >>= first_pair json)
          (positive_suc (length errors)))
  read_answer_lem (empty e r) = rw (e.read, e.found, e.array, r.found, r.object) refl
  read_answer_lem (found {pairs = pairs} e r is) =
      rw (e.read, e.found, e.array, r.found, r.object) (first_pair_lem pairs is)

  -- A server that answers, for every target whose query is an encoded symbol, what there is to know of it.
  unfoldable pub Serves : Https → (Text → Listing) → Type 0
  Serves https listing =
      (symbol encoded : Text)
      → decode plain encoded ≡ some symbol
      → Says
          (https.exchange (record {
            target = Names.query ++ encoded;
            host = Names.k_host;
            user_agent = Names.user_agent;
          }))
          (listing symbol)

  -- Where the name of the server resolves and the server decodes the symbol in the target and answers what
  -- there is to know of it, the fetch returns, for every symbol of bytes, the decimals of the first pair that
  -- is listed, and nothing where there is no answer, a status other than 200, a list of errors or no pair.
  -- The decimals fit 31 bits.
  pub fetch_kraken_asset_pair_precision_lem :
      (https : Https) (listing : Text → Listing)
      → https.resolve Names.k_host Names.k_port ≡ true
      → https.set_host_name Names.k_host ≡ true
      → Serves https listing
      → (symbol : Text) → All (λ c. c < 256) symbol
      → fetch_kraken_asset_pair_precision json https symbol ≡ precision_listed (listing symbol)
  unfolding fetch_kraken_asset_pair_precision request_of Serves
  fetch_kraken_asset_pair_precision_lem https listing resolved named serves symbol bytes =
      rw (resolved, named)
        (read_answer_lem (serves symbol (url_encode symbol) (url_encode_round_trip symbol bytes).0))
