-- ===== src/AssetPairs/Encoding.antt =====
-- A decoder of percent-encoded texts, and what it makes of the text of `urlEncode`
-- (engine/src/market_data/kraken_asset_pairs.cpp).
use real_time_paper_trading.Base.{
  ℕ, ◌+◌, ◌-◌, ◌*◌, ◌/◌, ◌%◌, ◌<◌, ◌≡◌, refl, ap, ◌∙◌, inl, inr, true, false, Bool-cases, ◌&&◌,
  Option, none, some, [], ◌∷◌, ◌++◌, arith, ltb, leb, ◌==◌, if◌then◌else◌, All, All-append, Text,
  ltb→lt, ◌⊎◌,
}
use real_time_paper_trading.AssetPairs.{
  is_alnum, is_kept, hex_digit, hex, padded, encode_byte, url_encode,
}

-- What the decoder has read of an escape: nothing, the percent sign, or its first digit.
pub data Pending : Type 0 where
  plain percent invalid : Pending
  high : ℕ → Pending

unfoldable pub digit_value : ℕ → Option ℕ
digit_value c =
    if leb b'0' c && leb c b'9'
    then some (c - b'0')
    else if leb b'A' c && leb c b'F'
    then some (c - b'A' + 10)
    else none

unfoldable pub read_high : Option ℕ → Pending
read_high none = invalid
read_high (some d) = high d

unfoldable pub read_low : Option ℕ → Pending
read_low none = invalid
read_low (some d) = plain

unfoldable pub byte_of : ℕ → Option ℕ → Text
byte_of d none = []
byte_of d (some e) = (d * 16 + e) ∷ []

unfoldable pub next : Pending → ℕ → Pending
next plain c = if c == b'%' then percent else plain
next percent c = read_high (digit_value c)
next invalid c = invalid
next (high d) c = read_low (digit_value c)

unfoldable pub emitted : Pending → ℕ → Text
emitted plain c = if c == b'%' then [] else c ∷ []
emitted percent c = []
emitted invalid c = []
emitted (high d) c = byte_of d (digit_value c)

abbrev pub prepend : Text → Option Text → Option Text
prepend s none = none
prepend s (some t) = some (s ++ t)

unfoldable pub decode : Pending → Text → Option Text
decode plain [] = some []
decode percent [] = none
decode invalid [] = none
decode (high d) [] = none
decode p (c ∷ s) = prepend (emitted p c) (decode (next p c) s)

digit_value-hex_digit : (d : ℕ) → d < 16 → digit_value (hex_digit d) ≡ some d
unfolding digit_value hex_digit
digit_value-hex_digit d h = ground arith

-- The two digits of a byte.
padded-hex : (c : ℕ) → c < 256 → padded (hex c) ≡ hex_digit (c / 16) ∷ hex_digit (c % 16) ∷ []
unfolding padded hex hex_digit
padded-hex c h = elim (Bool-cases (ltb c 16)) [
  | inl e ↦ rw e (
      ap (λ d. hex_digit d ∷ hex_digit c ∷ []) (high_digit (ltb→lt c 16 e))
      ∙ ap (λ d. hex_digit (c / 16) ∷ hex_digit d ∷ []) (low_digit (ltb→lt c 16 e)))
  | inr e ↦ rw e refl
]
  where
    high_digit : c < 16 → 0 ≡ c / 16
    high_digit k = omega (arith, k)

    low_digit : c < 16 → c ≡ c % 16
    low_digit k = omega (arith, k)

kept_not_percent : (c : ℕ) → is_kept c ≡ true → (c == b'%') ≡ false
unfolding is_kept is_alnum
kept_not_percent c h = ground arith

prepend_nil : (s : Option Text) → prepend [] s ≡ s
prepend_nil none = refl
prepend_nil (some s) = refl

decode-encode_byte :
    (c : ℕ) (s : Text)
    → c < 256
    → decode plain (encode_byte c ++ s) ≡ prepend (c ∷ []) (decode plain s)
unfolding encode_byte decode next emitted read_high read_low byte_of
decode-encode_byte c s h = elim (Bool-cases (is_kept c)) [
  | inl e ↦ rw (e, kept_not_percent c e) refl
  | inr e ↦
      rw
        (
          e,
          padded-hex c h,
          digit_value-hex_digit (c / 16) (omega arith),
          digit_value-hex_digit (c % 16) (omega arith),
          prepend_nil,
          prepend_nil,
        )
        (ap (λ n. prepend (n ∷ []) (decode plain s)) (omega arith))
]

-- Bytes that may stand in the query of a target: those that are kept, and the percent sign.
abbrev pub IsSafe : ℕ → Type 0
IsSafe c = (is_kept c ≡ true) ⊎ (c ≡ b'%')

hex_digit-IsSafe : (d : ℕ) → d < 16 → IsSafe (hex_digit d)
unfolding hex_digit is_kept is_alnum
hex_digit-IsSafe d h = inl (ground arith)

encode_byte-IsSafe : (c : ℕ) → c < 256 → All IsSafe (encode_byte c)
unfolding encode_byte
encode_byte-IsSafe c h = elim (Bool-cases (is_kept c)) [
  | inl e ↦ rw e (inl e, tt)
  | inr e ↦
      rw (e, padded-hex c h)
        (
          inr refl,
          (hex_digit-IsSafe (c / 16) (omega arith), (hex_digit-IsSafe (c % 16) (omega arith), tt)),
        )
]

-- The text of `urlEncode` has only letters, digits, `-`, `_`, `.`, `~` and percent signs, and a decoder
-- of percent-encoded texts gives back the text that was encoded, for every text of bytes.
pub url_encode_round_trip :
    (s : Text)
    → All (λ c. c < 256) s
    → (decode plain (url_encode s) ≡ some s) × All IsSafe (url_encode s)
unfolding url_encode decode
url_encode_round_trip [] bytes = (refl, tt)
url_encode_round_trip (c ∷ s) bytes =
    let rest = url_encode_round_trip s bytes.1 in
    (
      decode-encode_byte c (url_encode s) bytes.0 ∙ ap (prepend (c ∷ [])) rest.0,
      All-append IsSafe (encode_byte c) (url_encode s) (encode_byte-IsSafe c bytes.0) rest.1,
    )
