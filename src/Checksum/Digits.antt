-- ===== src/Checksum/Digits.antt =====
-- The texts that are summed (engine/src/book/checksum.cpp).
use real_time_paper_trading.Base.{
  ℕ, ◌≡◌, ◌≢◌, ◌⊎◌, inl, inr, false, [], ◌∷◌, refl, arith, ◌==◌, Bool-cases, All, Text,
}
use real_time_paper_trading.Checksum.{
  without_dots, from_first_nonzero, zero_if_empty, strip_for_checksum,
}

without_dots-All : (s : Text) → All (λ c. (c == b'.') ≡ false) (without_dots s)
unfolding without_dots
without_dots-All [] = tt
without_dots-All (c ∷ s) = ground (arith, without_dots-All s)

-- A stripped text is "0", or begins with another character.
abbrev pub IsStripped : Text → Type 0
IsStripped s = (s ≡ b'0' ∷ []) ⊎ ((c : ℕ) × (r : Text) × (s ≡ c ∷ r) × (c ≢ b'0'))

stripped_lem :
    (s : Text)
    → All (λ c. (c == b'.') ≡ false) s
    → All (λ c. (c == b'.') ≡ false) (zero_if_empty (from_first_nonzero s))
      × IsStripped (zero_if_empty (from_first_nonzero s))
unfolding zero_if_empty from_first_nonzero
stripped_lem [] h = ((refl, tt), inl refl)
stripped_lem (c ∷ s) h = elim (Bool-cases (c == b'0')) [
  | inl z ↦ rw z (stripped_lem s h.1)
  | inr n ↦ rw n (h, inr (c, s, refl, ground arith))
]

-- What `stripForChecksum` returns of any text holds no dot, is not empty, and begins with a zero only
-- if it is "0".
pub strip_for_checksum_lem :
    (s : Text)
    → All (λ c. (c == b'.') ≡ false) (strip_for_checksum s) × IsStripped (strip_for_checksum s)
unfolding strip_for_checksum
strip_for_checksum_lem s = stripped_lem (without_dots s) (without_dots-All s)
