-- ===== src/Checksum/Tests.antt =====
-- Instances of the laws of the text of the checksum, and runs of its functions.
use real_time_paper_trading.Base.{◌≡◌, refl, false, [], ◌∷◌, All, ◌==◌}
use real_time_paper_trading.Checksum.{
  without_dots, from_first_nonzero, zero_if_empty, strip_for_checksum,
}
use real_time_paper_trading.Checksum.Digits.{IsStripped, strip_for_checksum_lem}

-- "0.050" is summed as "50".
test_strip : strip_for_checksum (b'0' ∷ b'.' ∷ b'0' ∷ b'5' ∷ b'0' ∷ []) ≡ b'5' ∷ b'0' ∷ []
unfolding strip_for_checksum without_dots from_first_nonzero zero_if_empty
test_strip = refl

strip_for_checksum_example :
    All (λ c. (c == b'.') ≡ false) (strip_for_checksum (b'0' ∷ b'.' ∷ b'5' ∷ []))
    × IsStripped (strip_for_checksum (b'0' ∷ b'.' ∷ b'5' ∷ []))
strip_for_checksum_example = strip_for_checksum_lem (b'0' ∷ b'.' ∷ b'5' ∷ [])
