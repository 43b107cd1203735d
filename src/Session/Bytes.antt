-- ===== src/Session/Bytes.antt =====
-- Numbers and bytes are read back as they were written
-- (engine/include/engine/replay/recorded_session.hpp).
use real_time_paper_trading.Base.{
  ℕ, zero, suc, ◌+◌, ◌/◌, ◌^◌, ◌≤◌, ◌<◌, ◌≡◌, ◌⊎◌, inl, inr, Bool-cases, refl, sym, ap, none, some,
  List, [], ◌∷◌, ◌++◌, ltb, length, length-append, take, drop, arith,
}
use real_time_paper_trading.Session.{bytes_of, number_of, read_bytes}

pub length-bytes_of : (n v : ℕ) → length (bytes_of n v) ≡ n
unfolding bytes_of
length-bytes_of zero v = refl
length-bytes_of (suc n) v = ap suc (length-bytes_of n (v / 256))

-- A number below the bound of its bytes.
pub number_of-bytes_of : (n v : ℕ) → v < 256 ^ n → number_of (bytes_of n v) ≡ v
unfolding bytes_of number_of
number_of-bytes_of zero v h = omega arith
number_of-bytes_of (suc n) v h =
    let k : v / 256 < 256 ^ n = grind arith in omega (arith, number_of-bytes_of n (v / 256) k)

pub take-append : (xs ys : List ℕ) → take (length xs) (xs ++ ys) ≡ xs
take-append [] ys = refl
take-append (x ∷ xs) ys = ap (◌∷◌ x) (take-append xs ys)

pub drop-append : (xs ys : List ℕ) → drop (length xs) (xs ++ ys) ≡ ys
drop-append [] ys = refl
drop-append (x ∷ xs) ys = drop-append xs ys

pub read_bytes-append :
    (n : ℕ) (xs ys : List ℕ) → length xs ≡ n → read_bytes n (xs ++ ys) ≡ some (xs, ys)
unfolding read_bytes
read_bytes-append n xs ys h =
    rw (sym h, take-append xs ys, drop-append xs ys) (ground (arith, length-append xs ys))

pub read_bytes_short : (n : ℕ) (xs : List ℕ) → length xs < n → read_bytes n xs ≡ none
unfolding read_bytes
read_bytes_short n xs h = ground arith

length-drop : (n : ℕ) (xs : List ℕ) → n ≤ length xs → length (drop n xs) + n ≡ length xs
length-drop zero xs h = omega arith
length-drop (suc n) [] h = absurd (omega arith)
length-drop (suc n) (x ∷ xs) h = omega (arith, length-drop n xs (omega arith))

-- What is left of a stream after a read.
pub read_bytes_cases :
    (n : ℕ) (xs : List ℕ)
    → (read_bytes n xs ≡ none)
      ⊎ ((ys : List ℕ) × (zs : List ℕ) × (read_bytes n xs ≡ some (ys, zs))
          × (length zs + n ≡ length xs))
unfolding read_bytes
read_bytes_cases n xs = elim (Bool-cases (ltb (length xs) n)) [
  | inl y ↦ inl (rw y refl)
  | inr l ↦ inr (take n xs, drop n xs, rw l refl, length-drop n xs (ground arith))
]
