-- ===== src/Base/Chars.antt =====
-- Texts as lists of character codes, with what the code uses of `std::string`.
use Prim.Native.Nat.{ℕ, zero, suc, ◌+◌, ◌/◌, ◌%◌, ◌^◌, ◌≤◌, ◌<◌}
use mathlib.Core.Path.{◌≡◌, refl, ap}
use mathlib.Core.Bool.{false}
use mathlib.Core.Logic.{inl, inr}
use mathlib.Core.Option
use mathlib.Core.Option.{Option, none, some}
use mathlib.Core.List.{List, [], ◌∷◌, ◌++◌}
use native.Mathlib.Nat.{pow-suc}
use native.Mathlib.Omega.{arith}
use real_time_paper_trading.Base.Tests.{ltb, ltb→lt, lt→ltb, Bool-cases, ◌==◌, if◌then◌else◌}
use real_time_paper_trading.Base.Lists.{length, take, drop, All, length-append}

abbrev pub Text : Type 0
Text = List ℕ

-- `s.find(c)`: the first position of `c`.
unfoldable pub find : ℕ → Text → Option ℕ
find c [] = none
find c (d ∷ s) = if d == c then some 0 else Option.map suc (find c s)

-- `std::to_string` of an unsigned number, on a bound for the number of digits.
unfoldable pub decimal : ℕ → ℕ → Text
decimal zero n = []
decimal (suc f) n =
    let rest = decimal f (n / 10) in
    if ltb n 10 then (b'0' + n) ∷ [] else rest ++ ((b'0' + n % 10) ∷ [])

-- A `uint64_t` has twenty digits at most.
unfoldable pub to_string : ℕ → Text
to_string = decimal 20

abbrev pub IsDigit : ℕ → Type 0
IsDigit c = (b'0' ≤ c) × (c ≤ b'9')

pub All-append {ℓ κ} :
    {A : Type ℓ} (P : A → Type κ) (xs ys : List A) → All P xs → All P ys → All P (xs ++ ys)
All-append P [] ys h k = k
All-append P (x ∷ xs) ys h k = (h.0, All-append P xs ys h.1 k)

pub decimal-IsDigit : (f n : ℕ) → All IsDigit (decimal f n)
unfolding decimal
decimal-IsDigit zero n = tt
decimal-IsDigit (suc f) n = elim (Bool-cases (ltb n 10)) [
  | inl h ↦ rw h (let lt : n < 10 = ltb→lt n 10 h in omega arith)
  | inr h ↦
      rw h (All-append IsDigit (decimal f (n / 10)) _ (decimal-IsDigit f (n / 10)) (omega arith))
]

pub length-decimal : (f k n : ℕ) → n < 10 ^ suc k → length (decimal f n) ≤ suc k
unfolding decimal
length-decimal zero k n h = omega arith
length-decimal (suc f) zero n h = rw (lt→ltb n 10 h) (omega arith)
length-decimal (suc f) (suc k) n h = elim (Bool-cases (ltb n 10)) [
  | inl e ↦ rw e (omega arith)
  | inr e ↦ rw e (
      omega (
        arith,
        length-append (decimal f (n / 10)) ((b'0' + n % 10) ∷ []),
        length-decimal f k (n / 10) (omega (arith, pow-suc 10 (suc k))),
      ))
]

pub find_after :
    (c : ℕ) (s r : Text) → All (λ d. (d == c) ≡ false) s → find c (s ++ (c ∷ r)) ≡ some (length s)
unfolding find
find_after c [] r h = ground arith
find_after c (d ∷ s) r h = rw (h.0, find_after c s r h.1)

pub take-length {ℓ} : {A : Type ℓ} (xs ys : List A) → take (length xs) (xs ++ ys) ≡ xs
take-length [] ys = refl
take-length (x ∷ xs) ys = ap (◌∷◌ x) (take-length xs ys)

pub drop-length {ℓ} :
    {A : Type ℓ} (xs : List A) (y : A) (ys : List A) → drop (suc (length xs)) (xs ++ (y ∷ ys)) ≡ ys
drop-length [] y ys = refl
drop-length (x ∷ xs) y ys = drop-length xs y ys
