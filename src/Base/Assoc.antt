-- ===== src/Base/Assoc.antt =====
-- `std::map` and `std::unordered_map` as association lists, on a test of the keys.
use mathlib.Core.Path.{◌≡◌, refl, ap}
use mathlib.Core.Bool.{Bool, true, false, ◌||◌, ◌&&◌, not}
use mathlib.Core.Option.{Option, none, some}
use mathlib.Core.List.{List, [], ◌∷◌}
use mathlib.Core.Logic.{◌↔◌}
use native.Mathlib.Omega.{arith}
use real_time_paper_trading.Base.Tests.{if◌then◌else◌}

-- The test decides equality.
abbrev pub IsTest {ℓ} : {K : Type ℓ} → (K → K → Bool) → Type ℓ
IsTest {K} eq = (a b : K) → (eq a b ≡ true) ↔ (a ≡ b)

module _ {ℓ κ} {K : Type ℓ} {V : Type κ} (eq : K → K → Bool) where
  unfoldable pub lookup : K → List (K × V) → Option V
  lookup k [] = none
  lookup k ((j, v) ∷ m) = if eq j k then some v else lookup k m

  unfoldable pub contains : K → List (K × V) → Bool
  contains k [] = false
  contains k ((j, v) ∷ m) = eq j k || contains k m

  -- `erase(key)`
  unfoldable pub erase : K → List (K × V) → List (K × V)
  erase k [] = []
  erase k ((j, v) ∷ m) = if eq j k then erase k m else (j, v) ∷ erase k m

  -- `emplace` and `try_emplace`: a key that is there keeps its value.
  unfoldable pub emplace : K → V → List (K × V) → List (K × V)
  emplace k v m = if contains k m then m else (k, v) ∷ m

  -- `it->second = v`, at the key that `it` points to.
  unfoldable pub assign : K → V → List (K × V) → List (K × V)
  assign k v [] = []
  assign k v ((j, w) ∷ m) = (j, if eq j k then v else w) ∷ assign k v m

  -- No key stands twice.
  abbrev pub Distinct : List (K × V) → Type 0
  Distinct [] = Unit {0}
  Distinct ((k, v) ∷ m) = (contains k m ≡ false) × Distinct m

  module _ (test : IsTest eq) where
    pub contains-emplace :
        (j k : K) (v : V) (m : List (K × V)) → contains j (emplace k v m) ≡ (eq k j || contains j m)
    unfolding contains emplace
    contains-emplace j k v m = ground (arith, test k j)

    pub contains-erase :
        (j k : K) (m : List (K × V)) → contains j (erase k m) ≡ (not (eq k j) && contains j m)
    unfolding contains erase
    contains-erase j k [] = ground arith
    contains-erase j k ((i, v) ∷ m) =
        ground (arith, test i k, test i j, test k j, contains-erase j k m)

    pub lookup-erase_if :
        (j k : K) (m : List (K × V)) → lookup j (erase k m) ≡ (if eq k j then none else lookup j m)
    unfolding lookup erase
    lookup-erase_if j k [] = ground arith
    lookup-erase_if j k ((i, v) ∷ m) =
        ground (arith, test i k, test i j, test k j, lookup-erase_if j k m)

  pub contains-assign :
      (j k : K) (v : V) (m : List (K × V)) → contains j (assign k v m) ≡ contains j m
  unfolding contains assign
  contains-assign j k v [] = refl
  contains-assign j k v ((i, w) ∷ m) = ap (λ b. eq i j || b) (contains-assign j k v m)

  pub lookup-emplace_fresh :
      (j k : K) (v : V) (m : List (K × V))
      → contains k m ≡ false
      → lookup j (emplace k v m) ≡ (if eq k j then some v else lookup j m)
  unfolding lookup emplace
  lookup-emplace_fresh j k v m h = rw h

  pub erase_absent : (k : K) (m : List (K × V)) → contains k m ≡ false → erase k m ≡ m
  unfolding contains erase
  erase_absent k [] h = refl
  erase_absent k ((i, v) ∷ m) h = ground (arith, erase_absent k m)

  pub lookup_absent : (k : K) (m : List (K × V)) → contains k m ≡ false → lookup k m ≡ none
  unfolding contains lookup
  lookup_absent k [] h = refl
  lookup_absent k ((i, v) ∷ m) h = ground (arith, lookup_absent k m)
