-- ===== src/Registry/Keys.antt =====
-- Symbols as the keys of a map (engine/src/symbol/symbol_registry.cpp).
use real_time_paper_trading.Base.{
  ◌≡◌, refl, sym, ap, ap₂, ◌∙◌, inl, inr, true, false, Bool-cases, none, some, List, [], ◌∷◌, ◌==◌,
  ==_iff, if◌then◌else◌, arith, Text,
}
use real_time_paper_trading.Base.Assoc.{IsTest, lookup, contains, assign}
use real_time_paper_trading.Client.{same_text}

same_text_sound : (s t : Text) → same_text s t ≡ true → s ≡ t
unfolding same_text
same_text_sound [] [] h = refl
same_text_sound [] (d ∷ t) h = cc
same_text_sound (c ∷ s) [] h = cc
same_text_sound (c ∷ s) (d ∷ t) h = elim (Bool-cases (c == d)) [
  | inl e ↦ ap₂ ◌∷◌ ((==_iff c d).0 e) (same_text_sound s t (ground arith))
  | inr n ↦ absurd (ground arith)
]

pub same_text_refl : (s : Text) → same_text s s ≡ true
unfolding same_text
same_text_refl [] = refl
same_text_refl (c ∷ s) = ground (arith, same_text_refl s)

pub same_text-IsTest : IsTest same_text
same_text-IsTest s t = (same_text_sound s t, λ e. ap (same_text s) (sym e) ∙ same_text_refl s)

module _ {ℓ} {V : Type ℓ} where
  lookup-assign_ne :
      (j k : Text) (v : V) (m : List (Text × V))
      → same_text k j ≡ false
      → lookup same_text j (assign same_text k v m) ≡ lookup same_text j m
  unfolding lookup assign
  lookup-assign_ne j k v [] h = refl
  lookup-assign_ne j k v ((i, u) ∷ m) h =
      ground (arith, same_text-IsTest i k, same_text-IsTest i j, lookup-assign_ne j k v m h)

  pub lookup-assign :
      (j k : Text) (v w : V) (m : List (Text × V))
      → lookup same_text k m ≡ some w
      → lookup same_text j (assign same_text k v m)
        ≡ (if same_text k j then some v else lookup same_text j m)
  unfolding lookup assign
  lookup-assign j k v w [] h = cc
  lookup-assign j k v w ((i, u) ∷ m) h = ground (
    arith,
    same_text-IsTest i k,
    same_text-IsTest i j,
    same_text-IsTest k j,
    lookup-assign j k v w m,
    lookup-assign_ne j k v m,
  )

  pub contains_found :
      (k : Text) (w : V) (m : List (Text × V))
      → lookup same_text k m ≡ some w
      → contains same_text k m ≡ true
  unfolding lookup contains
  contains_found k w [] h = cc
  contains_found k w ((i, u) ∷ m) h = ground (arith, contains_found k w m)

  pub contains_missing :
      (k : Text) (m : List (Text × V))
      → lookup same_text k m ≡ none
      → contains same_text k m ≡ false
  unfolding lookup contains
  contains_missing k [] h = refl
  contains_missing k ((i, u) ∷ m) h = ground (arith, contains_missing k m)
