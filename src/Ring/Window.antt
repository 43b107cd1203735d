-- ===== src/Ring/Window.antt =====
-- The deltas that a ring buffer holds, oldest first (engine/include/engine/ipc/ring_buffer.hpp).
use real_time_paper_trading.Base.{
  ℕ, zero, suc, ◌+◌, ◌%◌, ◌<◌, ◌≡◌, ◌≢◌, refl, ap, ap₂, ◌∙◌, some, List, [], ◌∷◌, ◌++◌, arith,
  length, get_elem?, set, pos,
}
use real_time_paper_trading.Ring.{BookDelta, ring_buffer_capacity}

abbrev pub blank : BookDelta
blank = record { symbol = []; seq = 0; engine_ts_nanos = 0; side = 0; price = pos 0; size = pos 0 }

abbrev pub get_or : List BookDelta → ℕ → BookDelta → BookDelta
get_or [] i d = d
get_or (x ∷ xs) zero d = x
get_or (x ∷ xs) (suc i) d = get_or xs i d

pub get_elem?-eq-get_or :
    (xs : List BookDelta) (i : ℕ) → i < length xs → get_elem? xs i ≡ some (get_or xs i blank)
get_elem?-eq-get_or [] i h = absurd (omega arith)
get_elem?-eq-get_or (x ∷ xs) zero h = refl
get_elem?-eq-get_or (x ∷ xs) (suc i) h = get_elem?-eq-get_or xs i (omega arith)

get_or-set_self :
    (xs : List BookDelta) (i : ℕ) (v : BookDelta) → i < length xs → get_or (set xs i v) i blank ≡ v
get_or-set_self [] i v h = absurd (omega arith)
get_or-set_self (x ∷ xs) zero v h = refl
get_or-set_self (x ∷ xs) (suc i) v h = get_or-set_self xs i v (omega arith)

get_or-set_ne :
    (xs : List BookDelta) (i j : ℕ) (v : BookDelta)
    → i ≢ j
    → get_or (set xs i v) j blank ≡ get_or xs j blank
get_or-set_ne [] i j v h = refl
get_or-set_ne (x ∷ xs) zero zero v h = absurd (h refl)
get_or-set_ne (x ∷ xs) zero (suc j) v h = refl
get_or-set_ne (x ∷ xs) (suc i) zero v h = refl
get_or-set_ne (x ∷ xs) (suc i) (suc j) v h = get_or-set_ne xs i j v (λ e. h (ap suc e))

-- The `n` deltas from index `i` on, where an index stands for its slot.
unfoldable pub window : List BookDelta → ℕ → ℕ → List BookDelta
window slots i zero = []
window slots i (suc n) = get_or slots (i % ring_buffer_capacity) blank ∷ window slots (suc i) n

pub length-window : (slots : List BookDelta) (i n : ℕ) → length (window slots i n) ≡ n
unfolding window
length-window slots i zero = refl
length-window slots i (suc n) = ap suc (length-window slots (suc i) n)

-- Indices that stand for one slot see one window.
pub window_mod :
    (slots : List BookDelta) (i j n : ℕ)
    → i % ring_buffer_capacity ≡ j % ring_buffer_capacity
    → window slots i n ≡ window slots j n
unfolding window
window_mod slots i j zero h = refl
window_mod slots i j (suc n) h =
    ap₂ ◌∷◌ (ap (λ k. get_or slots k blank) h) (window_mod slots (suc i) (suc j) n (omega arith))

-- Writing just behind a window that is not full extends it.
pub window-set :
    (slots : List BookDelta) (i n p : ℕ) (x : BookDelta)
    → length slots ≡ ring_buffer_capacity
    → n < ring_buffer_capacity
    → p ≡ (i + n) % ring_buffer_capacity
    → window (set slots p x) i (suc n) ≡ window slots i n ++ (x ∷ [])
unfolding window
window-set slots i zero p x l h e =
    ap (λ d. d ∷ [])
      (ap (λ k. get_or (set slots p x) k blank) (omega arith)
        ∙ get_or-set_self slots p x (omega arith))
window-set slots i (suc n) p x l h e =
    ap₂ ◌∷◌ (get_or-set_ne slots p (i % ring_buffer_capacity) x (omega arith))
      (window-set slots (suc i) n p x l (omega arith) (omega arith))
