-- ===== src/Client/Backoff.antt =====
-- The waits between the connections of `run` (engine/src/market_data/kraken_book_client.cpp).
use real_time_paper_trading.Base.{
  ℕ, zero, suc, ◌+◌, ◌*◌, ◌^◌, ◌≤◌, ◌<◌, ◌≡◌, ap, ◌∙◌, Bool, true, false, some, List, [], ◌∷◌, ◌++◌,
  min, arith, length, get_elem?, replicate,
}
use real_time_paper_trading.Client.{initial_backoff, max_backoff, round_wait, next_backoff, waits}

-- Doubling before or after the bound.
doubled :
    (b k : ℕ) → min (min (b * 2) max_backoff * 2 ^ k) max_backoff ≡ min (b * 2 ^ suc k) max_backoff
doubled b zero = omega arith
doubled b (suc k) = grind (arith, doubled b k)

failed_waits :
    (b n k : ℕ)
    → k < n
    → b ≤ max_backoff
    → get_elem? (waits b (replicate n false)) k ≡ some (min (b * 2 ^ k) max_backoff)
unfolding waits round_wait next_backoff
failed_waits b zero k h l = absurd (omega arith)
failed_waits b (suc n) zero h l = ap some (omega arith)
failed_waits b (suc n) (suc k) h l =
    failed_waits (min (b * 2) max_backoff) n k (omega arith) (omega arith) ∙ ap some (doubled b k)

-- The k-th round that fails in a row waits 500 · 2 ^ k milliseconds, 32000 at most, counted from a
-- round that was connected, whatever came before it, and counted from the first round of all.
pub waits_lem :
    (b : ℕ) (rs : List Bool) (n k : ℕ)
    → k ≤ n
    → (get_elem? (waits b (rs ++ (true ∷ replicate n false))) (length rs + k)
        ≡ some (min (500 * 2 ^ k) 32000))
      × (get_elem? (waits initial_backoff (replicate (suc n) false)) k
          ≡ some (min (500 * 2 ^ k) 32000))
unfolding waits round_wait
waits_lem b [] n k h =
    let e : 0 + k ≡ k = omega arith in
    let w = failed_waits initial_backoff (suc n) k (omega arith) (omega arith) in (rw e w, w)
waits_lem b (r ∷ rs) n k h =
    let e : suc (length rs) + k ≡ suc (length rs + k) = omega arith in
    rw e (waits_lem (next_backoff (round_wait r b)) rs n k h)
