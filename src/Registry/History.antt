-- ===== src/Registry/History.antt =====
-- The reference counts after any row of calls (engine/src/symbol/symbol_registry.cpp).
use real_time_paper_trading.Base.{
  ℕ, length, ◌+◌, ◌-◌, ◌≡◌, refl, ap, inl, inr, Bool, true, false, ◌&&◌, Bool-cases, Option, List,
  [], ◌∷◌, ltb, if◌then◌else◌, arith, Text,
}
use real_time_paper_trading.Client.{same_text}
use real_time_paper_trading.Registry.{
  SymbolPrecision, SubscribeResult, SymbolRegistry, subscribe, unsubscribe,
}
use real_time_paper_trading.Registry.Keys.{same_text-IsTest}
use real_time_paper_trading.Registry.Counts.{count_of, IsUsed, subscribe_counts, unsubscribe_counts}
use real_time_paper_trading.Registry.Used.{
  IsUsed-suc, IsUsed-less, IsUsed-one, subscribe-IsUsed, unsubscribe-IsUsed,
}

-- The calls of clients, with what the lookup and the clock return to them.
pub data Call : Type 0 where
  subscribing : Text → Option SymbolPrecision → ℕ → Call
  unsubscribing : Text → Call

unfoldable pub called : SymbolRegistry → Call → SymbolRegistry × SubscribeResult
called r (subscribing key precision now) = subscribe r key precision now
called r (unsubscribing key) = unsubscribe r key

unfoldable pub call_all : SymbolRegistry → List Call → SymbolRegistry
call_all r [] = r
call_all r (c ∷ cs) = call_all (called r c).0 cs

-- How many of the subscriptions to a symbol, and of the calls that take one back, succeed.
unfoldable pub joins : Text → SymbolRegistry → List Call → ℕ
joins x r [] = 0
joins x r (subscribing key precision now ∷ cs) =
    (if (subscribe r key precision now).1.ok && same_text key x then 1 else 0)
    + joins x (subscribe r key precision now).0 cs
joins x r (unsubscribing key ∷ cs) = joins x (unsubscribe r key).0 cs

unfoldable pub leaves : Text → SymbolRegistry → List Call → ℕ
leaves x r [] = 0
leaves x r (subscribing key precision now ∷ cs) = leaves x (subscribe r key precision now).0 cs
leaves x r (unsubscribing key ∷ cs) =
    (if (unsubscribe r key).1.ok && same_text key x then 1 else 0)
    + leaves x (unsubscribe r key).0 cs

counted_one :
    (n n' l j : ℕ) (m : ℕ)
    → n' ≡ n - 1
    → m + l ≡ n' + j
    → m + ((if ltb 0 n && true then 1 else 0) + l) ≡ n + j
counted_one n n' l j m e h = ground arith

and_false : (b : Bool) → (b && false) ≡ false
and_false true = refl
and_false false = refl

-- After any row of calls the count of a symbol is what it was, and the number of its subscriptions
-- that succeeded, less the number of those that were taken back, if no entry is without a subscriber
-- at the start, no count plus the number of calls is beyond the largest `int`, and there are fewer
-- calls than that.
pub call_all_balanced :
    (x : Text) (r : SymbolRegistry) (cs : List Call)
    → IsUsed (length cs) r
    → count_of (call_all r cs) x + leaves x r cs ≡ count_of r x + joins x r cs
unfolding call_all called joins leaves
call_all_balanced x r [] v = refl
call_all_balanced x r (subscribing key precision now ∷ cs) v =
    let r' = (subscribe r key precision now).0 in
    let ih = call_all_balanced x r' cs (subscribe-IsUsed (length cs) r key precision now v) in
    let c = (subscribe_counts r key precision now x (IsUsed-one (length cs) r v)).0 in
    elim (Bool-cases ((subscribe r key precision now).1.ok && same_text key x)) [
      | inl y ↦ rw y (omega (arith, ih, rw y at c))
      | inr n ↦ rw n (omega (arith, ih, rw n at c))
    ]
call_all_balanced x r (unsubscribing key ∷ cs) v =
    let r' = (unsubscribe r key).0 in
    let u = IsUsed-suc (length cs) r v in
    let ih = call_all_balanced x r' cs (unsubscribe-IsUsed (length cs) r key u) in
    let (o, c) = unsubscribe_counts r key x (IsUsed-less (length cs) r u) in
    elim (Bool-cases (same_text key x)) [
      | inl y ↦
          (let k : count_of r key ≡ count_of r x = ap (count_of r) ((same_text-IsTest key x).0 y) in
            rw (o, k, y)
              (counted_one (count_of r x) (count_of r' x) (leaves x r' cs) (joins x r' cs)
                (count_of (call_all r' cs) x) (rw y at c) ih))
      | inr n ↦ rw (n, and_false (unsubscribe r key).1.ok) (omega (arith, ih, rw n at c))
    ]
