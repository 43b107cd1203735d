-- ===== src/Registry/Inbox.antt =====
-- The requests of an inbox are answered in their order, each once
-- (engine/src/symbol/symbol_registry.cpp).
use real_time_paper_trading.Base.{
  ℕ, ◌<◌, ◌≡◌, refl, sym, ap, ◌∙◌, some, List, [], ◌∷◌, ◌++◌, append_assoc, append-nil, ◌==◌, All,
  arith,
}
use real_time_paper_trading.Base.Assoc.{lookup}
use real_time_paper_trading.Book.{OrderBook}
use real_time_paper_trading.Matching.{MatchingEngine, OrderResult, Fill}
use real_time_paper_trading.Registry.{OrderRequest, SymbolRegistry}
use real_time_paper_trading.Registry.Orders.{answer, answer_all, push_fill, push_fills}

abbrev pub promises : List OrderRequest → List ℕ
promises [] = []
promises (q ∷ qs) = q.promise ∷ promises qs

abbrev pub answered : List (ℕ × OrderResult) → List ℕ
answered [] = []
answered ((p, result) ∷ rs) = p ∷ answered rs

pub push_fills_lem :
    (r : SymbolRegistry) (fs : List Fill)
    → push_fills r fs ≡ record r { fill_queue = r.fill_queue ++ fs }
unfolding push_fills push_fill
push_fills_lem r [] = ap (λ fs. record r { fill_queue = fs }) (sym (append-nil r.fill_queue))
push_fills_lem r (f ∷ fs) =
    push_fills_lem (record r { fill_queue = r.fill_queue ++ (f ∷ []) }) fs
    ∙ ap (λ fs. record r { fill_queue = fs }) (append_assoc r.fill_queue (f ∷ []) fs)

module _ (now_nanos : ℕ → ℕ) (book : OrderBook) where
  pub answered-answer_all :
      (e : MatchingEngine) (qs : List OrderRequest)
      → answered (answer_all now_nanos book e qs).1 ≡ promises qs
  unfolding answer_all
  answered-answer_all e [] = refl
  answered-answer_all e (q ∷ qs) =
      ap (◌∷◌ q.promise) (answered-answer_all (answer now_nanos book e q.kind q).0 qs)

  pub answer_all-snoc :
      (e : MatchingEngine) (qs : List OrderRequest) (q : OrderRequest)
      → let (e', results) = answer_all now_nanos book e qs in
        let (e'', result) = answer now_nanos book e' q.kind q in
        answer_all now_nanos book e (qs ++ (q ∷ [])) ≡ (e'', results ++ ((q.promise, result) ∷ []))
  unfolding answer_all
  answer_all-snoc e [] q = refl
  answer_all-snoc e (p ∷ qs) q =
      ap
        (λ (r : MatchingEngine × List (ℕ × OrderResult)).
          (r.0, (p.promise, (answer now_nanos book e p.kind p).1) ∷ r.1))
        (answer_all-snoc (answer now_nanos book e p.kind p).0 qs q)

-- The last answer, under a promise that no other request has.
pub lookup-snoc :
    (rs : List (ℕ × OrderResult)) (p : ℕ) (result : OrderResult)
    → All (λ q. q < p) (answered rs)
    → lookup ◌==◌ p (rs ++ ((p, result) ∷ [])) ≡ some result
unfolding lookup
lookup-snoc [] p result a = ground arith
lookup-snoc ((q, x) ∷ rs) p result a = ground (arith, lookup-snoc rs p result a.1)
