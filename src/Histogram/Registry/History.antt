-- ===== src/Histogram/Registry/History.antt =====
-- What the histogram of a name holds after any row of timed scopes
-- (engine/src/observability/histogram.cpp).
use real_time_paper_trading.Base.{
  ℕ, Option, none, some, List, [], ◌∷◌, if◌then◌else◌, Text, ◌≡◌, refl, ap, sym, ◌∙◌, inl, inr,
  Bool-cases, Option-cases, replicate,
}
use real_time_paper_trading.Base.Assoc.{lookup, emplace, lookup-emplace_fresh}
use real_time_paper_trading.Client.{same_text}
use real_time_paper_trading.Registry.Keys.{
  same_text_refl, same_text-IsTest, lookup-assign, contains_found, contains_missing,
}
use real_time_paper_trading.Histogram.{
  LatencyHistogram, new_histogram, record_nanos, reset, bucket_for,
}
use real_time_paper_trading.Histogram.Percentile.{record_all, length-bump}
use real_time_paper_trading.Histogram.Registry.{
  HistogramRegistry, get, record_at, Scope, elapsed, timed, timed_all, reset_each, log_round,
}

-- The latencies that were timed under a name.
unfoldable pub samples : Text → List Scope → List ℕ
samples name [] = []
samples name (s ∷ ss) =
    let rest = samples name ss in if same_text s.name name then elapsed s ∷ rest else rest

-- The histogram of these latencies; none where nothing was timed.
pub history : Text → List ℕ → Option LatencyHistogram
history name [] = none
history name (n ∷ ns) = some (record_all (new_histogram name) (n ∷ ns))

abbrev or_new : Text → Option LatencyHistogram → LatencyHistogram
or_new name none = new_histogram name
or_new name (some h) = h

abbrev found : HistogramRegistry → Text → Option LatencyHistogram
found r name = lookup same_text name r.histograms

found-get :
    (r : HistogramRegistry) (name j : Text)
    → found (get r name) j
      ≡ (if same_text name j then some (or_new name (found r name)) else found r j)
unfolding get emplace
found-get r name j = elim (Option-cases (lookup same_text name r.histograms)) [
  | inl e ↦ rw e (
      lookup-emplace_fresh same_text j name (new_histogram name) r.histograms
        (contains_missing name r.histograms e))
  | inr (h, e) ↦
      rw (e, contains_found name h r.histograms e)
        (elim (Bool-cases (same_text name j)) [
          | inl y ↦
              rw y (
                ap (λ k. lookup same_text k r.histograms) (sym ((same_text-IsTest name j).0 y)) ∙ e)
          | inr n ↦ rw n refl
        ])
]

found-timed :
    (r : HistogramRegistry) (s : Scope) (j : Text)
    → found (timed r s) j ≡ (
        if same_text s.name j
        then some (record_nanos (or_new s.name (found r s.name)) (elapsed s))
        else found r j)
unfolding timed record_at
found-timed r s j =
    let h = or_new s.name (found r s.name) in
    let e : found (get r s.name) s.name ≡ some h =
      found-get r s.name s.name ∙ rw (same_text_refl s.name) refl in
    rw (record_at, e)
      (lookup-assign j s.name (record_nanos h (elapsed s)) h (get r s.name).histograms e
        ∙ (elim (Bool-cases (same_text s.name j)) [
          | inl y ↦ rw y refl
          | inr n ↦ rw n (found-get r s.name j ∙ rw n refl)
        ]))

-- A histogram after more latencies.
abbrev after : Text → Option LatencyHistogram → List ℕ → Option LatencyHistogram
after name o [] = o
after name o (n ∷ ns) = after name (some (record_nanos (or_new name o) n)) ns

after_some :
    (name : Text) (h : LatencyHistogram) (ns : List ℕ)
    → after name (some h) ns ≡ some (record_all h ns)
unfolding record_all
after_some name h [] = refl
after_some name h (n ∷ ns) = after_some name (record_nanos h n) ns

after_none : (name : Text) (ns : List ℕ) → after name none ns ≡ history name ns
unfolding history record_all
after_none name [] = refl
after_none name (n ∷ ns) = after_some name (record_nanos (new_histogram name) n) ns

found-timed_all :
    (r : HistogramRegistry) (ss : List Scope) (j : Text)
    → found (timed_all r ss) j ≡ after j (found r j) (samples j ss)
unfolding timed_all samples
found-timed_all r [] j = refl
found-timed_all r (s ∷ ss) j =
    found-timed_all (timed r s) ss j
    ∙ ap (λ o. after j o (samples j ss)) (found-timed r s j)
    ∙ (elim (Bool-cases (same_text s.name j)) [
      | inl y ↦ rw y (
          ap (λ k. after j (some (record_nanos (or_new k (found r k)) (elapsed s))) (samples j ss))
            ((same_text-IsTest s.name j).0 y))
      | inr n ↦ rw n refl
    ])

abbrev reset_found : Option LatencyHistogram → Option LatencyHistogram
reset_found none = none
reset_found (some h) = some (reset h)

lookup-reset_each :
    (m : List (Text × LatencyHistogram)) (j : Text)
    → lookup same_text j (reset_each m) ≡ reset_found (lookup same_text j m)
unfolding lookup reset_each
lookup-reset_each [] j = refl
lookup-reset_each ((k, h) ∷ m) j = elim (Bool-cases (same_text k j)) [
  | inl y ↦ rw y refl
  | inr n ↦ rw n (lookup-reset_each m j)
]

reset-record_all : (h : LatencyHistogram) (ns : List ℕ) → reset (record_all h ns) ≡ reset h
unfolding record_all reset record_nanos
reset-record_all h [] = refl
reset-record_all h (n ∷ ns) =
    reset-record_all (record_nanos h n) ns
    ∙ ap (λ k. record h { buckets = replicate k 0; max_nanos = 0 })
        (length-bump (bucket_for n) h.buckets)

-- A histogram with nothing in it, under each name that was timed.
pub emptied : Text → List ℕ → Option LatencyHistogram
emptied name [] = none
emptied name (n ∷ ns) = some (new_histogram name)

reset_found-history : (name : Text) (ns : List ℕ) → reset_found (history name ns) ≡ emptied name ns
unfolding history emptied
reset_found-history name [] = refl
reset_found-history name (n ∷ ns) =
    ap (λ h. some h)
      (reset-record_all (new_histogram name) (n ∷ ns) ∙ unfold reset new_histogram in refl)

-- After any row of timed scopes, of any names, the histogram of a name is the one that recorded the
-- latencies timed under that name, in their order, and there is none where there were none; the next
-- round of the log leaves it empty.
pub timed_all_lem :
    (scaled : ℕ → ℕ → ℕ) (ss : List Scope) (name : Text)
    → let r = timed_all (record { histograms = [] }) ss in
      (lookup same_text name r.histograms ≡ history name (samples name ss))
      × (lookup same_text name (log_round scaled r).0.histograms ≡ emptied name (samples name ss))
unfolding log_round lookup
timed_all_lem scaled ss name =
    let r = timed_all (record { histograms = [] }) ss in
    let e =
      found-timed_all (record { histograms = [] }) ss name ∙ after_none name (samples name ss) in
    (
      e,
      lookup-reset_each r.histograms name
          ∙ ap reset_found e
          ∙ reset_found-history name (samples name ss),
    )
