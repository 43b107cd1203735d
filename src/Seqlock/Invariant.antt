-- ===== src/Seqlock/Invariant.antt =====
-- What holds in every reachable state of a slot (engine/include/engine/ipc/snapshot_slot.hpp).
use real_time_paper_trading.Base.{
  ℕ, zero, suc, ◌+◌, ◌*◌, ◌%◌, ◌^◌, ◌≤◌, ◌≡◌, ◌⊎◌, inl, inr, refl, some-injective, sym, ap, some,
  List, [], ◌∷◌, ◌++◌, length, get_elem?, set, take, drop, arith,
}
use real_time_paper_trading.Seqlock.{
  Writer, resting, writing, Reader, loading, copying, done, System,
}

-- The value of the last `write` that has returned, or the first value.
abbrev pub latest : List ℕ → List (List ℕ) → List ℕ
latest first [] = first
latest first (v ∷ vs) = v

-- The number of the versions so far, not reduced.
abbrev pub ticks : Writer → List (List ℕ) → ℕ
ticks resting h = 2 * length h
ticks (writing v i) h = 2 * length h + 1

-- The words in memory: those of the last value, or the first words of the next one and the others of
-- the last one.
abbrev pub IsWritten : List ℕ → Writer → List ℕ → Type 0
IsWritten last resting value = value ≡ last
IsWritten last (writing v i) value =
    (length v ≡ length last) × (i ≤ length v) × (value ≡ take i v ++ drop i last)

-- What a reader that has loaded a version may rely on, `k` writes having returned at that time: if no
-- write began since, its words are those in memory.
pub record HasSeen (now before : ℕ) (value acc : List ℕ) : Type 0 where
  pub writes : ℕ
  pub loaded : before ≡ 2 * writes % 2 ^ 32
  pub past : 2 * writes ≤ now
  pub within : length acc ≤ length value
  pub fresh : now ≡ 2 * writes → acc ≡ take (length acc) value

-- One of the values that were written, or the first one.
abbrev pub WasWritten : List ℕ → List (List ℕ) → List ℕ → Type 0
WasWritten first [] r = r ≡ first
WasWritten first (v ∷ vs) r = (r ≡ v) ⊎ WasWritten first vs r

abbrev pub IsRead : List ℕ → List (List ℕ) → ℕ → List ℕ → Reader → Type 0
IsRead first h now value loading = Unit
IsRead first h now value (copying before acc) = HasSeen now before value acc
IsRead first h now value (done r) = WasWritten first h r

pub record Inv (first : List ℕ) (s : System) : Type 0 where
  pub counted : s.mem.version ≡ ticks s.writer s.history % 2 ^ 32
  pub sized : length s.mem.value ≡ length first
  pub last_sized : length (latest first s.history) ≡ length first
  pub written : IsWritten (latest first s.history) s.writer s.mem.value
  pub read : IsRead first s.history (ticks s.writer s.history) s.mem.value s.reader

pub WasWritten-latest : (first : List ℕ) (h : List (List ℕ)) → WasWritten first h (latest first h)
WasWritten-latest first [] = refl
WasWritten-latest first (v ∷ vs) = inl refl

-- After a new version, or a store while the version is odd, nothing has to be known of the words.
pub IsRead-moved :
    (first : List ℕ) (h : List (List ℕ)) (now now' : ℕ) (value value' : List ℕ) (r : Reader)
    → now ≤ now'
    → ((k : ℕ) → now ≡ 2 * k → now' ≡ 2 * k → ⊥)
    → length value' ≡ length value
    → IsRead first h now value r
    → IsRead first h now' value' r
IsRead-moved first h now now' value value' loading le out l x = tt
IsRead-moved first h now now' value value' (copying before acc) le out l x = record {
  writes = x.writes;
  loaded = x.loaded;
  past = omega (arith, x.past);
  within = omega (arith, x.within);
  fresh = λ e. absurd (out x.writes (omega (arith, x.past)) e);
}
IsRead-moved first h now now' value value' (done r) le out l x = x

pub IsRead-more :
    (first v : List ℕ) (h : List (List ℕ)) (now : ℕ) (value : List ℕ) (r : Reader)
    → IsRead first h now value r
    → IsRead first (v ∷ h) now value r
IsRead-more first v h now value loading x = x
IsRead-more first v h now value (copying before acc) x = x
IsRead-more first v h now value (done r) x = inr x

-- One more word of the next value.
pub set-mix :
    (v last : List ℕ) (i w : ℕ)
    → length v ≡ length last
    → get_elem? v i ≡ some w
    → set (take i v ++ drop i last) i w ≡ take (suc i) v ++ drop (suc i) last
set-mix [] last i w h g = cc
set-mix (x ∷ v) [] i w h g = absurd (omega arith)
set-mix (x ∷ v) (y ∷ last) zero w h g = ap (λ z. z ∷ last) (sym (some-injective x w g))
set-mix (x ∷ v) (y ∷ last) (suc i) w h g = ap (◌∷◌ x) (set-mix v last i w (omega arith) g)

pub get_elem?-bounded : (v : List ℕ) (i w : ℕ) → get_elem? v i ≡ some w → suc i ≤ length v
get_elem?-bounded [] i w h = cc
get_elem?-bounded (x ∷ v) zero w h = omega arith
get_elem?-bounded (x ∷ v) (suc i) w h = omega (arith, get_elem?-bounded v i w h)

pub mix_done :
    (v last : List ℕ) → length v ≡ length last → take (length v) v ++ drop (length v) last ≡ v
mix_done [] [] h = refl
mix_done [] (y ∷ last) h = absurd (omega arith)
mix_done (x ∷ v) [] h = absurd (omega arith)
mix_done (x ∷ v) (y ∷ last) h = ap (◌∷◌ x) (mix_done v last (omega arith))

pub take-snoc :
    (value : List ℕ) (n w : ℕ)
    → get_elem? value n ≡ some w
    → take n value ++ (w ∷ []) ≡ take (suc n) value
take-snoc [] n w h = cc
take-snoc (x ∷ value) zero w h = ap (λ z. z ∷ []) (sym (some-injective x w h))
take-snoc (x ∷ value) (suc n) w h = ap (◌∷◌ x) (take-snoc value n w h)
