-- ===== src/Session/Truncation.antt =====
-- Streams that end too early (engine/include/engine/replay/recorded_session.hpp).
use real_time_paper_trading.Base.{
  ℕ, zero, suc, ◌+◌, ◌-◌, ◌%◌, ◌^◌, ◌≤◌, ◌<◌, ◌≡◌, ◌⊎◌, inl, inr, refl, ap, ◌∙◌, Bool-cases, some,
  List, [], ◌∷◌, ◌++◌, length, length-append, length-take, take, ltb, arith, if◌then◌else◌,
}
use real_time_paper_trading.Session.{
  RecordedFrame, bytes_of, number_of, read_recorded_session_header, Reading, got, ended,
  bad_magic_or_version, truncated_header, truncated_payload, read_recorded_frame, read_frames,
  read_all_recorded_frames,
}
use real_time_paper_trading.Session.Bytes.{
  length-bytes_of, read_bytes-append, read_bytes_short, read_bytes_cases,
}
use real_time_paper_trading.Session.RoundTrip.{IsFrame, frame_bytes, size_of_frame}

take_beyond :
    (xs ys : List ℕ) (k : ℕ) → length xs ≤ k → take k (xs ++ ys) ≡ xs ++ take (k - length xs) ys
take_beyond [] ys k h = ap (λ i. take i ys) (omega arith)
take_beyond (x ∷ xs) ys zero h = absurd (omega arith)
take_beyond (x ∷ xs) ys (suc k) h =
    ap (◌∷◌ x) (take_beyond xs ys k (omega arith) ∙ ap (λ i. xs ++ take i ys) (omega arith))

short : (xs : List ℕ) → length xs < 8 → read_recorded_frame xs ≡ ended
unfolding read_recorded_frame
short xs h = rw (read_recorded_frame, read_bytes_short 8 xs h) refl

short_header :
    (ts xs : List ℕ)
    → length ts ≡ 8
    → length xs < 4
    → read_recorded_frame (ts ++ xs) ≡ truncated_header
unfolding read_recorded_frame
short_header ts xs a h =
    rw (read_bytes-append 8 ts xs a, read_recorded_frame, read_bytes_short 4 xs h) refl

short_payload :
    (ts n xs : List ℕ)
    → length ts ≡ 8
    → length n ≡ 4
    → length xs < number_of n
    → read_recorded_frame (ts ++ (n ++ xs)) ≡ truncated_payload
unfolding read_recorded_frame
short_payload ts n xs a b h =
    rw
      (
        read_bytes-append 8 ts (n ++ xs) a,
        read_recorded_frame,
        read_bytes-append 4 n xs b,
        read_bytes_short (number_of n) xs h,
      )
      refl

-- A frame that is cut off after `k` bytes is the end of the session where `k` is below 8, even if it
-- is not 0, and an error otherwise: a truncated header below 12 bytes, and then a truncated payload.
pub read_recorded_frame_truncated :
    (f : RecordedFrame) (k : ℕ)
    → IsFrame f
    → k < length (frame_bytes f)
    → read_recorded_frame (take k (frame_bytes f))
      ≡ (if ltb k 8 then ended else if ltb k 12 then truncated_header else truncated_payload)
read_recorded_frame_truncated f k v h =
    let ts = bytes_of 8 f.recv_ts_nanos in
    let n = bytes_of 4 (length f.raw % 2 ^ 32) in
    let a : length ts ≡ 8 = length-bytes_of 8 f.recv_ts_nanos in
    let b : length n ≡ 4 = length-bytes_of 4 (length f.raw % 2 ^ 32) in
    let l : length (frame_bytes f) ≡ 12 + length f.raw =
      omega (arith, a, b, length-append ts (n ++ f.raw), length-append n f.raw) in
    elim (Bool-cases (ltb k 8)) [
      | inl y ↦
          rw y (short (take k (frame_bytes f)) (ground (arith, length-take k (frame_bytes f))))
      | inr d ↦
          rw (d, take_beyond ts (n ++ f.raw) k (ground arith))
            (elim (Bool-cases (ltb k 12)) [
              | inl y ↦
                  rw y
                    (short_header ts _ a (ground (arith, length-take (k - length ts) (n ++ f.raw))))
              | inr e ↦
                  rw (e, take_beyond n f.raw (k - length ts) (ground arith))
                    (short_payload ts n _ a b (
                      ground
                        (arith, length-take (k - length ts - length n) f.raw, size_of_frame f v)))
            ])
    ]

read_recorded_frame_cases :
    (xs : List ℕ)
    → (read_recorded_frame xs ≡ ended)
      ⊎ (read_recorded_frame xs ≡ truncated_header)
      ⊎ (read_recorded_frame xs ≡ truncated_payload)
      ⊎ ((f : RecordedFrame) × (ys : List ℕ) × (read_recorded_frame xs ≡ got (f, ys))
          × (length ys < length xs))
unfolding read_recorded_frame
read_recorded_frame_cases xs = elim (read_bytes_cases 8 xs) [
  | inl e ↦ inl (rw (read_recorded_frame, e) refl)
  | inr (ts, ys, e, h) ↦ elim (read_bytes_cases 4 ys) [
    | inl e' ↦ inr (inl (rw (read_recorded_frame, e, e') refl))
    | inr (n, zs, e', h') ↦ elim (read_bytes_cases (number_of n) zs) [
      | inl e'' ↦ inr (inr (inl (rw (read_recorded_frame, e, e', e'') refl)))
      | inr (raw, rest, e'', h'') ↦ inr (
          inr (
            inr (
              record { recv_ts_nanos = number_of ts; raw = raw },
              rest,
              rw (read_recorded_frame, e, e', e'') refl,
              omega arith,
            )))
    ]
  ]
]

read_frames_ends :
    (fuel : ℕ) (acc : List RecordedFrame) (xs : List ℕ)
    → length xs < fuel
    → (r : Reading (List RecordedFrame)) × (read_frames fuel acc xs ≡ some r)
unfolding read_frames
read_frames_ends zero acc xs h = absurd (omega arith)
read_frames_ends (suc fuel) acc xs h = elim (read_recorded_frame_cases xs) [
  | inl e ↦ (got acc, rw (read_frames, e) refl)
  | inr (inl e) ↦ (truncated_header, rw (read_frames, e) refl)
  | inr (inr (inl e)) ↦ (truncated_payload, rw (read_frames, e) refl)
  | inr (inr (inr (f, ys, e, k))) ↦
      rw (read_frames, e) (read_frames_ends fuel (acc ++ (f ∷ [])) ys (omega arith))
]

-- The reading of a session ends, with frames or with an error, whatever bytes it reads: its fuel
-- suffices.
pub read_all_recorded_frames_ends :
    (xs : List ℕ) → (r : Reading (List RecordedFrame)) × (read_all_recorded_frames xs ≡ some r)
unfolding read_all_recorded_frames
read_all_recorded_frames_ends xs = elim (Bool-cases (read_recorded_session_header xs).0) [
  | inl y ↦
      rw (read_all_recorded_frames, y)
        (read_frames_ends (suc (length (read_recorded_session_header xs).1)) []
          (read_recorded_session_header xs).1 (omega arith))
  | inr n ↦ (bad_magic_or_version, rw (read_all_recorded_frames, n) refl)
]
