-- ===== src/Session/RoundTrip.antt =====
-- A recorded session is read back (engine/include/engine/replay/recorded_session.hpp).
use real_time_paper_trading.Base.{
  ℕ, zero, suc, ◌%◌, ◌^◌, ◌≤◌, ◌<◌, ◌≡◌, refl, sym, ap, ◌∙◌, some, List, [], ◌∷◌, ◌++◌, length,
  length-append, append_assoc, append-nil, arith, All, true, ◌==◌, ◌&&◌,
}
use real_time_paper_trading.Session.{
  RecordedFrame, bytes_of, number_of, read_bytes, write_recorded_session_header,
  read_recorded_session_header, write_recorded_frame, got, ended, read_recorded_frame, read_frames,
  read_all_recorded_frames, recorded_session_magic, recorded_session_version,
}
use real_time_paper_trading.Session.Bytes.{length-bytes_of, number_of-bytes_of, read_bytes-append}

-- A time of 64 bits and a text whose length fits 32 bits.
pub record IsFrame (f : RecordedFrame) : Type 0 where
  pub time : f.recv_ts_nanos < 2 ^ 64
  pub size : length f.raw < 2 ^ 32

-- The bytes of a frame.
abbrev pub frame_bytes : RecordedFrame → List ℕ
frame_bytes f = bytes_of 8 f.recv_ts_nanos ++ (bytes_of 4 (length f.raw % 2 ^ 32) ++ f.raw)

pub read_recorded_frame_lem :
    (ts n raw rest : List ℕ)
    → length ts ≡ 8
    → length n ≡ 4
    → number_of n ≡ length raw
    → read_recorded_frame (ts ++ (n ++ (raw ++ rest)))
      ≡ got (record { recv_ts_nanos = number_of ts; raw = raw }, rest)
unfolding read_recorded_frame
read_recorded_frame_lem ts n raw rest a b c =
    rw
      (
        read_bytes-append 8 ts (n ++ (raw ++ rest)) a,
        read_recorded_frame,
        read_bytes-append 4 n (raw ++ rest) b,
        read_bytes-append (number_of n) raw rest (sym c),
      )
      refl

pub size_of_frame :
    (f : RecordedFrame) → IsFrame f → number_of (bytes_of 4 (length f.raw % 2 ^ 32)) ≡ length f.raw
size_of_frame f v =
    number_of-bytes_of 4 (length f.raw % 2 ^ 32) (omega (arith, v.size)) ∙ omega (arith, v.size)

read_recorded_frame-append :
    (f : RecordedFrame) (rest : List ℕ)
    → IsFrame f
    → read_recorded_frame (frame_bytes f ++ rest) ≡ got (f, rest)
read_recorded_frame-append f rest v =
    let time : number_of (bytes_of 8 f.recv_ts_nanos) ≡ f.recv_ts_nanos =
      number_of-bytes_of 8 f.recv_ts_nanos (omega (arith, v.time)) in
    ap read_recorded_frame (
      append_assoc (bytes_of 8 f.recv_ts_nanos) (bytes_of 4 (length f.raw % 2 ^ 32) ++ f.raw) rest
      ∙ ap (◌++◌ (bytes_of 8 f.recv_ts_nanos))
          (append_assoc (bytes_of 4 (length f.raw % 2 ^ 32)) f.raw rest))
    ∙ read_recorded_frame_lem (bytes_of 8 f.recv_ts_nanos) (bytes_of 4 (length f.raw % 2 ^ 32))
        f.raw rest (length-bytes_of 8 _) (length-bytes_of 4 _) (size_of_frame f v)
    ∙ ap (λ t. got (record { recv_ts_nanos = t; raw = f.raw }, rest)) time

write_recorded_frame_lem :
    (out : List ℕ) (f : RecordedFrame)
    → write_recorded_frame out f.recv_ts_nanos f.raw ≡ out ++ frame_bytes f
unfolding write_recorded_frame
write_recorded_frame_lem out f =
    append_assoc (out ++ bytes_of 8 f.recv_ts_nanos) (bytes_of 4 (length f.raw % 2 ^ 32)) f.raw
    ∙ append_assoc out (bytes_of 8 f.recv_ts_nanos) (bytes_of 4 (length f.raw % 2 ^ 32) ++ f.raw)

-- The frames of a session, written one after the other.
unfoldable pub write_frames : List ℕ → List RecordedFrame → List ℕ
write_frames out [] = out
write_frames out (f ∷ fs) = write_frames (write_recorded_frame out f.recv_ts_nanos f.raw) fs

frames_bytes : List RecordedFrame → List ℕ
frames_bytes [] = []
frames_bytes (f ∷ fs) = frame_bytes f ++ frames_bytes fs

write_frames_lem :
    (out : List ℕ) (fs : List RecordedFrame) → write_frames out fs ≡ out ++ frames_bytes fs
unfolding write_frames frames_bytes
write_frames_lem out [] = sym (append-nil out)
write_frames_lem out (f ∷ fs) =
    write_frames_lem (write_recorded_frame out f.recv_ts_nanos f.raw) fs
    ∙ ap (λ o. o ++ frames_bytes fs) (write_recorded_frame_lem out f)
    ∙ append_assoc out (frame_bytes f) (frames_bytes fs)

length-frame_bytes : (f : RecordedFrame) → 12 ≤ length (frame_bytes f)
length-frame_bytes f =
    let n : length (bytes_of 4 (length f.raw % 2 ^ 32)) ≡ 4 = length-bytes_of 4 _ in
    let t : length (bytes_of 8 f.recv_ts_nanos) ≡ 8 = length-bytes_of 8 _ in
    omega (
      arith,
      n,
      t,
      length-append (bytes_of 8 f.recv_ts_nanos) (bytes_of 4 (length f.raw % 2 ^ 32) ++ f.raw),
      length-append (bytes_of 4 (length f.raw % 2 ^ 32)) f.raw,
    )

read_recorded_frame-nil : read_recorded_frame [] ≡ ended
unfolding read_recorded_frame read_bytes
read_recorded_frame-nil = refl

read_frames_lem :
    (fuel : ℕ) (acc fs : List RecordedFrame)
    → All IsFrame fs
    → length (frames_bytes fs) < fuel
    → read_frames fuel acc (frames_bytes fs) ≡ some (got (acc ++ fs))
unfolding read_frames frames_bytes
read_frames_lem zero acc fs v h = absurd (omega arith)
read_frames_lem (suc fuel) acc [] v h =
    rw (read_frames, read_recorded_frame-nil) (ap (λ a. some (got a)) (sym (append-nil acc)))
read_frames_lem (suc fuel) acc (f ∷ fs) v h =
    rw (read_frames, read_recorded_frame-append f (frames_bytes fs) v.0)
      (read_frames_lem fuel (acc ++ (f ∷ [])) fs v.1
          (omega (arith, length-append (frame_bytes f) (frames_bytes fs), length-frame_bytes f, h))
        ∙ ap (λ a. some (got a)) (append_assoc acc (f ∷ []) fs))

read_recorded_session_header_lem :
    (a b rest : List ℕ)
    → length a ≡ 4
    → length b ≡ 4
    → read_recorded_session_header (a ++ (b ++ rest))
      ≡ (number_of a == recorded_session_magic && number_of b == recorded_session_version, rest)
unfolding read_recorded_session_header
read_recorded_session_header_lem a b rest h k =
    rw
      (
        read_bytes-append 4 a (b ++ rest) h,
        read_recorded_session_header,
        read_bytes-append 4 b rest k,
      )
      refl

header_lem :
    (rest : List ℕ)
    → read_recorded_session_header (write_recorded_session_header [] ++ rest) ≡ (true, rest)
unfolding write_recorded_session_header bytes_of number_of
header_lem rest =
    read_recorded_session_header_lem (bytes_of 4 recorded_session_magic)
      (bytes_of 4 recorded_session_version) rest refl refl

-- A session that is written, its header and then its frames, is read back: the frames that come out
-- are those that went in, if each time fits 64 bits and the length of each text 32 bits.
pub read_all_recorded_frames-write_frames :
    (fs : List RecordedFrame)
    → All IsFrame fs
    → read_all_recorded_frames (write_frames (write_recorded_session_header []) fs) ≡ some (got fs)
unfolding read_all_recorded_frames
read_all_recorded_frames-write_frames fs v =
    rw
      (
        write_frames_lem (write_recorded_session_header []) fs,
        read_all_recorded_frames,
        header_lem (frames_bytes fs),
      )
      (read_frames_lem (suc (length (frames_bytes fs))) [] fs v (omega arith))
