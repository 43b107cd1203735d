-- ===== src/Session.antt =====
-- engine/include/engine/replay/recorded_session.hpp: the file of a recorded session. A stream is the
-- list of the bytes that remain in it or that were written to it; `read` into an object takes its
-- bytes, the least significant first (as on the machines that the engine is built for), and fails at
-- the end of the file, whatever was there. Writing does not fail.
pub mod Bytes
pub mod RoundTrip
pub mod Truncation
mod Tests
use real_time_paper_trading.Base.{
  ℕ, zero, suc, ◌+◌, ◌-◌, ◌/◌, ◌*◌, ◌%◌, ◌^◌, Bool, true, false, ◌&&◌, Option, none, some, List, [],
  ◌∷◌, ◌++◌, ltb, ◌==◌, if◌then◌else◌, length, take, drop, Text,
}

abbrev pub recorded_session_magic : ℕ
recorded_session_magic = 0x50545253

abbrev pub recorded_session_version : ℕ
recorded_session_version = 1

pub record RecordedFrame : Type 0 where
  pub recv_ts_nanos : ℕ
  pub raw : Text

-- The `n` bytes of a number, and the number of bytes.
unfoldable pub bytes_of : ℕ → ℕ → List ℕ
bytes_of zero v = []
bytes_of (suc n) v = v % 256 ∷ bytes_of n (v / 256)

unfoldable pub number_of : List ℕ → ℕ
number_of [] = 0
number_of (b ∷ bs) = b + 256 * number_of bs

-- `in.read(p, n)`: the bytes and the rest of the stream, or `none` at the end of the file, which
-- leaves nothing.
unfoldable pub read_bytes : ℕ → List ℕ → Option (List ℕ × List ℕ)
read_bytes n stream = if ltb (length stream) n then none else some (take n stream, drop n stream)

unfoldable pub write_recorded_session_header : List ℕ → List ℕ
write_recorded_session_header out =
    out ++ bytes_of 4 recorded_session_magic ++ bytes_of 4 recorded_session_version

-- Whether the header is right, and the rest of the stream.
unfoldable pub read_recorded_session_header : List ℕ → Bool × List ℕ
unfolding read_bytes
read_recorded_session_header stream = elim (read_bytes 4 stream) [
  | none ↦ (false, [])
  | some (magic, stream') ↦ elim (read_bytes 4 stream') [
    | none ↦ (false, [])
    | some (version, stream'') ↦ (
      number_of magic == recorded_session_magic && number_of version == recorded_session_version,
      stream'',
    )
  ]
]

unfoldable pub write_recorded_frame : List ℕ → ℕ → Text → List ℕ
write_recorded_frame out recv_ts_nanos raw =
    out ++ bytes_of 8 recv_ts_nanos ++ bytes_of 4 (length raw % 2 ^ 32) ++ raw

-- The outcomes of `readRecordedFrame` and `readAllRecordedFrames`.
pub data Reading (A : Type 0) : Type 0 where
  got : A → Reading A
  ended bad_magic_or_version truncated_header truncated_payload : Reading A

unfoldable pub read_recorded_frame : List ℕ → Reading (RecordedFrame × List ℕ)
read_recorded_frame stream = elim (read_bytes 8 stream) [
  | none ↦ ended
  | some (ts, stream') ↦ elim (read_bytes 4 stream') [
    | none ↦ truncated_header
    | some (n, stream'') ↦ elim (read_bytes (number_of n) stream'') [
      | none ↦ truncated_payload
      | some (raw, rest) ↦ got (record { recv_ts_nanos = number_of ts; raw = raw }, rest)
    ]
  ]
]

-- The loop of `readAllRecordedFrames`, on fuel; `none` where the fuel does not suffice.
unfoldable pub read_frames : ℕ → List RecordedFrame → List ℕ → Option (Reading (List RecordedFrame))
read_frames zero frames stream = none
read_frames (suc fuel) frames stream = elim (read_recorded_frame stream) [
  | got (frame, rest) ↦ read_frames fuel (frames ++ (frame ∷ [])) rest
  | ended ↦ some (got frames)
  | bad_magic_or_version ↦ some bad_magic_or_version
  | truncated_header ↦ some truncated_header
  | truncated_payload ↦ some truncated_payload
]

-- Each frame takes twelve bytes at least, so the length of the stream is fuel enough.
unfoldable pub read_all_recorded_frames : List ℕ → Option (Reading (List RecordedFrame))
read_all_recorded_frames stream =
    let (good, rest) = read_recorded_session_header stream in
    if good then read_frames (suc (length rest)) [] rest else some bad_magic_or_version
