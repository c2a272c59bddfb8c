-- ===== src/Pty.antt =====
-- protocol/pty/frames.go: data and window-size frames of an interactive session.
pub mod RoundTrip
mod Runs
use p2p_netcat_go_wrk.Common.{
  ℕ, ◌*◌, Option, none, some, [], ◌∷◌, ◌++◌, ltb, ◌==◌, not, if◌then◌else◌, Bytes, length, take,
  drop, Result, ok, err, ◌>>=◌, ◌>>◌, fail_if, wrap,
}
use p2p_netcat_go_wrk.Common.BigEndian.{put_u16, u16, put_u32, u32}
use p2p_netcat_go_wrk.Common.Io.{IoError, read_full, Writer, write_full, wrap_error, and_then}

abbrev pub frame_data : ℕ
frame_data = 0

abbrev pub frame_resize : ℕ
frame_resize = 1

abbrev pub max_frame_length : ℕ
max_frame_length = 1024 * 1024

pub record Frame : Type 0 where
  pub kind : ℕ
  pub content : Bytes

pub data Error : Type 0 where
  frame_too_long ended_inside_frame bad_resize_length : Error
  stream_error : IoError → Error

-- The header of a frame: the kind and the length as a uint32.
abbrev pub header_of : ℕ → Bytes → Bytes
header_of kind content = kind ∷ put_u32 (length content)

unfoldable pub write_frame : ℕ → Bytes → Writer → Option Error × Writer
write_frame kind content w =
    if ltb max_frame_length (length content)
    then (some frame_too_long, w)
    else and_then (wrap_error stream_error (write_full (header_of kind content) w))
        (λ w'. wrap_error stream_error (write_full content w'))

abbrev kind_of : Bytes → ℕ
kind_of [] = 0
kind_of (k ∷ _) = k

unfoldable pub read_frame : Bytes → Result Error (Frame × Bytes)
read_frame s = do
  (header, s') ← wrap stream_error (read_full 5 s)
  fail_if (ltb max_frame_length (u32 (drop 1 header))) frame_too_long
  (content, s'') ← wrap (λ _. ended_inside_frame) (read_full (u32 (drop 1 header)) s')
  ok (record { kind = kind_of header; content = content }, s'')

abbrev pub at_least_one : ℕ → ℕ
at_least_one n = if n == 0 then 1 else n

unfoldable pub encode_resize : ℕ → ℕ → Bytes
encode_resize columns rows = put_u16 (at_least_one columns) ++ put_u16 (at_least_one rows)

unfoldable pub decode_resize : Bytes → Result Error (ℕ × ℕ)
decode_resize value = do
  fail_if (not (length value == 4)) bad_resize_length
  ok (at_least_one (u16 (take 2 value)), at_least_one (u16 (drop 2 value)))
