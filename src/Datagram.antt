-- ===== src/Datagram.antt =====
-- protocol/datagram/frames.go: UDP packets as length-prefixed frames on a byte stream.
pub mod RoundTrip
mod Runs
use p2p_netcat_go_wrk.Common.{
  ℕ, zero, suc, Option, none, some, List, [], ◌∷◌, ltb, if◌then◌else◌, Bytes, length, Result, ok,
  err, ◌>>=◌, wrap,
}
use p2p_netcat_go_wrk.Common.BigEndian.{put_u16, u16}
use p2p_netcat_go_wrk.Common.Io.{IoError, read_full, Writer, write_full, wrap_error, and_then}

abbrev pub header_length : ℕ
header_length = 2

abbrev pub max_payload_length : ℕ
max_payload_length = 65535

pub data Error : Type 0 where
  payload_too_large : Error
  write_header write_payload read_header read_payload : IoError → Error

pub write : Bytes → Writer → Option Error × Writer
write payload w =
    if ltb max_payload_length (length payload)
    then (some payload_too_large, w)
    else and_then (wrap_error write_header (write_full (put_u16 (length payload)) w))
        (λ w'. wrap_error write_payload (write_full payload w'))

-- The payload, and what is left of the stream.
pub read : Bytes → Result Error (Bytes × Bytes)
read s = do
  (header, s') ← wrap read_header (read_full header_length s)
  wrap read_payload (read_full (u16 header) s')

-- The packets that a session sends, one after the other, up to the first error.
pub write_each : List Bytes → Writer → Option Error × Writer
write_each [] w = (none, w)
write_each (p ∷ ps) w = and_then (write p w) (write_each ps)

-- The packets that a session receives.
pub read_each : ℕ → Bytes → Result Error (List Bytes × Bytes)
read_each zero s = ok ([], s)
read_each (suc n) s = do
  (payload, s') ← read s
  (payloads, s'') ← read_each n s'
  ok (payload ∷ payloads, s'')
