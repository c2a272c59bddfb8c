-- ===== src/Admission/Frames.antt =====
-- The frames of the admission handshake.
use p2p_netcat_go_wrk.Common.{
  ℕ, ◌^◌, ◌<◌, ◌≡◌, ◌∙◌, sym, ap, true, Bytes, length, take-append_eq, drop-append_eq, append-nil,
  arith, ok, ◌==◌, [], ◌++◌, length-append,
}
use p2p_netcat_go_wrk.Common.BigEndian.{put_u64, u64, u64-put_u64, length-put_u64}
use p2p_netcat_go_wrk.Common.Text.{bytes_eq_self}
use p2p_netcat_go_wrk.Admission.{nonce_size, mac_size, frame_size, magic, encode, decode}

length-encode :
    (kind timestamp : ℕ) (nonce mac : Bytes)
    → length nonce ≡ nonce_size
    → length mac ≡ mac_size
    → length (encode kind timestamp nonce mac) ≡ frame_size
unfolding encode
length-encode kind timestamp nonce mac n m = omega (
  arith,
  length-append (put_u64 timestamp) (nonce ++ mac),
  length-append nonce mac,
  length-put_u64 timestamp,
)

-- A frame of any kind is decoded, as that kind, to the timestamp, the nonce and the code that it was
-- encoded from, where these have their sizes of 8, 16 and 32 bytes.
pub decode-encode :
    (kind timestamp : ℕ) (nonce mac : Bytes)
    → timestamp < 2 ^ 64
    → length nonce ≡ nonce_size
    → length mac ≡ mac_size
    → decode (encode kind timestamp nonce mac) kind
      ≡ ok (record { timestamp = timestamp; nonce = nonce; mac = mac })
unfolding decode encode
decode-encode kind timestamp nonce mac small n m =
    let whole : (length (encode kind timestamp nonce mac) == frame_size) ≡ true =
      ground (arith, length-encode kind timestamp nonce mac n m) in
    let kind_is : (kind == kind) ≡ true = ground arith in
    let stamp : u64 (put_u64 timestamp) ≡ timestamp =
      ap u64 (sym (append-nil (put_u64 timestamp))) ∙ u64-put_u64 timestamp [] small in
    rw (
      whole,
      bytes_eq_self magic,
      kind_is,
      take-append_eq 8 (put_u64 timestamp) (nonce ++ mac) (length-put_u64 timestamp),
      drop-append_eq 8 (put_u64 timestamp) (nonce ++ mac) (length-put_u64 timestamp),
      take-append_eq nonce_size nonce mac n,
      drop-append_eq nonce_size nonce mac n,
      stamp,
    )
