-- ===== src/Pty/RoundTrip.antt =====
-- Terminal frames and window sizes read back as they were written.
use p2p_netcat_go_wrk.Common.{
  ℕ, ◌≤◌, ◌<◌, ◌^◌, ◌≡◌, refl, ◌⊎◌, ◌≢◌, none, some, Bool-cases, inl, inr, [], ◌∷◌, ◌++◌,
  append_assoc, append-nil, arith, Bytes, IsByte, All, length, ok, err, ltb, ltb→lt, not-ltb→le,
}
use p2p_netcat_go_wrk.Common.BigEndian.{put_u16, u16, put_u32, u32-put_u32, length-put_u32, u16-lt}
use p2p_netcat_go_wrk.Common.Io.{
  read_full-append, Writer, write_full, write_full_ok, write_full-Sends, Sends, Sends-and_then,
  Sends-wrap_error,
}
use p2p_netcat_go_wrk.Pty.{
  max_frame_length, frame_too_long, stream_error, bad_resize_length, header_of, write_frame,
  read_frame, at_least_one, encode_resize, decode_resize,
}

abbrev pub frame_bytes : ℕ → Bytes → Bytes
frame_bytes kind content = header_of kind content ++ content

read_frame-frame_bytes :
    (kind : ℕ) (content rest : Bytes)
    → length content ≤ max_frame_length
    → read_frame (frame_bytes kind content ++ rest)
      ≡ ok (record { kind = kind; content = content }, rest)
unfolding read_frame
read_frame-frame_bytes kind content rest h = ground (
  arith,
  append_assoc (header_of kind content) content rest,
  length-put_u32 (length content),
  read_full-append (header_of kind content) (content ++ rest),
  read_full-append content rest,
  u32-put_u32 (length content) [],
  append-nil (put_u32 (length content)),
)

-- A frame of at most 1 MiB is written whole, or the writer failed and holds a front part of it; a
-- longer frame is refused before a byte is written.
pub write_frame_outcome :
    (kind : ℕ) (content : Bytes) (w : Writer)
    → (length content ≤ max_frame_length
        × Sends w.out (frame_bytes kind content) (write_frame kind content w))
      ⊎ (max_frame_length < length content
          × (write_frame kind content w ≡ (some frame_too_long, w)))
unfolding write_frame
write_frame_outcome kind content w = elim (Bool-cases (ltb max_frame_length (length content))) [
  | inl long ↦ inr (ltb→lt _ _ long, rw long)
  | inr short ↦ inl (
    not-ltb→le _ _ short,
    rw short (
        Sends-and_then w.out (header_of kind content) content _ _
          (Sends-wrap_error stream_error _ _ _ (write_full-Sends (header_of kind content) w))
          (λ w'. Sends-wrap_error stream_error _ _ _ (write_full-Sends content w'))),
  )
]

write_frame_ok :
    (kind : ℕ) (content : Bytes) (w : Writer)
    → (write_frame kind content w).0 ≡ none
    → ((write_frame kind content w).1.out ≡ w.out ++ frame_bytes kind content)
      × (length content ≤ max_frame_length)
unfolding write_frame
write_frame_ok kind content w h = ground (
  arith,
  write_full_ok (header_of kind content) w,
  write_full_ok content (write_full (header_of kind content) w).1,
  append_assoc w.out (header_of kind content) content,
)

-- A frame whose `write_frame` reports no error reads back with its kind and its content, and leaves
-- the bytes that follow it.
pub read_frame-write_frame :
    (kind : ℕ) (content : Bytes) (w : Writer) (rest : Bytes)
    → (write_frame kind content w).0 ≡ none
    → (added : Bytes) × ((write_frame kind content w).1.out ≡ w.out ++ added)
      × (read_frame (added ++ rest) ≡ ok (record { kind = kind; content = content }, rest))
read_frame-write_frame kind content w rest h =
    let (e, short) = write_frame_ok kind content w h in
    (frame_bytes kind content, e, read_frame-frame_bytes kind content rest short)

-- A header that announces more than 1 MiB is refused before its content is read, whatever follows.
pub read_frame_refuses :
    (kind n : ℕ) (rest : Bytes)
    → n < 2 ^ 32
    → max_frame_length < n
    → read_frame ((kind ∷ put_u32 n) ++ rest) ≡ err frame_too_long
unfolding read_frame
read_frame_refuses kind n rest h big = ground (
  arith,
  length-put_u32 n,
  read_full-append (kind ∷ put_u32 n) rest,
  u32-put_u32 n [],
  append-nil (put_u32 n),
)

-- A window size of two uint16s reads back with each zero replaced by one; so a size with no zero
-- reads back unchanged.
pub decode_resize-encode_resize :
    (columns rows : ℕ)
    → columns < 2 ^ 16
    → rows < 2 ^ 16
    → decode_resize (encode_resize columns rows) ≡ ok (at_least_one columns, at_least_one rows)
unfolding decode_resize encode_resize put_u16 u16
decode_resize-encode_resize columns rows hc hr = ground arith

-- Any payload is refused unless it has four bytes; then both sizes lie between 1 and 65535.
pub decode_resize_range :
    (value : Bytes)
    → All IsByte value
    → ((length value ≢ 4) × (decode_resize value ≡ err bad_resize_length))
      ⊎ ((columns : ℕ) × (rows : ℕ) × (decode_resize value ≡ ok (columns, rows))
          × (1 ≤ columns)
          × (columns < 2 ^ 16)
          × (1 ≤ rows)
          × (rows < 2 ^ 16))
unfolding decode_resize
decode_resize_range [] h = inl (omega arith, refl)
decode_resize_range (a ∷ []) h = inl (omega arith, refl)
decode_resize_range (a ∷ b ∷ []) h = inl (omega arith, refl)
decode_resize_range (a ∷ b ∷ c ∷ []) h = inl (omega arith, refl)
decode_resize_range (a ∷ b ∷ c ∷ d ∷ []) h =
    let hi = u16-lt (a ∷ b ∷ []) (h.0, (h.1.0, tt)) in
    let lo = u16-lt (c ∷ d ∷ []) h.1.1 in
    inr (_, _, refl, ground arith, ground arith, ground arith, ground arith)
decode_resize_range (a ∷ b ∷ c ∷ d ∷ e ∷ v) h = inl (omega arith, ground arith)
