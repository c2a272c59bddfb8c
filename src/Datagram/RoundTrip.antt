-- ===== src/Datagram/RoundTrip.antt =====
-- Packet boundaries survive the byte stream, whatever the sizes in which the writer takes it.
use p2p_netcat_go_wrk.Common.{
  ℕ, ◌≤◌, ◌<◌, ◌≡◌, refl, sym, ◌⊎◌, none, some, Bool-cases, inl, inr, List, [], ◌∷◌, ◌++◌,
  append_assoc, append-nil, arith, Bytes, length, length-append, All, Result-cases, ok, err, ltb,
  ltb→lt, not-ltb→le,
}
use p2p_netcat_go_wrk.Common.BigEndian.{put_u16, u16, u16-put_u16, length-put_u16}
use p2p_netcat_go_wrk.Common.Io.{
  read_full, read_full-append, read_full-append_ok, Writer, write_full, write_full_ok,
  write_full-Sends, Sends, Sends-and_then, Sends-wrap_error,
}
use p2p_netcat_go_wrk.Datagram.{
  max_payload_length, Error, payload_too_large, write_header, write_payload, write, read,
  write_each, read_each,
}

-- What a packet looks like on the stream.
unfoldable pub frame : Bytes → Bytes
frame payload = put_u16 (length payload) ++ payload

write_ok :
    (payload : Bytes) (w : Writer)
    → (write payload w).0 ≡ none
    → ((write payload w).1.out ≡ w.out ++ frame payload) × (length payload ≤ max_payload_length)
unfolding write frame
write_ok payload w h = ground (
  arith,
  write_full_ok (put_u16 (length payload)) w,
  write_full_ok payload (write_full (put_u16 (length payload)) w).1,
  append_assoc w.out (put_u16 (length payload)) payload,
)

pub read-frame :
    (payload rest : Bytes)
    → length payload ≤ max_payload_length
    → read (frame payload ++ rest) ≡ ok (payload, rest)
unfolding read frame
read-frame payload rest h = ground (
  arith,
  append_assoc (put_u16 (length payload)) payload rest,
  length-put_u16 (length payload),
  read_full-append (put_u16 (length payload)) (payload ++ rest),
  read_full-append payload rest,
  u16-put_u16 (length payload) [],
  append-nil (put_u16 (length payload)),
)

-- `read` does not look past its frame.
read-append :
    (s more payload rest : Bytes)
    → read s ≡ ok (payload, rest)
    → read (s ++ more) ≡ ok (payload, rest ++ more)
unfolding read
read-append s more payload rest h = elim (Result-cases (read_full 2 s)) [
  | inl ((header, s'), e) ↦ ground (
    arith,
    e,
    read_full-append_ok 2 s more header s' e,
    read_full-append_ok (u16 header) s' more payload rest,
  )
  | inr (x, e) ↦ ground (arith, e)
]

-- A packet of at most 65535 bytes: whatever the writer takes in each call and wherever it fails, it
-- holds a front part of the packet's frame behind what it held, and all of the frame if `write`
-- reports no error. A longer packet is refused, and nothing is written.
pub write_outcome :
    (payload : Bytes) (w : Writer)
    → (length payload ≤ max_payload_length × Sends w.out (frame payload) (write payload w))
      ⊎ (max_payload_length < length payload × (write payload w ≡ (some payload_too_large, w)))
unfolding write frame
write_outcome payload w = elim (Bool-cases (ltb max_payload_length (length payload))) [
  | inl long ↦ inr (ltb→lt _ _ long, rw long)
  | inr short ↦ inl (
    not-ltb→le _ _ short,
    rw short (
        Sends-and_then w.out (put_u16 (length payload)) payload _ _
          (Sends-wrap_error write_header _ _ _ (write_full-Sends (put_u16 (length payload)) w))
          (λ w'. Sends-wrap_error write_payload _ _ _ (write_full-Sends payload w'))),
  )
]

abbrev stream_of : List Bytes → Bytes
stream_of [] = []
stream_of (p ∷ ps) = frame p ++ stream_of ps

write_each_ok :
    (ps : List Bytes) (w : Writer)
    → (write_each ps w).0 ≡ none
    → ((write_each ps w).1.out ≡ w.out ++ stream_of ps)
      × All (λ p. length p ≤ max_payload_length) ps
unfolding write_each
write_each_ok [] w h = (sym (append-nil w.out), tt)
write_each_ok (p ∷ ps) w h = ground (
  arith,
  write_ok p w,
  write_each_ok ps (write p w).1,
  append_assoc w.out (frame p) (stream_of ps),
)

read_each-stream_of :
    (ps : List Bytes) (rest : Bytes)
    → All (λ p. length p ≤ max_payload_length) ps
    → read_each (length ps) (stream_of ps ++ rest) ≡ ok (ps, rest)
unfolding read_each
read_each-stream_of [] rest h = refl
read_each-stream_of (p ∷ ps) rest (hp, hps) =
    rw (append_assoc, read-frame p (stream_of ps ++ rest) hp, read_each-stream_of ps rest hps)

-- If every `write` of a list of packets succeeds, what they added to the stream reads back, before
-- any further bytes, as the same packets in the same order.
pub read_each-write_each :
    (ps : List Bytes) (w : Writer) (rest : Bytes)
    → (write_each ps w).0 ≡ none
    → (added : Bytes) × ((write_each ps w).1.out ≡ w.out ++ added)
      × (read_each (length ps) (added ++ rest) ≡ ok (ps, rest))
read_each-write_each ps w rest h =
    let (e, short) = write_each_ok ps w h in (stream_of ps, e, read_each-stream_of ps rest short)

-- A stream that ends inside a frame gives an error, never a shorter packet.
pub read_truncated :
    (payload front back : Bytes) (x : ℕ)
    → length payload ≤ max_payload_length
    → frame payload ≡ front ++ (x ∷ back)
    → (e : Error) × (read front ≡ err e)
read_truncated payload front back x h e = elim (Result-cases (read front)) [
  | inl ((p, rest), r) ↦ ground (
    arith,
    read-append front (x ∷ back) p rest r,
    read-frame payload [] h,
    append-nil (frame payload),
    length-append rest (x ∷ back),
  )
  | inr bad ↦ bad
]
