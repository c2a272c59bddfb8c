-- ===== src/WebRtc/Stream/Acks.antt =====
-- A chunk that the other side has read gives its bytes back to the window.
use p2p_netcat_go_wrk.Common.{
  ℕ, ◌+◌, ◌-◌, ◌^◌, ◌<◌, ◌≤◌, ◌≡◌, ◌∙◌, ap, refl, inl, inr, Option-cases, true, false, Bytes,
  length, take-length, arith, Option, none, ◌==◌, ltb, [], ◌∷◌, ◌++◌,
}
use p2p_netcat_go_wrk.Common.Text.{codes, bytes_eq}
use p2p_netcat_go_wrk.Common.Decimal.{decimal, atoi-decimal}
use p2p_netcat_go_wrk.WebRtc.Wire.{Frame}
use p2p_netcat_go_wrk.WebRtc.Stream.{
  Stream, Peer, max_read_queue_bytes, control, data_frame, got, wrote, read, write, acknowledge,
  receive, receive_control,
}
use p2p_netcat_go_wrk.WebRtc.Stream.Order.{IsSound}

abbrev pub ack : ℕ → Frame
ack n = control (codes "ack:" ++ decimal n)

-- What an `ack` does to the sender.
pub receive-ack :
    (p : Peer) (n : ℕ) (s : Stream)
    → 0 < n
    → n < 2 ^ 63
    → receive p (ack n) s ≡ (none, acknowledge n s)
unfolding receive receive_control bytes_eq
receive-ack p n s positive small =
    let above : ltb 0 n ≡ true = ground arith in rw (atoi-decimal n small, above)

write-in_flight :
    (p : Peer) (payload : Bytes) (s s' : Stream) (n : ℕ)
    → s.flow_enabled ≡ true
    → write p payload s ≡ (wrote n, s')
    → (n ≡ length payload) × (s'.in_flight ≡ s.in_flight + length payload)
unfolding write
write-in_flight p payload s s' n on h = elim (Option-cases (p.send (data_frame payload))) [
  | inl sent ↦ ground arith
  | inr (e, refused) ↦ ground arith
]

-- A stream with nothing queued receives a chunk and reads it whole.
receive-read :
    (p : Peer) (payload : Bytes) (s : Stream)
    → IsSound s
    → s.read_queue ≡ []
    → s.closed_read ≡ false
    → s.closed ≡ false
    → length payload ≤ max_read_queue_bytes
    → ((read (length payload) (receive p (data_frame payload) s).1).0 ≡ got payload)
      × ((read (length payload) (receive p (data_frame payload) s).1).1.spawned
          ≡ s.spawned ++ ack (length payload) ∷ [])
unfolding receive read
receive-read p payload s (n, _, fits) q open_ alive short =
    let start : s.read_offset ≡ 0 = rw q at fits in
    let empty : s.read_queued ≡ 0 = rw q at n in
    let room : ltb (max_read_queue_bytes - s.read_queued) (length payload) ≡ false = ground arith in
    let whole : (0 + length payload == length payload) ≡ true = ground arith in
    rw (open_, alive, room, q, start, take-length payload, whole) (refl, refl)

-- A chunk that a sender with flow control has written, and that its peer, with nothing else queued,
-- receives and reads: the reader gets the chunk, an acknowledgment is spawned, and when it arrives
-- the sender has as many bytes in flight as before the write.
pub ack_returns :
    (p p' : Peer) (payload : Bytes) (a a' b : Stream) (n : ℕ)
    → a.flow_enabled ≡ true
    → write p payload a ≡ (wrote n, a')
    → 0 < length payload
    → length payload ≤ max_read_queue_bytes
    → IsSound b
    → b.read_queue ≡ []
    → b.closed_read ≡ false
    → b.closed ≡ false
    → let (outcome, b') = read (length payload) (receive p' (data_frame payload) b).1 in
      (outcome ≡ got payload)
      × (answer : Frame) × (b'.spawned ≡ b.spawned ++ answer ∷ [])
      × ((receive p answer a').1.in_flight ≡ a.in_flight)
ack_returns p p' payload a a' b n on w positive short sound q open_ alive =
    let (outcome, spawned) = receive-read p' payload b sound q open_ alive short in
    let (_, count) = write-in_flight p payload a a' n on w in
    let small : length payload < 2 ^ 63 = omega arith in
    let back =
      ap (λ (r : Option _ × Stream). r.1.in_flight)
        (receive-ack p (length payload) a' positive small) in
    let balance : a'.in_flight - length payload ≡ a.in_flight = omega arith in
    (outcome, ack (length payload), spawned, back ∙ balance)
