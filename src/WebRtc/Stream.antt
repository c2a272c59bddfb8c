-- ===== src/WebRtc/Stream.antt =====
-- nativewebrtc/stream.go: a byte stream over the data channel, with flow control. One operation is one
-- step of the state. A call that would wait on a condition answers that it blocks, and leaves the
-- state as it is, to be made again when another operation has signalled the condition.
pub mod Steps
pub mod Order
pub mod Limits
pub mod Closing
pub mod Acks
mod Runs
use p2p_netcat_go_wrk.Common.{
  ℕ, ◌+◌, ◌-◌, ◌*◌, Bool, true, false, ◌&&◌, ◌||◌, not, Option, none, some, List, [], ◌∷◌, ◌++◌,
  ltb, leb, ◌==◌, if◌then◌else◌, Bytes, length, take, drop,
}
use p2p_netcat_go_wrk.Common.Text.{codes, bytes_eq}
use p2p_netcat_go_wrk.Common.Decimal.{decimal, atoi}
use p2p_netcat_go_wrk.WebRtc.Wire.{Frame, frame_data, frame_control}

abbrev pub flow_window_bytes : ℕ
flow_window_bytes = 256 * 1024

abbrev pub max_read_queue_bytes : ℕ
max_read_queue_bytes = 1024 * 1024

pub data Error : Type 0 where
  eof closed_pipe stream_reset peer_aborted queue_exceeded canceled not_reconnected : Error
  unexpected_frame : ℕ → Error
  -- what `send` and `closePeer` report
  transport : Bytes → Error

-- `sent` holds what was handed to `send`, and `spawned` what goroutines were started to send, the
-- latest last. The number of bytes in flight is never below zero in the source either.
pub record Stream : Type 0 where
  pub read_queue : List Bytes
  pub read_queued : ℕ
  pub read_offset : ℕ
  pub read_err : Option Error
  pub closed_read : Bool
  pub write_closed : Bool
  pub closed : Bool
  pub flow_enabled : Bool
  pub in_flight : ℕ
  pub sent : List Frame
  pub spawned : List Frame

-- The callbacks of the stream: whether a frame is taken, and how closing the connection ends, where
-- there is one to close.
pub record Peer : Type 0 where
  pub send : Frame → Option Error
  pub close_peer : Option (Option Error)

abbrev pub control : Bytes → Frame
control text = record { kind = frame_control; payload = text }

abbrev pub data_frame : Bytes → Frame
data_frame payload = record { kind = frame_data; payload = payload }

unfoldable pub new_stream : Stream
new_stream = record {
  read_queue = [];
  read_queued = 0;
  read_offset = 0;
  read_err = none;
  closed_read = false;
  write_closed = false;
  closed = false;
  flow_enabled = false;
  in_flight = 0;
  sent = [];
  spawned = control (codes "flow:1") ∷ [];
}

abbrev pub send_frame : Peer → Frame → Stream → Option Error × Stream
send_frame p f s = (p.send f, record s { sent = s.sent ++ f ∷ [] })

abbrev pub send_control : Peer → Bytes → Stream → Option Error × Stream
send_control p text s = send_frame p (control text) s

pub data ReadOutcome : Type 0 where
  read_blocks : ReadOutcome
  read_failed : Error → ReadOutcome
  got : Bytes → ReadOutcome

-- What the reader finds when the queue is empty.
abbrev pub read_nothing : Option Error → Bool → ReadOutcome
read_nothing (some e) closed_read = read_failed e
read_nothing none true = read_failed eof
read_nothing none false = read_blocks

-- The reader has read up to `offset` of the first chunk.
abbrev pub advance : ℕ → Bytes → List Bytes → Stream → Stream
advance offset chunk rest s =
    if offset == length chunk
    then record s {
      read_queue = rest;
      read_queued = s.read_queued - length chunk;
      read_offset = 0;
      spawned = s.spawned ++ control (codes "ack:" ++ decimal (length chunk)) ∷ [];
    }
    else record s { read_offset = offset }

abbrev pub read_from : ℕ → List Bytes → Stream → ReadOutcome × Stream
read_from size [] s = (read_nothing s.read_err s.closed_read, s)
read_from size (chunk ∷ rest) s =
    let bytes = take size (drop s.read_offset chunk) in
    (got bytes, advance (s.read_offset + length bytes) chunk rest s)

-- `Read` into a buffer of `size` bytes.
unfoldable pub read : ℕ → Stream → ReadOutcome × Stream
read size s = read_from size s.read_queue s

abbrev pub acknowledge : ℕ → Stream → Stream
acknowledge value s = record s { in_flight = s.in_flight - value }

pub data WriteOutcome : Type 0 where
  write_blocks : WriteOutcome
  write_failed : Error → WriteOutcome
  wrote : ℕ → WriteOutcome

abbrev pub window_full : ℕ → Stream → Bool
window_full size s =
    s.flow_enabled && ltb 0 s.in_flight && ltb flow_window_bytes (s.in_flight + size)

abbrev pub count_in_flight : ℕ → Stream → Stream
count_in_flight size s = if s.flow_enabled then record s { in_flight = s.in_flight + size } else s

abbrev pub finish_write : ℕ → Option Error × Stream → WriteOutcome × Stream
finish_write size (none, s) = (wrote size, s)
finish_write size (some e, s) = (write_failed e, acknowledge size s)

unfoldable pub write : Peer → Bytes → Stream → WriteOutcome × Stream
write p payload s =
    if s.write_closed || s.closed
    then (write_failed closed_pipe, s)
    else if window_full (length payload) s
    then (write_blocks, s)
    else finish_write (length payload)
        (send_frame p (data_frame payload) (count_in_flight (length payload) s))

unfoldable pub close_write : Peer → Stream → Option Error × Stream
close_write p s =
    if s.write_closed
    then (none, s)
    else send_control p (codes "eof") (record s { write_closed = true })

abbrev pub note_error : Error → Option Error → Option Error
note_error eof before = before
note_error e before = some e

unfoldable pub fail : Error → Stream → Stream
fail e s = if s.closed then s else record s {
  closed = true;
  closed_read = true;
  read_err = note_error e s.read_err;
  write_closed = true;
}

-- `errors.Join`
abbrev pub join : Option Error → Option Error → List Error
join none none = []
join none (some e) = e ∷ []
join (some e) none = e ∷ []
join (some e) (some e') = e ∷ e' ∷ []

abbrev pub closing : Option Error → Option (Option Error) → List Error
closing write_err none = join write_err none
closing write_err (some peer_err) = join write_err peer_err

unfoldable pub close : Peer → Stream → List Error × Stream
close p s = let (write_err, s') = close_write p s in (closing write_err p.close_peer, fail eof s')

abbrev pub reset_error : Option (Option Error) → Option Error
reset_error none = none
reset_error (some peer_err) = peer_err

unfoldable pub reset : Peer → Stream → Option Error × Stream
reset p s = (reset_error p.close_peer, (send_control p (codes "abort") (fail stream_reset s)).1)

-- `strings.TrimPrefix` behind `strings.HasPrefix`
abbrev pub after_prefix : Bytes → Bytes → Option Bytes
after_prefix [] text = some text
after_prefix (c ∷ prefix) [] = none
after_prefix (c ∷ prefix) (d ∷ text) = if d == c then after_prefix prefix text else none

abbrev pub acknowledge_parsed : Option ℕ → Stream → Stream
acknowledge_parsed none s = s
acknowledge_parsed (some value) s = if ltb 0 value then acknowledge value s else s

abbrev pub receive_other : Peer → Bytes → Option Bytes → Stream → Stream
receive_other p text (some number) s = acknowledge_parsed (atoi number) s
receive_other p text none s =
    if bytes_eq text (codes "ping") then (send_control p (codes "pong") s).1 else s

unfoldable pub receive_control : Peer → Bytes → Stream → Stream
receive_control p text s =
    if bytes_eq text (codes "eof")
    then record s { closed_read = true }
    else if bytes_eq text (codes "abort")
    then fail peer_aborted s
    else if bytes_eq text (codes "flow:1")
    then record s { flow_enabled = true }
    else if bytes_eq text (codes "resume")
    then (send_control p (codes "flow:1") (record s { in_flight = 0 })).1
    else receive_other p text (after_prefix (codes "ack:") text) s

abbrev pub receive_data : Bytes → Stream → Option Error × Stream
receive_data payload s =
    if s.closed_read || s.closed
    then (none, s)
    else if ltb (max_read_queue_bytes - s.read_queued) (length payload)
    then (some queue_exceeded, fail queue_exceeded s)
    else (
      none,
      record s {
        read_queue = s.read_queue ++ payload ∷ [];
        read_queued = s.read_queued + length payload;
      },
    )

unfoldable pub receive : Peer → Frame → Stream → Option Error × Stream
receive p f s =
    if f.kind == frame_data
    then receive_data f.payload s
    else if f.kind == frame_control
    then (none, receive_control p f.payload s)
    else (some (unexpected_frame f.kind), s)

abbrev pub then_flow : Peer → Option Error × Stream → Option Error × Stream
then_flow p (some e, s) = (some e, s)
then_flow p (none, s) = send_control p (codes "flow:1") s

unfoldable pub reconnected : Peer → Stream → Option Error × Stream
reconnected p s = then_flow p (send_control p (codes "resume") (record s { in_flight = 0 }))

-- One tick of `keepAlive`.
unfoldable pub keep_alive : Peer → Stream → Stream
keep_alive p s = if s.closed then s else (send_control p (codes "ping") s).1
