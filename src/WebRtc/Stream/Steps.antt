-- ===== src/WebRtc/Stream/Steps.antt =====
-- The operations of a stream as a relation, with the bytes that each takes in for the reader and hands
-- out to it.
use p2p_netcat_go_wrk.Common.{
  ℕ, ◌+◌, ◌≡◌, refl, Bool, ◌&&◌, not, leb, ◌==◌, if◌then◌else◌, [], ◌++◌, Bytes, length, arith,
  Option, none, some,
}
use p2p_netcat_go_wrk.Common.Text.{codes}
use p2p_netcat_go_wrk.Common.Decimal.{atoi}
use p2p_netcat_go_wrk.WebRtc.Wire.{Frame, frame_data}
use p2p_netcat_go_wrk.WebRtc.Stream.{
  Stream, Peer, Error, ReadOutcome, got, max_read_queue_bytes, read, write, close_write, fail,
  close, reset, receive, receive_control, acknowledge_parsed, after_prefix, receive_other,
  reconnected, keep_alive,
}

abbrev pub bytes_of : ReadOutcome → Bytes
bytes_of (got bytes) = bytes
bytes_of _ = []

-- A data frame is taken while the stream is open for reading and its queue has room.
abbrev pub accepts : Frame → Stream → Bool
accepts f s =
    f.kind == frame_data
    && not s.closed_read
    && not s.closed
    && leb (s.read_queued + length f.payload) max_read_queue_bytes

abbrev pub accepted : Frame → Stream → Bytes
accepted f s = if accepts f s then f.payload else []

-- `Step s taken given s'`
pub data Step : Stream → Bytes → Bytes → Stream → Type 0 where
  reads : (size : ℕ) (s : Stream) → Step s [] (bytes_of (read size s).0) (read size s).1
  writes : (p : Peer) (payload : Bytes) (s : Stream) → Step s [] [] (write p payload s).1
  closes_write : (p : Peer) (s : Stream) → Step s [] [] (close_write p s).1
  closes : (p : Peer) (s : Stream) → Step s [] [] (close p s).1
  resets : (p : Peer) (s : Stream) → Step s [] [] (reset p s).1
  receives : (p : Peer) (f : Frame) (s : Stream) → Step s (accepted f s) [] (receive p f s).1
  reconnects : (p : Peer) (s : Stream) → Step s [] [] (reconnected p s).1
  ticks : (p : Peer) (s : Stream) → Step s [] [] (keep_alive p s)

pub data Run : Stream → Bytes → Bytes → Stream → Type 0 where
  done : (s : Stream) → Run s [] [] s
  step :
      (s : Stream) (taken given : Bytes) (s' : Stream) (more_taken more_given : Bytes)
      (s'' : Stream)
      → Step s taken given s'
      → Run s' more_taken more_given s''
      → Run s (taken ++ more_taken) (given ++ more_given) s''

-- The reader's data stays as it is.
abbrev pub SameQueue : Stream → Stream → Type 0
SameQueue s s' =
    (s'.read_queue ≡ s.read_queue)
    × (s'.read_queued ≡ s.read_queued)
    × (s'.read_offset ≡ s.read_offset)

pub fail-SameQueue : (e : Error) (s : Stream) → SameQueue s (fail e s)
unfolding fail
fail-SameQueue e s = ground arith

pub write-SameQueue : (p : Peer) (payload : Bytes) (s : Stream) → SameQueue s (write p payload s).1
unfolding write
write-SameQueue p payload s = ground arith

pub close_write-SameQueue : (p : Peer) (s : Stream) → SameQueue s (close_write p s).1
unfolding close_write
close_write-SameQueue p s = ground arith

pub close-SameQueue : (p : Peer) (s : Stream) → SameQueue s (close p s).1
unfolding close
close-SameQueue p s =
    ground (arith, fail-SameQueue Error.eof (close_write p s).1, close_write-SameQueue p s)

pub reset-SameQueue : (p : Peer) (s : Stream) → SameQueue s (reset p s).1
unfolding reset
reset-SameQueue p s = fail-SameQueue Error.stream_reset s

acknowledge_parsed-SameQueue : (n : Option ℕ) (s : Stream) → SameQueue s (acknowledge_parsed n s)
acknowledge_parsed-SameQueue none s = (refl, refl, refl)
acknowledge_parsed-SameQueue (some n) s = ground arith

receive_other-SameQueue :
    (p : Peer) (text : Bytes) (number : Option Bytes) (s : Stream)
    → SameQueue s (receive_other p text number s)
receive_other-SameQueue p text none s = ground arith
receive_other-SameQueue p text (some number) s = acknowledge_parsed-SameQueue (atoi number) s

pub receive_control-SameQueue :
    (p : Peer) (text : Bytes) (s : Stream) → SameQueue s (receive_control p text s)
unfolding receive_control
receive_control-SameQueue p text s = ground (
  arith,
  fail-SameQueue Error.peer_aborted s,
  receive_other-SameQueue p text (after_prefix (codes "ack:") text) s,
)

pub reconnected-SameQueue : (p : Peer) (s : Stream) → SameQueue s (reconnected p s).1
unfolding reconnected
reconnected-SameQueue p s = ground arith

pub keep_alive-SameQueue : (p : Peer) (s : Stream) → SameQueue s (keep_alive p s)
unfolding keep_alive
keep_alive-SameQueue p s = ground arith
