-- ===== src/WebRtc/Stream/Runs.antt =====
-- Runs of a stream, and its theorems at concrete ones.
use p2p_netcat_go_wrk.Common.{◌≡◌, ◌≤◌, refl, true, false, none, [], ◌∷◌, ◌++◌, length, arith}
use p2p_netcat_go_wrk.Common.Text.{codes, bytes_eq}
use p2p_netcat_go_wrk.Common.Decimal.{decimal}
use p2p_netcat_go_wrk.WebRtc.Wire.{Frame}
use p2p_netcat_go_wrk.WebRtc.Stream.{
  Stream, Peer, data_frame, control, queue_exceeded, closed_pipe, write_failed, wrote, got,
  new_stream, read, write, fail, receive, receive_control, max_read_queue_bytes,
}
use p2p_netcat_go_wrk.WebRtc.Stream.Steps.{Run, done, step, accepted, reads, receives, bytes_of}
use p2p_netcat_go_wrk.WebRtc.Stream.Order.{unread, IsSound, Run-in_order}
use p2p_netcat_go_wrk.WebRtc.Stream.Closing.{fail_final}
use p2p_netcat_go_wrk.WebRtc.Stream.Acks.{ack_returns}

-- A peer that takes every frame, on a connection with nothing to close.
abbrev taking : Peer
taking = record { send = λ f. none; close_peer = none }

-- A stream whose peer has flow control.
abbrev flowing : Stream
flowing = (receive taking (control (codes "flow:1")) new_stream).1

abbrev hello : Frame
hello = data_frame (codes "hello")

abbrev received : Stream
received = (receive taking hello new_stream).1

abbrev three_read : Stream
three_read = (read 3 received).1

-- `hello` arrives in one frame, and three bytes of it are read.
Run-hello :
    Run new_stream
      (accepted hello new_stream ++ [] ++ [])
      ([] ++ bytes_of (read 3 received).0 ++ [])
      three_read
unfolding new_stream
Run-hello =
    step new_stream (accepted hello new_stream) [] received ([] ++ [])
      (bytes_of (read 3 received).0 ++ []) three_read (receives taking hello new_stream)
      (step received [] (bytes_of (read 3 received).0) three_read [] [] three_read
        (reads 3 received) (done three_read))

reads_three : three_read.read_offset ≡ 3
unfolding read receive new_stream
reads_three = refl

acknowledges : (read 2 three_read).1.spawned ≡ new_stream.spawned ++ control (codes "ack:5") ∷ []
unfolding read receive new_stream decimal
acknowledges = refl

Run-in_order_example :
    (accepted hello new_stream ++ [] ++ []
      ≡ ([] ++ bytes_of (read 3 received).0 ++ []) ++ unread three_read)
    × (length (unread three_read) ≤ max_read_queue_bytes)
Run-in_order_example =
    Run-in_order (accepted hello new_stream ++ [] ++ []) ([] ++ bytes_of (read 3 received).0 ++ [])
      three_read Run-hello

received-IsSound : IsSound received
unfolding receive new_stream
received-IsSound = (refl, omega arith, omega arith)

-- The stream fails while a chunk is unread, and what is read behind it is the rest of that chunk.
fail_final_example :
    (unread received
      ≡ (bytes_of (read 3 (fail queue_exceeded received)).0 ++ [])
        ++ unread (read 3 (fail queue_exceeded received)).1)
    × (write taking (codes "late") (read 3 (fail queue_exceeded received)).1
        ≡ (write_failed closed_pipe, (read 3 (fail queue_exceeded received)).1))
fail_final_example =
    fail_final queue_exceeded received ([] ++ [])
      (bytes_of (read 3 (fail queue_exceeded received)).0 ++ [])
      (read 3 (fail queue_exceeded received)).1 taking (codes "late") received-IsSound
      (step (fail queue_exceeded received) [] (bytes_of (read 3 (fail queue_exceeded received)).0)
        (read 3 (fail queue_exceeded received)).1 [] [] (read 3 (fail queue_exceeded received)).1
        (reads 3 (fail queue_exceeded received)) (done (read 3 (fail queue_exceeded received)).1))

abbrev written : Stream
written = (write taking (codes "hello") flowing).1

flows : flowing.flow_enabled ≡ true
unfolding receive receive_control new_stream bytes_eq
flows = refl

writes_hello : write taking (codes "hello") flowing ≡ (wrote 5, written)
unfolding write receive receive_control new_stream bytes_eq
writes_hello = refl

fresh :
    (new_stream.read_queue ≡ []) × (new_stream.closed_read ≡ false) × (new_stream.closed ≡ false)
unfolding new_stream
fresh = (refl, refl, refl)

fresh-IsSound : IsSound new_stream
unfolding new_stream
fresh-IsSound = (refl, omega arith, refl)

ack_returns_example :
    let (outcome, b') = read 5 (receive taking hello new_stream).1 in
    (outcome ≡ got (codes "hello"))
    × (answer : Frame) × (b'.spawned ≡ new_stream.spawned ++ answer ∷ [])
    × ((receive taking answer written).1.in_flight ≡ flowing.in_flight)
ack_returns_example =
    ack_returns taking taking (codes "hello") flowing written new_stream 5 flows writes_hello
      (omega arith) (omega arith) fresh-IsSound fresh.0 fresh.1 fresh.2
