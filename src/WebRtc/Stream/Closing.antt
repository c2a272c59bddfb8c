-- ===== src/WebRtc/Stream/Closing.antt =====
-- A stream that has failed, or was closed or reset, stays so.
use p2p_netcat_go_wrk.Common.{
  ℕ, ◌≡◌, ◌∙◌, refl, sym, ap, ◌++◌, append-nil, append_assoc, true, Bytes, arith, Option, none,
  some, List, [], ◌∷◌,
}
use p2p_netcat_go_wrk.Common.Text.{codes}
use p2p_netcat_go_wrk.Common.Decimal.{atoi}
use p2p_netcat_go_wrk.WebRtc.Wire.{Frame}
use p2p_netcat_go_wrk.WebRtc.Stream.{
  Stream, Peer, Error, closed_pipe, write_failed, read, read_from, write, close_write, fail, close,
  reset, receive, receive_control, receive_other, after_prefix, acknowledge_parsed, reconnected,
  keep_alive, peer_aborted, queue_exceeded, stream_reset, eof,
}
use p2p_netcat_go_wrk.WebRtc.Stream.Order.{unread, IsSound, Keeps, SameQueue-Keeps, Step-Keeps}
use p2p_netcat_go_wrk.WebRtc.Stream.Steps.{
  Step, Run, done, step, SameQueue, fail-SameQueue, receive_control-SameQueue, reads, writes,
  closes_write, closes, resets, receives, reconnects, ticks,
}

pub fail-closed : (e : Error) (s : Stream) → (fail e s).closed ≡ true
unfolding fail
fail-closed e s = ground arith

read_from-closed :
    (size : ℕ) (q : List Bytes) (s : Stream) → (read_from size q s).1.closed ≡ s.closed
read_from-closed size [] s = refl
read_from-closed size (chunk ∷ rest) s = ground arith

write-closed : (p : Peer) (payload : Bytes) (s : Stream) → (write p payload s).1.closed ≡ s.closed
unfolding write
write-closed p payload s = ground arith

close_write-closed : (p : Peer) (s : Stream) → (close_write p s).1.closed ≡ s.closed
unfolding close_write
close_write-closed p s = ground arith

receive_other-closed :
    (p : Peer) (text : Bytes) (number : Option Bytes) (s : Stream)
    → (receive_other p text number s).closed ≡ s.closed
receive_other-closed p text none s = ground arith
receive_other-closed p text (some number) s = same (atoi number)
  where
    same : (n : Option ℕ) → (acknowledge_parsed n s).closed ≡ s.closed
    same none = refl
    same (some n) = ground arith

receive-closed :
    (p : Peer) (f : Frame) (s : Stream) → s.closed ≡ true → (receive p f s).1.closed ≡ true
unfolding receive receive_control
receive-closed p f s h = ground (
  arith,
  fail-closed queue_exceeded s,
  fail-closed peer_aborted s,
  receive_other-closed p f.payload (after_prefix (codes "ack:") f.payload) s,
)

Step-closed :
    (s : Stream) (taken given : Bytes) (s' : Stream)
    → Step s taken given s'
    → s.closed ≡ true
    → s'.closed ≡ true
unfolding read close reset reconnected keep_alive
Step-closed _ _ _ _ (reads size s) h = read_from-closed size s.read_queue s ∙ h
Step-closed _ _ _ _ (writes p payload s) h = write-closed p payload s ∙ h
Step-closed _ _ _ _ (closes_write p s) h = close_write-closed p s ∙ h
Step-closed _ _ _ _ (closes p s) h = fail-closed eof (close_write p s).1
Step-closed _ _ _ _ (resets p s) h = fail-closed stream_reset s
Step-closed _ _ _ _ (receives p f s) h = receive-closed p f s h
Step-closed _ _ _ _ (reconnects p s) h = ground arith
Step-closed _ _ _ _ (ticks p s) h = ground arith

-- A frame that arrives then leaves the queue as it is.
receive-SameQueue :
    (p : Peer) (f : Frame) (s : Stream) → s.closed ≡ true → SameQueue s (receive p f s).1
unfolding receive
receive-SameQueue p f s h = ground (arith, receive_control-SameQueue p f.payload s)

-- Nothing is added to what is unread.
Step-given :
    (s : Stream) (taken given : Bytes) (s' : Stream)
    → Step s taken given s'
    → s.closed ≡ true
    → IsSound s
    → Keeps s [] given s'
Step-given _ _ _ _ (receives p f s) h sound =
    SameQueue-Keeps s (receive p f s).1 (receive-SameQueue p f s h) sound
Step-given _ _ _ _ (reads size s) h sound = Step-Keeps _ _ _ _ (reads size s) sound
Step-given _ _ _ _ (writes p payload s) h sound = Step-Keeps _ _ _ _ (writes p payload s) sound
Step-given _ _ _ _ (closes_write p s) h sound = Step-Keeps _ _ _ _ (closes_write p s) sound
Step-given _ _ _ _ (closes p s) h sound = Step-Keeps _ _ _ _ (closes p s) sound
Step-given _ _ _ _ (resets p s) h sound = Step-Keeps _ _ _ _ (resets p s) sound
Step-given _ _ _ _ (reconnects p s) h sound = Step-Keeps _ _ _ _ (reconnects p s) sound
Step-given _ _ _ _ (ticks p s) h sound = Step-Keeps _ _ _ _ (ticks p s) sound

Run-given :
    (s : Stream) (taken given : Bytes) (s' : Stream)
    → Run s taken given s'
    → s.closed ≡ true
    → IsSound s
    → (s'.closed ≡ true) × (unread s ≡ given ++ unread s')
Run-given _ _ _ _ (done s) h sound = (h, refl)
Run-given _ _ _ _ (step s taken given s' more_taken more_given s'' first rest) h sound =
    let (sound', e) = Step-given s taken given s' first h sound in
    let (h'', e') =
      Run-given s' more_taken more_given s'' rest (Step-closed s taken given s' first h) sound' in
    (
      h'',
      sym (append-nil (unread s))
          ∙ e
          ∙ ap (λ (t : Bytes). given ++ t) e'
          ∙ sym (append_assoc given more_given (unread s'')),
    )

-- Whatever follows a failure (a full queue, an abort of the peer, a close or a reset of its own): the
-- reader gets only what was unread at the failure, in order, no frame adds to it, and every write is
-- refused and sends nothing. The stream's counts were right before the failure.
pub fail_final :
    (e : Error) (s : Stream) (taken given : Bytes) (s' : Stream) (p : Peer) (payload : Bytes)
    → IsSound s
    → Run (fail e s) taken given s'
    → (unread s ≡ given ++ unread s') × (write p payload s' ≡ (write_failed closed_pipe, s'))
unfolding write
fail_final e s taken given s' p payload sound run =
    let (q, n, o) = fail-SameQueue e s in
    let (sound', _) = SameQueue-Keeps s (fail e s) (q, n, o) sound in
    let (shut, left) = Run-given (fail e s) taken given s' run (fail-closed e s) sound' in
    let same : unread (fail e s) ≡ unread s = rw (q, o) in (sym same ∙ left, ground arith)
