-- ===== src/WebRtc/Listener/Reach.antt =====
-- The states that a listener reaches, by any calls and callbacks in any order.
use p2p_netcat_go_wrk.Common.{ℕ, ◌≡◌, refl, some, Bytes, get_elem?}
use p2p_netcat_go_wrk.Common.Maps.{find}
use p2p_netcat_go_wrk.WebRtc.Wire.{Frame}
use p2p_netcat_go_wrk.WebRtc.Stream.{Stream, Peer}
use p2p_netcat_go_wrk.WebRtc.Listener.{
  Listener, new_listener, change, stream_closed, set_stream, activate, watch_over, grace_over,
  deliver, close,
}
use p2p_netcat_go_wrk.WebRtc.Listener.Invariant.{IsSound, change-IsSound}
use p2p_netcat_go_wrk.WebRtc.Listener.Steps.{
  stream_closed-IsSound, watch_over-IsSound, grace_over-IsSound,
}
use p2p_netcat_go_wrk.WebRtc.Listener.Activation.{activate-IsSound, deliver-IsSound, close-IsSound}

-- One critical section. The application's calls of a stream make any stream of it.
pub data Step : Listener → Listener → Type 0 where
  activates :
      {l : Listener} → (p : Peer) (remote : Bytes) (peer : ℕ) → Step l (activate p remote peer l)
  watch_ends :
      {l : Listener} → (remote : Bytes) (id peer : ℕ) → Step l (watch_over remote id peer l)
  grace_ends : {l : Listener} → (remote : Bytes) (id : ℕ) → Step l (grace_over remote id l)
  delivers : {l : Listener} → (p : Peer) (id : ℕ) (f : Frame) → Step l (deliver p id f l)
  calls : {l : Listener} → (id : ℕ) (s : Stream) → Step l (change id (set_stream s) l)
  stream_closes :
      {l : Listener}
      → (remote : Bytes) (id : ℕ) → get_elem? l.remotes id ≡ some remote
      → Step l (stream_closed remote id l)
  closes : {l : Listener} → Step l (close l)

pub data Reachable : Listener → Type 0 where
  begins : Reachable new_listener
  continues : {l l' : Listener} → Reachable l → Step l l' → Reachable l'

Step-IsSound : {l l' : Listener} → Step l l' → IsSound l → IsSound l'
Step-IsSound {l} (activates p remote peer) s = activate-IsSound p remote peer l s
Step-IsSound {l} (watch_ends remote id peer) s = watch_over-IsSound remote id peer l s
Step-IsSound {l} (grace_ends remote id) s = grace_over-IsSound remote id l s
Step-IsSound {l} (delivers p id f) s = deliver-IsSound p id f l s
Step-IsSound {l} (calls id st) s = change-IsSound id (set_stream st) l (λ e found live. live) s
Step-IsSound {l} (stream_closes remote id owns) s = stream_closed-IsSound remote id l owns s
Step-IsSound {l} closes s = close-IsSound l s

new_listener-IsSound : IsSound new_listener
unfolding new_listener find
new_listener-IsSound = record {
  known = λ r id h. cc;
  owner = λ r id h. cc;
  aligned = refl;
  ended = λ h. refl;
}

keeps_IsSound : {l : Listener} → Reachable l → IsSound l
keeps_IsSound begins = new_listener-IsSound
keeps_IsSound (continues r s) = Step-IsSound s (keeps_IsSound r)

-- In every reachable state: each remote peer of the map has an entry with an open link, attached to
-- exactly the connection that the entry names, and a reconnect timer exactly while there is none; no
-- entry serves two remote peers; and a closed listener has no entries in its map.
pub Reachable-IsSound : (l : Listener) → Reachable l → IsSound l
Reachable-IsSound l r = keeps_IsSound r
