-- ===== src/WebRtc/Listener/Runs.antt =====
-- Runs of a listener, and its theorems at concrete ones.
use p2p_netcat_go_wrk.Common.{
  ◌≡◌, ◌≤◌, ◌<◌, ◌↔◌, refl, true, false, none, some, [], ◌∷◌, Bytes, length, get_elem?,
}
use p2p_netcat_go_wrk.Common.Text.{codes, bytes_eq}
use p2p_netcat_go_wrk.Common.Maps.{find, delete}
use p2p_netcat_go_wrk.WebRtc.Wire.{is_client_id}
use p2p_netcat_go_wrk.WebRtc.Stream.{Peer, new_stream, data_frame, reconnected, receive}
use p2p_netcat_go_wrk.WebRtc.Link.{new_link}
use p2p_netcat_go_wrk.WebRtc.Listener.{
  Entry, Listener, new_listener, activate, watch_over, grace_over, deliver,
}
use p2p_netcat_go_wrk.WebRtc.Listener.Handshakes.{no_handshakes, begin_handshake}
use p2p_netcat_go_wrk.WebRtc.Listener.Invariant.{IsSound}
use p2p_netcat_go_wrk.WebRtc.Listener.Reach.{
  Reachable, begins, continues, activates, watch_ends, delivers, Reachable-IsSound,
}
use p2p_netcat_go_wrk.WebRtc.Listener.Resume.{
  carried_on, given_up, activate-watch_over, grace_over-watch_over,
}
use p2p_netcat_go_wrk.WebRtc.Listener.Limits.{idle, began, occurrences, begin_handshake_limits}

abbrev taking : Peer
taking = record { send = λ f. none; close_peer = none }

abbrev remote : Bytes
remote = codes "ABCDEFGHIJ0123456789"

-- A remote peer connects over connection 7, and a frame arrives.
abbrev served : Listener
served = deliver taking 0 (data_frame (codes "hi")) (activate taking remote 7 new_listener)

abbrev entry : Entry
entry = record {
  stream = (receive taking (data_frame (codes "hi")) new_stream).1;
  link = new_link 7;
  peer = some 7;
  timer = false;
}

served_found : find remote served.streams ≡ some 0
unfolding find delete activate deliver new_listener bytes_eq
served_found = refl

served_entry : get_elem? served.entries 0 ≡ some entry
unfolding find delete activate deliver new_listener bytes_eq
served_entry = refl

resumes : (reconnected taking entry.stream).0 ≡ none
unfolding reconnected
resumes = refl

served_Reachable : Reachable served
served_Reachable =
    continues (continues begins (activates taking remote 7))
      (delivers taking 0 (data_frame (codes "hi")))

Reachable-IsSound_example : IsSound (watch_over remote 0 7 served)
Reachable-IsSound_example =
    Reachable-IsSound (watch_over remote 0 7 served)
      (continues served_Reachable (watch_ends remote 0 7))

activate-watch_over_example :
    let l' = activate taking remote 8 (watch_over remote 0 7 served) in
    (get_elem? l'.entries 0 ≡ some (carried_on taking 8 entry))
    × (l'.streams ≡ served.streams)
    × (l'.remotes ≡ served.remotes)
    × (l'.closed_peers ≡ served.closed_peers)
    × (l'.watched ≡ (0, 8) ∷ served.watched)
activate-watch_over_example =
    activate-watch_over taking remote 0 7 8 served entry (Reachable-IsSound served served_Reachable)
      served_found served_entry refl resumes

grace_over-watch_over_example :
    let gone = grace_over remote 0 (watch_over remote 0 7 served) in
    let back = activate taking remote 8 (watch_over remote 0 7 served) in
    (find remote gone.streams ≡ none)
    × (get_elem? gone.entries 0 ≡ some (given_up entry))
    × (grace_over remote 0 back ≡ back)
grace_over-watch_over_example =
    grace_over-watch_over taking remote 0 7 8 served entry
      (Reachable-IsSound served served_Reachable) served_found served_entry refl resumes

-- A second connection of a remote peer that is connected is closed.
second_closed : (activate taking remote 8 served).closed_peers ≡ 8 ∷ []
unfolding find delete activate deliver new_listener bytes_eq
second_closed = refl

first_accepted : (begin_handshake remote no_handshakes).0 ≡ true
unfolding begin_handshake is_client_id find
first_accepted = refl

begin_handshake_limits_example :
    (length (remote ∷ []) ≤ 32)
    × (occurrences remote (remote ∷ []) ≤ 2)
    × (((begin_handshake remote (begin_handshake remote no_handshakes).1).0 ≡ true) ↔ (
        (is_client_id remote ≡ true)
        × (length (remote ∷ []) < 32)
        × (occurrences remote (remote ∷ []) < 2)))
begin_handshake_limits_example =
    begin_handshake_limits (remote ∷ []) (begin_handshake remote no_handshakes).1 remote
      (began remote idle first_accepted)
