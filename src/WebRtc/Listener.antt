-- ===== src/WebRtc/Listener.antt =====
-- nativewebrtc/endpoint.go: the Listener, which keeps one logical stream for each remote peer, over the
-- connections that come and go. Entries are shared: the map, the goroutines and the stream's callback
-- refer to them by their place in `entries`, where they stay when they leave the map. Each function is
-- one critical section of the lock, or one call of a callback; `activate` also goes on behind the lock,
-- to the end of Reconnected.
pub mod Handshakes
pub mod Invariant
pub mod Steps
pub mod Activation
pub mod Reach
pub mod Resume
pub mod Limits
mod Runs
use p2p_netcat_go_wrk.Common.{
  ℕ, Bool, true, false, ◌||◌, ◌&&◌, not, Option, none, some, List, [], ◌∷◌, ◌++◌, ◌==◌,
  if◌then◌else◌, Bytes, length, get_elem?, modify,
}
use p2p_netcat_go_wrk.Common.Maps.{find, delete, insert}
use p2p_netcat_go_wrk.WebRtc.Wire.{Frame}
use p2p_netcat_go_wrk.WebRtc.Stream.{
  Stream, Peer, Error, canceled, not_reconnected, new_stream, fail, reset, receive, reconnected,
}
use p2p_netcat_go_wrk.WebRtc.Link.{Link, is_some, new_link, attach, same_peer, detach, close_link}

-- `timer` tells whether the timer of the reconnect grace is set.
pub record Entry : Type 0 where
  pub stream : Stream
  pub link : Link
  pub peer : Option ℕ
  pub timer : Bool

-- `remotes` are the remote peers of the entries, as the callbacks of their streams have them and as
-- they were reported to the application with the streams; `closed_peers` are the connections that were
-- closed, `watched` the goroutines that forward the frames of a connection to an entry.
pub record Listener : Type 0 where
  pub closed : Bool
  pub streams : List (Bytes × ℕ)
  pub entries : List Entry
  pub closed_peers : List ℕ
  pub watched : List (ℕ × ℕ)
  pub remotes : List Bytes

unfoldable pub new_listener : Listener
new_listener = record {
  closed = false;
  streams = [];
  entries = [];
  closed_peers = [];
  watched = [];
  remotes = [];
}

abbrev pub close_peer : ℕ → Listener → Listener
close_peer peer l = record l { closed_peers = peer ∷ l.closed_peers }

abbrev pub close_attached : Option ℕ → Listener → Listener
close_attached none l = l
close_attached (some peer) l = close_peer peer l

abbrev pub change : ℕ → (Entry → Entry) → Listener → Listener
change id f l = record l { entries = modify id f l.entries }

abbrev pub shut_link : Entry → Entry
shut_link e = record e { link = (close_link e.link).1 }

abbrev pub attached_to : Option Entry → Option ℕ
attached_to none = none
attached_to (some e) = (close_link e.link).0

-- `link.Close()` for the entry at this place.
abbrev pub close_link_of : ℕ → Listener → Listener
close_link_of id l = close_attached (attached_to (get_elem? l.entries id)) (change id shut_link l)

abbrev pub stop_timer : Entry → Entry
stop_timer e = record e { timer = false }

-- Whether the map has this entry for the remote peer.
abbrev pub is_current : Bytes → ℕ → Listener → Bool
is_current remote id l = same_peer (find remote l.streams) id

abbrev pub forget : Bytes → ℕ → Listener → Listener
forget remote id l =
    if is_current remote id l
    then record (change id stop_timer l) { streams = delete remote l.streams }
    else l

-- The callback of the stream: the entry leaves the map, and its link is closed.
unfoldable pub stream_closed : Bytes → ℕ → Listener → Listener
stream_closed remote id l = close_link_of id (forget remote id l)

abbrev pub admit : Bytes → ℕ → Listener → Listener
admit remote peer l = record l {
  entries =
      l.entries
      ++ record { stream = new_stream; link = new_link peer; peer = some peer; timer = false } ∷ [];
  streams = insert remote (length l.entries) l.streams;
  watched = (length l.entries, peer) ∷ l.watched;
  remotes = l.remotes ++ remote ∷ [];
}

abbrev pub rejoined : ℕ → Entry → Entry
rejoined peer e = record e { link = (attach peer e.link).1; timer = false; peer = some peer }

abbrev pub set_stream : Stream → Entry → Entry
set_stream s e = record e { stream = s }

-- The rest of `activate` for a stream that was waiting, behind `Reconnected`.
abbrev pub resume : Peer → Bytes → ℕ → ℕ → Option Error × Stream → Listener → Listener
resume p remote id peer (none, s) l =
    let l' = change id (set_stream s) l in record l' { watched = (id, peer) ∷ l'.watched }
resume p remote id peer (some e, s) l =
    stream_closed remote id (change id (set_stream (reset p s).1) l)

abbrev pub rejoin : Peer → Bytes → ℕ → ℕ → Option Entry → Listener → Listener
rejoin p remote id peer none l = l
rejoin p remote id peer (some e) l =
    if is_some e.peer || not (attach peer e.link).0
    then close_peer peer l
    else resume p remote id peer (reconnected p e.stream) (change id (rejoined peer) l)

abbrev pub activate_at : Peer → Bytes → ℕ → Option ℕ → Listener → Listener
activate_at p remote peer none l = admit remote peer l
activate_at p remote peer (some id) l = rejoin p remote id peer (get_elem? l.entries id) l

-- `p` answers what a resumed stream sends.
unfoldable pub activate : Peer → Bytes → ℕ → Listener → Listener
activate p remote peer l =
    if l.closed then close_peer peer l else activate_at p remote peer (find remote l.streams) l

abbrev pub disconnected : ℕ → Entry → Entry
disconnected peer e = record e { link = (detach peer e.link).1; peer = none; timer = true }

abbrev pub carried_by : Option Entry → ℕ → Bool
carried_by none peer = false
carried_by (some e) peer = same_peer e.peer peer

-- The end of `watch`: the frames of this connection are over.
unfoldable pub watch_over : Bytes → ℕ → ℕ → Listener → Listener
watch_over remote id peer l =
    if is_current remote id l && carried_by (get_elem? l.entries id) peer
    then change id (disconnected peer) l
    else l

abbrev pub waits : Option Entry → Bool
waits none = false
waits (some e) = not (is_some e.peer)

abbrev pub fail_entry : Error → Entry → Entry
fail_entry error e = record e { stream = fail error e.stream }

-- The callback of the timer.
unfoldable pub grace_over : Bytes → ℕ → Listener → Listener
grace_over remote id l =
    if is_current remote id l && waits (get_elem? l.entries id)
    then close_link_of id
        (change id (fail_entry not_reconnected) (record l { streams = delete remote l.streams }))
    else l

-- A frame of a connection for the stream of an entry.
abbrev pub received : Peer → Frame → Entry → Entry
received p f e = record e { stream = (receive p f e.stream).1 }

unfoldable pub deliver : Peer → ℕ → Frame → Listener → Listener
deliver p id f l = change id (received p f) l

abbrev pub end_entry : Entry → Entry
end_entry e = record e { stream = fail canceled e.stream; timer = false }

abbrev pub end_all : List (Bytes × ℕ) → Listener → Listener
end_all [] l = l
end_all ((remote, id) ∷ rest) l = end_all rest (close_link_of id (change id end_entry l))

unfoldable pub close : Listener → Listener
close l =
    if l.closed then l else record (end_all l.streams (record l { closed = true })) { streams = [] }
