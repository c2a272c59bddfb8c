-- ===== src/WebRtc/Listener/Resume.antt =====
-- A stream whose connection is lost: another connection in time carries it on, and else it fails.
use p2p_netcat_go_wrk.Common.{
  ℕ, ◌≡◌, ◌∙◌, ap, subst, refl, true, false, Bool-cases, inl, inr, Option, none, some, ◌∷◌, ==_self,
  Bytes, get_elem?, modify, get_elem?-modify_same, arith,
}
use p2p_netcat_go_wrk.Common.Maps.{find, delete, find-delete_same}
use p2p_netcat_go_wrk.WebRtc.Stream.{Stream, Peer, Error, not_reconnected, fail, reconnected}
use p2p_netcat_go_wrk.WebRtc.Link.{new_link}
use p2p_netcat_go_wrk.WebRtc.Listener.{
  Entry, Listener, change, shut_link, rejoined, set_stream, resume, activate, disconnected,
  watch_over, waits, fail_entry, grace_over,
}
use p2p_netcat_go_wrk.WebRtc.Listener.Invariant.{IsLive, Live, IsSound}

-- What a stream's entry is when a connection has been found for it again.
abbrev pub carried_on : Peer → ℕ → Entry → Entry
carried_on p peer e = record {
  stream = (reconnected p e.stream).1;
  link = new_link peer;
  peer = some peer;
  timer = false;
}

found-Live :
    (l : Listener) (id : ℕ) (e : Entry)
    → get_elem? l.entries id ≡ some e
    → Live l.entries id
    → IsLive e
found-Live l id e found place =
    let same : place.entry ≡ e = cc (found, place.found) in subst IsLive same place.live

-- A listener that is closed has no remote peers.
found_open :
    (remote : Bytes) (id : ℕ) (l : Listener)
    → IsSound l
    → find remote l.streams ≡ some id
    → l.closed ≡ false
unfolding find
found_open remote id l s h = elim (Bool-cases l.closed) [
  | inl e ↦ cc (rw (s.ended e) at h)
  | inr e ↦ e
]

lost :
    (remote : Bytes) (id peer : ℕ) (l : Listener) (e : Entry)
    → find remote l.streams ≡ some id
    → get_elem? l.entries id ≡ some e
    → e.peer ≡ some peer
    → watch_over remote id peer l ≡ change id (disconnected peer) l
unfolding watch_over
lost remote id peer l e here found carries = rw (here, ==_self id, found, carries, ==_self peer)

resumed :
    (p : Peer) (remote : Bytes) (id peer : ℕ) (o : Option Error × Stream) (l : Listener)
    → o.0 ≡ none
    → resume p remote id peer o l
      ≡ record (change id (set_stream o.1) l) { watched = (id, peer) ∷ l.watched }
resumed p remote id peer (none, st) l h = refl
resumed p remote id peer (some e, st) l h = cc

-- An entry that waits takes the connection.
activate_waiting :
    (p : Peer) (remote : Bytes) (id new : ℕ) (l : Listener) (e : Entry)
    → l.closed ≡ false
    → find remote l.streams ≡ some id
    → get_elem? l.entries id ≡ some e
    → e.peer ≡ none
    → e.link.peer ≡ none
    → e.link.closed ≡ false
    → activate p remote new l
      ≡ resume p remote id new (reconnected p e.stream) (change id (rejoined new) l)
unfolding activate
activate_waiting p remote id new l e open_ here found idle detached open_link =
    rw (open_, here, found, idle, open_link, detached)

rejoined-disconnected :
    (p : Peer) (old new : ℕ) (e : Entry)
    → e.link.closed ≡ false
    → e.link.peer ≡ some old
    → set_stream (reconnected p e.stream).1 (rejoined new (disconnected old e)) ≡ carried_on p new e
rejoined-disconnected p old new e open_ attached = rw (attached, ==_self old, open_)

-- The frames of the connection of a stream end, and then its remote peer has another connection: the
-- listener keeps the stream, with the bytes that were not read yet, and attaches the new connection,
-- where the stream announces that it resumes; it does not report a new stream.
pub activate-watch_over :
    (p : Peer) (remote : Bytes) (id old new : ℕ) (l : Listener) (e : Entry)
    → IsSound l
    → find remote l.streams ≡ some id
    → get_elem? l.entries id ≡ some e
    → e.peer ≡ some old
    → (reconnected p e.stream).0 ≡ none
    → let l' = activate p remote new (watch_over remote id old l) in
      (get_elem? l'.entries id ≡ some (carried_on p new e))
      × (l'.streams ≡ l.streams)
      × (l'.remotes ≡ l.remotes)
      × (l'.closed_peers ≡ l.closed_peers)
      × (l'.watched ≡ (id, new) ∷ l.watched)
unfolding activate
activate-watch_over p remote id old new l e s here found carries resumes =
    let (open_link, attached, timed) = found-Live l id e found (s.known remote id here) in
    let l1 = change id (disconnected old) l in
    let e1 = disconnected old e in
    let after : watch_over remote id old l ≡ l1 = lost remote id old l e here found carries in
    let found1 : get_elem? l1.entries id ≡ some e1 =
      get_elem?-modify_same id (disconnected old) l.entries e found in
    let detached : e1.link.peer ≡ none = rw (attached, carries, ==_self old) in
    let still : e1.link.closed ≡ false = rw (attached, carries, ==_self old) open_link in
    let l2 = change id (rejoined new) l1 in
    let found2 = get_elem?-modify_same id (rejoined new) l1.entries e1 found1 in
    let st = (reconnected p e.stream).1 in
    let found3 = get_elem?-modify_same id (set_stream st) l2.entries (rejoined new e1) found2 in
    let same = rejoined-disconnected p old new e open_link (attached ∙ carries) in
    let all =
      activate_waiting p remote id new l1 e1 (found_open remote id l s here) here found1 refl
        detached still
      ∙ resumed p remote id new (reconnected p e.stream) l2 resumes in
    rw (after, all) (found3 ∙ ap (λ (x : Entry). some x) same, refl, refl, refl, refl)

-- The entry of a remote peer that has not come back.
abbrev pub given_up : Entry → Entry
given_up e = record {
  stream = fail not_reconnected e.stream;
  link = record { peer = none; closed = true };
  peer = none;
  timer = true;
}

grace_connected :
    (remote : Bytes) (id peer : ℕ) (l : Listener) (e : Entry)
    → get_elem? l.entries id ≡ some e
    → e.peer ≡ some peer
    → grace_over remote id l ≡ l
unfolding grace_over
grace_connected remote id peer l e found carries =
    let busy : waits (get_elem? l.entries id) ≡ false = rw (found, carries) refl in ground arith

grace_waiting :
    (remote : Bytes) (id : ℕ) (l : Listener) (e : Entry)
    → find remote l.streams ≡ some id
    → get_elem? l.entries id ≡ some e
    → e.peer ≡ none
    → e.link.peer ≡ none
    → e.link.closed ≡ false
    → grace_over remote id l
      ≡ change id shut_link
          (change id (fail_entry not_reconnected) (record l { streams = delete remote l.streams }))
unfolding grace_over
grace_waiting remote id l e here found idle detached open_ =
    let failed = get_elem?-modify_same id (fail_entry not_reconnected) l.entries e found in
    rw (here, ==_self id, found, idle, failed, open_, detached)

-- The connection of a stream is lost and the timer ends before another one comes: the remote peer
-- leaves the map, and unless it had failed before, the stream fails with the error that says so: it
-- takes and gives nothing more but the bytes that are queued. When another connection came first,
-- the timer's callback changes nothing.
pub grace_over-watch_over :
    (p : Peer) (remote : Bytes) (id old new : ℕ) (l : Listener) (e : Entry)
    → IsSound l
    → find remote l.streams ≡ some id
    → get_elem? l.entries id ≡ some e
    → e.peer ≡ some old
    → (reconnected p e.stream).0 ≡ none
    → let gone = grace_over remote id (watch_over remote id old l) in
      let back = activate p remote new (watch_over remote id old l) in
      (find remote gone.streams ≡ none)
      × (get_elem? gone.entries id ≡ some (given_up e))
      × (grace_over remote id back ≡ back)
grace_over-watch_over p remote id old new l e s here found carries resumes =
    let (open_link, attached, timed) = found-Live l id e found (s.known remote id here) in
    let l1 = change id (disconnected old) l in
    let e1 = disconnected old e in
    let after : watch_over remote id old l ≡ l1 = lost remote id old l e here found carries in
    let found1 = get_elem?-modify_same id (disconnected old) l.entries e found in
    let detached : e1.link.peer ≡ none = rw (attached, carries, ==_self old) in
    let still : e1.link.closed ≡ false = rw (attached, carries, ==_self old) open_link in
    let failed = fail_entry not_reconnected in
    let found2 = get_elem?-modify_same id failed l1.entries e1 found1 in
    let found3 =
      get_elem?-modify_same id shut_link (modify id failed l1.entries) (failed e1) found2 in
    let shut : shut_link (failed e1) ≡ given_up e = rw still refl in
    let over = grace_waiting remote id l1 e1 here found1 refl detached still in
    let (back_entry, same, a, b, c) =
      activate-watch_over p remote id old new l e s here found carries resumes in
    let back = activate p remote new (watch_over remote id old l) in
    let late = grace_connected remote id new back (carried_on p new e) back_entry refl in
    (
      rw (after, over) (find-delete_same remote l.streams),
      rw (after, over) (found3 ∙ ap (λ (x : Entry). some x) shut),
      late,
    )
