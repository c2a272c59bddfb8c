-- ===== src/WebRtc/Listener/Activation.antt =====
-- A new connection of a remote peer, and the end of the listener, keep the invariant.
use p2p_netcat_go_wrk.Common.{
  ℕ, ◌≡◌, ◌⊎◌, ◌∙◌, sym, ap, subst, refl, true, false, ◌||◌, not, Bool-cases, Option-cases, inl,
  inr, Option, none, some, List, [], ◌∷◌, ◌++◌, Bytes, length, get_elem?, length-modify,
  get_elem?-append, get_elem?-length, length-append, arith,
}
use p2p_netcat_go_wrk.Common.Text.{bytes_eq, bytes_eq→eq}
use p2p_netcat_go_wrk.Common.Maps.{find, insert, find-insert}
use p2p_netcat_go_wrk.WebRtc.Wire.{Frame}
use p2p_netcat_go_wrk.WebRtc.Stream.{Stream, Peer, Error, new_stream, reset, reconnected}
use p2p_netcat_go_wrk.WebRtc.Link.{is_some, new_link, attach}
use p2p_netcat_go_wrk.WebRtc.Listener.{
  Entry, Listener, close_peer, close_attached, change, shut_link, attached_to, close_link_of, admit,
  rejoined, set_stream, resume, rejoin, activate_at, activate, received, deliver, end_entry,
  end_all, close,
}
use p2p_netcat_go_wrk.WebRtc.Listener.Invariant.{
  IsLive, Live, IsSound, IsSound-if, same-IsSound, change-IsSound,
}
use p2p_netcat_go_wrk.WebRtc.Listener.Steps.{stream_closed-IsSound}

-- An entry of the map after an insertion is the new one or an old one.
find-insert-some :
    (name key : Bytes) (new : ℕ) (m : List (Bytes × ℕ)) (id : ℕ)
    → find name (insert key new m) ≡ some id
    → ((key ≡ name) × (new ≡ id)) ⊎ (find name m ≡ some id)
find-insert-some name key new m id h = elim (Bool-cases (bytes_eq key name)) [
  | inl e ↦
      let shown : some new ≡ some id = ground (arith, e, find-insert name key new m) in
      inl (bytes_eq→eq key name e, cc (shown))
  | inr e ↦ inr (ground (arith, e, find-insert name key new m))
]

Live-append : (entries more : List Entry) (id : ℕ) → Live entries id → Live (entries ++ more) id
Live-append entries more id l = record {
  entry = l.entry;
  found = get_elem?-append entries more id l.entry l.found;
  live = l.live;
}

admit-IsSound :
    (remote : Bytes) (peer : ℕ) (l : Listener)
    → l.closed ≡ false
    → IsSound l
    → IsSound (admit remote peer l)
admit-IsSound remote peer l open_ s =
    let new : Entry = record {
      stream = new_stream;
      link = new_link peer;
      peer = some peer;
      timer = false;
    } in
    record {
      known = λ r id h. elim (find-insert-some r remote (length l.entries) l.streams id h) [
        | inl (same, place) ↦
            subst (λ (k : ℕ). Live (l.entries ++ new ∷ []) k) place
              (record {
                entry = new;
                found = get_elem?-length l.entries new;
                live = (refl, refl, refl);
              })
        | inr old ↦ Live-append l.entries (new ∷ []) id (s.known r id old)
      ];
      owner = λ r id h. elim (find-insert-some r remote (length l.entries) l.streams id h) [
        | inl (same, place) ↦ rw (← place, ← same, ← s.aligned) (get_elem?-length l.remotes remote)
        | inr old ↦ get_elem?-append l.remotes (remote ∷ []) id r (s.owner r id old)
      ];
      aligned = omega (
        arith,
        s.aligned,
        length-append l.remotes (remote ∷ []),
        length-append l.entries (new ∷ []),
      );
      ended = λ h. cc (open_, h);
    }

peer_none : (o : Option ℕ) → is_some o ≡ false → o ≡ none
peer_none none h = refl
peer_none (some peer) h = cc

rejoined-IsLive : (peer : ℕ) (e : Entry) → e.peer ≡ none → IsLive e → IsLive (rejoined peer e)
rejoined-IsLive peer e idle (open_, same, timed) = rw (open_, same, idle) (refl, refl, refl)

resume-IsSound :
    (p : Peer) (remote : Bytes) (id peer : ℕ) (o : Option Error × Stream) (l : Listener)
    → get_elem? l.remotes id ≡ some remote
    → IsSound l
    → IsSound (resume p remote id peer o l)
resume-IsSound p remote id peer (none, st) l owns s =
    let l' = change id (set_stream st) l in
    same-IsSound l' (record l' { watched = (id, peer) ∷ l'.watched }) refl refl refl refl
      (change-IsSound id (set_stream st) l (λ e found live. live) s)
resume-IsSound p remote id peer (some e, st) l owns s =
    stream_closed-IsSound remote id (change id (set_stream (reset p st).1) l) owns
      (change-IsSound id (set_stream (reset p st).1) l (λ e found live. live) s)

rejoin-IsSound :
    (p : Peer) (remote : Bytes) (id peer : ℕ) (l : Listener) (entry : Entry)
    → get_elem? l.entries id ≡ some entry
    → get_elem? l.remotes id ≡ some remote
    → IsSound l
    → IsSound (rejoin p remote id peer (some entry) l)
rejoin-IsSound p remote id peer l entry found owns s =
    let fresh = change id (rejoined peer) l in
    IsSound-if (is_some entry.peer || not (attach peer entry.link).0) (close_peer peer l)
      (resume p remote id peer (reconnected p entry.stream) fresh)
      (λ busy. same-IsSound l (close_peer peer l) refl refl refl refl s)
      (λ free.
        let idle : entry.peer ≡ none = peer_none entry.peer (ground arith) in
        resume-IsSound p remote id peer (reconnected p entry.stream) fresh owns (
          change-IsSound id (rejoined peer) l
            (λ e here live.
              let same : entry ≡ e = cc (found, here) in
              rejoined-IsLive peer e (subst (λ (x : Entry). x.peer ≡ none) same idle) live)
            s))

pub activate-IsSound :
    (p : Peer) (remote : Bytes) (peer : ℕ) (l : Listener)
    → IsSound l
    → IsSound (activate p remote peer l)
unfolding activate
activate-IsSound p remote peer l s =
    IsSound-if l.closed (close_peer peer l) (activate_at p remote peer (find remote l.streams) l)
      (λ e. same-IsSound l (close_peer peer l) refl refl refl refl s)
      (λ e. elim (Option-cases (find remote l.streams)) [
        | inl h ↦ rw h (admit-IsSound remote peer l e s)
        | inr (id, h) ↦
            let place = s.known remote id h in
            rw (h, place.found)
              (rejoin-IsSound p remote id peer l place.entry place.found (s.owner remote id h) s)
      ])

pub deliver-IsSound :
    (p : Peer) (id : ℕ) (f : Frame) (l : Listener) → IsSound l → IsSound (deliver p id f l)
unfolding deliver
deliver-IsSound p id f l s = change-IsSound id (received p f) l (λ e found live. live) s

close_attached_same :
    (peer : Option ℕ) (l : Listener)
    → ((close_attached peer l).remotes ≡ l.remotes) × ((close_attached peer l).entries ≡ l.entries)
close_attached_same none l = (refl, refl)
close_attached_same (some peer) l = (refl, refl)

end_all_aligned :
    (m : List (Bytes × ℕ)) (l : Listener)
    → ((end_all m l).remotes ≡ l.remotes) × (length (end_all m l).entries ≡ length l.entries)
end_all_aligned [] l = (refl, refl)
end_all_aligned ((remote, id) ∷ rest) l =
    let ended = change id end_entry l in
    let shut = change id shut_link ended in
    let (same, here) = close_attached_same (attached_to (get_elem? ended.entries id)) shut in
    let (more, there) = end_all_aligned rest (close_link_of id ended) in
    (
      more ∙ same,
      there
          ∙ ap (λ (es : List Entry). length es) here
          ∙ length-modify id shut_link ended.entries
          ∙ length-modify id end_entry l.entries,
    )

pub close-IsSound : (l : Listener) → IsSound l → IsSound (close l)
unfolding close find
close-IsSound l s =
    let over = end_all l.streams (record l { closed = true }) in
    IsSound-if l.closed l (record over { streams = [] }) (λ e. s)
      (λ e.
        let (same, long) = end_all_aligned l.streams (record l { closed = true }) in
        record {
          known = λ r id h. cc;
          owner = λ r id h. cc;
          aligned = ap (λ (rs : List Bytes). length rs) same ∙ s.aligned ∙ sym long;
          ended = λ h. refl;
        })
