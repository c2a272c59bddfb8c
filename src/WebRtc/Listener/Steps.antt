-- ===== src/WebRtc/Listener/Steps.antt =====
-- Every call keeps the invariant of the listener.
use p2p_netcat_go_wrk.Common.{
  ℕ, ◌≡◌, ◌≢◌, ◌∙◌, ap, subst, refl, true, ◌&&◌, Bool-cases, Option-cases, inl, inr, some, ==_iff,
  ==_self, Bytes, get_elem?, arith,
}
use p2p_netcat_go_wrk.Common.Text.{bytes_eq, bytes_eq_self}
use p2p_netcat_go_wrk.Common.Maps.{find, delete}
use p2p_netcat_go_wrk.WebRtc.Stream.{not_reconnected}
use p2p_netcat_go_wrk.WebRtc.Listener.{
  Entry, Listener, change, shut_link, attached_to, close_link_of, stop_timer, is_current, forget,
  stream_closed, disconnected, carried_by, watch_over, waits, fail_entry, grace_over,
}
use p2p_netcat_go_wrk.WebRtc.Listener.Invariant.{
  IsLive, IsSound, IsSound-if, change-IsSound, change_forgotten, close_attached-IsSound,
  delete-IsSound, find-delete-some,
}

abbrev Gone : ℕ → Listener → Type 0
Gone id l = (remote : Bytes) → find remote l.streams ≢ some id

close_link_of-IsSound :
    (id : ℕ) (l : Listener) → Gone id l → IsSound l → IsSound (close_link_of id l)
close_link_of-IsSound id l gone s =
    close_attached-IsSound (attached_to (get_elem? l.entries id)) (change id shut_link l)
      (change_forgotten id shut_link l gone s)

-- An entry belongs to one remote peer, so it is gone when that peer has left the map.
delete-Gone :
    (remote : Bytes) (id : ℕ) (l : Listener)
    → IsSound l
    → get_elem? l.remotes id ≡ some remote
    → Gone id (record l { streams = delete remote l.streams })
delete-Gone remote id l s owns r h =
    let (apart, found) = find-delete-some r remote l.streams id h in
    let same : remote ≡ r = cc (owns, s.owner r id found) in
    cc (apart, bytes_eq_self r, ap (λ (x : Bytes). bytes_eq x r) same)

pub current_find :
    (remote : Bytes) (id : ℕ) (l : Listener)
    → is_current remote id l ≡ true
    → find remote l.streams ≡ some id
current_find remote id l h = elim (Option-cases (find remote l.streams)) [
  | inl e ↦ cc (rw e at h)
  | inr (other, e) ↦ let same = (==_iff other id).0 (rw e at h) in e ∙ ap (λ (k : ℕ). some k) same
]

pub find_current :
    (remote : Bytes) (id : ℕ) (l : Listener)
    → find remote l.streams ≡ some id
    → is_current remote id l ≡ true
find_current remote id l h = rw h (==_self id)

pub forget-IsSound :
    (remote : Bytes) (id : ℕ) (l : Listener)
    → get_elem? l.remotes id ≡ some remote
    → IsSound l
    → IsSound (forget remote id l) × Gone id (forget remote id l)
forget-IsSound remote id l owns s = elim (Bool-cases (is_current remote id l)) [
  | inl here ↦
      let l' = record l { streams = delete remote l.streams } in
      let gone = delete-Gone remote id l s owns in
      rw here (change_forgotten id stop_timer l' gone (delete-IsSound remote l s), gone)
  | inr away ↦ rw away (
    s,
    λ r h.
        let same : r ≡ remote = cc (owns, s.owner r id h) in
        let found = subst (λ (x : Bytes). find x l.streams ≡ some id) same h in
        cc (away, find_current remote id l found),
  )
]

pub stream_closed-IsSound :
    (remote : Bytes) (id : ℕ) (l : Listener)
    → get_elem? l.remotes id ≡ some remote
    → IsSound l
    → IsSound (stream_closed remote id l)
unfolding stream_closed
stream_closed-IsSound remote id l owns s =
    let (s', gone) = forget-IsSound remote id l owns s in
    close_link_of-IsSound id (forget remote id l) gone s'

pub grace_over-IsSound :
    (remote : Bytes) (id : ℕ) (l : Listener) → IsSound l → IsSound (grace_over remote id l)
unfolding grace_over
grace_over-IsSound remote id l s =
    let l' = record l { streams = delete remote l.streams } in
    let failed = change id (fail_entry not_reconnected) l' in
    IsSound-if (is_current remote id l && waits (get_elem? l.entries id)) (close_link_of id failed)
      l
      (λ over.
        let here : is_current remote id l ≡ true = ground arith in
        let owns = s.owner remote id (current_find remote id l here) in
        let gone = delete-Gone remote id l s owns in
        close_link_of-IsSound id failed gone
          (change_forgotten id (fail_entry not_reconnected) l' gone (delete-IsSound remote l s)))
      (λ not_over. s)

disconnected-IsLive :
    (peer : ℕ) (e : Entry)
    → carried_by (some e) peer ≡ true
    → IsLive e
    → IsLive (disconnected peer e)
disconnected-IsLive peer e c (open_, same, timed) = rw (same, c) (open_, refl, refl)

pub watch_over-IsSound :
    (remote : Bytes) (id peer : ℕ) (l : Listener)
    → IsSound l
    → IsSound (watch_over remote id peer l)
unfolding watch_over
watch_over-IsSound remote id peer l s =
    IsSound-if (is_current remote id l && carried_by (get_elem? l.entries id) peer)
      (change id (disconnected peer) l) l
      (λ over.
        change-IsSound id (disconnected peer) l
          (λ e found live.
            let carried : carried_by (get_elem? l.entries id) peer ≡ true = ground arith in
            disconnected-IsLive peer e (rw found at carried) live)
          s)
      (λ not_over. s)
