-- ===== src/WebRtc/Listener/Limits.antt =====
-- The limits on handshakes hold whatever begins and ends, in any order.
use p2p_netcat_go_wrk.Common.{
  ℕ, ◌+◌, ◌<◌, ◌≤◌, ◌-◌, ◌≡◌, ◌↔◌, sym, ap, refl, true, false, Bool-cases, inl, inr, List, [], ◌∷◌,
  ◌==◌, ==_iff, if◌then◌else◌, Bytes, length, arith,
}
use p2p_netcat_go_wrk.Common.Text.{bytes_eq, bytes_eq→eq}
use p2p_netcat_go_wrk.Common.Maps.{find, insert, find-delete, find-insert}
use p2p_netcat_go_wrk.WebRtc.Wire.{is_client_id}
use p2p_netcat_go_wrk.WebRtc.Listener.Handshakes.{
  Handshakes, no_handshakes, begin_handshake, end_handshake, peer_count, count_of, set_count,
  max_concurrent_handshakes, max_concurrent_handshakes_peer,
}

-- The remote peers whose handshakes are in progress, one for each.
abbrev pub occurrences : Bytes → List Bytes → ℕ
occurrences remote [] = 0
occurrences remote (r ∷ rest) =
    let more = occurrences remote rest in if bytes_eq r remote then more + 1 else more

abbrev pub remove_first : Bytes → List Bytes → List Bytes
remove_first remote [] = []
remove_first remote (r ∷ rest) =
    let more = remove_first remote rest in if bytes_eq r remote then rest else r ∷ more

-- What the counters say of the handshakes in progress.
pub record Counts (active : List Bytes) (h : Handshakes) : Type 0 where
  pub total : h.handshakes ≡ length active
  pub each : (remote : Bytes) → peer_count remote h ≡ occurrences remote active
  pub bounded : h.handshakes ≤ max_concurrent_handshakes
  pub bounded_peer : (remote : Bytes) → peer_count remote h ≤ max_concurrent_handshakes_peer

-- A handshake that is refused leaves nothing in progress; one that is in progress ends once.
pub data Progress : List Bytes → Handshakes → Type 0 where
  idle : Progress [] no_handshakes
  began :
      {active : List Bytes} {h : Handshakes}
      → (remote : Bytes) → Progress active h
      → (begin_handshake remote h).0 ≡ true
      → Progress (remote ∷ active) (begin_handshake remote h).1
  refused :
      {active : List Bytes} {h : Handshakes}
      → (remote : Bytes) → Progress active h
      → (begin_handshake remote h).0 ≡ false
      → Progress active (begin_handshake remote h).1
  ended :
      {active : List Bytes} {h : Handshakes}
      → (remote : Bytes) → Progress active h
      → 0 < occurrences remote active
      → Progress (remove_first remote active) (end_handshake remote h)

find-set_count :
    (name key : Bytes) (n : ℕ) (m : List (Bytes × ℕ))
    → count_of (find name (set_count key n m))
      ≡ (if bytes_eq key name then n else count_of (find name m))
find-set_count name key n m = elim (Bool-cases (n == 0)) [
  | inl e ↦ ground (arith, ==_iff n 0, find-delete name key m)
  | inr e ↦ ground (arith, find-insert name key n m)
]

occurrences-remove_first :
    (name remote : Bytes) (active : List Bytes)
    → 0 < occurrences remote active
    → occurrences name (remove_first remote active)
      ≡ (if bytes_eq remote name then occurrences name active - 1 else occurrences name active)
occurrences-remove_first name remote [] h = omega arith
occurrences-remove_first name remote (r ∷ rest) h =
    let moved : bytes_eq remote name ≡ true → bytes_eq r name ≡ bytes_eq r remote =
      λ e. ap (λ (x : Bytes). bytes_eq r x) (sym (bytes_eq→eq remote name e)) in
    elim (Bool-cases (bytes_eq r remote)) [
      | inl e ↦
          let same : bytes_eq r name ≡ bytes_eq remote name =
            ap (λ (x : Bytes). bytes_eq x name) (bytes_eq→eq r remote e) in
          ground arith
      | inr e ↦ ground (arith, occurrences-remove_first name remote rest)
    ]

length-remove_first :
    (remote : Bytes) (active : List Bytes)
    → 0 < occurrences remote active
    → length (remove_first remote active) + 1 ≡ length active
length-remove_first remote [] h = omega arith
length-remove_first remote (r ∷ rest) h = ground (arith, length-remove_first remote rest)

abbrev counted : Bytes → Handshakes → Handshakes
counted remote h = record {
  handshakes = h.handshakes + 1;
  peer_handshakes = insert remote (peer_count remote h + 1) h.peer_handshakes;
}

-- A handshake begins exactly below both limits.
begin_handshake_iff :
    (remote : Bytes) (h : Handshakes)
    → ((begin_handshake remote h).0 ≡ true) ↔ (
        (is_client_id remote ≡ true)
        × (h.handshakes < max_concurrent_handshakes)
        × (peer_count remote h < max_concurrent_handshakes_peer))
unfolding begin_handshake
begin_handshake_iff remote h = (λ e. ground arith, λ e. ground arith)

begin_accepted :
    (remote : Bytes) (h : Handshakes)
    → (begin_handshake remote h).0 ≡ true
    → (begin_handshake remote h).1 ≡ counted remote h
unfolding begin_handshake
begin_accepted remote h accepted = ground arith

begin_refused :
    (remote : Bytes) (h : Handshakes)
    → (begin_handshake remote h).0 ≡ false
    → (begin_handshake remote h).1 ≡ h
unfolding begin_handshake
begin_refused remote h e = ground arith

counted-Counts :
    (remote : Bytes) (active : List Bytes) (h : Handshakes)
    → h.handshakes < max_concurrent_handshakes
    → peer_count remote h < max_concurrent_handshakes_peer
    → Counts active h
    → Counts (remote ∷ active) (counted remote h)
counted-Counts remote active h room room_peer c =
    let moved : (name : Bytes)
        → bytes_eq remote name ≡ true
        → peer_count remote h ≡ peer_count name h =
      λ name e. ap (λ (x : Bytes). peer_count x h) (bytes_eq→eq remote name e) in
    record {
      total = omega (arith, c.total);
      each = λ name. ground (
        arith,
        moved name,
        c.each name,
        find-insert name remote (peer_count remote h + 1) h.peer_handshakes,
      );
      bounded = omega (arith, room);
      bounded_peer = λ name. ground (
        arith,
        c.bounded_peer name,
        find-insert name remote (peer_count remote h + 1) h.peer_handshakes,
      );
    }

ended-Counts :
    (remote : Bytes) (active : List Bytes) (h : Handshakes)
    → 0 < occurrences remote active
    → Counts active h
    → Counts (remove_first remote active) (end_handshake remote h)
unfolding end_handshake
ended-Counts remote active h some_left c =
    let moved : (name : Bytes)
        → bytes_eq remote name ≡ true
        → peer_count remote h ≡ peer_count name h =
      λ name e. ap (λ (x : Bytes). peer_count x h) (bytes_eq→eq remote name e) in
    record {
      total = omega (arith, c.total, length-remove_first remote active some_left);
      each = λ name. ground (
        arith,
        moved name,
        c.each name,
        occurrences-remove_first name remote active some_left,
        find-set_count name remote (peer_count remote h - 1) h.peer_handshakes,
      );
      bounded = omega (arith, c.bounded);
      bounded_peer = λ name. ground (
        arith,
        c.bounded_peer name,
        c.bounded_peer remote,
        find-set_count name remote (peer_count remote h - 1) h.peer_handshakes,
      );
    }

no_handshakes-Counts : Counts [] no_handshakes
unfolding find
no_handshakes-Counts = record {
  total = refl;
  each = λ name. refl;
  bounded = omega arith;
  bounded_peer = λ name. omega arith;
}

Progress-Counts : {active : List Bytes} {h : Handshakes} → Progress active h → Counts active h
Progress-Counts idle = no_handshakes-Counts
Progress-Counts (began {active} {h} remote p accepted) =
    let (client, room, room_peer) = (begin_handshake_iff remote h).0 accepted in
    rw (begin_accepted remote h accepted)
      (counted-Counts remote active h room room_peer (Progress-Counts p))
Progress-Counts (refused {active} {h} remote p e) =
    rw (begin_refused remote h e) (Progress-Counts p)
Progress-Counts (ended {active} {h} remote p some_left) =
    ended-Counts remote active h some_left (Progress-Counts p)

-- Whatever handshakes have begun, been refused and ended: at most 32 are in progress and at most two of
-- one remote peer, and another one begins exactly for a valid client id below both limits.
pub begin_handshake_limits :
    (active : List Bytes) (h : Handshakes) (remote : Bytes)
    → Progress active h
    → (length active ≤ 32)
      × (occurrences remote active ≤ 2)
      × (((begin_handshake remote h).0 ≡ true)
          ↔ ((is_client_id remote ≡ true) × (length active < 32) × (occurrences remote active < 2)))
begin_handshake_limits active h remote p =
    let c = Progress-Counts p in
    let (only_if, if_) = begin_handshake_iff remote h in
    (
      omega (arith, c.total, c.bounded),
      omega (arith, c.each remote, c.bounded_peer remote),
      (
        λ e.
            let (client, room, room_peer) = only_if e in
            (client, omega (arith, c.total), omega (arith, c.each remote)),
        λ h'.
            let (client, room, room_peer) = h' in
            if_ (client, omega (arith, c.total), omega (arith, c.each remote)),
      ),
    )
