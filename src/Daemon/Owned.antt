-- ===== src/Daemon/Owned.antt =====
-- What the tunnels of the daemon hold: each holds its lock, its handler and its listener, and no two of
-- them hold the same one.
use p2p_netcat_go_wrk.Common.{
  ℕ, ◌<◌, ◌≡◌, ◌≢◌, ◌∙◌, sym, ap, refl, Bool, true, false, ◌||◌, Bool-cases, inl, inr, Option,
  Option-cases, none, some, List, [], ◌∷◌, Bytes, arith,
}
use p2p_netcat_go_wrk.Common.Maps.{find, delete, find-delete}
use p2p_netcat_go_wrk.Common.Text.{bytes_eq}
use p2p_netcat_go_wrk.Daemon.Handles.{tear_down-handles}
use p2p_netcat_go_wrk.Daemon.{
  Daemon, Handle, ProtoId, byte_stream, datagrams, proto_eq, mem, remove, remove_proto,
  remove_handler, close_listener, release_lock, tear_down, stop,
}

abbrev pub answers : ProtoId → List ProtoId → Bool
answers p [] = false
answers p (q ∷ qs) = proto_eq p q || answers p qs

abbrev pub port_of : ProtoId → ℕ
port_of (byte_stream n) = n
port_of (datagrams n) = n

-- The lock, the handler and the listener of a handle are there; its handler is that of its locked port.
abbrev pub Live : Daemon → Handle → Type 0
Live d h =
    ((p : ℕ) → h.lock ≡ some p → mem p d.locks ≡ true)
    × ((q : ProtoId)
        → h.proto ≡ some q
        → (answers q d.handlers ≡ true) × (h.lock ≡ some (port_of q)))
    × ((i : ℕ) → h.closer ≡ some i → (mem i d.listeners ≡ true) × (i < d.next))

-- Two handles that share nothing.
abbrev pub Apart : Handle → Handle → Type 0
Apart h k =
    ((p p' : ℕ) → h.lock ≡ some p → k.lock ≡ some p' → p ≢ p')
    × ((i i' : ℕ) → h.closer ≡ some i → k.closer ≡ some i' → i ≢ i')

abbrev pub Owned : Daemon → Type 0
Owned d =
    ((name : Bytes) (h : Handle) → find name d.handles ≡ some h → Live d h)
    × ((a b : Bytes) (h k : Handle)
        → bytes_eq a b ≡ false
        → find a d.handles ≡ some h
        → find b d.handles ≡ some k
        → Apart h k)

mem-remove : (m n : ℕ) (xs : List ℕ) → n ≢ m → mem m xs ≡ true → mem m (remove n xs) ≡ true
unfolding mem remove
mem-remove m n [] apart h = cc
mem-remove m n (x ∷ xs) apart h = ground (arith, mem-remove m n xs apart)

proto_eq-port : (p q : ProtoId) → proto_eq p q ≡ true → port_of p ≡ port_of q
unfolding proto_eq
proto_eq-port (byte_stream a) (byte_stream b) h = ground arith
proto_eq-port (datagrams a) (datagrams b) h = ground arith
proto_eq-port (byte_stream a) (datagrams b) h = cc
proto_eq-port (datagrams a) (byte_stream b) h = cc

pub proto_eq_self : (p : ProtoId) → proto_eq p p ≡ true
unfolding proto_eq
proto_eq_self (byte_stream a) = ground arith
proto_eq_self (datagrams a) = ground arith

pub answers-remove :
    (q p : ProtoId) (qs : List ProtoId)
    → port_of p ≢ port_of q
    → answers q qs ≡ true
    → answers q (remove_proto p qs) ≡ true
unfolding remove_proto
answers-remove q p [] apart h = cc
answers-remove q p (x ∷ xs) apart h =
    ground (arith, answers-remove q p xs apart, proto_eq-port q x, proto_eq-port p x)

remove_handler-Live :
    (p : Option ProtoId) (d : Daemon) (k : Handle)
    → ((q q' : ProtoId) → p ≡ some q → k.proto ≡ some q' → port_of q ≢ port_of q')
    → Live d k
    → Live (remove_handler p d) k
remove_handler-Live none d k apart live = live
remove_handler-Live (some q) d k apart (locked, answered, listens) = (
  locked,
  λ q' e.
      let (there, port) = answered q' e in
      (answers-remove q' q d.handlers (apart q q' refl e) there, port),
  listens,
)

close_listener-Live :
    (c : Option ℕ) (d : Daemon) (k : Handle)
    → ((i i' : ℕ) → c ≡ some i → k.closer ≡ some i' → i ≢ i')
    → Live d k
    → Live (close_listener c d) k
close_listener-Live none d k apart live = live
close_listener-Live (some i) d k apart (locked, answered, listens) = (
  locked,
  answered,
  λ i' e.
      let (there, below) = listens i' e in
      (mem-remove i' i d.listeners (apart i i' refl e) there, below),
)

release_lock-Live :
    (l : Option ℕ) (d : Daemon) (k : Handle)
    → ((p p' : ℕ) → l ≡ some p → k.lock ≡ some p' → p ≢ p')
    → Live d k
    → Live (release_lock l d) k
release_lock-Live none d k apart live = live
release_lock-Live (some p) d k apart (locked, answered, listens) =
    (λ p' e. mem-remove p' p d.locks (apart p p' refl e) (locked p' e), answered, listens)

-- Tearing down one handle leaves what another one holds.
tear_down-Live :
    (h k : Handle) (d : Daemon) → Live d h → Apart h k → Live d k → Live (tear_down (some h) d) k
tear_down-Live h k d live_h (locks, closers) live_k =
    let ports : (q q' : ProtoId) → h.proto ≡ some q → k.proto ≡ some q' → port_of q ≢ port_of q' =
      λ q q' e e'. locks (port_of q) (port_of q') (live_h.1 q e).1 (live_k.1 q' e').1 in
    release_lock-Live h.lock (close_listener h.closer (remove_handler h.proto d)) k locks (
      close_listener-Live h.closer (remove_handler h.proto d) k closers
        (remove_handler-Live h.proto d k ports live_k))

-- Fewer entries of the map own no more.
fewer-Owned :
    (d d' : Daemon)
    → Owned d
    → ((name : Bytes) (h : Handle) → find name d'.handles ≡ some h → find name d.handles ≡ some h)
    → ((name : Bytes) (h : Handle) → find name d'.handles ≡ some h → Live d h → Live d' h)
    → Owned d'
fewer-Owned d d' (live, apart) within still = (
  λ name h e. still name h e (live name h (within name h e)),
  λ a b h k differ e e'. apart a b h k differ (within a h e) (within b k e'),
)

-- What is found after an entry was deleted was there, under another name.
found_after :
    (name key : Bytes) (h : Handle) (entries : List (Bytes × Handle))
    → find name (delete key entries) ≡ some h
    → (bytes_eq key name ≡ false) × (find name entries ≡ some h)
found_after name key h entries e = elim (Bool-cases (bytes_eq key name)) [
  | inl same ↦ let gone = find-delete name key entries in cc (rw same at gone, e)
  | inr other ↦ let kept = find-delete name key entries in (other, sym (rw other at kept) ∙ e)
]

pub stop-Owned : (name : Bytes) (d : Daemon) → Owned d → Owned (stop name d)
unfolding stop
stop-Owned name d owned = elim (Option-cases (find name d.handles)) [
  | inl missing ↦ rw missing (
      fewer-Owned d (record d { handles = delete name d.handles }) owned
        (λ other h e. (found_after other name h d.handles e).1) (λ other h e live. live))
  | inr (held, found) ↦
      let d0 = record d { handles = delete name d.handles } in
      let same = tear_down-handles (some held) d0 in
      let before : (other : Bytes) (h : Handle)
          → find other (tear_down (some held) d0).handles ≡ some h
          → (bytes_eq name other ≡ false) × (find other d.handles ≡ some h) =
        λ other h e.
          found_after other name h d.handles
            (ap (λ (l : List (Bytes × Handle)). find other l) (sym same) ∙ e) in
      rw found (
        fewer-Owned d (tear_down (some held) d0) owned (λ other h e. (before other h e).1)
          (λ other h e live.
            let (differ, there) = before other h e in
            tear_down-Live held h d0 (owned.0 name held found)
              (owned.1 name other held h differ found there) live))
]
