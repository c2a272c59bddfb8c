-- ===== src/Daemon/Begun.antt =====
-- Starting a tunnel takes only what no other tunnel holds.
use p2p_netcat_go_wrk.Common.{
  ℕ, ◌≡◌, ◌≢◌, ◌∙◌, sym, ap, subst, refl, true, false, Bool-cases, inl, inr, ◌⊎◌, Option,
  Option-cases, some, List, ◌∷◌, ◌==◌, Bytes, Result, ok, err, arith,
}
use p2p_netcat_go_wrk.Common.Maps.{find, find-insert}
use p2p_netcat_go_wrk.Common.Text.{bytes_eq, bytes_eq→eq, bytes_eq_self}
use p2p_netcat_go_wrk.TunnelConfig.{Tunnel, server, client, Mode, TunnelType, Protocol}
use p2p_netcat_go_wrk.Daemon.{
  Daemon, Handle, Outside, mem, StartError, acquire, proto_of, serve, start_server, start_client,
  opened, client_tests, start, start_as, start_with, set_handle, keep_started,
}
use p2p_netcat_go_wrk.Daemon.Owned.{port_of, Live, Apart, Owned, answers-remove, proto_eq_self}

-- What starting a tunnel does: it fails and changes nothing, or the new handle has what it holds, and
-- shares nothing with any other handle.
abbrev Begun : Daemon → Result StartError Handle × Daemon → Type 0
Begun d (err e, d') = d' ≡ d
Begun d (ok h, d') =
    (d'.handles ≡ d.handles) × Live d' h × ((k : Handle) → Live d k → Live d' k × Apart h k)

proto_of-port : (ty : TunnelType) (p : Protocol) (n : ℕ) → port_of (proto_of ty p n) ≡ n
proto_of-port TunnelType.forward Protocol.udp n = refl
proto_of-port TunnelType.forward Protocol.tcp n = refl
proto_of-port TunnelType.forward (Protocol.unknown p) n = refl
proto_of-port TunnelType.socks p n = refl
proto_of-port TunnelType.pty p n = refl
proto_of-port TunnelType.exec p n = refl
proto_of-port TunnelType.unset p n = refl
proto_of-port (TunnelType.unknown t) p n = refl

-- The server side, once the free lock on the port is taken.
serve-Begun :
    (t : Tunnel) (token : Option Bytes) (d : Daemon)
    → mem t.logical_port d.locks ≡ false
    → Begun d (serve t token (ok t.logical_port, record d { locks = t.logical_port ∷ d.locks }))
unfolding mem
serve-Begun t token d free =
    let q = proto_of t.type_of t.protocol t.logical_port in
    let port = proto_of-port t.type_of t.protocol t.logical_port in
    (
      refl,
      (
        λ p e. let same : t.logical_port ≡ p = cc in ground arith,
        λ q' e.
            let same : q ≡ q' = cc in
            let self = proto_eq_self q in (rw (sym same) (ground arith), rw (sym same, port)),
        λ i e. cc,
      ),
      λ k (locked, answered, listens).
          let other : (p : ℕ) → k.lock ≡ some p → t.logical_port ≢ p =
            λ p e same. let there = locked p e in cc (rw (sym same) at there, free) in
          (
            (
              λ p e. let there = locked p e in ground arith,
              λ q' e.
                  let (there, lock) = answered q' e in
                  let differ : port_of q ≢ port_of q' =
                    λ same. other (port_of q') lock (sym port ∙ same) in
                  let kept = answers-remove q' q d.handlers differ there in (ground arith, lock),
              listens,
            ),
            (
              λ p p' e e' same. let is : t.logical_port ≡ p = cc in other p' e' (is ∙ same),
              λ i i' e e' same. cc,
            ),
          ),
    )

start_server-Begun :
    (out : Outside) (t : Tunnel) (token : Option Bytes) (d : Daemon)
    → Begun d (start_server out t token d)
unfolding start_server acquire
start_server-Begun out t token d = elim (Bool-cases (t.logical_port == 0)) [
  | inl zero ↦ rw zero refl
  | inr positive ↦ elim (Bool-cases (mem t.logical_port d.locks)) [
    | inl taken ↦ rw (positive, taken) refl
    | inr free ↦ elim (Option-cases (out.lock_file t.logical_port)) [
      | inl done ↦ rw (positive, free, done) (serve-Begun t token d free)
      | inr (e, failed) ↦ rw (positive, free, failed) refl
    ]
  ]
]

opened-Begun : (r : Result StartError (Unit {0})) (d : Daemon) → Begun d (opened r d)
unfolding mem
opened-Begun (err e) d = refl
opened-Begun (ok u) d = (
  refl,
  (λ p e. cc, λ q e. cc, λ i e. let same : d.next ≡ i = cc in (ground arith, omega arith)),
  λ k (locked, answered, listens). (
    (locked, answered, λ i e. let (there, below) = listens i e in (ground arith, omega arith)),
    (
      λ p p' e e' same. cc,
      λ i i' e e' same.
          let (there, below) = listens i' e' in let is : d.next ≡ i = cc in omega arith,
    ),
  ),
)

start-Begun : (out : Outside) (t : Tunnel) (d : Daemon) → Begun d (start out t d)
unfolding start start_client
start-Begun out t d = with_token (out.token_of t)
  where
    by_mode : (token : Option Bytes) (m : Mode) → Begun d (start_as out t m token d)
    by_mode token server = start_server-Begun out t token d
    by_mode token client = opened-Begun (client_tests out t) d
    by_mode token Mode.unset = opened-Begun (client_tests out t) d
    by_mode token (Mode.unknown m) = opened-Begun (client_tests out t) d

    with_token : (token : Result Bytes (Option Bytes)) → Begun d (start_with out t token d)
    with_token (err e) = refl
    with_token (ok token) = by_mode token t.mode

Apart-sym : (h k : Handle) → Apart h k → Apart k h
Apart-sym h k (locks, closers) =
    (λ p p' e e' same. locks p' p e' e (sym same), λ i i' e e' same. closers i' i e' e (sym same))

-- The new handle is entered under its name, in place of the one that is there.
set_handle-Owned :
    (name : Bytes) (h : Handle) (d d' : Daemon)
    → Begun d (ok h, d')
    → Owned d
    → Owned (set_handle name h d')
set_handle-Owned name h d d' (same, live_h, others) (live, apart) = (
  λ a k e. elim (entry a k e) [
    | inl (is, _) ↦ subst (λ (x : Handle). Live d' x) is live_h
    | inr (there, _) ↦ (others k (live a k there)).0
  ],
  λ a b k k' differ e e'. elim (entry a k e) [
    | inl (is, at_a) ↦ elim (entry b k' e') [
      | inl (_, at_b) ↦
          let alike : bytes_eq a b ≡ true =
            subst (λ (x : Bytes). bytes_eq a x ≡ true) (sym at_a ∙ at_b) (bytes_eq_self a) in
          cc (alike, differ)
      | inr (there, _) ↦ subst (λ (x : Handle). Apart x k') is (others k' (live b k' there)).1
    ]
    | inr (there, _) ↦ elim (entry b k' e') [
      | inl (is, _) ↦
          subst (λ (x : Handle). Apart k x) is (Apart-sym h k (others k (live a k there)).1)
      | inr (there', _) ↦ apart a b k k' differ there there'
    ]
  ],
)
  where
    entry :
        (a : Bytes) (k : Handle)
        → find a (set_handle name h d').handles ≡ some k
        → ((h ≡ k) × (name ≡ a)) ⊎ ((find a d.handles ≡ some k) × (bytes_eq name a ≡ false))
    entry a k e =
        let found = find-insert a name h d'.handles in
        elim (Bool-cases (bytes_eq name a)) [
          | inl here ↦
              let is : h ≡ k = cc (rw here at found, e) in inl (is, bytes_eq→eq name a here)
          | inr other ↦ inr (
            ap (λ (l : List (Bytes × Handle)). find a l) (sym same) ∙ sym (rw other at found) ∙ e,
            other,
          )
        ]

pub keep_started-Owned :
    (out : Outside) (name : Bytes) (t : Tunnel) (d : Daemon)
    → Owned d
    → Owned (keep_started name (start out t d)).1
keep_started-Owned out name t d owned = either (start out t d) (start-Begun out t d)
  where
    either : (r : Result StartError Handle × Daemon) → Begun d r → Owned (keep_started name r).1
    either (err e, d') same = subst (λ (x : Daemon). Owned x) (sym same) owned
    either (ok h, d') begun = set_handle-Owned name h d d' begun owned
