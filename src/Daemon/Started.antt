-- ===== src/Daemon/Started.antt =====
-- The handles that the second loop of a reload enters are those of tunnels that it started.
use p2p_netcat_go_wrk.Common.{
  ◌≡◌, ◌∙◌, ap, subst, ◌⊎◌, refl, true, Bool-cases, inl, inr, Option, none, some, List, [], ◌∷◌,
  Bytes, Result, ok, err,
}
use p2p_netcat_go_wrk.Common.Maps.{find}
use p2p_netcat_go_wrk.Common.Text.{bytes_eq, bytes_eq→eq}
use p2p_netcat_go_wrk.TunnelConfig.{Tunnel}
use p2p_netcat_go_wrk.Daemon.{
  Daemon, Handle, Outside, Error, StartError, start, keep_started, or_then, is_unchanged,
  start_changed_one, start_changed,
}
use p2p_netcat_go_wrk.Daemon.Handles.{start-handles}
use p2p_netcat_go_wrk.Daemon.Reload.{keep_started-other}

-- The handle is what `start` gives for this tunnel.
abbrev pub Started : Outside → Tunnel → Handle → Type 0
Started out t h = (d : Daemon) × ((start out t d).0 ≡ ok h)

-- One name in the loop that starts tunnels: it keeps what it has, or its new tunnel was started.
abbrev pub Changed : Outside → Bytes → List (Bytes × Tunnel) → Daemon → Daemon → Type 0
Changed out name new d d' =
    (find name d'.handles ≡ find name d.handles)
    ⊎ ((t : Tunnel) × (h : Handle) × (find name new ≡ some t)
        × (find name d'.handles ≡ some h)
        × Started out t h)

keep_started-Changed :
    (out : Outside) (name other : Bytes) (new : List (Bytes × Tunnel)) (t : Tunnel) (d : Daemon)
    → find other new ≡ some t
    → Changed out name new d (keep_started other (start out t d)).1
unfolding find
keep_started-Changed out name other new t d is = elim (Bool-cases (bytes_eq other name)) [
  | inr apart ↦ inl (
      keep_started-other name other (start out t d) apart
      ∙ ap (λ (l : List (Bytes × Handle)). find name l) (start-handles out t d))
  | inl e ↦ either e (start out t d) refl (start-handles out t d)
]
  where
    either :
        bytes_eq other name ≡ true
        → (r : Result StartError Handle × Daemon) → (start out t d).0 ≡ r.0
        → r.1.handles ≡ d.handles
        → Changed out name new d (keep_started other r).1
    either e (err x, d') s same = inl (ap (λ (l : List (Bytes × Handle)). find name l) same)
    either e (ok h, d') s same =
        let here = bytes_eq→eq other name e in
        inr (t, h, subst (λ (n : Bytes). find n new ≡ some t) here is, rw e, (d, s))

start_changed_one-Changed :
    (out : Outside) (name other : Bytes) (old : Option Tunnel) (new : List (Bytes × Tunnel))
    (d : Daemon) (n : Option Tunnel)
    → find other new ≡ n
    → Changed out name new d (start_changed_one out old n other d).1
start_changed_one-Changed out name other old new d none is = inl refl
start_changed_one-Changed out name other old new d (some t) is =
    elim (Bool-cases (is_unchanged old (some t))) [
      | inl u ↦ rw u (inl refl)
      | inr u ↦ rw u (keep_started-Changed out name other new t d is)
    ]

after_first :
    (out : Outside) (name : Bytes) (new : List (Bytes × Tunnel)) (d d' d'' : Daemon)
    → Changed out name new d d'
    → Changed out name new d' d''
    → Changed out name new d d''
after_first out name new d d' d'' (inl e) (inl e') = inl (e' ∙ e)
after_first out name new d d' d'' (inr (t, h, is, found, s)) (inl e') =
    inr (t, h, is, e' ∙ found, s)
after_first out name new d d' d'' c (inr started) = inr started

or_then-Changed :
    (out : Outside) (name : Bytes) (new : List (Bytes × Tunnel)) (d : Daemon)
    (r : Option Error × Daemon) (next : Daemon → Option Error × Daemon)
    → Changed out name new d r.1
    → ((d' : Daemon) → Changed out name new d' (next d').1)
    → Changed out name new d (or_then r next).1
or_then-Changed out name new d (some e, d') next c more = c
or_then-Changed out name new d (none, d') next c more =
    after_first out name new d d' (next d').1 c (more d')

pub start_changed-Changed :
    (out : Outside) (name : Bytes) (old new : List (Bytes × Tunnel)) (names : List Bytes)
    (d : Daemon)
    → Changed out name new d (start_changed out old new names d).1
unfolding start_changed
start_changed-Changed out name old new [] d = inl refl
start_changed-Changed out name old new (other ∷ names) d =
    or_then-Changed out name new d (start_changed_one out (find other old) (find other new) other d)
      (start_changed out old new names)
      (start_changed_one-Changed out name other (find other old) new d (find other new) refl)
      (λ d'. start_changed-Changed out name old new names d')
