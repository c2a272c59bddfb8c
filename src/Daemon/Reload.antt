-- ===== src/Daemon/Reload.antt =====
-- What a reload leaves alone.
use p2p_netcat_go_wrk.Common.{
  ◌≡◌, ◌∙◌, ap, refl, true, false, Bool-cases, inl, inr, Option, none, some, List, [], ◌∷◌, Bytes,
  Result, ok, err,
}
use p2p_netcat_go_wrk.Common.Maps.{find, delete, find-delete_other}
use p2p_netcat_go_wrk.Common.Text.{bytes_eq, bytes_eq→eq}
use p2p_netcat_go_wrk.TunnelConfig.{Tunnel, Config, server, client, Mode, validate}
use p2p_netcat_go_wrk.TunnelConfig
use p2p_netcat_go_wrk.Daemon.Owned.{Live, Owned}
use p2p_netcat_go_wrk.Daemon.Holding.{reload-Owned}
use p2p_netcat_go_wrk.Daemon.Alike.{tunnel_eq_self}
use p2p_netcat_go_wrk.Daemon.Handles.{start-handles, tear_down-handles}
use p2p_netcat_go_wrk.Daemon.{
  Daemon, Handle, Outside, Error, StartError, tunnels_by_name, start, stop, keep_started, or_then,
  is_unchanged, stop_changed_one, stop_changed, start_changed_one, start_changed, adopt,
  reload_valid, reload,
}

stop-other :
    (name other : Bytes) (d : Daemon)
    → bytes_eq other name ≡ false
    → find name (stop other d).handles ≡ find name d.handles
unfolding stop
stop-other name other d h =
    ap (λ (l : List (Bytes × Handle)). find name l)
      (tear_down-handles (find other d.handles) (record d { handles = delete other d.handles }))
    ∙ find-delete_other name other d.handles h

pub keep_started-other :
    (name other : Bytes) (r : Result StartError Handle × Daemon)
    → bytes_eq other name ≡ false
    → find name (keep_started other r).1.handles ≡ find name r.1.handles
unfolding find
keep_started-other name other (err e, d) h = refl
keep_started-other name other (ok handle, d) h = rw (h, find-delete_other name other d.handles h)

-- A tunnel that the two configurations define alike.
abbrev pub Same : Bytes → List (Bytes × Tunnel) → List (Bytes × Tunnel) → Type 0
Same name old new = is_unchanged (find name old) (find name new) ≡ true

stop_changed_one-kept :
    (name other : Bytes) (old new : List (Bytes × Tunnel)) (d : Daemon)
    → Same name old new
    → find name (stop_changed_one (find other old) (find other new) other d).handles
      ≡ find name d.handles
stop_changed_one-kept name other old new d h = elim (Bool-cases (bytes_eq other name)) [
  | inl e ↦
      let same = bytes_eq→eq other name e in
      rw same (ap (λ (x : Daemon). find name x.handles) (skips (find name old) (find name new) h))
  | inr apart ↦
      ap (λ (x : List (Bytes × Handle)). find name x) refl ∙ differs (find other old) apart
]
  where
    skips : (o n : Option Tunnel) → is_unchanged o n ≡ true → stop_changed_one o n name d ≡ d
    skips none n u = refl
    skips (some t) n u = rw u

    differs :
        (o : Option Tunnel)
        → bytes_eq other name ≡ false
        → find name (stop_changed_one o (find other new) other d).handles ≡ find name d.handles
    differs none apart = refl
    differs (some t) apart = elim (Bool-cases (is_unchanged (some t) (find other new))) [
      | inl u ↦ rw u
      | inr u ↦ rw u (stop-other name other d apart)
    ]

pub stop_changed-kept :
    (name : Bytes) (old new : List (Bytes × Tunnel)) (names : List Bytes) (d : Daemon)
    → Same name old new
    → find name (stop_changed old new names d).handles ≡ find name d.handles
stop_changed-kept name old new [] d h = refl
stop_changed-kept name old new (other ∷ names) d h =
    stop_changed-kept name old new names
      (stop_changed_one (find other old) (find other new) other d) h
    ∙ stop_changed_one-kept name other old new d h

start_changed_one-kept :
    (out : Outside) (name other : Bytes) (old new : List (Bytes × Tunnel)) (d : Daemon)
    → Same name old new
    → find name (start_changed_one out (find other old) (find other new) other d).1.handles
      ≡ find name d.handles
start_changed_one-kept out name other old new d h = elim (Bool-cases (bytes_eq other name)) [
  | inl e ↦
      let same = bytes_eq→eq other name e in
      rw same (
        ap (λ (x : Option Error × Daemon). find name x.1.handles)
          (skips (find name old) (find name new) h))
  | inr apart ↦ differs (find other old) (find other new) apart
]
  where
    skips :
        (o n : Option Tunnel)
        → is_unchanged o n ≡ true
        → start_changed_one out o n name d ≡ (none, d)
    skips o none u = refl
    skips o (some t) u = rw u

    differs :
        (o n : Option Tunnel)
        → bytes_eq other name ≡ false
        → find name (start_changed_one out o n other d).1.handles ≡ find name d.handles
    differs o none apart = refl
    differs o (some t) apart = elim (Bool-cases (is_unchanged o (some t))) [
      | inl u ↦ rw u
      | inr u ↦ rw u (
          keep_started-other name other (start out t d) apart
          ∙ ap (λ (x : List (Bytes × Handle)). find name x) (start-handles out t d))
    ]

or_then-kept :
    (name : Bytes) (r : Option Error × Daemon) (next : Daemon → Option Error × Daemon)
    → ((d : Daemon) → find name (next d).1.handles ≡ find name d.handles)
    → find name (or_then r next).1.handles ≡ find name r.1.handles
or_then-kept name (some e, d) next h = refl
or_then-kept name (none, d) next h = h d

pub start_changed-kept :
    (out : Outside) (name : Bytes) (old new : List (Bytes × Tunnel)) (names : List Bytes)
    (d : Daemon)
    → Same name old new
    → find name (start_changed out old new names d).1.handles ≡ find name d.handles
unfolding start_changed
start_changed-kept out name old new [] d h = refl
start_changed-kept out name old new (other ∷ names) d h =
    or_then-kept name (start_changed_one out (find other old) (find other new) other d)
      (start_changed out old new names) (λ d'. start_changed-kept out name old new names d' h)
    ∙ start_changed_one-kept out name other old new d h

adopt-handles : (c : Config) (r : Option Error × Daemon) → (adopt c r).1.handles ≡ r.1.handles
adopt-handles c (some e, d) = refl
adopt-handles c (none, d) = refl

-- A reload, however it ends and whatever tunnels it stops, starts or fails to start, in any order: a
-- tunnel that the running and the new configuration define alike keeps its handle, and all that the
-- handle holds is still there: its lock, the handler of its protocol, and its open listener. Before
-- the reload every tunnel has what its handle holds, and no two share anything, as after the loop of
-- Run.
pub reload_kept :
    (out : Outside) (old_order new_order : List Bytes) (c : Config) (d : Daemon) (name : Bytes)
    (t : Tunnel)
    → Owned d
    → find name (tunnels_by_name d.cfg.tunnels) ≡ some t
    → find name (tunnels_by_name c.tunnels) ≡ some t
    → let d' = (reload out old_order new_order c d).1 in
      (find name d'.handles ≡ find name d.handles)
      × ((h : Handle) → find name d.handles ≡ some h → Live d' h)
unfolding reload
reload_kept out old_order new_order c d name t owned before after =
    let kept = either (validate c) in
    (kept, λ h e. (reload-Owned out old_order new_order c d owned).0 name h (kept ∙ e))
  where
    alike : Same name (tunnels_by_name d.cfg.tunnels) (tunnels_by_name c.tunnels)
    alike = rw (before, after) (tunnel_eq_self t)

    either :
        (v : Result TunnelConfig.Error (Unit {0}))
        → find name (reload_valid out old_order new_order c v d).1.handles ≡ find name d.handles
    either (err e) = refl
    either (ok u) =
        let old = tunnels_by_name d.cfg.tunnels in
        let new = tunnels_by_name c.tunnels in
        let stopped = stop_changed old new old_order d in
        ap (λ (x : List (Bytes × Handle)). find name x)
          (adopt-handles c (start_changed out old new new_order stopped))
        ∙ start_changed-kept out name old new new_order stopped alike
        ∙ stop_changed-kept name old new old_order d alike
