-- ===== src/Daemon/Holding.antt =====
-- What the tunnels hold through the loops of Run and Reload.
use p2p_netcat_go_wrk.Common.{
  ℕ, Bool-cases, inl, inr, Option, none, some, List, [], ◌∷◌, Bytes, Result, ok, err,
}
use p2p_netcat_go_wrk.Common.Maps.{find}
use p2p_netcat_go_wrk.TunnelConfig.{
  Tunnel, Config, server, client, Mode, validate, TunnelType, Protocol,
}
use p2p_netcat_go_wrk.TunnelConfig
use p2p_netcat_go_wrk.Daemon.{
  Daemon, Outside, start, keep_started, start_all, or_then, fresh, Error, tunnels_by_name,
  is_unchanged, stop_changed_one, stop_changed, start_changed_one, start_changed, adopt,
  reload_valid, reload,
}
use p2p_netcat_go_wrk.Daemon.Owned.{Owned, stop-Owned}
use p2p_netcat_go_wrk.Daemon.Begun.{keep_started-Owned}

or_then-Owned :
    (r : Option Error × Daemon) (next : Daemon → Option Error × Daemon)
    → ((d : Daemon) → Owned d → Owned (next d).1)
    → Owned r.1
    → Owned (or_then r next).1
or_then-Owned (some e, d) next keep owned = owned
or_then-Owned (none, d) next keep owned = keep d owned

pub fresh-Owned : (c : Config) (locks : List ℕ) → Owned (fresh c locks)
unfolding find
fresh-Owned c locks = (λ name h e. cc, λ a b h k differ e e'. cc)

-- What holds after the loop of `Run`.
pub start_all-Owned :
    (out : Outside) (ts : List Tunnel) (d : Daemon) → Owned d → Owned (start_all out ts d).1
unfolding start_all
start_all-Owned out [] d owned = owned
start_all-Owned out (t ∷ ts) d owned =
    or_then-Owned (keep_started t.name (start out t d)) (start_all out ts)
      (λ d' o. start_all-Owned out ts d' o) (keep_started-Owned out t.name t d owned)

stop_changed_one-Owned :
    (old new : Option Tunnel) (name : Bytes) (d : Daemon)
    → Owned d
    → Owned (stop_changed_one old new name d)
stop_changed_one-Owned none new name d owned = owned
stop_changed_one-Owned (some t) new name d owned = elim (Bool-cases (is_unchanged (some t) new)) [
  | inl u ↦ rw u owned
  | inr u ↦ rw u (stop-Owned name d owned)
]

stop_changed-Owned :
    (old new : List (Bytes × Tunnel)) (names : List Bytes) (d : Daemon)
    → Owned d
    → Owned (stop_changed old new names d)
stop_changed-Owned old new [] d owned = owned
stop_changed-Owned old new (name ∷ names) d owned =
    stop_changed-Owned old new names (stop_changed_one (find name old) (find name new) name d)
      (stop_changed_one-Owned (find name old) (find name new) name d owned)

start_changed_one-Owned :
    (out : Outside) (old new : Option Tunnel) (name : Bytes) (d : Daemon)
    → Owned d
    → Owned (start_changed_one out old new name d).1
start_changed_one-Owned out old none name d owned = owned
start_changed_one-Owned out old (some t) name d owned =
    elim (Bool-cases (is_unchanged old (some t))) [
      | inl u ↦ rw u owned
      | inr u ↦ rw u (keep_started-Owned out name t d owned)
    ]

start_changed-Owned :
    (out : Outside) (old new : List (Bytes × Tunnel)) (names : List Bytes) (d : Daemon)
    → Owned d
    → Owned (start_changed out old new names d).1
unfolding start_changed
start_changed-Owned out old new [] d owned = owned
start_changed-Owned out old new (name ∷ names) d owned =
    or_then-Owned (start_changed_one out (find name old) (find name new) name d)
      (start_changed out old new names) (λ d' o. start_changed-Owned out old new names d' o)
      (start_changed_one-Owned out (find name old) (find name new) name d owned)

-- A reload keeps it, however it ends.
pub reload-Owned :
    (out : Outside) (old_order new_order : List Bytes) (c : Config) (d : Daemon)
    → Owned d
    → Owned (reload out old_order new_order c d).1
unfolding reload
reload-Owned out old_order new_order c d owned = either (validate c)
  where
    adopted : (r : Option Error × Daemon) → Owned r.1 → Owned (adopt c r).1
    adopted (some e, d') o = o
    adopted (none, d') o = o

    either :
        (v : Result TunnelConfig.Error (Unit {0}))
        → Owned (reload_valid out old_order new_order c v d).1
    either (err e) = owned
    either (ok u) =
        let old = tunnels_by_name d.cfg.tunnels in
        let new = tunnels_by_name c.tunnels in
        let stopped = stop_changed old new old_order d in
        adopted (start_changed out old new new_order stopped) (
          start_changed-Owned out old new new_order stopped
            (stop_changed-Owned old new old_order d owned))
