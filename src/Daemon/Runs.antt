-- ===== src/Daemon/Runs.antt =====
-- Runs of the daemon, and its theorems at concrete ones.
use p2p_netcat_go_wrk.Common.{
  ℕ, ◌≡◌, refl, true, none, some, Option, List, [], ◌∷◌, map, Bytes, ok, ◌==◌, if◌then◌else◌,
}
use p2p_netcat_go_wrk.Common.Integers.{ℤ, pos, negsuc}
use p2p_netcat_go_wrk.Common.Maps.{find, delete}
use p2p_netcat_go_wrk.Common.Text.{codes, bytes_eq}
use p2p_netcat_go_wrk.Common.Net.{is_blank}
use p2p_netcat_go_wrk.TunnelConfig.{
  pty, server, tcp, Relay, Tunnel, Config, validate, check_tunnels, check_relays, validate_tunnel,
  find_name, find_port,
}
use p2p_netcat_go_wrk.Daemon.{
  Outside, Daemon, Handle, Error, not_started, port_in_use, lock_failed, fresh, tunnels_by_name,
  acquire, start_server, start, stop, start_all, start_changed, reload, sink, relay_addrs, mem,
  tunnel_eq, type_eq, mode_eq, protocol_eq, bool_eq,
}
use p2p_netcat_go_wrk.Daemon.Relays.{Ascending, at, relay_addrs_sorted}
use p2p_netcat_go_wrk.Daemon.Reload.{reload_kept}
use p2p_netcat_go_wrk.Daemon.Owned.{Owned, Live}
use p2p_netcat_go_wrk.Daemon.Holding.{fresh-Owned, start_all-Owned}

abbrev shell_on : Bytes → ℕ → Tunnel
shell_on name port = record {
  name = name;
  type_of = pty;
  mode = server;
  logical_port = port;
  protocol = tcp;
  target = [];
  listen = [];
  peer = [];
  command = [];
  token_file = [];
  allow_unauthenticated = true;
}

abbrev config_of : List Tunnel → Config
config_of ts = record {
  identity = [];
  relays = [];
  fallback_to_public_dht = none;
  upstream_socks = [];
  tunnels = ts;
}

abbrev one_tunnel : Config
one_tunnel = config_of (shell_on (codes "a") 1 ∷ [])

abbrev three_tunnels : Config
three_tunnels =
    config_of (shell_on (codes "a") 1 ∷ shell_on (codes "b") 2 ∷ shell_on (codes "c") 3 ∷ [])

-- All is well but for the lock file of one port.
abbrev failing_at : ℕ → Outside
failing_at port = record {
  token_of = λ t. ok none;
  lock_file = λ n. if n == port then some (codes "denied") else none;
  carrier = λ t. none;
  listening = λ t. none;
  node = none;
}

abbrev with_one : Daemon
with_one = (start_all (failing_at 0) one_tunnel.tunnels (fresh one_tunnel [])).1

-- The second of two new tunnels cannot start.
abbrev half_reloaded : Option Error × Daemon
half_reloaded =
    reload (failing_at 3) (codes "a" ∷ []) (codes "a" ∷ codes "b" ∷ codes "c" ∷ []) three_tunnels
      with_one

stops_half_way : half_reloaded.0 ≡ some (not_started (codes "c") (lock_failed (codes "denied")))
unfolding reload validate check_tunnels check_relays validate_tunnel find_name find_port is_blank
    bytes_eq find delete start_changed start start_server acquire start_all stop mem tunnel_eq
    type_eq mode_eq protocol_eq bool_eq
stops_half_way = refl

-- The lock file is there now, but the first of the two is started again while it holds its port.
retry_fails :
    (reload
      (failing_at 0)
      (codes "a" ∷ [])
      (codes "a" ∷ codes "b" ∷ codes "c" ∷ [])
      three_tunnels
      half_reloaded.1).0
    ≡ some (not_started (codes "b") (port_in_use 2))
unfolding reload validate check_tunnels check_relays validate_tunnel find_name find_port is_blank
    bytes_eq find delete start_changed start start_server acquire start_all stop mem tunnel_eq
    type_eq mode_eq protocol_eq bool_eq
retry_fails = refl

abbrev relays : List Relay
relays =
    record { addr = codes "x"; priority = pos 2 }
    ∷ record { addr = codes "y"; priority = negsuc 0 }
    ∷ record { addr = codes "z"; priority = pos 2 }
    ∷ []

sorts : relay_addrs relays ≡ codes "y" ∷ codes "x" ∷ codes "z" ∷ []
unfolding relay_addrs sink
sorts = refl

relay_addrs_sorted_example :
    (sorted : List Relay) × (relay_addrs relays ≡ map (λ r. r.addr) sorted)
    × Ascending sorted
    × ((p : ℤ) → at p sorted ≡ at p relays)
relay_addrs_sorted_example = relay_addrs_sorted relays

with_one-Owned : Owned with_one
with_one-Owned =
    start_all-Owned (failing_at 0) one_tunnel.tunnels (fresh one_tunnel [])
      (fresh-Owned one_tunnel [])

defined_before :
    find (codes "a") (tunnels_by_name with_one.cfg.tunnels) ≡ some (shell_on (codes "a") 1)
unfolding find delete start_all start start_server acquire bytes_eq mem
defined_before = refl

defined_after :
    find (codes "a") (tunnels_by_name three_tunnels.tunnels) ≡ some (shell_on (codes "a") 1)
unfolding find delete bytes_eq
defined_after = refl

reload_kept_example :
    (find (codes "a") half_reloaded.1.handles ≡ find (codes "a") with_one.handles)
    × ((h : Handle) → find (codes "a") with_one.handles ≡ some h → Live half_reloaded.1 h)
reload_kept_example =
    reload_kept (failing_at 3) (codes "a" ∷ []) (codes "a" ∷ codes "b" ∷ codes "c" ∷ [])
      three_tunnels with_one (codes "a") (shell_on (codes "a") 1) with_one-Owned defined_before
      defined_after

abbrev order1 : List Bytes
order1 = codes "a" ∷ []

abbrev order3 : List Bytes
order3 = codes "a" ∷ codes "b" ∷ codes "c" ∷ []

abbrev reloaded : Daemon
reloaded = (reload (failing_at 0) order1 order3 three_tunnels with_one).1
