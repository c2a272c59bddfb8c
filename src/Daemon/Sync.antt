-- ===== src/Daemon/Sync.antt =====
-- After a reload that succeeds, the running tunnels are those of the new configuration.
use p2p_netcat_go_wrk.Common.{◌≡◌, ◌⊎◌, true, Option, none, some, List, Bytes}
use p2p_netcat_go_wrk.TunnelConfig.{Tunnel, Config}
use p2p_netcat_go_wrk.TunnelConfig
use p2p_netcat_go_wrk.Daemon.{Daemon, Handle, Outside, tunnels_by_name}
use p2p_netcat_go_wrk.Daemon.Owned.{Owned}
use p2p_netcat_go_wrk.Daemon.Entries.{has_entry, visits}
use p2p_netcat_go_wrk.Daemon.Started.{Started}

-- The names with a handle are those of the tunnels.
abbrev pub InSync : Daemon → Config → Type 0
InSync d c = (name : Bytes) → has_entry name d.handles ≡ has_entry name (tunnels_by_name c.tunnels)

-- An order in which a loop visits a map leaves no name of the map out.
abbrev pub Covers : List Bytes → Config → Type 0
Covers order c =
    (name : Bytes) → has_entry name (tunnels_by_name c.tunnels) ≡ true → visits order name ≡ true

-- What the running and the new configuration say of a name, against the handles before the reload,
-- behind its first loop, and after it: a tunnel that both define in the same way runs on with its
-- handle; any other tunnel of the new one held nothing behind the first loop, and was started, as it
-- is defined there, while the reload ran.
abbrev pub RunsAs :
    Outside → Option Tunnel → Option Tunnel → Option Handle → Option Handle → Option Handle → Type 0
RunsAs out old none before between after = after ≡ none
RunsAs out old (some t) before between after =
    (h : Handle) × (after ≡ some h)
    × (((old ≡ some t) × (before ≡ some h)) ⊎ ((between ≡ none) × Started out t h))
