-- ===== src/Daemon/Begins.antt =====
-- A daemon that Run returns runs the tunnels of its configuration.
use p2p_netcat_go_wrk.Common.{Bool, false, ◌||◌, List, [], ◌∷◌, Bytes}
use p2p_netcat_go_wrk.Common.Text.{bytes_eq}
use p2p_netcat_go_wrk.TunnelConfig.{Tunnel}
use p2p_netcat_go_wrk.TunnelConfig
use p2p_netcat_go_wrk.Daemon.{Daemon}
use p2p_netcat_go_wrk.Daemon.Owned.{Owned}

-- Whether one of the tunnels has this name.
abbrev named : List Tunnel → Bytes → Bool
named [] name = false
named (t ∷ ts) name = bytes_eq t.name name || named ts name
