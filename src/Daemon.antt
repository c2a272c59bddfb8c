-- ===== src/Daemon.antt =====
-- internal/daemon and internal/listenerlock/lock.go: the supervisor that runs the tunnels of one
-- configuration, the tunnels that it starts and stops, and the locks on logical ports.
-- A map of the source is a list of its entries; its iteration order is an argument, a list of names.
pub mod Relays
pub mod Handles
pub mod Owned
pub mod Begun
pub mod Holding
pub mod Alike
pub mod Entries
pub mod Started
pub mod Reload
pub mod Sync
pub mod Begins
mod Runs
use p2p_netcat_go_wrk.Common.{
  ℕ, ◌+◌, Bool, true, false, ◌&&◌, ◌||◌, not, Option, none, some, List, [], ◌∷◌, ◌++◌, map, ◌==◌,
  if◌then◌else◌, Bytes, Result, ok, err, ◌>>=◌, ◌>>◌, fail_if, wrap, or_fail,
}
use p2p_netcat_go_wrk.Common.Integers.{ℤ, lt}
use p2p_netcat_go_wrk.Common.Maps.{find, delete}
use p2p_netcat_go_wrk.Common.Text.{bytes_eq}
use p2p_netcat_go_wrk.Common.Net.{AddressError, split_host_port}
use p2p_netcat_go_wrk.Common.Decimal.{atoi}
use p2p_netcat_go_wrk.TunnelConfig.{
  TunnelType, Mode, Protocol, forward, server, client, socks, pty, exec, tcp, udp, Relay, Tunnel,
  Config, validate,
}
use p2p_netcat_go_wrk.TunnelConfig

-- `ProtocolForService` and `DatagramProtocolForService`: the two kinds have different prefixes.
pub data ProtoId : Type 0 where
  byte_stream datagrams : ℕ → ProtoId

-- What a tunnel holds: the lock on its port, the handler of its protocol, its local listener.
pub record Handle : Type 0 where
  pub lock : Option ℕ
  pub proto : Option ProtoId
  pub closer : Option ℕ

pub data StartError : Type 0 where
  bad_token lock_failed no_carrier not_listening : Bytes → StartError
  port_in_use : ℕ → StartError
  zero_port only_forward bad_listen_port : StartError
  bad_listen : AddressError → StartError

pub data Error : Type 0 where
  invalid : TunnelConfig.Error → Error
  not_started : Bytes → StartError → Error
  no_node : Bytes → Error

-- What the file system and the network answer while one call runs: the token of a tunnel, an error of
-- the lock file of a port, of the first carrier of a UDP tunnel, and of opening a local listener.
pub record Outside : Type 0 where
  pub token_of : Tunnel → Result Bytes (Option Bytes)
  pub lock_file : ℕ → Option Bytes
  pub carrier : Tunnel → Option Bytes
  pub listening : Tunnel → Option Bytes
  pub node : Option Bytes

-- `locks` is the set of this process's locks, `handlers` the protocols that the node answers,
-- `listeners` the local listeners that are open, by number, and `advertised` the tokens (or none)
-- whose rendezvous was started.
pub record Daemon : Type 0 where
  pub cfg : Config
  pub handles : List (Bytes × Handle)
  pub locks : List ℕ
  pub handlers : List ProtoId
  pub listeners : List ℕ
  pub next : ℕ
  pub advertised : List (Option Bytes)
  pub cancelled : Bool
  pub node_open : Bool

pub proto_eq : ProtoId → ProtoId → Bool
proto_eq (byte_stream a) (byte_stream b) = a == b
proto_eq (datagrams a) (datagrams b) = a == b
proto_eq _ _ = false

pub mem : ℕ → List ℕ → Bool
mem n [] = false
mem n (m ∷ ms) = n == m || mem n ms

pub remove : ℕ → List ℕ → List ℕ
remove n [] = []
remove n (m ∷ ms) = let rest = remove n ms in if n == m then rest else m ∷ rest

pub remove_proto : ProtoId → List ProtoId → List ProtoId
remove_proto p [] = []
remove_proto p (q ∷ qs) = let rest = remove_proto p qs in if proto_eq p q then rest else q ∷ rest

-- A later tunnel replaces an earlier one of its name.
abbrev pub tunnels_from : List (Bytes × Tunnel) → List Tunnel → List (Bytes × Tunnel)
tunnels_from found [] = found
tunnels_from found (t ∷ ts) = tunnels_from ((t.name, t) ∷ delete t.name found) ts

abbrev pub tunnels_by_name : List Tunnel → List (Bytes × Tunnel)
tunnels_by_name ts = tunnels_from [] ts

pub type_eq : TunnelType → TunnelType → Bool
type_eq forward forward = true
type_eq socks socks = true
type_eq pty pty = true
type_eq exec exec = true
type_eq TunnelType.unset TunnelType.unset = true
type_eq (TunnelType.unknown s) (TunnelType.unknown t) = bytes_eq s t
type_eq _ _ = false

pub mode_eq : Mode → Mode → Bool
mode_eq server server = true
mode_eq client client = true
mode_eq Mode.unset Mode.unset = true
mode_eq (Mode.unknown s) (Mode.unknown t) = bytes_eq s t
mode_eq _ _ = false

pub protocol_eq : Protocol → Protocol → Bool
protocol_eq tcp tcp = true
protocol_eq udp udp = true
protocol_eq (Protocol.unknown s) (Protocol.unknown t) = bytes_eq s t
protocol_eq _ _ = false

pub bool_eq : Bool → Bool → Bool
bool_eq true b = b
bool_eq false b = not b

-- `==` of two tunnels
pub tunnel_eq : Tunnel → Tunnel → Bool
tunnel_eq t u =
    bytes_eq t.name u.name
    && type_eq t.type_of u.type_of
    && mode_eq t.mode u.mode
    && t.logical_port == u.logical_port
    && protocol_eq t.protocol u.protocol
    && bytes_eq t.target u.target
    && bytes_eq t.listen u.listen
    && bytes_eq t.peer u.peer
    && bytes_eq t.command u.command
    && bytes_eq t.token_file u.token_file
    && bool_eq t.allow_unauthenticated u.allow_unauthenticated

-- `listenerlock.Acquire`
abbrev pub locked : Option Bytes → ℕ → Daemon → Result StartError ℕ × Daemon
locked (some e) service d = (err (lock_failed e), d)
locked none service d = (ok service, record d { locks = service ∷ d.locks })

unfoldable pub acquire : Outside → ℕ → Daemon → Result StartError ℕ × Daemon
acquire out service d =
    if service == 0
    then (err zero_port, d)
    else if mem service d.locks
    then (err (port_in_use service), d)
    else locked (out.lock_file service) service d

-- `Lock.Close`
abbrev pub release : ℕ → Daemon → Daemon
release service d = record d { locks = remove service d.locks }

abbrev pub proto_of : TunnelType → Protocol → ℕ → ProtoId
proto_of forward udp service = datagrams service
proto_of _ _ service = byte_stream service

abbrev pub serve :
    Tunnel → Option Bytes → Result StartError ℕ × Daemon → Result StartError Handle × Daemon
serve t token (err e, d) = (err e, d)
serve t token (ok service, d) = (
  ok (record {
    lock = some service;
    proto = some (proto_of t.type_of t.protocol t.logical_port);
    closer = none;
  }),
  record d {
    handlers =
        proto_of t.type_of t.protocol t.logical_port
        ∷ remove_proto (proto_of t.type_of t.protocol t.logical_port) d.handlers;
    advertised = token ∷ d.advertised;
  },
)

unfoldable pub start_server :
    Outside → Tunnel → Option Bytes → Daemon → Result StartError Handle × Daemon
start_server out t token d = serve t token (acquire out t.logical_port d)

abbrev pub refuse : Option Bytes → (Bytes → StartError) → Result StartError (Unit {0})
refuse none e = ok tt
refuse (some x) e = err (e x)

abbrev pub is_forward : TunnelType → Bool
is_forward forward = true
is_forward _ = false

abbrev pub check_carrier : Outside → Tunnel → Protocol → Result StartError (Unit {0})
check_carrier out t udp = refuse (out.carrier t) no_carrier
check_carrier out t _ = ok tt

-- What can keep a client tunnel from listening.
abbrev pub client_tests : Outside → Tunnel → Result StartError (Unit {0})
client_tests out t = do
  fail_if (not (is_forward t.type_of)) only_forward
  (_, port) ← wrap bad_listen (split_host_port t.listen)
  _ ← or_fail (atoi port) bad_listen_port
  check_carrier out t t.protocol
  refuse (out.listening t) not_listening

abbrev pub opened : Result StartError (Unit {0}) → Daemon → Result StartError Handle × Daemon
opened (err e) d = (err e, d)
opened (ok _) d = (
  ok (record { lock = none; proto = none; closer = some d.next }),
  record d { listeners = d.next ∷ d.listeners; next = d.next + 1 },
)

unfoldable pub start_client : Outside → Tunnel → Daemon → Result StartError Handle × Daemon
start_client out t d = opened (client_tests out t) d

abbrev pub start_as :
    Outside → Tunnel → Mode → Option Bytes → Daemon → Result StartError Handle × Daemon
start_as out t server token d = start_server out t token d
start_as out t _ token d = start_client out t d

abbrev pub start_with :
    Outside → Tunnel → Result Bytes (Option Bytes) → Daemon → Result StartError Handle × Daemon
start_with out t (err e) d = (err (bad_token e), d)
start_with out t (ok token) d = start_as out t t.mode token d

unfoldable pub start : Outside → Tunnel → Daemon → Result StartError Handle × Daemon
start out t d = start_with out t (out.token_of t) d

abbrev pub remove_handler : Option ProtoId → Daemon → Daemon
remove_handler none d = d
remove_handler (some p) d = record d { handlers = remove_proto p d.handlers }

abbrev pub close_listener : Option ℕ → Daemon → Daemon
close_listener none d = d
close_listener (some id) d = record d { listeners = remove id d.listeners }

abbrev pub release_lock : Option ℕ → Daemon → Daemon
release_lock none d = d
release_lock (some service) d = release service d

abbrev pub tear_down : Option Handle → Daemon → Daemon
tear_down none d = d
tear_down (some h) d = release_lock h.lock (close_listener h.closer (remove_handler h.proto d))

unfoldable pub stop : Bytes → Daemon → Daemon
stop name d = tear_down (find name d.handles) (record d { handles = delete name d.handles })

abbrev pub stop_all : List Bytes → Daemon → Daemon
stop_all [] d = d
stop_all (name ∷ names) d = stop_all names (stop name d)

-- `Close`, with the names in the order in which the map gives them.
unfoldable pub close : List Bytes → Daemon → Daemon
close names d = record (stop_all names (record d { cancelled = true })) { node_open = false }

-- `d.handles[name] = handle`
abbrev pub set_handle : Bytes → Handle → Daemon → Daemon
set_handle name h d = record d { handles = (name, h) ∷ delete name d.handles }

-- The loop of `Run`.
abbrev pub keep_started : Bytes → Result StartError Handle × Daemon → Option Error × Daemon
keep_started name (err e, d) = (some (not_started name e), d)
keep_started name (ok h, d) = (none, set_handle name h d)

abbrev pub or_then :
    Option Error × Daemon → (Daemon → Option Error × Daemon) → Option Error × Daemon
or_then (some e, d) next = (some e, d)
or_then (none, d) next = next d

unfoldable pub start_all : Outside → List Tunnel → Daemon → Option Error × Daemon
start_all out [] d = (none, d)
start_all out (t ∷ ts) d = or_then (keep_started t.name (start out t d)) (start_all out ts)

-- How `Run` ends: without a daemon, with all of one, or with one that was closed again.
pub data RunOutcome : Type 0 where
  refused : Error → RunOutcome
  running : Daemon → RunOutcome
  torn_down : Error → Daemon → RunOutcome

abbrev pub fresh : Config → List ℕ → Daemon
fresh c locks = record {
  cfg = c;
  handles = [];
  locks = locks;
  handlers = [];
  listeners = [];
  next = 0;
  advertised = [];
  cancelled = false;
  node_open = true;
}

abbrev pub names_of {ℓ} : {A : Type ℓ} → List (Bytes × A) → List Bytes
names_of [] = []
names_of ((name, _) ∷ rest) = name ∷ names_of rest

abbrev pub finish_run : Option Error × Daemon → RunOutcome
finish_run (none, d) = running d
finish_run (some e, d) = torn_down e (close (names_of d.handles) d)

abbrev pub run_valid :
    Outside → Config → List ℕ → Result TunnelConfig.Error (Unit {0}) → Option Bytes → RunOutcome
run_valid out c locks (err e) _ = refused (invalid e)
run_valid out c locks (ok _) (some e) = refused (no_node e)
run_valid out c locks (ok _) none = finish_run (start_all out c.tunnels (fresh c locks))

-- `locks` are those that the process holds already.
unfoldable pub run : Outside → Config → List ℕ → RunOutcome
run out c locks = run_valid out c locks (validate c) out.node

-- A tunnel of the running configuration, against the new one.
abbrev pub is_unchanged : Option Tunnel → Option Tunnel → Bool
is_unchanged (some old) (some new) = tunnel_eq new old
is_unchanged _ _ = false

abbrev pub stop_changed_one : Option Tunnel → Option Tunnel → Bytes → Daemon → Daemon
stop_changed_one none new name d = d
stop_changed_one (some old) new name d = if is_unchanged (some old) new then d else stop name d

abbrev pub stop_changed :
    List (Bytes × Tunnel) → List (Bytes × Tunnel) → List Bytes → Daemon → Daemon
stop_changed old new [] d = d
stop_changed old new (name ∷ names) d =
    stop_changed old new names (stop_changed_one (find name old) (find name new) name d)

abbrev pub start_changed_one :
    Outside → Option Tunnel → Option Tunnel → Bytes → Daemon → Option Error × Daemon
start_changed_one out old none name d = (none, d)
start_changed_one out old (some t) name d =
    if is_unchanged old (some t) then (none, d) else keep_started name (start out t d)

unfoldable pub start_changed :
    Outside
    → List (Bytes × Tunnel)
    → List (Bytes × Tunnel)
    → List Bytes
    → Daemon
    → Option Error × Daemon
start_changed out old new [] d = (none, d)
start_changed out old new (name ∷ names) d =
    or_then (start_changed_one out (find name old) (find name new) name d)
      (start_changed out old new names)

-- The end of `Reload`: the new configuration is kept if every tunnel started.
abbrev pub adopt : Config → Option Error × Daemon → Option Error × Daemon
adopt new (some e, d) = (some e, d)
adopt new (none, d) = (none, record d { cfg = new })

abbrev pub reload_valid :
    Outside
    → List Bytes
    → List Bytes
    → Config
    → Result TunnelConfig.Error (Unit {0})
    → Daemon
    → Option Error × Daemon
reload_valid out old_order new_order new (err e) d = (some (invalid e), d)
reload_valid out old_order new_order new (ok _) d =
    let old_tunnels = tunnels_by_name d.cfg.tunnels in
    let new_tunnels = tunnels_by_name new.tunnels in
    adopt new (
      start_changed out old_tunnels new_tunnels new_order
        (stop_changed old_tunnels new_tunnels old_order d))

-- The two orders are those in which the maps of the running and of the new tunnels are visited.
unfoldable pub reload : Outside → List Bytes → List Bytes → Config → Daemon → Option Error × Daemon
reload out old_order new_order new d = reload_valid out old_order new_order new (validate new) d

-- The inner loop: the relay moves down past those of a higher priority; the latest comes first here.
unfoldable pub sink : Relay → List Relay → List Relay
sink r [] = r ∷ []
sink r (q ∷ before) =
    let moved = q ∷ sink r before in if lt r.priority q.priority then moved else r ∷ q ∷ before

abbrev pub sink_all : List Relay → List Relay → List Relay
sink_all sorted [] = sorted
sink_all sorted (r ∷ rs) = sink_all (sink r sorted) rs

abbrev pub turn {ℓ} : {A : Type ℓ} → List A → List A → List A
turn done [] = done
turn done (x ∷ xs) = turn (x ∷ done) xs

abbrev pub sort_relays : List Relay → List Relay
sort_relays rs = turn [] (sink_all [] rs)

unfoldable pub relay_addrs : List Relay → List Bytes
relay_addrs rs = map (λ r. r.addr) (sort_relays rs)
