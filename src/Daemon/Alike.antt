-- ===== src/Daemon/Alike.antt =====
-- `==` of two tunnels holds exactly of equal ones.
use p2p_netcat_go_wrk.Common.{◌≡◌, refl, ap, Bool, true, false, Bytes, arith}
use p2p_netcat_go_wrk.Common.Text.{bytes_eq→eq, bytes_eq_self}
use p2p_netcat_go_wrk.TunnelConfig.{
  TunnelType, Mode, Protocol, forward, server, client, socks, pty, exec, tcp, udp, Tunnel,
}
use p2p_netcat_go_wrk.Daemon.{type_eq, mode_eq, protocol_eq, bool_eq, tunnel_eq}

type_eq→eq : (s t : TunnelType) → type_eq s t ≡ true → s ≡ t
unfolding type_eq
type_eq→eq forward forward h = refl
type_eq→eq forward socks h = cc
type_eq→eq forward pty h = cc
type_eq→eq forward exec h = cc
type_eq→eq forward TunnelType.unset h = cc
type_eq→eq forward (TunnelType.unknown t) h = cc
type_eq→eq socks forward h = cc
type_eq→eq socks socks h = refl
type_eq→eq socks pty h = cc
type_eq→eq socks exec h = cc
type_eq→eq socks TunnelType.unset h = cc
type_eq→eq socks (TunnelType.unknown t) h = cc
type_eq→eq pty forward h = cc
type_eq→eq pty socks h = cc
type_eq→eq pty pty h = refl
type_eq→eq pty exec h = cc
type_eq→eq pty TunnelType.unset h = cc
type_eq→eq pty (TunnelType.unknown t) h = cc
type_eq→eq exec forward h = cc
type_eq→eq exec socks h = cc
type_eq→eq exec pty h = cc
type_eq→eq exec exec h = refl
type_eq→eq exec TunnelType.unset h = cc
type_eq→eq exec (TunnelType.unknown t) h = cc
type_eq→eq TunnelType.unset forward h = cc
type_eq→eq TunnelType.unset socks h = cc
type_eq→eq TunnelType.unset pty h = cc
type_eq→eq TunnelType.unset exec h = cc
type_eq→eq TunnelType.unset TunnelType.unset h = refl
type_eq→eq TunnelType.unset (TunnelType.unknown t) h = cc
type_eq→eq (TunnelType.unknown s) forward h = cc
type_eq→eq (TunnelType.unknown s) socks h = cc
type_eq→eq (TunnelType.unknown s) pty h = cc
type_eq→eq (TunnelType.unknown s) exec h = cc
type_eq→eq (TunnelType.unknown s) TunnelType.unset h = cc
type_eq→eq (TunnelType.unknown s) (TunnelType.unknown t) h =
    ap (λ (x : Bytes). TunnelType.unknown x) (bytes_eq→eq s t h)

mode_eq→eq : (s t : Mode) → mode_eq s t ≡ true → s ≡ t
unfolding mode_eq
mode_eq→eq server server h = refl
mode_eq→eq server client h = cc
mode_eq→eq server Mode.unset h = cc
mode_eq→eq server (Mode.unknown t) h = cc
mode_eq→eq client server h = cc
mode_eq→eq client client h = refl
mode_eq→eq client Mode.unset h = cc
mode_eq→eq client (Mode.unknown t) h = cc
mode_eq→eq Mode.unset server h = cc
mode_eq→eq Mode.unset client h = cc
mode_eq→eq Mode.unset Mode.unset h = refl
mode_eq→eq Mode.unset (Mode.unknown t) h = cc
mode_eq→eq (Mode.unknown s) server h = cc
mode_eq→eq (Mode.unknown s) client h = cc
mode_eq→eq (Mode.unknown s) Mode.unset h = cc
mode_eq→eq (Mode.unknown s) (Mode.unknown t) h =
    ap (λ (x : Bytes). Mode.unknown x) (bytes_eq→eq s t h)

protocol_eq→eq : (s t : Protocol) → protocol_eq s t ≡ true → s ≡ t
unfolding protocol_eq
protocol_eq→eq tcp tcp h = refl
protocol_eq→eq tcp udp h = cc
protocol_eq→eq tcp (Protocol.unknown t) h = cc
protocol_eq→eq udp tcp h = cc
protocol_eq→eq udp udp h = refl
protocol_eq→eq udp (Protocol.unknown t) h = cc
protocol_eq→eq (Protocol.unknown s) tcp h = cc
protocol_eq→eq (Protocol.unknown s) udp h = cc
protocol_eq→eq (Protocol.unknown s) (Protocol.unknown t) h =
    ap (λ (x : Bytes). Protocol.unknown x) (bytes_eq→eq s t h)

bool_eq→eq : (a b : Bool) → bool_eq a b ≡ true → a ≡ b
unfolding bool_eq
bool_eq→eq true b h = ground arith
bool_eq→eq false b h = ground arith

type_eq_self : (t : TunnelType) → type_eq t t ≡ true
unfolding type_eq
type_eq_self forward = refl
type_eq_self socks = refl
type_eq_self pty = refl
type_eq_self exec = refl
type_eq_self TunnelType.unset = refl
type_eq_self (TunnelType.unknown t) = bytes_eq_self t

mode_eq_self : (m : Mode) → mode_eq m m ≡ true
unfolding mode_eq
mode_eq_self server = refl
mode_eq_self client = refl
mode_eq_self Mode.unset = refl
mode_eq_self (Mode.unknown m) = bytes_eq_self m

protocol_eq_self : (p : Protocol) → protocol_eq p p ≡ true
unfolding protocol_eq
protocol_eq_self tcp = refl
protocol_eq_self udp = refl
protocol_eq_self (Protocol.unknown p) = bytes_eq_self p

bool_eq_self : (b : Bool) → bool_eq b b ≡ true
unfolding bool_eq
bool_eq_self true = refl
bool_eq_self false = refl

pub tunnel_eq_self : (t : Tunnel) → tunnel_eq t t ≡ true
unfolding tunnel_eq
tunnel_eq_self t = ground (
  arith,
  bytes_eq_self t.name,
  type_eq_self t.type_of,
  mode_eq_self t.mode,
  protocol_eq_self t.protocol,
  bytes_eq_self t.target,
  bytes_eq_self t.listen,
  bytes_eq_self t.peer,
  bytes_eq_self t.command,
  bytes_eq_self t.token_file,
  bool_eq_self t.allow_unauthenticated,
)

pub tunnel_eq→eq : (t u : Tunnel) → tunnel_eq t u ≡ true → t ≡ u
unfolding tunnel_eq
tunnel_eq→eq t u h =
    let name : t.name ≡ u.name = bytes_eq→eq _ _ (ground arith) in
    let type_of : t.type_of ≡ u.type_of = type_eq→eq _ _ (ground arith) in
    let mode : t.mode ≡ u.mode = mode_eq→eq _ _ (ground arith) in
    let port : t.logical_port ≡ u.logical_port = ground arith in
    let protocol : t.protocol ≡ u.protocol = protocol_eq→eq _ _ (ground arith) in
    let target : t.target ≡ u.target = bytes_eq→eq _ _ (ground arith) in
    let listen : t.listen ≡ u.listen = bytes_eq→eq _ _ (ground arith) in
    let peer : t.peer ≡ u.peer = bytes_eq→eq _ _ (ground arith) in
    let command : t.command ≡ u.command = bytes_eq→eq _ _ (ground arith) in
    let token_file : t.token_file ≡ u.token_file = bytes_eq→eq _ _ (ground arith) in
    let allow : t.allow_unauthenticated ≡ u.allow_unauthenticated = bool_eq→eq _ _ (ground arith) in
    cc
