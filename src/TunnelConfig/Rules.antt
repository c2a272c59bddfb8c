-- ===== src/TunnelConfig/Rules.antt =====
-- Which tunnels `validate_tunnel` accepts.
use p2p_netcat_go_wrk.Common.{
  ℕ, ◌≤◌, ◌≡◌, ◌≢◌, ◌↔◌, ◌⊎◌, refl, inl, inr, true, false, not, some, arith, Bytes, ok, bind_ok,
  fail_if, fail_if_ok, fail_if_iff, then_iff, wrap, wrap_ok, Option-cases, ◌==◌,
}
use p2p_netcat_go_wrk.Common.Net.{is_blank, split_host_port}
use p2p_netcat_go_wrk.Common.Decimal.{atoi}
use p2p_netcat_go_wrk.TunnelConfig.{
  TunnelType, forward, socks, pty, exec, Mode, server, client, Protocol, tcp, udp, Tunnel,
  TunnelError, port_required, target_required, listen_required, bad_address, bad_port, valid_port,
  check_endpoint, check_type, check_mode, check_protocol, check_client, check_fields, check_auth,
  validate_tunnel,
}

-- `host:port` with a port from 1 to 65535.
pub data IsEndpoint (text : Bytes) : Type 0 where
  endpoint :
      (host port : Bytes) (value : ℕ)
      → is_blank text ≡ false
      → split_host_port text ≡ ok (host, port)
      → atoi port ≡ some value
      → 1 ≤ value
      → value ≤ 65535
      → IsEndpoint text

port_value :
    (port : Bytes)
    → not (valid_port port) ≡ false
    → (value : ℕ) × (atoi port ≡ some value) × (1 ≤ value) × (value ≤ 65535)
unfolding valid_port
port_value port h = elim (Option-cases (atoi port)) [
  | inl bad ↦ ground (arith, bad)
  | inr (value, good) ↦
      let (low, high) : (1 ≤ value) × (value ≤ 65535) = ground (arith, good) in
      (value, good, low, high)
]

check_endpoint_parts :
    (required : TunnelError) (text : Bytes) → check_endpoint required text ≡ ok tt → IsEndpoint text
unfolding check_endpoint
check_endpoint_parts required text h =
    let (_, e, h1) = bind_ok (fail_if (is_blank text) required) _ h in
    let ((host, port), s, h2) = bind_ok (wrap bad_address (split_host_port text)) _ h1 in
    let (value, good, low, high) : (value : ℕ) × (atoi port ≡ some value)
        × (1 ≤ value)
        × (value ≤ 65535) =
      port_value port (fail_if_ok (not (valid_port port)) bad_port h2) in
    endpoint host port value (fail_if_ok (is_blank text) required e) (wrap_ok _ _ s) good low high

check_endpoint_whole :
    (required : TunnelError) (text : Bytes) → IsEndpoint text → check_endpoint required text ≡ ok tt
unfolding check_endpoint valid_port
check_endpoint_whole required text (endpoint host port value nonblank s good low high) =
    ground (arith, nonblank, s, good)

abbrev pub HasProtocol : Protocol → Type 0
HasProtocol p = (p ≡ tcp) ⊎ (p ≡ udp)

abbrev pub HasAuth : Tunnel → Type 0
HasAuth t = (t.allow_unauthenticated ≡ true) ⊎ (is_blank t.token_file ≡ false)

-- What each kind of tunnel needs; the kinds that are not listed cannot run.
abbrev pub Rule : Mode → TunnelType → Tunnel → Type 0
Rule server forward t = HasProtocol t.protocol × IsEndpoint t.target
Rule server socks t = HasAuth t
Rule server pty t = HasAuth t
Rule server exec t = (is_blank t.command ≡ false) × HasAuth t
Rule client forward t = (is_blank t.peer ≡ false) × HasProtocol t.protocol × IsEndpoint t.listen
Rule _ _ t = ⊥

abbrev pub IsRunnable : Tunnel → Type 0
IsRunnable t = (t.logical_port ≢ 0) × Rule t.mode t.type_of t

-- A target or listen address passes exactly when it is not blank and splits as `host:port` with a port
-- that reads as a number from 1 to 65535.
pub check_endpoint_iff :
    (required : TunnelError) (text : Bytes)
    → (check_endpoint required text ≡ ok tt) ↔ IsEndpoint text
check_endpoint_iff required text =
    (check_endpoint_parts required text, check_endpoint_whole required text)

check_protocol_iff : (p : Protocol) → (check_protocol p ≡ ok tt) ↔ HasProtocol p
check_protocol_iff tcp = (λ h. inl refl, λ h. refl)
check_protocol_iff udp = (λ h. inr refl, λ h. refl)
check_protocol_iff (Protocol.unknown p) = (λ h. cc, λ h. ground arith)

-- The tests that depend on the kind of the tunnel.
kind_parts :
    (m : Mode) (ty : TunnelType) (t : Tunnel)
    → check_type ty ≡ ok tt
    → check_mode m ≡ ok tt
    → check_client m ty t.peer ≡ ok tt
    → check_fields m ty t ≡ ok tt
    → check_auth m ty t ≡ ok tt
    → Rule m ty t
kind_parts server forward t _ _ _ f _ =
    let (p, e) = (then_iff (check_protocol t.protocol) _).0 f in
    ((check_protocol_iff t.protocol).0 p, check_endpoint_parts target_required t.target e)
kind_parts server socks t _ _ _ _ a = ground arith
kind_parts server pty t _ _ _ _ a = ground arith
kind_parts server exec t _ _ _ f a = ground arith
kind_parts client forward t _ _ c f _ =
    let (p, e) = (then_iff (check_protocol t.protocol) _).0 f in
    (
      fail_if_ok _ _ c,
      (check_protocol_iff t.protocol).0 p,
      check_endpoint_parts listen_required t.listen e,
    )
kind_parts client socks t _ _ c _ _ = cc
kind_parts client pty t _ _ c _ _ = cc
kind_parts client exec t _ _ c _ _ = cc
kind_parts Mode.unset ty t _ m _ _ _ = cc
kind_parts (Mode.unknown x) ty t _ m _ _ _ = cc
kind_parts m TunnelType.unset t ty _ _ _ _ = cc
kind_parts m (TunnelType.unknown x) t ty _ _ _ _ = cc

kind_whole :
    (m : Mode) (ty : TunnelType) (t : Tunnel)
    → Rule m ty t
    → (check_type ty ≡ ok tt)
      × (check_mode m ≡ ok tt)
      × (check_client m ty t.peer ≡ ok tt)
      × (check_fields m ty t ≡ ok tt)
      × (check_auth m ty t ≡ ok tt)
kind_whole server forward t (p, e) = (
  refl,
  refl,
  refl,
  (then_iff (check_protocol t.protocol) _).1
      ((check_protocol_iff t.protocol).1 p, check_endpoint_whole target_required t.target e),
  refl,
)
kind_whole server socks t a = (refl, refl, refl, refl, ground arith)
kind_whole server pty t a = (refl, refl, refl, refl, ground arith)
kind_whole server exec t (c, a) = (refl, refl, refl, ground arith, ground arith)
kind_whole client forward t (b, p, e) = (
  refl,
  refl,
  (fail_if_iff _ _).1 b,
  (then_iff (check_protocol t.protocol) _).1
      ((check_protocol_iff t.protocol).1 p, check_endpoint_whole listen_required t.listen e),
  refl,
)
kind_whole server TunnelType.unset t a = elim a [ ]
kind_whole server (TunnelType.unknown x) t a = elim a [ ]
kind_whole client socks t a = elim a [ ]
kind_whole client pty t a = elim a [ ]
kind_whole client exec t a = elim a [ ]
kind_whole client TunnelType.unset t a = elim a [ ]
kind_whole client (TunnelType.unknown x) t a = elim a [ ]
kind_whole Mode.unset ty t a = elim a [ ]
kind_whole (Mode.unknown x) ty t a = elim a [ ]

validate_tunnel_parts : (t : Tunnel) → validate_tunnel t ≡ ok tt → IsRunnable t
unfolding validate_tunnel
validate_tunnel_parts t h =
    let (ty, h1) = (then_iff (check_type t.type_of) _).0 h in
    let (m, h2) = (then_iff (check_mode t.mode) _).0 h1 in
    let (p, h3) = (then_iff (fail_if (t.logical_port == 0) port_required) _).0 h2 in
    let (c, h4) = (then_iff (check_client t.mode t.type_of t.peer) _).0 h3 in
    let (f, a) = (then_iff (check_fields t.mode t.type_of t) _).0 h4 in
    let port : t.logical_port ≢ 0 =
      ground (arith, fail_if_ok (t.logical_port == 0) port_required p) in
    (port, kind_parts t.mode t.type_of t ty m c f a)

validate_tunnel_whole : (t : Tunnel) → IsRunnable t → validate_tunnel t ≡ ok tt
unfolding validate_tunnel
validate_tunnel_whole t (port, rule) =
    let (ty, m, c, f, a) = kind_whole t.mode t.type_of t rule in
    let p : (t.logical_port == 0) ≡ false = ground arith in rw (ty, m, p, c, f, a)

-- A tunnel passes exactly when it has a nonzero logical port and is of one of five kinds: a forwarding
-- server with a protocol and a target; a socks, pty or exec server with a token file or the explicit
-- opt-out, and a command for exec; or a forwarding client with a peer, a protocol and an address to
-- listen on. Targets and listen addresses are `host:port` with a port from 1 to 65535.
pub validate_tunnel_iff : (t : Tunnel) → (validate_tunnel t ≡ ok tt) ↔ IsRunnable t
validate_tunnel_iff t = (validate_tunnel_parts t, validate_tunnel_whole t)
