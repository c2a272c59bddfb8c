-- ===== src/TunnelConfig.antt =====
-- internal/tunnelconfig/config.go: the configuration of the multi-tunnel daemon and its validation.
-- Texts are lists of code points.
pub mod Rules
pub mod Names
pub mod Valid
mod Runs
use p2p_netcat_go_wrk.Common.{
  ℕ, zero, suc, ◌+◌, Bool, true, false, ◌&&◌, ◌||◌, not, Option, none, some, List, [], ◌∷◌, ltb,
  leb, ◌==◌, if◌then◌else◌, Bytes, length, Result, ok, err, ◌>>=◌, ◌>>◌, fail_if, wrap,
}
use p2p_netcat_go_wrk.Common.Text.{bytes_eq}
use p2p_netcat_go_wrk.Common.Net.{AddressError, is_blank, split_host_port}
use p2p_netcat_go_wrk.Common.Integers.{ℤ}
use p2p_netcat_go_wrk.Common.Decimal.{atoi}

-- The texts that the source names, the empty text, and any other.
pub data TunnelType : Type 0 where
  forward socks pty exec unset : TunnelType
  unknown : Bytes → TunnelType

pub data Mode : Type 0 where
  server client unset : Mode
  unknown : Bytes → Mode

pub data Protocol : Type 0 where
  tcp udp : Protocol
  unknown : Bytes → Protocol

pub record Relay : Type 0 where
  pub addr : Bytes
  pub priority : ℤ

pub record Tunnel : Type 0 where
  pub name : Bytes
  pub type_of : TunnelType
  pub mode : Mode
  pub logical_port : ℕ  -- uint16
  pub protocol : Protocol
  pub target : Bytes
  pub listen : Bytes
  pub peer : Bytes
  pub command : Bytes
  pub token_file : Bytes
  pub allow_unauthenticated : Bool

pub record Config : Type 0 where
  pub identity : Bytes
  pub relays : List Relay
  pub fallback_to_public_dht : Option Bool
  pub upstream_socks : Bytes
  pub tunnels : List Tunnel

pub data TunnelError : Type 0 where
  type_required unknown_type mode_required unknown_mode port_required server_only : TunnelError
  peer_required bad_protocol target_required listen_required bad_port exec_required : TunnelError
  token_required : TunnelError
  bad_address : AddressError → TunnelError

pub data Error : Type 0 where
  no_tunnels : Error
  bad_upstream_socks : AddressError → Error
  relay_addr_required : ℕ → Error
  bad_tunnel : ℕ → TunnelError → Error
  name_required : ℕ → Error
  duplicate_name : ℕ → ℕ → Error
  duplicate_port : ℕ → Bytes → Error

unfoldable pub fallback_enabled : Config → Bool
fallback_enabled c = elim c.fallback_to_public_dht [ none ↦ true | some b ↦ b ]

unfoldable pub valid_port : Bytes → Bool
valid_port text = elim (atoi text) [ none ↦ false | some value ↦ leb 1 value && leb value 65535 ]

-- The tests of `target` and of `listen`.
unfoldable pub check_endpoint : TunnelError → Bytes → Result TunnelError (Unit {0})
check_endpoint required text = do
  fail_if (is_blank text) required
  (_, port) ← wrap bad_address (split_host_port text)
  fail_if (not (valid_port port)) bad_port

abbrev pub check_type : TunnelType → Result TunnelError (Unit {0})
check_type unset = err type_required
check_type (unknown t) = err unknown_type
check_type _ = ok tt

abbrev pub check_mode : Mode → Result TunnelError (Unit {0})
check_mode unset = err mode_required
check_mode (unknown m) = err unknown_mode
check_mode _ = ok tt

-- A client tunnel forwards, and names its peer.
abbrev pub check_client : Mode → TunnelType → Bytes → Result TunnelError (Unit {0})
check_client client socks peer = err server_only
check_client client pty peer = err server_only
check_client client exec peer = err server_only
check_client client _ peer = fail_if (is_blank peer) peer_required
check_client _ _ peer = ok tt

abbrev pub check_protocol : Protocol → Result TunnelError (Unit {0})
check_protocol (unknown p) = err bad_protocol
check_protocol _ = ok tt

abbrev pub check_forward : Mode → Tunnel → Result TunnelError (Unit {0})
check_forward server t = check_endpoint target_required t.target
check_forward _ t = check_endpoint listen_required t.listen

abbrev pub check_fields : Mode → TunnelType → Tunnel → Result TunnelError (Unit {0})
check_fields mode forward t = do check_protocol t.protocol; check_forward mode t
check_fields mode exec t = fail_if (is_blank t.command) exec_required
check_fields mode _ t = ok tt

-- A server tunnel that does more than forward wants a token, or an explicit opt-out.
abbrev pub check_auth : Mode → TunnelType → Tunnel → Result TunnelError (Unit {0})
check_auth server forward t = ok tt
check_auth server _ t =
    fail_if (not t.allow_unauthenticated && is_blank t.token_file) token_required
check_auth _ _ t = ok tt

unfoldable pub validate_tunnel : Tunnel → Result TunnelError (Unit {0})
validate_tunnel t = do
  check_type t.type_of
  check_mode t.mode
  fail_if (t.logical_port == 0) port_required
  check_client t.mode t.type_of t.peer
  check_fields t.mode t.type_of t
  check_auth t.mode t.type_of t

unfoldable pub check_relays : ℕ → List Relay → Result Error (Unit {0})
check_relays i [] = ok tt
check_relays i (r ∷ rs) = do
  fail_if (is_blank r.addr) (relay_addr_required i)
  check_relays (i + 1) rs

-- The maps `names` and `serverPorts`, the latest entry first.
unfoldable pub find_name : Bytes → List (Bytes × ℕ) → Option ℕ
find_name n [] = none
find_name n ((m, i) ∷ rest) = if bytes_eq m n then some i else find_name n rest

unfoldable pub find_port : ℕ → List (ℕ × Bytes) → Option Bytes
find_port p [] = none
find_port p ((q, n) ∷ rest) = if q == p then some n else find_port p rest

abbrev pub refuse_found {ℓ} : {A : Type ℓ} → (A → Error) → Option A → Result Error (Unit {0})
refuse_found e none = ok tt
refuse_found e (some a) = err (e a)

abbrev pub is_server : Mode → Bool
is_server server = true
is_server _ = false

abbrev pub claim_port : Bool → ℕ → Tunnel → List (ℕ × Bytes) → Result Error (List (ℕ × Bytes))
claim_port false i t ports = ok ports
claim_port true i t ports = do
  refuse_found (duplicate_port i) (find_port t.logical_port ports)
  ok ((t.logical_port, t.name) ∷ ports)

unfoldable pub check_tunnels :
    ℕ → List (Bytes × ℕ) → List (ℕ × Bytes) → List Tunnel → Result Error (Unit {0})
check_tunnels i names ports [] = ok tt
check_tunnels i names ports (t ∷ ts) = do
  wrap (bad_tunnel i) (validate_tunnel t)
  fail_if (length t.name == 0) (name_required i)
  refuse_found (duplicate_name i) (find_name t.name names)
  ports' ← claim_port (is_server t.mode) i t ports
  check_tunnels (i + 1) ((t.name, i) ∷ names) ports' ts

abbrev pub check_upstream : Bytes → Result Error (Unit {0})
check_upstream [] = ok tt
check_upstream (c ∷ s) = do _ ← wrap bad_upstream_socks (split_host_port (c ∷ s)); ok tt

unfoldable pub validate : Config → Result Error (Unit {0})
validate c = do
  fail_if (length c.tunnels == 0) no_tunnels
  check_upstream c.upstream_socks
  check_relays 0 c.relays
  check_tunnels 0 [] [] c.tunnels
