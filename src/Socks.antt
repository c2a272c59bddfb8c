-- ===== src/Socks.antt =====
-- session/forwarding.go: the SOCKS4, SOCKS4a and SOCKS5 server side of a stream. The reader is the list
-- of bytes that the client sends, and the result keeps what it has not read.
pub mod Field
pub mod Requests
pub mod Requests4
mod Runs
use p2p_netcat_go_wrk.Common.{
  ℕ, zero, suc, ◌+◌, ◌≤◌, Bool, true, false, ◌&&◌, ◌||◌, not, Option, none, some, List, [], ◌∷◌,
  ◌++◌, ltb, leb, ◌==◌, if◌then◌else◌, Bytes, length, take, drop, Result, ok, err, ◌>>=◌, ◌>>◌,
  fail_if, wrap,
}
use p2p_netcat_go_wrk.Common.BigEndian.{u16}
use p2p_netcat_go_wrk.Common.Io.{IoError, eof, read_full, read_byte, Writer, write_once}

abbrev pub max_user_id_length : ℕ
max_user_id_length = 255

abbrev pub max_domain_length : ℕ
max_domain_length = 255

-- The host to dial: an address, which the source prints by `net.IP(...).String()`, or a name.
pub data Host : Type 0 where
  ip name : Bytes → Host

pub data Error : Type 0 where
  io : IoError → Error
  unsupported_version unsupported_address_type : ℕ → Error
  no_acceptable_method not_connect user_id_too_long domain_too_long : Error
  handshake_timed_out dial_failed : Error

-- What a handshake settles: where to connect, and the two replies of which one is sent.
pub record Request : Type 0 where
  pub host : Host
  pub port : ℕ
  pub success : Bytes
  pub failure : Bytes

pub offers_none : Bytes → Bool
offers_none [] = false
offers_none (m ∷ ms) = (m == 0) || offers_none ms

-- The methods that the client offers, and whether one of them is "no authentication".
unfoldable pub read_methods : Bytes → Result Error (Bool × Bytes)
unfolding offers_none
read_methods s = do
  (count, s') ← wrap io (read_byte s)
  (methods, s'') ← wrap io (read_full count s')
  ok (offers_none methods, s'')

abbrev pub byte_or_zero : ℕ → Bytes → ℕ
byte_or_zero zero (b ∷ _) = b
byte_or_zero (suc n) (_ ∷ s) = byte_or_zero n s
byte_or_zero _ [] = 0

unfoldable pub read_name : Bytes → Result Error (Host × Bytes)
read_name s = do
  (count, s') ← wrap io (read_byte s)
  (value, s'') ← wrap io (read_full count s')
  ok (name value, s'')

unfoldable pub read_ip : ℕ → Bytes → Result Error (Host × Bytes)
read_ip size s = do (value, s') ← wrap io (read_full size s); ok (ip value, s')

unfoldable pub read_address : ℕ → Bytes → Result Error (Host × Bytes)
unfolding read_name read_ip
read_address kind s =
    if kind == 1
    then read_ip 4 s
    else if kind == 3
    then read_name s
    else if kind == 4
    then read_ip 16 s
    else err (unsupported_address_type kind)

-- The part of `negotiateSOCKS5` behind the reply to the greeting.
unfoldable pub read_request5 : Bytes → Result Error (Request × Bytes)
read_request5 s = do
  (header, s1) ← wrap io (read_full 4 s)
  fail_if
      (not (byte_or_zero 0 header == 5)
        || not (byte_or_zero 1 header == 1)
        || not (byte_or_zero 2 header == 0))
      not_connect
  (host, s2) ← read_address (byte_or_zero 3 header) s1
  (port_bytes, s3) ← wrap io (read_full 2 s2)
  ok (
    record {
      host = host;
      port = u16 port_bytes;
      success = 5 ∷ 0 ∷ 0 ∷ 1 ∷ 0 ∷ 0 ∷ 0 ∷ 0 ∷ 0 ∷ 0 ∷ [];
      failure = 5 ∷ 5 ∷ 0 ∷ 1 ∷ 0 ∷ 0 ∷ 0 ∷ 0 ∷ 0 ∷ 0 ∷ [];
    },
    s3,
  )

abbrev pub answered : Option IoError × Writer → Bytes → Result Error (Request × Bytes) × Writer
answered (some e, w) s = (err (io e), w)
answered (none, w) s = (read_request5 s, w)

abbrev pub greeted : Result Error (Bool × Bytes) → Writer → Result Error (Request × Bytes) × Writer
greeted (err e) w = (err e, w)
greeted (ok (false, s)) w = (err no_acceptable_method, (write_once (5 ∷ 0xff ∷ []) w).1)
greeted (ok (true, s)) w = answered (write_once (5 ∷ 0 ∷ []) w) s

unfoldable pub negotiate_socks5 : Bytes → Writer → Result Error (Request × Bytes) × Writer
negotiate_socks5 s w = greeted (read_methods s) w

-- The loop of `readSOCKS4Field`, with the bytes before this one: `value` holds at most `maximum` bytes
-- whenever the loop starts a round, so its bound is never met and `panic` is never reached.
read_field_loop : ℕ → Error → Bytes → Bytes → Result Error (Bytes × Bytes)
read_field_loop maximum too_long value [] = err (io eof)
read_field_loop maximum too_long value (current ∷ s) =
    let more = read_field_loop maximum too_long (value ++ (current ∷ [])) s in
    if current == 0 then ok (value, s) else if length value == maximum then err too_long else more

unfoldable pub read_socks4_field : ℕ → Error → Bytes → Result Error (Bytes × Bytes)
unfolding read_field_loop
read_socks4_field maximum too_long s = read_field_loop maximum too_long [] s

-- The address 0.0.0.x with x not 0 announces a name (SOCKS4a).
abbrev pub announces_name : Bytes → Bool
announces_name address =
    (byte_or_zero 0 address == 0)
    && (byte_or_zero 1 address == 0)
    && (byte_or_zero 2 address == 0)
    && not (byte_or_zero 3 address == 0)

abbrev pub read_host4 : Bytes → Bytes → Result Error (Host × Bytes)
read_host4 address s =
    if announces_name address
    then (do
      (domain, s') ← read_socks4_field max_domain_length domain_too_long s
      ok (name domain, s'))
    else ok (ip address, s)

unfoldable pub negotiate_socks4 : Bytes → Result Error (Request × Bytes)
negotiate_socks4 s = do
  (command, s1) ← wrap io (read_byte s)
  (port_bytes, s2) ← wrap io (read_full 2 s1)
  (address, s3) ← wrap io (read_full 4 s2)
  (user_id, s4) ← read_socks4_field max_user_id_length user_id_too_long s3
  fail_if (not (command == 1)) not_connect
  (host, s5) ← read_host4 address s4
  ok (
    record {
      host = host;
      port = u16 port_bytes;
      success = 0 ∷ 0x5a ∷ port_bytes ++ address;
      failure = 0 ∷ 0x5b ∷ port_bytes ++ address;
    },
    s5,
  )

unfoldable pub negotiate : ℕ → Bytes → Writer → Result Error (Request × Bytes) × Writer
negotiate version s w =
    if version == 5
    then negotiate_socks5 s w
    else if version == 4
    then (negotiate_socks4 s, w)
    else (err (unsupported_version version), w)

-- The environment of one `SOCKS` call: whether the handshake timer fires before it is stopped, and
-- whether the dial of a host and port succeeds.
pub record Environment : Type 0 where
  pub expires : Bool
  pub dials : Host → ℕ → Bool

-- Where the session ended up: connected, with the bytes that are forwarded before any others.
pub record Session : Type 0 where
  pub request : Request
  pub pending : Bytes

abbrev pub started : Option IoError × Writer → Request → Bytes → Result Error Session × Writer
started (some e, w) request s = (err (io e), w)
started (none, w) request s = (ok (record { request = request; pending = s }), w)

abbrev pub connect : Environment → Request → Bytes → Writer → Result Error Session × Writer
connect env request s w =
    if env.dials request.host request.port
    then started (write_once request.success w) request s
    else (err dial_failed, (write_once request.failure w).1)

abbrev pub negotiated :
    Environment → Result Error (Request × Bytes) × Writer → Result Error Session × Writer
negotiated env (err e, w) = (err (if env.expires then handshake_timed_out else e), w)
negotiated env (ok (request, s), w) =
    if env.expires then (err handshake_timed_out, w) else connect env request s w

unfoldable pub socks : Environment → Bytes → Writer → Result Error Session × Writer
socks env [] w = (err (if env.expires then handshake_timed_out else io eof), w)
socks env (version ∷ s) w = negotiated env (negotiate version s w)
