-- ===== src/Admission.antt =====
-- protocol/admission/admission.go: the handshake in which both sides show that they hold the pairing
-- token. Times are nanoseconds since 1970; what a random nonce turns out to be is an argument.
pub mod Frames
pub mod Handshake
mod Runs
use p2p_netcat_go_wrk.Common.{
  ℕ, ◌+◌, ◌-◌, ◌*◌, ◌/◌, ◌^◌, Bool, true, false, ◌||◌, not, Option, none, some, List, [], ◌∷◌, ◌++◌,
  ltb, ◌==◌, if◌then◌else◌, Bytes, length, take, drop, Result, ok, err, ◌>>=◌, ◌>>◌, fail_if, wrap,
  or_fail,
}
use p2p_netcat_go_wrk.Common.BigEndian.{put_u64, u64}
use p2p_netcat_go_wrk.Common.Integers.{ℤ, pos, negsuc}
use p2p_netcat_go_wrk.Common.Times.{second, unix_to_internal, unix_time, is_before, is_after}
use p2p_netcat_go_wrk.Common.Io.{IoError, Writer, read_full, write_full}
use p2p_netcat_go_wrk.Common.Text.{codes, bytes_eq}
use p2p_netcat_go_wrk.Common.Decimal.{decimal}
use p2p_netcat_go_wrk.Pairing.{Token, Primitives, validate, derive_key}
use p2p_netcat_go_wrk.Pairing

abbrev pub version : ℕ
version = 1

abbrev pub client_hello : ℕ
client_hello = 1

abbrev pub server_ack : ℕ
server_ack = 2

abbrev pub nonce_size : ℕ
nonce_size = 16

abbrev pub mac_size : ℕ
mac_size = 32

abbrev pub frame_size : ℕ
frame_size = 62

abbrev pub max_clock_skew : ℕ
max_clock_skew = 120 * second

abbrev pub magic : Bytes
magic = codes "PNCA"

pub record Hello : Type 0 where
  pub timestamp : ℕ
  pub client_nonce : Bytes

-- A decoded frame; its kind is the one that was asked for.
pub record Frame : Type 0 where
  pub timestamp : ℕ
  pub nonce : Bytes
  pub mac : Bytes

pub data Error : Type 0 where
  bad_length bad_signature outside_window not_authenticated timestamp_changed : Error
  not_confirmed bad_nonce no_random : Error
  bad_version bad_kind : ℕ → Error
  token_error : Pairing.Error → Error
  read_failed write_failed : IoError → Error

unfoldable pub encode : ℕ → ℕ → Bytes → Bytes → Bytes
encode kind timestamp nonce mac = magic ++ version ∷ kind ∷ (put_u64 timestamp ++ (nonce ++ mac))

abbrev pub decode_body : ℕ → Bytes → Result Error Frame
decode_body expected (v ∷ kind ∷ body) = do
  fail_if (not (v == version)) (bad_version v)
  fail_if (not (kind == expected)) (bad_kind kind)
  ok (record {
    timestamp = u64 (take 8 body);
    nonce = take nonce_size (drop 8 body);
    mac = drop nonce_size (drop 8 body);
  })
decode_body expected _ = err bad_length

unfoldable pub decode : Bytes → ℕ → Result Error Frame
decode encoded expected = do
  fail_if (not (length encoded == frame_size)) bad_length
  fail_if (not (bytes_eq (take 4 encoded) magic)) bad_signature
  decode_body expected (drop 4 encoded)

-- A nonce that the caller gives, or a random one.
unfoldable pub fill_nonce : Option Bytes → Option Bytes → Result Error Bytes
fill_nonce random none = or_fail random no_random
fill_nonce random (some source) = do
  fail_if (not (length source == nonce_size)) bad_nonce
  ok source

-- `now` counted from the year 1, as `unix_time` counts.
abbrev pub since_year_1 : ℕ → ℕ
since_year_1 now = now + unix_to_internal * second

-- `timestamp.Before(now.Add(-maxSkew)) || timestamp.After(now.Add(maxSkew))`, or a negative skew, for
-- the timestamp `time.Unix(int64(value.timestamp), 0)`. A Duration is less than 2^63 nanoseconds, so
-- that `now.Add(-maxSkew)` lies behind the year 1.
abbrev pub is_outside : ℕ → ℕ → ℤ → Bool
is_outside timestamp now (negsuc n) = true
is_outside timestamp now (pos skew) =
    is_before (unix_time timestamp) (since_year_1 now - skew)
    || is_after (unix_time timestamp) (since_year_1 now + skew)

module _ (lib : Primitives) where
  open lib use {peer_string, hmac}

  unfoldable pub mac_input : Bytes → Token → ℕ → Bytes → Bytes → Bytes
  mac_input role t timestamp client_nonce server_nonce =
      codes "p2p-netcat/session-auth/v1"
      ++ 0
        ∷ (role
            ++ 0
              ∷ (peer_string t.peer_id
                  ++ 0
                    ∷ (decimal t.service
                        ++ 0 ∷ (decimal timestamp ++ 0 ∷ (client_nonce ++ server_nonce)))))

  unfoldable pub calculate_mac : Token → Bytes → Result Error Bytes
  calculate_mac t message = do
    key ← wrap token_error (derive_key lib t (codes "admission"))
    ok (hmac key message)

  unfoldable pub create_hello :
      Token → ℕ → Option Bytes → Option Bytes → Result Error (Bytes × Hello)
  create_hello t now random nonce = do
    wrap token_error (validate lib (some (now / second)) t)
    filled ← fill_nonce random nonce
    mac ← calculate_mac t (mac_input (codes "client") t (now / second) filled [])
    ok (
      encode client_hello (now / second) filled mac,
      record { timestamp = now / second; client_nonce = filled },
    )

  unfoldable pub verify_hello : Token → Bytes → ℕ → ℤ → Result Error Hello
  verify_hello t encoded now max_skew = do
    wrap token_error (validate lib (some (now / second)) t)
    value ← decode encoded client_hello
    fail_if (is_outside value.timestamp now max_skew) outside_window
    expected ← calculate_mac t (mac_input (codes "client") t value.timestamp value.nonce [])
    fail_if (not (bytes_eq expected value.mac)) not_authenticated
    ok (record { timestamp = value.timestamp; client_nonce = value.nonce })

  unfoldable pub create_ack : Token → Hello → Option Bytes → Option Bytes → Result Error Bytes
  create_ack t hello random nonce = do
    filled ← fill_nonce random nonce
    mac ← calculate_mac t (mac_input (codes "server") t hello.timestamp hello.client_nonce filled)
    ok (encode server_ack hello.timestamp filled mac)

  unfoldable pub verify_ack : Token → Hello → Bytes → Result Error (Unit {0})
  verify_ack t hello encoded = do
    value ← decode encoded server_ack
    fail_if (not (value.timestamp == hello.timestamp)) timestamp_changed
    expected ←
        calculate_mac t
          (mac_input (codes "server") t hello.timestamp hello.client_nonce value.nonce)
    fail_if (not (bytes_eq expected value.mac)) not_confirmed

  abbrev pub sent : Option IoError × Writer → Result Error (Unit {0}) × Writer
  sent (none, w) = (ok tt, w)
  sent (some e, w) = (err (write_failed e), w)

  abbrev pub await_ack :
      Token → Hello → Bytes → Result Error (Unit {0}) × Writer → Result Error Bytes × Writer
  await_ack t hello s (err e, w) = (err e, w)
  await_ack t hello s (ok _, w) = (
    (do (ack, rest) ← wrap read_failed (read_full frame_size s); verify_ack t hello ack; ok rest),
    w,
  )

  abbrev pub greet :
      Token → Bytes → Writer → Result Error (Bytes × Hello) → Result Error Bytes × Writer
  greet t s w (err e) = (err e, w)
  greet t s w (ok (encoded, hello)) = await_ack t hello s (sent (write_full encoded w))

  -- The client: what it reads behind the handshake is left.
  unfoldable pub authenticate_client :
      Token → ℕ → Option Bytes → Bytes → Writer → Result Error Bytes × Writer
  authenticate_client t now random s w = greet t s w (create_hello t now random none)

  abbrev pub answer : Bytes → Writer → Result Error Bytes → Result Error Bytes × Writer
  answer rest w (err e) = (err e, w)
  answer rest w (ok ack) = let (r, w') = sent (write_full ack w) in ((do r; ok rest), w')

  abbrev pub check_greeting :
      Token → ℕ → Option Bytes → Writer → Result Error (Bytes × Bytes) → Result Error Bytes × Writer
  check_greeting t now random w (err e) = (err e, w)
  check_greeting t now random w (ok (encoded, rest)) =
      answer rest w
        (do hello ← verify_hello t encoded now (pos max_clock_skew); create_ack t hello random none)

  unfoldable pub authenticate_server :
      Token → ℕ → Option Bytes → Bytes → Writer → Result Error Bytes × Writer
  authenticate_server t now random s w =
      check_greeting t now random w (wrap read_failed (read_full frame_size s))
