-- ===== src/WebRtc/Signaling.antt =====
-- nativewebrtc/signaling.go: what a signaling session sends and which signals it takes. JSON, base64 and
-- the sealing of the pairing token are parameters. Times count nanoseconds since 1970.
pub mod Accepted
pub mod Delivery
mod Runs
use p2p_netcat_go_wrk.Common.{
  ℕ, ◌+◌, ◌-◌, ◌*◌, ◌/◌, Bool, true, false, ◌||◌, ◌&&◌, not, Option, none, some, List, [], ◌∷◌, ltb,
  ◌==◌, if◌then◌else◌, Bytes, length, Result, ok, err, or_fail, fail_if, ◌>>=◌, ◌>>◌,
}
use p2p_netcat_go_wrk.Common.Text.{codes, bytes_eq}
use p2p_netcat_go_wrk.Common.Integers.{ℤ, pos, negsuc}
use p2p_netcat_go_wrk.WebRtc.Wire.{is_client_id, max_sdp_bytes}

abbrev pub signal_version : ℤ
signal_version = pos 2

abbrev pub millisecond : ℕ
millisecond = 1000000

abbrev pub signal_ttl : ℕ
signal_ttl = 120 * 1000 * millisecond

abbrev pub max_candidate_bytes : ℕ
max_candidate_bytes = 64 * 1024

abbrev pub max_encrypted_signal_bytes : ℕ
max_encrypted_signal_bytes = 512 * 1024

-- A candidate is a JSON object, in a type of the library's.
pub record Signal (Candidate : Type 0) : Type 0 where
  pub version : ℤ
  pub room : Bytes
  pub kind : Bytes
  pub session_id : Bytes
  pub from : Bytes
  pub to : Bytes
  pub created_at : ℤ
  pub sdp : Bytes
  pub candidate : Option Candidate
  pub encrypted : Bytes

-- encoding/json, base64.RawURLEncoding, and Seal and Open of the pairing token for "signaling".
pub record Sealing (Candidate : Type 0) : Type 0 where
  pub marshal_candidate : Candidate → Option Bytes
  -- the payload's struct, which omits what is empty
  pub marshal_payload : Bytes → Option Candidate → Option Bytes
  pub unmarshal_payload : Bytes → Option (Bytes × Option Candidate)
  pub marshal_metadata : Signal Candidate → Option Bytes
  pub seal : Bytes → Bytes → Option Bytes
  pub open_sealed : Bytes → Bytes → Option Bytes
  pub encode_base64 : Bytes → Bytes
  pub decode_base64 : Bytes → Option Bytes

pub data Error : Type 0 where
  bad_peer_id no_sdp no_candidate bad_kind sdp_too_long bad_candidate candidate_too_long : Error
  bad_session_id bad_destination not_marshaled not_sealed refused : Error

abbrev pub is_empty : Bytes → Bool
is_empty [] = true
is_empty (c ∷ s) = false

abbrev pub is_absent {ℓ} : {A : Type ℓ} → Option A → Bool
is_absent none = true
is_absent (some a) = false

-- `time.Since(time.UnixMilli(created)).Abs() > signalTTL`
abbrev pub is_stale : ℕ → ℤ → Bool
is_stale now (pos created) =
    ltb signal_ttl (now - created * millisecond) || ltb signal_ttl (created * millisecond - now)
is_stale now (negsuc n) = ltb signal_ttl (now + (n + 1) * millisecond)

abbrev pub is_version : ℤ → Bool
is_version (pos n) = n == 2
is_version (negsuc n) = false

module _ {Candidate : Type 0} (lib : Sealing Candidate) where
  open lib use {
    marshal_candidate, marshal_payload, unmarshal_payload, marshal_metadata, seal, open_sealed,
    encode_base64, decode_base64,
  }

  abbrev pub check_candidate : Option Candidate → Result Error (Unit {0})
  check_candidate none = ok tt
  check_candidate (some c) = do
    encoded ← or_fail (marshal_candidate c) bad_candidate
    fail_if (ltb max_candidate_bytes (length encoded)) candidate_too_long

  unfoldable pub validate_signal_payload_sizes : Signal Candidate → Result Error (Unit {0})
  validate_signal_payload_sizes s = do
    fail_if (ltb max_sdp_bytes (length s.sdp)) sdp_too_long
    check_candidate s.candidate

  -- The `switch` on the type of a signal, for both directions.
  unfoldable pub check_kind : Signal Candidate → Result Error (Unit {0})
  check_kind s =
      if bytes_eq s.kind (codes "offer") || bytes_eq s.kind (codes "answer")
      then fail_if (is_empty s.sdp) no_sdp
      else if bytes_eq s.kind (codes "candidate")
      then fail_if (is_absent s.candidate) no_candidate
      else fail_if (not (bytes_eq s.kind (codes "bye"))) bad_kind

  abbrev pub bad_session : Signal Candidate → Bool
  bad_session s = ltb (length s.session_id) 8 || ltb 128 (length s.session_id)

  abbrev pub bad_to : Signal Candidate → Bool
  bad_to s = not (is_empty s.to) && not (is_client_id s.to)

  abbrev pub without_payload : Signal Candidate → Signal Candidate
  without_payload s = record s { sdp = []; candidate = none }

  abbrev pub stamped : ℕ → Bytes → Bytes → Signal Candidate → Signal Candidate
  stamped now topic peer_id s = record s {
    version = signal_version;
    room = topic;
    from = peer_id;
    created_at = pos (now / millisecond);
  }

  -- JSON of the fields that the seal binds, the version among them as SignalVersion.
  abbrev pub signal_additional_data : Signal Candidate → Option Bytes
  signal_additional_data s =
      marshal_metadata
        (record s { version = signal_version; sdp = []; candidate = none; encrypted = [] })

  unfoldable pub sealed : Signal Candidate → Result Error (Signal Candidate)
  sealed s = do
    plaintext ← or_fail (marshal_payload s.sdp s.candidate) not_marshaled
    additional ← or_fail (signal_additional_data (without_payload s)) not_marshaled
    envelope ← or_fail (seal plaintext additional) not_sealed
    ok (record (without_payload s) { encrypted = encode_base64 envelope })

  -- `now` is time.Now(); `token` tells whether there is a pairing token.
  unfoldable pub prepare_outgoing :
      ℕ → Bool → Bytes → Bytes → Signal Candidate → Result Error (Signal Candidate)
  prepare_outgoing now token topic peer_id s = do
    fail_if (not (is_client_id peer_id)) bad_peer_id
    check_kind s
    validate_signal_payload_sizes s
    fail_if (bad_session s) bad_session_id
    fail_if (bad_to s) bad_destination
    if token then sealed (stamped now topic peer_id s) else ok (stamped now topic peer_id s)

  -- The payload of a signal under the pairing token.
  unfoldable pub unsealed : Signal Candidate → Result Error (Signal Candidate)
  unsealed s = do
    fail_if (is_empty s.encrypted) refused
    additional ← or_fail (signal_additional_data (without_payload s)) refused
    envelope ← or_fail (decode_base64 s.encrypted) refused
    plaintext ← or_fail (open_sealed envelope additional) refused
    payload ← or_fail (unmarshal_payload plaintext) refused
    ok (record s { sdp = payload.0; candidate = payload.1 })

  -- The tests of a signal whose payload is open; an error is `false`.
  unfoldable pub check_opened : ℕ → Bytes → Bytes → Signal Candidate → Result Error (Unit {0})
  check_opened now topic peer_id s = do
    fail_if (not (is_version s.version) || not (bytes_eq s.room topic) || bytes_eq s.from peer_id)
        refused
    fail_if (not (is_empty s.to) && not (bytes_eq s.to peer_id)) refused
    fail_if (is_empty s.session_id || is_empty s.from || is_stale now s.created_at) refused
    check_kind s
    validate_signal_payload_sizes s

  unfoldable pub open_incoming :
      ℕ → Bool → Bytes → Bytes → Signal Candidate → Result Error (Signal Candidate)
  open_incoming now token topic peer_id s = do
    fail_if
        (ltb max_encrypted_signal_bytes (length s.encrypted)
          || bad_session s
          || not (is_client_id s.from)
          || bad_to s)
        refused
    opened ← if token then unsealed s else ok s
    check_opened now topic peer_id opened
    ok opened
