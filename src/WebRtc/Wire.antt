-- ===== src/WebRtc/Wire.antt =====
-- nativewebrtc/wire.go: the frames of a data channel, and the proof of identity that a listener signs
-- for one signaling exchange. Go strings are their bytes.
pub mod Frames
pub mod Transcript
pub mod Proofs
mod Runs
use p2p_netcat_go_wrk.Common.{
  ℕ, ◌+◌, ◌*◌, Bool, true, false, ◌&&◌, ◌||◌, not, Option, none, some, List, [], ◌∷◌, ◌++◌, ltb,
  leb, ◌==◌, if◌then◌else◌, Bytes, length, take, drop, Result, ok, err, ◌>>=◌, ◌>>◌, fail_if,
  or_fail,
}
use p2p_netcat_go_wrk.Common.BigEndian.{put_u16, u16, put_u32}
use p2p_netcat_go_wrk.Common.Decimal.{decimal, is_digit}
use p2p_netcat_go_wrk.Common.Crypto.{Keys}
use p2p_netcat_go_wrk.Common.Text.{codes, bytes_eq}

abbrev pub protocol_version : ℕ
protocol_version = 2

abbrev pub frame_data : ℕ
frame_data = 0

abbrev pub frame_control : ℕ
frame_control = 1

abbrev pub auth_response_version_v1 : ℕ
auth_response_version_v1 = 1

abbrev pub auth_response_version_v2 : ℕ
auth_response_version_v2 = 2

abbrev pub max_sdp_bytes : ℕ
max_sdp_bytes = 256 * 1024

-- The texts of the source, as bytes.
abbrev pub auth_domain_v2 : Bytes
auth_domain_v2 = codes "p2p-netcat/native-webrtc-auth/v2"

pub record Frame : Type 0 where
  pub kind : ℕ
  pub payload : Bytes

pub record AuthTranscript : Type 0 where
  pub session_id : Bytes
  pub offer_sdp : Bytes
  pub answer_sdp : Bytes

pub data Error : Type 0 where
  short_frame unsupported_version peer_id_required zero_service bad_challenge : Error
  bad_session_id bad_offer_sdp bad_answer_sdp bad_client_id response_too_large : Error
  unsupported_response malformed_response bad_key signing_failed verifying_failed : Error

unfoldable pub encode_frame : Frame → Bytes
encode_frame f = protocol_version ∷ f.kind ∷ f.payload

unfoldable pub decode_frame : Bytes → Result Error Frame
decode_frame (version ∷ kind ∷ payload) =
    if version == protocol_version
    then ok (record { kind = kind; payload = payload })
    else err unsupported_version
decode_frame _ = err short_frame

abbrev is_alphanumeric : ℕ → Bool
is_alphanumeric c = is_digit c || (leb b'A' c && leb c b'Z') || (leb b'a' c && leb c b'z')

unfoldable pub all_alphanumeric : Bytes → Bool
all_alphanumeric [] = true
all_alphanumeric (c ∷ s) = is_alphanumeric c && all_alphanumeric s

-- The regular expression `^[0-9A-Za-z]{20}$`.
unfoldable pub is_client_id : Bytes → Bool
unfolding all_alphanumeric is_digit
is_client_id s = (length s == 20) && all_alphanumeric s

-- `create_client_challenge` is given the 32 random bytes.
unfoldable pub create_client_challenge : Bytes → Bytes → Result Error Bytes
create_client_challenge random client_id =
    if is_client_id client_id then ok (client_id ++ drop 20 random) else err bad_client_id

unfoldable pub client_id_from_challenge : Bytes → Bytes
client_id_from_challenge challenge =
    if not (length challenge == 32)
    then []
    else if is_client_id (take 20 challenge)
    then take 20 challenge
    else []

unfoldable pub encode_auth_response : ℕ → Bytes → Bytes → Result Error Bytes
encode_auth_response version public_bytes signature =
    if ltb 0xffff (length public_bytes) || ltb 0xffff (length signature)
    then err response_too_large
    else ok (
        version ∷ put_u16 (length public_bytes)
        ++ put_u16 (length signature)
        ++ public_bytes
        ++ signature)

-- The lengths of the key and of the signature, and the rest.
unfoldable pub split_response : ℕ → ℕ → Bytes → Result Error (Bytes × Bytes)
split_response public_length signature_length rest =
    if 5 + public_length + signature_length == 5 + length rest
    then ok (take public_length rest, drop public_length rest)
    else err malformed_response

unfoldable pub decode_auth_response : ℕ → Bytes → Result Error (Bytes × Bytes)
unfolding split_response
decode_auth_response version (v ∷ a ∷ b ∷ c ∷ d ∷ rest) =
    if v == version
    then split_response (u16 (a ∷ b ∷ [])) (u16 (c ∷ d ∷ [])) rest
    else err unsupported_response
decode_auth_response version _ = err unsupported_response

-- The loop that appends each field behind its length.
unfoldable pub encode_fields : List Bytes → Bytes
encode_fields [] = []
encode_fields (f ∷ fs) = put_u32 (length f) ++ f ++ encode_fields fs

module _ (k : Keys) where
  open k use {
    PrivateKey, PublicKey, public_key, peer_id, peer_string, sign, verify, marshal, unmarshal,
    sha256,
  }

  unfoldable pub room_id : Bytes → ℕ → Result Error Bytes
  room_id peer service = do
    fail_if (length peer == 0) peer_id_required
    fail_if (service == 0) zero_service
    ok (peer_string peer ++ b':' ∷ decimal service)

  unfoldable pub auth_payload : Bytes → ℕ → Bytes → Result Error Bytes
  auth_payload peer service challenge = do
    fail_if (not (length challenge == 32)) bad_challenge
    room ← room_id peer service
    ok ((codes "p2p-netcat/trystero-auth/v1" ++ 0 ∷ room ++ 0 ∷ []) ++ challenge)

  abbrev pub auth_fields : Bytes → ℕ → Bytes → AuthTranscript → List Bytes
  auth_fields peer service challenge transcript =
      auth_domain_v2
      ∷ (auth_response_version_v2 ∷ [])
      ∷ codes "client"
      ∷ codes "server"
      ∷ peer_string peer
      ∷ put_u16 service
      ∷ transcript.session_id
      ∷ challenge
      ∷ sha256 transcript.offer_sdp
      ∷ sha256 transcript.answer_sdp
      ∷ []

  unfoldable pub auth_payload_v2 : Bytes → ℕ → Bytes → AuthTranscript → Result Error Bytes
  auth_payload_v2 peer service challenge transcript = do
    fail_if (not (length challenge == 32)) bad_challenge
    _ ← room_id peer service
    fail_if (ltb (length transcript.session_id) 8 || ltb 128 (length transcript.session_id))
        bad_session_id
    fail_if ((length transcript.offer_sdp == 0) || ltb max_sdp_bytes (length transcript.offer_sdp))
        bad_offer_sdp
    fail_if
        ((length transcript.answer_sdp == 0) || ltb max_sdp_bytes (length transcript.answer_sdp))
        bad_answer_sdp
    ok (encode_fields (auth_fields peer service challenge transcript))

  -- The common end of `SignAuthResponse` and `SignAuthResponseV2`.
  unfoldable pub sign_payload : ℕ → PrivateKey → Bytes → Result Error Bytes
  sign_payload version key payload = do
    signature ← or_fail (sign key payload) signing_failed
    public_bytes ← or_fail (marshal (public_key key)) bad_key
    encode_auth_response version public_bytes signature

  unfoldable pub sign_auth_response : PrivateKey → ℕ → Bytes → Result Error Bytes
  sign_auth_response key service challenge = do
    peer ← or_fail (peer_id (public_key key)) bad_key
    payload ← auth_payload peer service challenge
    sign_payload auth_response_version_v1 key payload

  unfoldable pub sign_auth_response_v2 :
      PrivateKey → ℕ → Bytes → AuthTranscript → Result Error Bytes
  sign_auth_response_v2 key service challenge transcript = do
    peer ← or_fail (peer_id (public_key key)) bad_key
    payload ← auth_payload_v2 peer service challenge transcript
    sign_payload auth_response_version_v2 key payload

  -- The check of a decoded response; `payload` is the text that the signature must cover.
  unfoldable pub verify_decoded : Bytes → Bytes → Bytes → Result Error Bytes → Result Error Bool
  verify_decoded public_bytes signature expected payload = do
    key ← or_fail (unmarshal public_bytes) bad_key
    actual ← or_fail (peer_id key) bad_key
    if bytes_eq actual expected
        then (do text ← payload; or_fail (verify key text signature) verifying_failed)
        else ok false

  unfoldable pub verify_auth_response : Bytes → Bytes → ℕ → Bytes → Result Error Bool
  verify_auth_response value expected service challenge = do
    (public_bytes, signature) ← decode_auth_response auth_response_version_v1 value
    verify_decoded public_bytes signature expected (auth_payload expected service challenge)

  unfoldable pub verify_auth_response_v2 :
      Bytes → Bytes → ℕ → Bytes → AuthTranscript → Result Error Bool
  verify_auth_response_v2 value expected service challenge transcript = do
    (public_bytes, signature) ← decode_auth_response auth_response_version_v2 value
    verify_decoded public_bytes signature expected
        (auth_payload_v2 expected service challenge transcript)
