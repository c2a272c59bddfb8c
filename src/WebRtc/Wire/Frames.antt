-- ===== src/WebRtc/Wire/Frames.antt =====
-- Data-channel frames and authentication responses read back as they were written.
use p2p_netcat_go_wrk.Common.{
  ℕ, ◌≡◌, refl, ◌↔◌, true, [], ◌∷◌, arith, Bytes, IsByte, All, drop, length, length-append,
  take-append_eq, take-append_length, drop-append_length, take-append-drop, length-take,
  length-drop, ok,
}
use p2p_netcat_go_wrk.Common.BigEndian.{put_u16, u16, u16-put_u16, put_u16-u16, u16-lt}
use p2p_netcat_go_wrk.WebRtc.Wire.{
  Frame, encode_frame, decode_frame, encode_auth_response, decode_auth_response, is_client_id,
  create_client_challenge, client_id_from_challenge,
}

frame_of_decoded : (s : Bytes) (f : Frame) → decode_frame s ≡ ok f → s ≡ encode_frame f
unfolding decode_frame encode_frame
frame_of_decoded [] f h = cc
frame_of_decoded (v ∷ []) f h = cc
frame_of_decoded (v ∷ k ∷ s) f h = ground arith

-- `decode_frame` returns a frame exactly for the bytes that `encode_frame` writes for it.
pub decode_frame-encode_frame :
    (s : Bytes) (f : Frame) → (decode_frame s ≡ ok f) ↔ (s ≡ encode_frame f)
decode_frame-encode_frame s f =
    (frame_of_decoded s f, λ e. rw e (unfold decode_frame encode_frame in refl))

pub decode-encode_auth_response :
    (version : ℕ) (public_bytes signature value : Bytes)
    → encode_auth_response version public_bytes signature ≡ ok value
    → decode_auth_response version value ≡ ok (public_bytes, signature)
unfolding encode_auth_response decode_auth_response put_u16
decode-encode_auth_response version public_bytes signature value h = ground (
  arith,
  u16-put_u16 (length public_bytes) [],
  u16-put_u16 (length signature) [],
  length-append public_bytes signature,
  take-append_length public_bytes signature,
  drop-append_length public_bytes signature,
)

encode-decode_auth_response :
    (version : ℕ) (value public_bytes signature : Bytes)
    → All IsByte value
    → decode_auth_response version value ≡ ok (public_bytes, signature)
    → encode_auth_response version public_bytes signature ≡ ok value
unfolding encode_auth_response decode_auth_response
encode-decode_auth_response version (v ∷ a ∷ b ∷ c ∷ d ∷ rest) public_bytes signature h e = ground (
  arith,
  put_u16-u16 a b,
  put_u16-u16 c d,
  u16-lt (a ∷ b ∷ []),
  u16-lt (c ∷ d ∷ []),
  take-append-drop (u16 (a ∷ b ∷ [])) rest,
  length-take (u16 (a ∷ b ∷ [])) rest,
  length-drop (u16 (a ∷ b ∷ [])) rest,
)
encode-decode_auth_response version _ public_bytes signature h e = cc

-- `decode_auth_response` returns a key and a signature exactly for the bytes that
-- `encode_auth_response` writes for them under the same version.
pub decode_auth_response_iff :
    (version : ℕ) (value public_bytes signature : Bytes)
    → All IsByte value
    → (decode_auth_response version value ≡ ok (public_bytes, signature))
      ↔ (encode_auth_response version public_bytes signature ≡ ok value)
decode_auth_response_iff version value public_bytes signature h = (
  encode-decode_auth_response version value public_bytes signature h,
  decode-encode_auth_response version public_bytes signature value,
)

pub is_client_id-length : (s : Bytes) → is_client_id s ≡ true → length s ≡ 20
unfolding is_client_id
is_client_id-length s h = ground arith

-- The client id for which a challenge was made, from 32 random bytes, is read back from it.
pub client_id-create_client_challenge :
    (random client_id challenge : Bytes)
    → length random ≡ 32
    → create_client_challenge random client_id ≡ ok challenge
    → (length challenge ≡ 32) × (client_id_from_challenge challenge ≡ client_id)
unfolding create_client_challenge client_id_from_challenge
client_id-create_client_challenge random client_id challenge h e = ground (
  arith,
  is_client_id-length client_id,
  length-append client_id (drop 20 random),
  length-drop 20 random,
  take-append_eq 20 client_id (drop 20 random),
)
