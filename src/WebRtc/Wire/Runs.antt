-- ===== src/WebRtc/Wire/Runs.antt =====
-- A toy key scheme that has the laws, runs over it, and the theorems at concrete exchanges.
use p2p_netcat_go_wrk.Common.{
  ℕ, ◌≡◌, ◌↔◌, refl, ap, none, some, true, Option, [], ◌∷◌, ◌++◌, arith, Bytes, length, take,
  replicate, length-append, length-take, ok,
}
use mathlib.Core.Option.{some-injective}
use p2p_netcat_go_wrk.Common.BigEndian.{put_u16, put_u32}
use p2p_netcat_go_wrk.Common.Text.{bytes_eq, bytes_eq_self, codes}
use p2p_netcat_go_wrk.Common.Crypto.{Keys, KeyLaws}
use p2p_netcat_go_wrk.WebRtc.Wire.{
  AuthTranscript, auth_payload_v2, sign_payload, sign_auth_response_v2, verify_auth_response_v2,
  decode_auth_response, encode_auth_response, encode_fields, auth_fields, room_id,
  create_client_challenge, is_client_id, decode_frame, encode_frame,
}
use p2p_netcat_go_wrk.WebRtc.Wire.Frames.{decode_frame-encode_frame, decode_auth_response_iff}
use p2p_netcat_go_wrk.WebRtc.Wire.Transcript.{auth_payload_v2-injective}
use p2p_netcat_go_wrk.WebRtc.Wire.Proofs.{
  verify_auth_response_v2_sound, verify-sign_auth_response_v2,
}

abbrev one_byte : Bytes → Option ℕ
one_byte (n ∷ []) = some n
one_byte _ = none

-- A key is a number, which stands in front of the text that it signs.
abbrev toy : Keys
toy = record {
  PrivateKey = ℕ;
  PublicKey = ℕ;
  public_key = λ n. n;
  peer_id = λ n. some (n ∷ []);
  peer_string = λ s. s;
  sign = λ n s. some (n ∷ s);
  verify = λ n s signature. some (bytes_eq signature (n ∷ s));
  marshal = λ n. some (n ∷ []);
  unmarshal = one_byte;
  sha256 = λ s. take 32 (s ++ replicate 32 0);
}

length-padded : (s : Bytes) → length (take 32 (s ++ replicate 32 0)) ≡ 32
length-padded s =
    omega (arith, length-take 32 (s ++ replicate 32 0), length-append s (replicate 32 0))

toy_laws : KeyLaws toy
toy_laws = record {
  unmarshal-marshal = λ key s h. cc;
  verify-sign = λ key message signature h.
      let e : key ∷ message ≡ signature = some-injective _ _ h in
      rw (← e) (ap some (bytes_eq_self (key ∷ message)));
  length-sha256 = length-padded;
}

abbrev exchange : AuthTranscript
exchange = record {
  session_id = codes "0123456789abcdef";
  offer_sdp = codes "v=0 offer";
  answer_sdp = codes "v=0 answer";
}

abbrev challenge : Bytes
challenge = replicate 32 7

abbrev payload_of : Bytes → Bytes
payload_of peer = encode_fields (auth_fields toy peer 22 challenge exchange)

abbrev response : Bytes
response =
    2 ∷ put_u16 1
    ++ put_u16 (length (5 ∷ payload_of (5 ∷ [])))
    ++ (5 ∷ [])
    ++ 5 ∷ payload_of (5 ∷ [])

signed : sign_auth_response_v2 toy 5 22 challenge exchange ≡ ok response
unfolding sign_auth_response_v2 sign_payload auth_payload_v2 room_id encode_auth_response put_u16
    put_u32 encode_fields
signed = refl

verify-sign_auth_response_v2_example :
    verify_auth_response_v2 toy response (5 ∷ []) 22 challenge exchange ≡ ok true
verify-sign_auth_response_v2_example =
    verify-sign_auth_response_v2 toy toy_laws 5 22 challenge exchange response (5 ∷ []) signed refl

verify_auth_response_v2_sound_example :
    (key : ℕ) × (signature : Bytes) × (payload : Bytes) × (toy.peer_id key ≡ some (5 ∷ []))
    × (auth_payload_v2 toy (5 ∷ []) 22 challenge exchange ≡ ok payload)
    × (toy.verify key payload signature ≡ some true)
verify_auth_response_v2_sound_example =
    verify_auth_response_v2_sound toy response (5 ∷ []) 22 challenge exchange
      verify-sign_auth_response_v2_example

payload_is : auth_payload_v2 toy (5 ∷ []) 22 challenge exchange ≡ ok (payload_of (5 ∷ []))
unfolding auth_payload_v2 room_id
payload_is = refl

auth_payload_v2-injective_example :
    (toy.peer_string (5 ∷ []) ≡ toy.peer_string (5 ∷ []))
    × (◌≡◌ {A = ℕ} 22 22)
    × (exchange.session_id ≡ exchange.session_id)
    × (challenge ≡ challenge)
    × (toy.sha256 exchange.offer_sdp ≡ toy.sha256 exchange.offer_sdp)
    × (toy.sha256 exchange.answer_sdp ≡ toy.sha256 exchange.answer_sdp)
auth_payload_v2-injective_example =
    auth_payload_v2-injective toy toy_laws (5 ∷ []) (5 ∷ []) 22 22 challenge challenge exchange
      exchange (payload_of (5 ∷ [])) (omega arith) (omega arith) (omega arith) (omega arith)
      payload_is payload_is

decode_frame-encode_frame_example :
    (decode_frame (2 ∷ 0 ∷ 9 ∷ []) ≡ ok (record { kind = 0; payload = 9 ∷ [] }))
    ↔ (2 ∷ 0 ∷ 9 ∷ [] ≡ encode_frame (record { kind = 0; payload = 9 ∷ [] }))
decode_frame-encode_frame_example =
    decode_frame-encode_frame (2 ∷ 0 ∷ 9 ∷ []) (record { kind = 0; payload = 9 ∷ [] })

decode_auth_response_iff_example :
    (decode_auth_response 1 (1 ∷ 0 ∷ 1 ∷ 0 ∷ 1 ∷ 8 ∷ 9 ∷ []) ≡ ok (8 ∷ [], 9 ∷ []))
    ↔ (encode_auth_response 1 (8 ∷ []) (9 ∷ []) ≡ ok (1 ∷ 0 ∷ 1 ∷ 0 ∷ 1 ∷ 8 ∷ 9 ∷ []))
decode_auth_response_iff_example =
    decode_auth_response_iff 1 (1 ∷ 0 ∷ 1 ∷ 0 ∷ 1 ∷ 8 ∷ 9 ∷ []) (8 ∷ []) (9 ∷ []) (omega arith)

abbrev client : Bytes
client = codes "ABCDEFGHIJ0123456789"

challenged : create_client_challenge (replicate 32 1) client ≡ ok (client ++ replicate 12 1)
unfolding create_client_challenge is_client_id
challenged = refl
