-- ===== src/WebRtc/Wire/Proofs.antt =====
-- The proof of identity that ends a handshake: what an accepted response shows, and that the response
-- of the right listener is accepted.
use p2p_netcat_go_wrk.Common.{
  ℕ, ◌≡◌, ap, ◌∙◌, subst, some, true, false, Bytes, Result, ok, inl, inr,
}
use p2p_netcat_go_wrk.Common.{if◌then◌else◌, ◌>>=◌, or_fail, or_fail_ok, bind_ok, Bool-cases}
use p2p_netcat_go_wrk.Common.Text.{bytes_eq, bytes_eq→eq, bytes_eq_self}
use p2p_netcat_go_wrk.Common.Crypto.{Keys, KeyLaws}
use p2p_netcat_go_wrk.WebRtc.Wire.{
  AuthTranscript, Error, bad_key, signing_failed, verifying_failed, auth_payload_v2, sign_payload,
  sign_auth_response_v2, verify_decoded, verify_auth_response_v2, decode_auth_response,
  auth_response_version_v2,
}
use p2p_netcat_go_wrk.WebRtc.Wire.Frames.{decode-encode_auth_response}

module _ (k : Keys) where
  open k use {PrivateKey, PublicKey, public_key, peer_id, verify}

  accepted :
      (key : PublicKey) (actual signature expected : Bytes) (payload : Result Error Bytes)
      → peer_id key ≡ some actual
      → (if bytes_eq actual expected
          then (payload >>= λ text. or_fail (verify key text signature) verifying_failed)
          else ok false)
        ≡ ok true
      → (key' : PublicKey) × (text : Bytes) × (peer_id key' ≡ some expected)
        × (payload ≡ ok text)
        × (verify key' text signature ≡ some true)
  accepted key actual signature expected payload e h =
      elim (Bool-cases (bytes_eq actual expected)) [
        | inl same ↦
            let (text, p, v) = bind_ok payload _ (rw same at h) in
            (
              key,
              text,
              e ∙ ap some (bytes_eq→eq actual expected same),
              p,
              or_fail_ok (verify key text signature) verifying_failed v,
            )
        | inr differ ↦ cc (rw differ at h)
      ]

  verify_decoded_accepts :
      (public_bytes signature expected : Bytes) (payload : Result Error Bytes)
      → verify_decoded k public_bytes signature expected payload ≡ ok true
      → (key : PublicKey) × (text : Bytes) × (peer_id key ≡ some expected)
        × (payload ≡ ok text)
        × (verify key text signature ≡ some true)
  unfolding verify_decoded
  verify_decoded_accepts public_bytes signature expected payload h =
      let (key, e, h') = bind_ok (or_fail (k.unmarshal public_bytes) bad_key) _ h in
      let (actual, e', h'') = bind_ok (or_fail (peer_id key) bad_key) _ h' in
      accepted key actual signature expected payload (or_fail_ok (peer_id key) bad_key e') h''

  -- A version 2 response is accepted only with a key of the expected PeerId whose signature covers the
  -- payload of exactly this exchange.
  pub verify_auth_response_v2_sound :
      (value expected : Bytes) (service : ℕ) (challenge : Bytes) (t : AuthTranscript)
      → verify_auth_response_v2 k value expected service challenge t ≡ ok true
      → (key : PublicKey) × (signature : Bytes) × (payload : Bytes) × (peer_id key ≡ some expected)
        × (auth_payload_v2 k expected service challenge t ≡ ok payload)
        × (verify key payload signature ≡ some true)
  unfolding verify_auth_response_v2
  verify_auth_response_v2_sound value expected service challenge t h =
      let ((public_bytes, signature), e, h') =
        bind_ok (decode_auth_response auth_response_version_v2 value) _ h in
      let (key, payload, p, q, v) =
        verify_decoded_accepts public_bytes signature expected
          (auth_payload_v2 k expected service challenge t) h' in
      (key, signature, payload, p, q, v)

  module _ (laws : KeyLaws k) where
    sign_payload-decodes :
        (version : ℕ) (key : PrivateKey) (payload value peer : Bytes)
        → sign_payload k version key payload ≡ ok value
        → peer_id (public_key key) ≡ some peer
        → (public_bytes : Bytes) × (signature : Bytes) × (decode_auth_response version value
            ≡ ok (public_bytes, signature))
          × (verify_decoded k public_bytes signature peer (ok payload) ≡ ok true)
    unfolding sign_payload verify_decoded
    sign_payload-decodes version key payload value peer h e =
        let (signature, s, h') = bind_ok (or_fail (k.sign key payload) signing_failed) _ h in
        let (public_bytes, m, h'') = bind_ok (or_fail (k.marshal (public_key key)) bad_key) _ h' in
        let m' = or_fail_ok (k.marshal (public_key key)) bad_key m in
        let s' = or_fail_ok (k.sign key payload) signing_failed s in
        (
          public_bytes,
          signature,
          decode-encode_auth_response version public_bytes signature value h'',
          rw (
            laws.unmarshal-marshal (public_key key) public_bytes m',
            e,
            bytes_eq_self peer,
            laws.verify-sign key payload signature s',
          ),
        )

    -- What a listener signs for an exchange, a client that expects this listener's PeerId accepts for
    -- that exchange.
    pub verify-sign_auth_response_v2 :
        (key : PrivateKey) (service : ℕ) (challenge : Bytes) (t : AuthTranscript)
        (value peer : Bytes)
        → sign_auth_response_v2 k key service challenge t ≡ ok value
        → peer_id (public_key key) ≡ some peer
        → verify_auth_response_v2 k value peer service challenge t ≡ ok true
    unfolding sign_auth_response_v2 verify_auth_response_v2
    verify-sign_auth_response_v2 key service challenge t value peer h e =
        let (actual, a, h') = bind_ok (or_fail (peer_id (public_key key)) bad_key) _ h in
        let (payload, p, h'') = bind_ok (auth_payload_v2 k actual service challenge t) _ h' in
        let same : actual ≡ peer = cc (or_fail_ok (peer_id (public_key key)) bad_key a) in
        let p' =
          subst (λ (u : Bytes). auth_payload_v2 k u service challenge t ≡ ok payload) same p in
        let (public_bytes, signature, d, v) =
          sign_payload-decodes auth_response_version_v2 key payload value peer h'' e in
        rw (d, p') v
