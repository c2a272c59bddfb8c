-- ===== src/WebRtc/Wire/Transcript.antt =====
-- What a signature over an authentication payload says of the exchange.
use p2p_netcat_go_wrk.Common.{
  ℕ, ◌≤◌, ◌<◌, ◌^◌, ◌≡◌, refl, sym, ap, ◌∙◌, List, [], ◌∷◌, ◌++◌, append_assoc, arith, Bytes, All,
  length, ok,
}
use p2p_netcat_go_wrk.Common.BigEndian.{
  put_u16, u16, u16-put_u16, put_u32, u32, u32-put_u32, length-put_u32,
}
use p2p_netcat_go_wrk.Common.Crypto.{Keys, KeyLaws}
use p2p_netcat_go_wrk.WebRtc.Wire.{AuthTranscript, encode_fields, auth_fields, auth_payload_v2}

-- Two texts that begin with parts of one length agree in these parts and in what follows.
pub append-injective :
    (xs xs' ys ys' : Bytes)
    → length xs ≡ length xs'
    → xs ++ ys ≡ xs' ++ ys'
    → (xs ≡ xs') × (ys ≡ ys')
append-injective [] [] ys ys' h e = (refl, e)
append-injective [] (x ∷ xs') ys ys' h e = absurd (omega arith)
append-injective (x ∷ xs) [] ys ys' h e = absurd (omega arith)
append-injective (x ∷ xs) (x' ∷ xs') ys ys' h e = ground (arith, append-injective xs xs' ys ys')

abbrev Short : Bytes → Type 0
Short f = length f < 2 ^ 32

encode_fields_cons :
    (f g fs gs : Bytes)
    → Short f
    → Short g
    → put_u32 (length f) ++ f ++ fs ≡ put_u32 (length g) ++ g ++ gs
    → (f ≡ g) × (fs ≡ gs)
encode_fields_cons f g fs gs hf hg e =
    let (heads, tails) =
      append-injective (put_u32 (length f)) (put_u32 (length g)) (f ++ fs) (g ++ gs)
        (length-put_u32 (length f) ∙ sym (length-put_u32 (length g)))
        (sym (append_assoc (put_u32 (length f)) f fs)
          ∙ e
          ∙ append_assoc (put_u32 (length g)) g gs) in
    append-injective f g fs gs
      (cc (
        u32-put_u32 (length f) [] hf,
        u32-put_u32 (length g) [] hg,
        ap (λ (t : Bytes). u32 (t ++ [])) heads,
      ))
      tails

-- As many fields, each shorter than 2 ^ 32 bytes, with the same encoding are the same fields.
encode_fields-injective :
    (fs gs : List Bytes)
    → length fs ≡ length gs
    → All Short fs
    → All Short gs
    → encode_fields fs ≡ encode_fields gs
    → fs ≡ gs
unfolding encode_fields
encode_fields-injective [] [] h hf hg e = refl
encode_fields-injective [] (g ∷ gs) h hf hg e = absurd (omega arith)
encode_fields-injective (f ∷ fs) [] h hf hg e = absurd (omega arith)
encode_fields-injective (f ∷ fs) (g ∷ gs) h hf hg e = ground (
  arith,
  encode_fields_cons f g (encode_fields fs) (encode_fields gs),
  encode_fields-injective fs gs,
)

module _ (k : Keys) (laws : KeyLaws k) where
  open k use {peer_string, sha256}

  payload_v2_shape :
      (peer : Bytes) (service : ℕ) (challenge : Bytes) (t : AuthTranscript) (payload : Bytes)
      → auth_payload_v2 k peer service challenge t ≡ ok payload
      → (payload ≡ encode_fields (auth_fields k peer service challenge t))
        × (length challenge ≡ 32)
        × (length t.session_id ≤ 128)
  unfolding auth_payload_v2
  payload_v2_shape peer service challenge t payload h = ground arith

  auth_fields-Short :
      (peer : Bytes) (service : ℕ) (challenge : Bytes) (t : AuthTranscript)
      → Short (peer_string peer)
      → length challenge ≡ 32
      → length t.session_id ≤ 128
      → All Short (auth_fields k peer service challenge t)
  unfolding put_u16
  auth_fields-Short peer service challenge t hp hc hs =
      ground (arith, laws.length-sha256 t.offer_sdp, laws.length-sha256 t.answer_sdp)

  fields-injective :
      (peer peer' : Bytes) (service service' : ℕ) (challenge challenge' : Bytes)
      (t t' : AuthTranscript)
      → auth_fields k peer service challenge t ≡ auth_fields k peer' service' challenge' t'
      → (peer_string peer ≡ peer_string peer')
        × (put_u16 service ≡ put_u16 service')
        × (t.session_id ≡ t'.session_id)
        × (challenge ≡ challenge')
        × (sha256 t.offer_sdp ≡ sha256 t'.offer_sdp)
        × (sha256 t.answer_sdp ≡ sha256 t'.answer_sdp)
  fields-injective peer peer' service service' challenge challenge' t t' e =
      (cc, cc, cc, cc, cc, cc)

  -- Two exchanges whose version 2 authentication payloads are the same have the same PeerId text,
  -- logical port, session id, challenge and hashes of the offer and of the answer: a signature made
  -- for one exchange is a signature for no other. PeerId texts are shorter than 2 ^ 32 bytes and
  -- logical ports are uint16s.
  pub auth_payload_v2-injective :
      (peer peer' : Bytes) (service service' : ℕ) (challenge challenge' : Bytes)
      (t t' : AuthTranscript) (payload : Bytes)
      → length (peer_string peer) < 2 ^ 32
      → length (peer_string peer') < 2 ^ 32
      → service < 2 ^ 16
      → service' < 2 ^ 16
      → auth_payload_v2 k peer service challenge t ≡ ok payload
      → auth_payload_v2 k peer' service' challenge' t' ≡ ok payload
      → (peer_string peer ≡ peer_string peer')
        × (service ≡ service')
        × (t.session_id ≡ t'.session_id)
        × (challenge ≡ challenge')
        × (sha256 t.offer_sdp ≡ sha256 t'.offer_sdp)
        × (sha256 t.answer_sdp ≡ sha256 t'.answer_sdp)
  auth_payload_v2-injective peer peer' service service' challenge challenge' t t' payload hp hp' hs
        hs' e e' =
      let (p, c, s) = payload_v2_shape peer service challenge t payload e in
      let (p', c', s') = payload_v2_shape peer' service' challenge' t' payload e' in
      let same =
        encode_fields-injective (auth_fields k peer service challenge t)
          (auth_fields k peer' service' challenge' t') refl
          (auth_fields-Short peer service challenge t hp c s)
          (auth_fields-Short peer' service' challenge' t' hp' c' s') (sym p ∙ p') in
      let (a, b, d, f, g, h) =
        fields-injective peer peer' service service' challenge challenge' t t' same in
      (
        a,
        cc (
          u16-put_u16 service [] hs,
          u16-put_u16 service' [] hs',
          ap (λ (u : Bytes). u16 (u ++ [])) b,
        ),
        d,
        f,
        g,
        h,
      )
