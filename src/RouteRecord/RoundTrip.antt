-- ===== src/RouteRecord/RoundTrip.antt =====
-- A record survives its encoding.
use p2p_netcat_go_wrk.Common.{
  ℕ, ◌^◌, ◌≤◌, ◌<◌, ◌≡◌, refl, false, Option, none, some, List, [], ◌∷◌, ltb, ◌==◌, Bytes, length,
  All, ok, or_fail_ok, arith,
}
use p2p_netcat_go_wrk.Common.Text.{bytes_eq_self}
use p2p_netcat_go_wrk.RouteRecord.{
  Record, Cbor, Addresses, keys_of, decode_map, normalize, address_strings, payload_fields,
  encode_payload, check_services, decode_fields, decode_payload,
}
use p2p_netcat_go_wrk.RouteRecord.Texts.{AddressLaws, Present, parse_addresses-address_strings}
use p2p_netcat_go_wrk.RouteRecord.Payload.{
  Agrees, CborLaws, Sendable, normalize-Normalized, Normalized-bounds, normalize_again,
}

check_services_ok :
    (services : List ℕ)
    → All (λ (n : ℕ). (n == 0 ≡ false) × (n < 65536)) services
    → check_services services ≡ ok tt
check_services_ok [] h = refl
check_services_ok (n ∷ services) ((h, k), hs) =
    let low : ltb 65535 n ≡ false = ground arith in rw (h, low) (check_services_ok services hs)

ports_small :
    (services : List ℕ)
    → All (λ (n : ℕ). (n == 0 ≡ false) × (n < 65536)) services
    → All (λ (n : ℕ). n < 2 ^ 64) services
ports_small [] h = tt
ports_small (n ∷ services) ((h, k), hs) = (omega (arith, k), ports_small services hs)

module _ {Addr : Type 0} (lib : Addresses Addr) (laws : AddressLaws lib) where
  length-address_strings :
      (values : List (Option Addr)) → length (address_strings lib values) ≤ length values
  length-address_strings [] = omega arith
  length-address_strings (none ∷ values) = omega (arith, length-address_strings values)
  length-address_strings (some a ∷ values) = omega (arith, length-address_strings values)

  module _ (cbor : Cbor) (IsText : Bytes → Type 0) (codec : CborLaws cbor IsText) where
    -- The fields of a record that can be sent are decoded to it.
    decode_fields-payload_fields :
        (r : Record Addr) (fields : List (ℕ × Bytes))
        → Sendable lib IsText r
        → Agrees cbor IsText fields (payload_fields lib r)
        → r.version < 2 ^ 64
        → r.issued_at < 2 ^ 64
        → r.capabilities < 2 ^ 64
        → length r.services ≤ 128
        → length r.addresses ≤ 128
        → length r.relay_reservations ≤ 128
        → Present lib r.addresses
        → Present lib r.relay_reservations
        → (keys_of fields ≡ keys_of (payload_fields lib r))
          × (length fields ≡ 9)
          × (decode_fields lib cbor fields ≡ ok r)
    unfolding decode_fields
    decode_fields-payload_fields r fields sendable agrees v i c n a rr pa pr =
        let (raw0, rest0, e0, d0, a1) = agrees in
        let (raw1, rest1, e1, d1, a2) = a1 in
        let (raw2, rest2, e2, d2, a3) = a2 in
        let (raw3, rest3, e3, d3, a4) = a3 in
        let (raw4, rest4, e4, d4, a5) = a4 in
        let (raw5, rest5, e5, d5, a6) = a5 in
        let (raw6, rest6, e6, d6, a7) = a6 in
        let (raw7, rest7, e7, d7, a8) = a7 in
        let (raw8, rest8, e8, d8, a9) = a8 in
        rw (e0, e1, e2, e3, e4, e5, e6, e7, e8, a9)
          (
            refl,
            refl,
            rw (
              d0 v,
              d1 sendable.peer_text,
              d2 sendable.sequence,
              d3 i,
              d4 sendable.expires_at,
              d5 n (ports_small r.services sendable.ports),
              d6 (omega (arith, length-address_strings r.addresses, a)) sendable.address_texts,
              d7 (omega (arith, length-address_strings r.relay_reservations, rr))
                  sendable.reservation_texts,
              d8 c,
              sendable.peer_named,
              check_services_ok r.services sendable.ports,
              parse_addresses-address_strings lib laws r.addresses pa,
              parse_addresses-address_strings lib laws r.relay_reservations pr,
            ),
          )

    -- What EncodePayload makes of a record is decoded to the record as it was normalized, where there is
    -- some port besides zero, the numbers fit in 64 bits, the text of the PeerId names it, and the texts
    -- are UTF-8.
    pub decode_payload-encode_payload :
        (r r' : Record Addr) (s : Bytes)
        → normalize lib r ≡ ok r'
        → Sendable lib IsText r'
        → encode_payload lib cbor r ≡ ok s
        → decode_payload lib cbor s ≡ ok r'
    unfolding decode_payload encode_payload decode_map
    decode_payload-encode_payload r r' s norm sendable h =
        let n = normalize-Normalized lib r r' norm in
        let sent : cbor.marshal (payload_fields lib r') ≡ some s =
          or_fail_ok (cbor.marshal (payload_fields lib r')) _ (rw norm at h) in
        let again = normalize_again lib laws r r' n sendable.some_service in
        let (fields, um, agrees) =
          codec.unmarshal-marshal (payload_fields lib r') s refl (omega arith) sent in
        let (v, i, c, few, some_, more, p, q) = Normalized-bounds lib r r' n sendable.expires_at in
        let (keys, long, decoded) =
          decode_fields-payload_fields r' fields sendable agrees v i c few some_ more p q in
        rw (um, keys, long, decoded, again, again, sent, bytes_eq_self s)
