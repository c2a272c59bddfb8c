-- ===== src/RouteRecord/Verified.antt =====
-- What a record has that Verify returns.
use p2p_netcat_go_wrk.Common.{
  ℕ, ◌+◌, ◌*◌, ◌^◌, ◌≤◌, ◌<◌, ◌≡◌, ◌≢◌, ◌∙◌, sym, ap, subst, Bool, true, false, ◌||◌, ◌&&◌, not,
  Bool-cases, inl, inr, some, [], ltb, ◌==◌, ==_iff, Bytes, length, Result, ok, err, or_fail,
  fail_if, bind_ok, or_fail_ok, fail_if_ok, ok-injective, arith,
}
use p2p_netcat_go_wrk.Common.Text.{bytes_eq, bytes_eq→eq}
use p2p_netcat_go_wrk.Common.Crypto.{Keys}
use p2p_netcat_go_wrk.RouteRecord.{
  Record, Cbor, Addresses, Error, not_canonical, not_encoded, bad_envelope_version, bad_payload,
  bad_key_or_signature, bad_key, bad_signature, wrong_key, wrong_peer, wrong_service,
  not_yet_issued, envelope_version, max_payload_bytes, field, decode_map, decode_fields, normalize,
  contains_service, encode_payload, is_encoding, decode_payload,
}
use p2p_netcat_go_wrk.RouteRecord.Payload.{normalize-Normalized}
use p2p_netcat_go_wrk.Common.Times.{
  second, unix_to_internal, unix_time, is_after, is_before, not_before, not_after,
}
use p2p_netcat_go_wrk.RouteRecord.Envelope.{
  VerifyOptions, time_of, skew_of, plus_skew, minus_skew, envelope_fields, check_record, Opened,
  fields_of, open_envelope, verify,
}

module _ {Addr : Type 0} (lib : Addresses Addr) (cbor : Cbor) where
  is_encoding_eq : (o : Result Error Bytes) (s : Bytes) → is_encoding lib o s ≡ true → o ≡ ok s
  is_encoding_eq (ok t) s h = ap (λ (x : Bytes). ok x) (bytes_eq→eq t s h)
  is_encoding_eq (err e) s h = cc

  decoded :
      (payload : Bytes) (r : Record Addr)
      → decode_payload lib cbor payload ≡ ok r
      → (encode_payload lib cbor r ≡ ok payload) × (r.issued_at < r.expires_at)
  unfolding decode_payload
  decoded payload r h =
      let (fields, m, h1) = bind_ok (decode_map cbor 9 payload) _ h in
      let (raw, d, h2) = bind_ok (decode_fields lib cbor fields) _ h1 in
      let (r', n, h3) = bind_ok (normalize lib raw) _ h2 in
      let (u, f, h4) =
        bind_ok (fail_if (not (is_encoding lib (encode_payload lib cbor r') payload)) not_canonical)
          _ h3 in
      let same : r' ≡ r = cc (h4) in
      let f' = fail_if_ok _ _ f in
      let norm = normalize-Normalized lib raw r' n in
      let late = norm.lasts in
      let lasts : raw.issued_at < raw.expires_at = ground arith in
      let enc = is_encoding_eq (encode_payload lib cbor r') payload (ground (arith, f')) in
      subst
        (λ (x : Record Addr).
          (encode_payload lib cbor x ≡ ok payload) × (x.issued_at < x.expires_at))
        same (enc, subst (λ (x : Record Addr). x.issued_at < x.expires_at) (sym norm.same) lasts)

  -- A payload that is decoded is the one encoding of its record: two payloads that are decoded to the
  -- same record are the same bytes.
  pub decode_payload-injective :
      (payload payload' : Bytes) (r : Record Addr)
      → decode_payload lib cbor payload ≡ ok r
      → decode_payload lib cbor payload' ≡ ok r
      → payload ≡ payload'
  decode_payload-injective payload payload' r h h' =
      cc ((decoded payload r h).0, (decoded payload' r h').0)

module _ (k : Keys) {Addr : Type 0} (lib : Addresses Addr) (cbor : Cbor) where
  -- The checks of a record that passed.
  pub record Checked (clock : ℕ) (options : VerifyOptions) (key : k.PublicKey) (r : Record Addr)
      : Type 0 where
    pub owner : k.peer_id key ≡ some r.peer_id
    pub expected : options.expected_peer_id ≢ [] → r.peer_id ≡ options.expected_peer_id
    pub service :
        options.expected_service ≢ 0 → contains_service r.services options.expected_service ≡ true
    pub issued :
        is_after
          (unix_time r.issued_at)
          (plus_skew (time_of clock options.now) (skew_of options.clock_skew))
        ≡ false
    pub current :
        is_before
          (unix_time r.expires_at)
          (minus_skew (time_of clock options.now) (skew_of options.clock_skew))
        ≡ false

  check_record-Checked :
      (clock : ℕ) (options : VerifyOptions) (key : k.PublicKey) (r : Record Addr)
      → check_record k lib cbor clock options key r ≡ ok tt
      → Checked clock options key r
  unfolding check_record
  check_record-Checked clock options key r h =
      let (authenticated, a, h1) = bind_ok (or_fail (k.peer_id key) wrong_key) _ h in
      let (u1, w, h2) = bind_ok (fail_if (not (bytes_eq r.peer_id authenticated)) wrong_key) _ h1 in
      let (u2, p, h3) =
        bind_ok
          (fail_if
            (not (bytes_eq options.expected_peer_id [])
              && not (bytes_eq r.peer_id options.expected_peer_id))
            wrong_peer)
          _ h2 in
      let (u3, s, h4) =
        bind_ok
          (fail_if
            (not (options.expected_service == 0)
              && not (contains_service r.services options.expected_service))
            wrong_service)
          _ h3 in
      let (u4, i, h5) =
        bind_ok
          (fail_if
            (is_after (unix_time r.issued_at)
              (plus_skew (time_of clock options.now) (skew_of options.clock_skew)))
            not_yet_issued)
          _ h4 in
      let w' = fail_if_ok _ _ w in
      let p' = fail_if_ok _ _ p in
      let s' = fail_if_ok _ _ s in
      let own : r.peer_id ≡ authenticated = bytes_eq→eq r.peer_id authenticated (ground arith) in
      record {
        owner = or_fail_ok (k.peer_id key) _ a ∙ ap (λ (x : Bytes). some x) (sym own);
        expected = λ asked. elim (Bool-cases (bytes_eq options.expected_peer_id [])) [
          | inl e ↦ elim (asked (bytes_eq→eq options.expected_peer_id [] e)) [ ]
          | inr e ↦ bytes_eq→eq r.peer_id options.expected_peer_id (ground arith)
        ];
        service = λ asked. ground arith;
        issued = fail_if_ok _ _ i;
        current = fail_if_ok _ _ h5;
      }

  -- The signature over a record's payload, in the envelope of the same bytes.
  pub record Signed (envelope : Bytes) (key : k.PublicKey) (r : Record Addr) : Type 0 where
    pub payload : Bytes
    pub public_bytes : Bytes
    pub signature : Bytes
    pub names_key : k.unmarshal public_bytes ≡ some key
    pub holds : k.verify key payload signature ≡ some true
    pub encodes : encode_payload lib cbor r ≡ ok payload
    pub canonical :
        cbor.marshal (envelope_fields envelope_version payload public_bytes signature)
        ≡ some envelope

  open_envelope_opened :
      (envelope : Bytes) (o : Opened k lib cbor)
      → open_envelope k lib cbor envelope ≡ ok o
      → (o.version ≡ envelope_version) × (k.unmarshal o.public_bytes ≡ some o.key)
  unfolding open_envelope
  open_envelope_opened envelope o h =
      let (fields, m, h1) = bind_ok (decode_map cbor 4 envelope) _ h in
      let (v, a, h2) =
        bind_ok (or_fail (cbor.unmarshal_uint (field 0 fields)) bad_envelope_version) _ h1 in
      let (u1, b, h3) = bind_ok (fail_if (not (v == envelope_version)) bad_envelope_version) _ h2 in
      let (payload, c, h4) =
        bind_ok (or_fail (cbor.unmarshal_bytes (field 1 fields)) bad_payload) _ h3 in
      let (u2, d, h5) =
        bind_ok
          (fail_if ((length payload == 0) || ltb max_payload_bytes (length payload)) bad_payload) _
          h4 in
      let (public, e, h6) =
        bind_ok (or_fail (cbor.unmarshal_bytes (field 2 fields)) bad_key_or_signature) _ h5 in
      let (signature, f, h7) =
        bind_ok (or_fail (cbor.unmarshal_bytes (field 3 fields)) bad_key_or_signature) _ h6 in
      let (key, g, h8) = bind_ok (or_fail (k.unmarshal public) bad_key) _ h7 in
      let b' : not (v == envelope_version) ≡ false =
        fail_if_ok (not (v == envelope_version)) bad_envelope_version b in
      let one : v ≡ envelope_version = (==_iff v envelope_version).0 (ground (arith, b')) in
      let named : k.unmarshal public ≡ some key = or_fail_ok (k.unmarshal public) bad_key g in
      let whole : Opened k lib cbor = record {
        version = v;
        payload = payload;
        public_bytes = public;
        signature = signature;
        key = key;
      } in
      subst
        (λ (x : Opened k lib cbor).
          (x.version ≡ envelope_version) × (k.unmarshal x.public_bytes ≡ some x.key))
        (ok-injective {a = whole} {b = o} h8) (one, named)

  verify-Checked :
      (clock : ℕ) (options : VerifyOptions) (envelope : Bytes) (r : Record Addr)
      → verify k lib cbor clock options envelope ≡ ok r
      → (key : k.PublicKey) × Signed envelope key r
        × Checked clock options key r
        × (r.issued_at < r.expires_at)
  unfolding verify
  verify-Checked clock options envelope r h =
      let (o, m, h1) = bind_ok (open_envelope k lib cbor envelope) _ h in
      let (valid, i, h2) =
        bind_ok (or_fail (k.verify o.key o.payload o.signature) bad_signature) _ h1 in
      let (u1, j, h3) = bind_ok (fail_if (not valid) bad_signature) _ h2 in
      let (r', l, h4) = bind_ok (decode_payload lib cbor o.payload) _ h3 in
      let (u2, n, h5) = bind_ok (check_record k lib cbor clock options o.key r') _ h4 in
      let reencoded = or_fail (cbor.marshal (fields_of k lib cbor o)) not_encoded in
      let (u3, c, h6) =
        bind_ok (fail_if (not (is_encoding lib reencoded envelope)) not_canonical) _ h5 in
      let c' = fail_if_ok (not (is_encoding lib reencoded envelope)) not_canonical c in
      let j' = fail_if_ok (not valid) bad_signature j in
      let (one, named) = open_envelope_opened envelope o m in
      let true_ : valid ≡ true = ground (arith, j') in
      let back = is_encoding_eq lib cbor reencoded envelope (ground (arith, c')) in
      let written = or_fail_ok (cbor.marshal (fields_of k lib cbor o)) not_encoded back in
      let (enc, lasts) = decoded lib cbor o.payload r' l in
      subst
        (λ (x : Record Addr).
          (key : k.PublicKey) × Signed envelope key x
          × Checked clock options key x
          × (x.issued_at < x.expires_at))
        (ok-injective {a = r'} {b = r} h6)
        (
          o.key,
          record {
            payload = o.payload;
            public_bytes = o.public_bytes;
            signature = o.signature;
            names_key = named;
            holds =
                or_fail_ok (k.verify o.key o.payload o.signature) bad_signature i
                ∙ ap (λ (x : Bool). some x) true_;
            encodes = enc;
            canonical =
                subst
                  (λ (v : ℕ).
                    cbor.marshal (envelope_fields v o.payload o.public_bytes o.signature)
                    ≡ some envelope)
                  one written;
          },
          check_record-Checked clock options o.key r' n,
          lasts,
        )

  -- Verify returns a record only if the envelope is the canonical one of the record's payload with a
  -- signature that holds under its key, and that key is of the record's PeerId; the PeerId is the
  -- expected one and the expected port among the services, where they are given; and, for a time
  -- after 1970 and a skew before it, the record had been issued and had not expired by more than the
  -- skew.
  pub verify_sound :
      (clock : ℕ) (options : VerifyOptions) (envelope : Bytes) (r : Record Addr)
      → verify k lib cbor clock options envelope ≡ ok r
      → r.expires_at < 2 ^ 64
      → let now = time_of clock options.now in
        let skew = skew_of options.clock_skew in
        unix_to_internal * second ≤ minus_skew now skew
        → (key : k.PublicKey) × Signed envelope key r
          × (k.peer_id key ≡ some r.peer_id)
          × (options.expected_peer_id ≢ [] → r.peer_id ≡ options.expected_peer_id)
          × (options.expected_service ≢ 0
              → contains_service r.services options.expected_service ≡ true)
          × ((r.issued_at + unix_to_internal) * second ≤ plus_skew now skew)
          × (minus_skew now skew ≤ (r.expires_at + unix_to_internal) * second)
  verify_sound clock options envelope r h bound modern =
      let (key, signed, checked, lasts) = verify-Checked clock options envelope r h in
      let now = time_of clock options.now in
      let skew = skew_of options.clock_skew in
      let (small, late) = not_before r.expires_at (minus_skew now skew) checked.current in
      let whole : r.expires_at + unix_to_internal < 2 ^ 63 = omega arith in
      (
        key,
        signed,
        checked.owner,
        checked.expected,
        checked.service,
        not_after r.issued_at (plus_skew now skew) (omega (arith, lasts, whole)) checked.issued,
        omega (arith, late, whole),
      )
