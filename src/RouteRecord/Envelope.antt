-- ===== src/RouteRecord/Envelope.antt =====
-- The envelope: Sign and Verify. A time counts nanoseconds since the year 1, as Go's time.Time, whose
-- zero is the zero time.
use p2p_netcat_go_wrk.Common.{
  ℕ, ◌+◌, ◌-◌, ◌*◌, ◌/◌, ◌||◌, ◌&&◌, not, List, [], ◌∷◌, ltb, ◌==◌, if◌then◌else◌, Bytes, length,
  Result, ok, or_fail, fail_if, ◌>>=◌, ◌>>◌,
}
use p2p_netcat_go_wrk.Common.Text.{bytes_eq}
use p2p_netcat_go_wrk.Common.Crypto.{Keys}
use p2p_netcat_go_wrk.Common.Integers.{ℤ, pos, negsuc}
use p2p_netcat_go_wrk.Common.Times.{second, unix_to_internal, unix_time, is_after, is_before}
use p2p_netcat_go_wrk.RouteRecord.{
  Record, Value, uint, byte_string, Cbor, Addresses, Error, no_peer_id, not_canonical, not_encoded,
  bad_envelope_version, bad_payload, bad_key_or_signature, bad_key, bad_signature, wrong_key,
  wrong_peer, wrong_service, not_yet_issued, expired, unsigned, version, envelope_version,
  default_ttl, max_payload_bytes, field, decode_map, contains_service, encode_payload, is_encoding,
  decode_payload,
}

-- `now.Unix()` after 1970.
abbrev pub to_unix : ℕ → ℕ
to_unix now = now / second - unix_to_internal

-- An empty PeerId, the port zero, the zero time and no skew stand for nothing expected and the defaults.
pub record VerifyOptions : Type 0 where
  pub expected_peer_id : Bytes
  pub expected_service : ℕ
  pub now : ℕ
  pub clock_skew : ℤ

abbrev pub time_of : ℕ → ℕ → ℕ
time_of clock now = if now == 0 then clock else now

abbrev pub skew_of : ℤ → ℤ
skew_of (pos n) = if n == 0 then pos (30 * second) else pos n
skew_of (negsuc n) = negsuc n

-- `now.Add(skew)` and `now.Add(-skew)`, for a time past the year 1 by a Duration.
abbrev pub plus_skew : ℕ → ℤ → ℕ
plus_skew now (pos n) = now + n
plus_skew now (negsuc n) = now - (n + 1)

abbrev pub minus_skew : ℕ → ℤ → ℕ
minus_skew now (pos n) = now - n
minus_skew now (negsuc n) = now + (n + 1)

abbrev pub envelope_fields : ℕ → Bytes → Bytes → Bytes → List (ℕ × Value)
envelope_fields v payload public signature =
    (0, uint v)
    ∷ (1, byte_string payload)
    ∷ (2, byte_string public)
    ∷ (3, byte_string signature)
    ∷ []

module _ (k : Keys) {Addr : Type 0} (lib : Addresses Addr) (cbor : Cbor) where
  abbrev pub with_defaults : ℕ → Bytes → Record Addr → Record Addr
  with_defaults clock peer_id r = record r {
    peer_id = peer_id;
    version = if r.version == 0 then version else r.version;
    issued_at = if r.issued_at == 0 then to_unix clock else r.issued_at;
    expires_at = if r.expires_at == 0 then to_unix (clock + default_ttl * second) else r.expires_at;
  }

  -- `clock` is what time.Now() gives.
  unfoldable pub sign : ℕ → k.PrivateKey → Record Addr → Result Error Bytes
  sign clock key r = do
    peer_id ← or_fail (k.peer_id (k.public_key key)) no_peer_id
    payload ← encode_payload lib cbor (with_defaults clock peer_id r)
    signature ← or_fail (k.sign key payload) unsigned
    public ← or_fail (k.marshal (k.public_key key)) unsigned
    or_fail (cbor.marshal (envelope_fields envelope_version payload public signature)) not_encoded

  -- The checks of a record whose signature holds.
  unfoldable pub check_record :
      ℕ → VerifyOptions → k.PublicKey → Record Addr → Result Error (Unit {0})
  check_record clock options key r = do
    authenticated ← or_fail (k.peer_id key) wrong_key
    fail_if (not (bytes_eq r.peer_id authenticated)) wrong_key
    fail_if
        (not (bytes_eq options.expected_peer_id [])
          && not (bytes_eq r.peer_id options.expected_peer_id))
        wrong_peer
    fail_if
        (not (options.expected_service == 0)
          && not (contains_service r.services options.expected_service))
        wrong_service
    fail_if
        (is_after (unix_time r.issued_at)
          (plus_skew (time_of clock options.now) (skew_of options.clock_skew)))
        not_yet_issued
    fail_if
        (is_before (unix_time r.expires_at)
          (minus_skew (time_of clock options.now) (skew_of options.clock_skew)))
        expired

  pub record Opened : Type 0 where
    pub version : ℕ
    pub payload : Bytes
    pub public_bytes : Bytes
    pub signature : Bytes
    pub key : k.PublicKey

  abbrev pub fields_of : Opened → List (ℕ × Value)
  fields_of o = envelope_fields o.version o.payload o.public_bytes o.signature

  -- The parts of an envelope.
  unfoldable pub open_envelope : Bytes → Result Error Opened
  open_envelope envelope = do
    fields ← decode_map cbor 4 envelope
    v ← or_fail (cbor.unmarshal_uint (field 0 fields)) bad_envelope_version
    fail_if (not (v == envelope_version)) bad_envelope_version
    payload ← or_fail (cbor.unmarshal_bytes (field 1 fields)) bad_payload
    fail_if ((length payload == 0) || ltb max_payload_bytes (length payload)) bad_payload
    public ← or_fail (cbor.unmarshal_bytes (field 2 fields)) bad_key_or_signature
    signature ← or_fail (cbor.unmarshal_bytes (field 3 fields)) bad_key_or_signature
    key ← or_fail (k.unmarshal public) bad_key
    ok (record {
      version = v;
      payload = payload;
      public_bytes = public;
      signature = signature;
      key = key;
    })

  unfoldable pub verify : ℕ → VerifyOptions → Bytes → Result Error (Record Addr)
  verify clock options envelope = do
    o ← open_envelope envelope
    valid ← or_fail (k.verify o.key o.payload o.signature) bad_signature
    fail_if (not valid) bad_signature
    r ← decode_payload lib cbor o.payload
    check_record clock options o.key r
    fail_if (not (is_encoding lib (or_fail (cbor.marshal (fields_of o)) not_encoded) envelope))
        not_canonical
    ok r
