-- ===== src/RouteRecord/Runs.antt =====
-- A codec with the laws, runs of the code on it, and the theorems at concrete records.
use p2p_netcat_go_wrk.Common.{
  ℕ, suc, zero, ◌+◌, ◌-◌, ◌*◌, ◌≤◌, ◌≡◌, ◌≢◌, ap, subst, refl, true, ◌&&◌, not, Option, none, some,
  List, [], ◌∷◌, ◌++◌, ltb, ◌==◌, Bytes, length, take, drop, take-append_length, drop-append_length,
  ok, err, ◌>>=◌, arith,
}
use p2p_netcat_go_wrk.Common.Text.{codes, bytes_eq}
use p2p_netcat_go_wrk.Common.Crypto.{Keys}
use p2p_netcat_go_wrk.Common.Maps.{find, delete}
use p2p_netcat_go_wrk.Common.Sorted.{sort, member, bytes_before, Ascending}
use p2p_netcat_go_wrk.RouteRecord
use p2p_netcat_go_wrk.RouteRecord.{
  Record, Value, uint, text, byte_string, uints, texts, Cbor, Addresses, decode_payload,
  encode_payload, normalize, unique_services, unique_addresses, contains_service, address_strings,
}
use p2p_netcat_go_wrk.RouteRecord.Unique.{unique_services_lem}
use p2p_netcat_go_wrk.RouteRecord.Seen.{lists}
use p2p_netcat_go_wrk.RouteRecord.Texts.{AddressLaws, Present, unique_addresses_lem}
use p2p_netcat_go_wrk.RouteRecord.Payload.{Agrees, CborLaws, Sendable}
use p2p_netcat_go_wrk.RouteRecord.RoundTrip.{decode_payload-encode_payload}
use p2p_netcat_go_wrk.Common.Integers.{pos}
use p2p_netcat_go_wrk.Common.Times.{second, unix_to_internal, unix_time}
use p2p_netcat_go_wrk.RouteRecord.Envelope.{VerifyOptions, time_of, skew_of, sign, verify}
use p2p_netcat_go_wrk.RouteRecord.Verified.{Signed, verify_sound}

-- A text after its length, as many as the first number says.
abbrev encode_texts : List Bytes → Bytes
encode_texts [] = []
encode_texts (t ∷ ts) = length t ∷ (t ++ encode_texts ts)

abbrev decode_texts : ℕ → Bytes → List Bytes
decode_texts zero s = []
decode_texts (suc count) [] = []
decode_texts (suc count) (n ∷ s) = take n s ∷ decode_texts count (drop n s)

abbrev raw_of : Value → Bytes
raw_of (uint n) = n ∷ []
raw_of (text t) = t
raw_of (byte_string s) = s
raw_of (uints ns) = ns
raw_of (texts ts) = length ts ∷ encode_texts ts

abbrev encode_map : List (ℕ × Value) → Bytes
encode_map [] = []
encode_map ((key, v) ∷ values) = key ∷ length (raw_of v) ∷ (raw_of v ++ encode_map values)

abbrev decode_pairs : ℕ → Bytes → List (ℕ × Bytes)
decode_pairs zero s = []
decode_pairs (suc count) [] = []
decode_pairs (suc count) (key ∷ []) = []
decode_pairs (suc count) (key ∷ n ∷ s) = (key, take n s) ∷ decode_pairs count (drop n s)

abbrev first_of : Bytes → Option ℕ
first_of (n ∷ []) = some n
first_of _ = none

abbrev counted_texts : Bytes → Option (List Bytes)
counted_texts [] = none
counted_texts (count ∷ s) = some (decode_texts count s)

abbrev counted_pairs : Bytes → Option (List (ℕ × Bytes))
counted_pairs [] = none
counted_pairs (count ∷ s) = some (decode_pairs count s)

abbrev codec : Cbor
codec = record {
  marshal = λ values. some (length values ∷ encode_map values);
  unmarshal_map = counted_pairs;
  unmarshal_uint = first_of;
  unmarshal_text = λ s. some s;
  unmarshal_bytes = λ s. some s;
  unmarshal_uints = λ s. some s;
  unmarshal_texts = counted_texts;
}

abbrev AnyText : Bytes → Type 0
AnyText t = Unit

decode-encode_texts : (ts : List Bytes) → decode_texts (length ts) (encode_texts ts) ≡ ts
decode-encode_texts [] = refl
decode-encode_texts (t ∷ ts) = rw (
  take-append_length t (encode_texts ts),
  drop-append_length t (encode_texts ts),
  decode-encode_texts ts,
)

raw-Decodes : (v : Value) → RouteRecord.Payload.Decodes codec AnyText v (raw_of v)
raw-Decodes (uint n) = λ h. refl
raw-Decodes (text t) = λ h. refl
raw-Decodes (byte_string s) = refl
raw-Decodes (uints ns) = λ h k. refl
raw-Decodes (texts ts) = λ h k. ap (λ (l : List Bytes). some l) (decode-encode_texts ts)

decode_pairs-Agrees :
    (values : List (ℕ × Value))
    → Agrees codec AnyText (decode_pairs (length values) (encode_map values)) values
decode_pairs-Agrees [] = refl
decode_pairs-Agrees ((key, v) ∷ values) = (
  raw_of v,
  decode_pairs (length values) (encode_map values),
  rw (
    take-append_length (raw_of v) (encode_map values),
    drop-append_length (raw_of v) (encode_map values),
  ),
  raw-Decodes v,
  decode_pairs-Agrees values,
)

codec_laws : CborLaws codec AnyText
codec_laws = record {
  unmarshal-marshal = λ values s up few h.
      let e : (length values ∷ encode_map values) ≡ s = cc (h) in
      (
        decode_pairs (length values) (encode_map values),
        subst
            (λ (t : Bytes).
              counted_pairs t ≡ some (decode_pairs (length values) (encode_map values)))
            e refl,
        decode_pairs-Agrees values,
      );
}

-- An address is its text, as is a PeerId.
abbrev plain : Addresses Bytes
plain = record {
  address_string = λ a. a;
  new_multiaddr = λ s. some s;
  peer_string = λ s. s;
  peer_decode = λ s. some s;
}

plain_laws : AddressLaws plain
plain_laws = record { new_multiaddr-address_string = λ a. refl }

abbrev one_byte : Bytes → Option ℕ
one_byte (n ∷ []) = some n
one_byte _ = none

-- A key is a number, which stands in front of the text that it signs.
abbrev toy : Keys
toy = record {
  PrivateKey = ℕ;
  PublicKey = ℕ;
  public_key = λ n. n;
  peer_id = λ n. some (n ∷ []);
  peer_string = λ s. s;
  sign = λ n s. some (n ∷ s);
  verify = λ n s signature. some (bytes_eq signature (n ∷ s));
  marshal = λ n. some (n ∷ []);
  unmarshal = one_byte;
  sha256 = λ s. s;
}

abbrev listed : Record Bytes
listed = record {
  version = 1;
  peer_id = 7 ∷ [];
  sequence = 3;
  issued_at = 1000;
  expires_at = 1180;
  services = 443 ∷ 80 ∷ 443 ∷ 0 ∷ [];
  addresses = some (codes "b") ∷ some (codes "a") ∷ none ∷ some (codes "b") ∷ [];
  relay_reservations = [];
  capabilities = 5;
}

abbrev normal : Record Bytes
normal = record listed {
  services = 80 ∷ 443 ∷ [];
  addresses = some (codes "a") ∷ some (codes "b") ∷ [];
}

normalize-listed : normalize plain listed ≡ ok normal
unfolding normalize unique_services unique_addresses sort member find delete bytes_before bytes_eq
normalize-listed = refl

normal-Sendable : Sendable plain AnyText normal
normal-Sendable = record {
  some_service = λ h. omega (arith, h);
  ports = ((refl, omega arith), ((refl, omega arith), tt));
  sequence = omega arith;
  expires_at = omega arith;
  peer_named = refl;
  peer_text = tt;
  address_texts = (tt, (tt, tt));
  reservation_texts = tt;
}

abbrev written : Bytes
written = 9 ∷ encode_map (RouteRecord.payload_fields plain normal)

encode_payload-listed : encode_payload plain codec listed ≡ ok written
unfolding encode_payload normalize unique_services unique_addresses sort member find delete
    bytes_before bytes_eq
encode_payload-listed = refl

decode_payload-encode_payload_example : decode_payload plain codec written ≡ ok normal
decode_payload-encode_payload_example =
    decode_payload-encode_payload plain plain_laws codec AnyText codec_laws listed normal written
      normalize-listed normal-Sendable encode_payload-listed

unique_services_lem_example :
    Ascending ltb (unique_services (443 ∷ 80 ∷ 443 ∷ 0 ∷ []))
    × (contains_service (unique_services (443 ∷ 80 ∷ 443 ∷ 0 ∷ [])) 80
        ≡ (not (80 == 0) && contains_service (443 ∷ 80 ∷ 443 ∷ 0 ∷ []) 80))
    × (length (unique_services (443 ∷ 80 ∷ 443 ∷ 0 ∷ [])) ≤ 4)
unique_services_lem_example = unique_services_lem (443 ∷ 80 ∷ 443 ∷ 0 ∷ []) 80

unique_addresses_lem_example :
    Ascending bytes_before (address_strings plain (unique_addresses plain listed.addresses))
    × (lists plain (unique_addresses plain listed.addresses) (codes "a")
        ≡ lists plain listed.addresses (codes "a"))
    × Present plain (unique_addresses plain listed.addresses)
    × (length (unique_addresses plain listed.addresses) ≤ 4)
unique_addresses_lem_example = unique_addresses_lem plain listed.addresses (codes "a")

abbrev envelope : Bytes
envelope = 4 ∷ encode_map (RouteRecord.Envelope.envelope_fields 1 written (7 ∷ []) (7 ∷ written))

-- The key 7 signs the record as its own.
listed_signed : sign toy plain codec 0 7 listed ≡ ok envelope
unfolding sign encode_payload normalize unique_services unique_addresses sort member find delete
    bytes_before bytes_eq
listed_signed = refl

-- A client that looks for the port 443 of the peer, a minute after the record was made.
abbrev looking : VerifyOptions
looking = record {
  expected_peer_id = 7 ∷ [];
  expected_service = 443;
  now = (unix_to_internal + 1060) * second;
  clock_skew = pos 0;
}

signed_verified : verify toy plain codec 0 looking envelope ≡ ok normal
unfolding verify RouteRecord.Envelope.open_envelope RouteRecord.decode_map bytes_eq decode_payload
    RouteRecord.decode_fields normalize encode_payload unique_services sort member unique_addresses
    delete bytes_before find RouteRecord.Envelope.check_record contains_service unix_time
signed_verified = refl

verify_sound_example :
    (key : ℕ) × Signed toy plain codec envelope key normal
    × (toy.peer_id key ≡ some (7 ∷ []))
    × (looking.expected_peer_id ≢ [] → 7 ∷ [] ≡ looking.expected_peer_id)
    × (looking.expected_service ≢ 0 → contains_service (80 ∷ 443 ∷ []) 443 ≡ true)
    × ((1000 + unix_to_internal) * second ≤ looking.now + 30 * second)
    × (looking.now - 30 * second ≤ (1180 + unix_to_internal) * second)
verify_sound_example =
    verify_sound toy plain codec 0 looking envelope normal signed_verified (omega arith)
      (omega arith)

-- A record of the port zero alone is encoded, and the encoding is refused by the decoder.
abbrev portless : Record Bytes
portless = record listed { services = 0 ∷ [] }

portless_refused :
    (encode_payload plain codec portless >>= decode_payload plain codec)
    ≡ err RouteRecord.bad_services
unfolding encode_payload decode_payload normalize bytes_eq RouteRecord.decode_map unique_services
    sort unique_addresses delete bytes_before find RouteRecord.decode_fields
portless_refused = refl
