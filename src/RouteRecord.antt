-- ===== src/RouteRecord.antt =====
-- protocol/routerecord/routerecord.go: signed route records. A PeerId is its bytes, a time a count of
-- nanoseconds since 1970, as an integer. The CBOR codec, the multiaddrs and the keys are parameters.
mod Runs
pub mod Unique
pub mod Seen
pub mod Texts
pub mod Payload
pub mod RoundTrip
pub mod Envelope
pub mod Verified
use p2p_netcat_go_wrk.Common.{
  ℕ, ◌+◌, ◌-◌, ◌*◌, ◌^◌, ◌%◌, Bool, true, false, ◌||◌, ◌&&◌, not, Option, none, some, List, [], ◌∷◌,
  ◌++◌, map, ltb, leb, ◌==◌, if◌then◌else◌, Bytes, length, Result, ok, err, ◌>>=◌, ◌>>◌, fail_if,
  or_fail,
}
use p2p_netcat_go_wrk.Common.Text.{bytes_eq}
use p2p_netcat_go_wrk.Common.Crypto.{Keys}
use p2p_netcat_go_wrk.Common.Maps.{find, insert}
use p2p_netcat_go_wrk.Common.Integers.{ℤ, pos, negsuc, lt}
use p2p_netcat_go_wrk.Common.Sorted.{sort, member, bytes_before}

abbrev pub version : ℕ
version = 1

abbrev pub envelope_version : ℕ
envelope_version = 1

abbrev pub default_ttl : ℕ
default_ttl = 180

abbrev pub max_payload_bytes : ℕ
max_payload_bytes = 64 * 1024

abbrev pub max_addresses : ℕ
max_addresses = 64

abbrev pub max_services : ℕ
max_services = 64

-- The seven capability bits.
abbrev pub all_capabilities : ℕ
all_capabilities = 1 + 2 + 4 + 8 + 16 + 32 + 64

pub record Record (Addr : Type 0) : Type 0 where
  pub version : ℕ
  pub peer_id : Bytes
  pub sequence : ℕ
  pub issued_at : ℕ
  pub expires_at : ℕ
  pub services : List ℕ
  -- a `nil` interface is `none`
  pub addresses : List (Option Addr)
  pub relay_reservations : List (Option Addr)
  pub capabilities : ℕ

-- What the program puts in a CBOR map.
pub data Value : Type 0 where
  uint : ℕ → Value
  text byte_string : Bytes → Value
  uints : List ℕ → Value
  texts : List Bytes → Value

-- The canonical encoder, which fails at `none`, and the strict decoder by the type of its target; a map
-- is decoded to the encodings of its values.
pub record Cbor : Type 0 where
  pub marshal : List (ℕ × Value) → Option Bytes
  pub unmarshal_map : Bytes → Option (List (ℕ × Bytes))
  pub unmarshal_uint : Bytes → Option ℕ
  pub unmarshal_text : Bytes → Option Bytes
  pub unmarshal_bytes : Bytes → Option Bytes
  pub unmarshal_uints : Bytes → Option (List ℕ)
  pub unmarshal_texts : Bytes → Option (List Bytes)

-- go-multiaddr, and the texts of PeerIds.
pub record Addresses (Addr : Type 0) : Type 0 where
  pub address_string : Addr → Bytes
  pub new_multiaddr : Bytes → Option Addr
  pub peer_string : Bytes → Bytes
  pub peer_decode : Bytes → Option Bytes

pub data Error : Type 0 where
  bad_version no_peer_id bad_expiration bad_services bad_addresses bad_capabilities : Error
  bad_map unknown_field missing_fields bad_field bad_peer_id bad_port bad_address : Error
  not_canonical not_encoded bad_envelope_version bad_payload bad_key_or_signature : Error
  bad_key bad_signature wrong_key wrong_peer wrong_service not_yet_issued expired unsigned : Error

-- The loop of uniqueServices; its map `seen` has the numbers of `result`.
abbrev pub unique_loop : List ℕ → List ℕ → List ℕ
unique_loop [] result = result
unique_loop (value ∷ values) result =
    if (value == 0) || member ◌==◌ value result
    then unique_loop values result
    else unique_loop values (result ++ value ∷ [])

unfoldable pub unique_services : List ℕ → List ℕ
unique_services values = sort ltb (unique_loop values [])

unfoldable pub contains_service : List ℕ → ℕ → Bool
contains_service [] expected = false
contains_service (value ∷ values) expected = (value == expected) || contains_service values expected

abbrev pub keys_of {ℓ} : {A : Type ℓ} → List (ℕ × A) → List ℕ
keys_of [] = []
keys_of ((key, a) ∷ rest) = key ∷ keys_of rest

-- `allowed[key]` for the keys from zero below `count`.
abbrev pub all_below : ℕ → List ℕ → Bool
all_below count [] = true
all_below count (key ∷ keys) = ltb key count && all_below count keys

-- `fields[key]`, empty where the key is missing.
abbrev pub field : ℕ → List (ℕ × Bytes) → Bytes
field key [] = []
field key ((k, raw) ∷ rest) = let found = field key rest in if k == key then raw else found

unfoldable pub decode_map : Cbor → ℕ → Bytes → Result Error (List (ℕ × Bytes))
decode_map cbor count input = do
  fields ← or_fail (cbor.unmarshal_map input) bad_map
  fail_if (not (all_below count (keys_of fields))) unknown_field
  fail_if (not (length fields == count)) missing_fields
  ok fields

abbrev pub check_services : List ℕ → Result Error (Unit {0})
check_services [] = ok tt
check_services (service ∷ services) =
    fail_if ((service == 0) || ltb 65535 service) bad_port >> check_services services

module _ {Addr : Type 0} (lib : Addresses Addr) where
  open lib use {address_string, new_multiaddr, peer_string, peer_decode}

  -- The map of uniqueAddresses: a later address replaces one of the same text.
  abbrev pub seen_addresses : List (Option Addr) → List (Bytes × Addr) → List (Bytes × Addr)
  seen_addresses [] seen = seen
  seen_addresses (none ∷ values) seen = seen_addresses values seen
  seen_addresses (some a ∷ values) seen = seen_addresses values (insert (address_string a) a seen)

  abbrev pub names_of : List (Bytes × Addr) → List Bytes
  names_of [] = []
  names_of ((name, a) ∷ rest) = name ∷ names_of rest

  abbrev pub look_up : List (Bytes × Addr) → List Bytes → List (Option Addr)
  look_up seen [] = []
  look_up seen (name ∷ names) = find name seen ∷ look_up seen names

  unfoldable pub unique_addresses : List (Option Addr) → List (Option Addr)
  unique_addresses values =
      let seen = seen_addresses values [] in look_up seen (sort bytes_before (names_of seen))

  unfoldable pub normalize : Record Addr → Result Error (Record Addr)
  normalize r = do
    fail_if (not (r.version == version)) bad_version
    fail_if (bytes_eq r.peer_id []) no_peer_id
    fail_if (leb r.expires_at r.issued_at) bad_expiration
    fail_if ((length r.services == 0) || ltb max_services (length r.services)) bad_services
    fail_if
        (ltb max_addresses (length r.addresses) || ltb max_addresses (length r.relay_reservations))
        bad_addresses
    fail_if (not (r.capabilities - r.capabilities % (all_capabilities + 1) == 0)) bad_capabilities
    ok (record r {
      services = unique_services r.services;
      addresses = unique_addresses r.addresses;
      relay_reservations = unique_addresses r.relay_reservations;
    })

  -- Called on what uniqueAddresses returns, which has no `nil`.
  abbrev pub address_strings : List (Option Addr) → List Bytes
  address_strings [] = []
  address_strings (none ∷ values) = address_strings values
  address_strings (some a ∷ values) = address_string a ∷ address_strings values

  abbrev pub payload_fields : Record Addr → List (ℕ × Value)
  payload_fields r =
      (0, uint r.version)
      ∷ (1, text (peer_string r.peer_id))
      ∷ (2, uint r.sequence)
      ∷ (3, uint r.issued_at)
      ∷ (4, uint r.expires_at)
      ∷ (5, uints r.services)
      ∷ (6, texts (address_strings r.addresses))
      ∷ (7, texts (address_strings r.relay_reservations))
      ∷ (8, uint r.capabilities)
      ∷ []

  unfoldable pub encode_payload : Cbor → Record Addr → Result Error Bytes
  encode_payload cbor r = do
    r' ← normalize r
    or_fail (cbor.marshal (payload_fields r')) not_encoded

  abbrev pub parse_addresses : List Bytes → Result Error (List (Option Addr))
  parse_addresses [] = ok []
  parse_addresses (value ∷ values) = do
    address ← or_fail (new_multiaddr value) bad_address
    rest ← parse_addresses values
    ok (some address ∷ rest)

  -- The fields of a payload as a record.
  unfoldable pub decode_fields : Cbor → List (ℕ × Bytes) → Result Error (Record Addr)
  decode_fields cbor fields = do
    v ← or_fail (cbor.unmarshal_uint (field 0 fields)) bad_field
    peer_text ← or_fail (cbor.unmarshal_text (field 1 fields)) bad_field
    sequence ← or_fail (cbor.unmarshal_uint (field 2 fields)) bad_field
    issued_at ← or_fail (cbor.unmarshal_uint (field 3 fields)) bad_field
    expires_at ← or_fail (cbor.unmarshal_uint (field 4 fields)) bad_field
    services ← or_fail (cbor.unmarshal_uints (field 5 fields)) bad_field
    addresses ← or_fail (cbor.unmarshal_texts (field 6 fields)) bad_field
    relays ← or_fail (cbor.unmarshal_texts (field 7 fields)) bad_field
    capabilities ← or_fail (cbor.unmarshal_uint (field 8 fields)) bad_field
    peer_id ← or_fail (peer_decode peer_text) bad_peer_id
    check_services services
    parsed ← parse_addresses addresses
    reservations ← parse_addresses relays
    ok (record {
      version = v;
      peer_id = peer_id;
      sequence = sequence;
      issued_at = issued_at;
      expires_at = expires_at;
      services = services;
      addresses = parsed;
      relay_reservations = reservations;
      capabilities = capabilities;
    })

  -- `err != nil || !bytes.Equal(reencoded, payload)`
  abbrev pub is_encoding : Result Error Bytes → Bytes → Bool
  is_encoding (ok reencoded) payload = bytes_eq reencoded payload
  is_encoding (err e) payload = false

  unfoldable pub decode_payload : Cbor → Bytes → Result Error (Record Addr)
  decode_payload cbor payload = do
    fields ← decode_map cbor 9 payload
    decoded ← decode_fields cbor fields
    r ← normalize decoded
    fail_if (not (is_encoding (encode_payload cbor r) payload)) not_canonical
    ok r
