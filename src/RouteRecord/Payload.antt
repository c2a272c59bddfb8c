-- ===== src/RouteRecord/Payload.antt =====
-- Records survive their encoding, and each has one encoding.
use p2p_netcat_go_wrk.Common.{
  ℕ, ◌+◌, ◌-◌, ◌%◌, ◌^◌, ◌≤◌, ◌<◌, ◌≡◌, ◌≢◌, sym, subst, Bool, true, false, ◌||◌, ◌&&◌, not, some,
  List, [], ◌∷◌, ltb, leb, ◌==◌, Bytes, length, All, ok, fail_if, bind_ok, fail_if_ok, arith,
}
use p2p_netcat_go_wrk.Common.Text.{bytes_eq}
use p2p_netcat_go_wrk.RouteRecord.{
  Record, Value, uint, text, byte_string, uints, texts, Cbor, Addresses, bad_version, no_peer_id,
  bad_expiration, bad_services, bad_addresses, bad_capabilities, version, max_services,
  max_addresses, all_capabilities, unique_services, keys_of, unique_addresses, normalize,
  address_strings,
}
use p2p_netcat_go_wrk.RouteRecord.Unique.{unique_services_lem, unique_services_again}
use p2p_netcat_go_wrk.RouteRecord.Texts.{
  AddressLaws, Present, unique_addresses_lem, unique_addresses_again,
}

-- What the decoder makes of the encoding of a value: numbers of 64 bits, arrays of at most 128 elements,
-- and texts that are UTF-8.
abbrev pub Decodes : Cbor → (Bytes → Type 0) → Value → Bytes → Type 0
Decodes cbor IsText (uint n) raw = n < 2 ^ 64 → cbor.unmarshal_uint raw ≡ some n
Decodes cbor IsText (text t) raw = IsText t → cbor.unmarshal_text raw ≡ some t
Decodes cbor IsText (byte_string s) raw = cbor.unmarshal_bytes raw ≡ some s
Decodes cbor IsText (uints ns) raw =
    length ns ≤ 128 → All (λ (n : ℕ). n < 2 ^ 64) ns → cbor.unmarshal_uints raw ≡ some ns
Decodes cbor IsText (texts ts) raw =
    length ts ≤ 128 → All IsText ts → cbor.unmarshal_texts raw ≡ some ts

-- A decoded map against the one that was encoded; the program's maps are written in ascending order.
abbrev pub Agrees : Cbor → (Bytes → Type 0) → List (ℕ × Bytes) → List (ℕ × Value) → Type 0
Agrees cbor IsText fields [] = fields ≡ []
Agrees cbor IsText fields ((key, v) ∷ values) =
    (raw : Bytes) × (rest : List (ℕ × Bytes)) × (fields ≡ (key, raw) ∷ rest)
    × Decodes cbor IsText v raw
    × Agrees cbor IsText rest values

abbrev pub rising : List ℕ → Bool
rising [] = true
rising (a ∷ []) = true
rising (a ∷ b ∷ rest) = ltb a b && rising (b ∷ rest)

-- What the program relies on of the codec: what it encoded is decoded.
pub record CborLaws (cbor : Cbor) (IsText : Bytes → Type 0) : Type 0 where
  pub unmarshal-marshal :
      (values : List (ℕ × Value)) (s : Bytes)
      → rising (keys_of values) ≡ true
      → length values ≤ 32
      → cbor.marshal values ≡ some s
      → (fields : List (ℕ × Bytes)) × (cbor.unmarshal_map s ≡ some fields)
        × Agrees cbor IsText fields values

-- What a record needs to be sent: some port left besides zero, ports of 16 bits, numbers of 64 bits, a
-- PeerId that its text names, and texts that are UTF-8.
pub record Sendable {Addr : Type 0} (lib : Addresses Addr) (IsText : Bytes → Type 0)
    (r : Record Addr) : Type 0 where
  pub some_service : length r.services ≢ 0
  pub ports : All (λ (n : ℕ). (n == 0 ≡ false) × (n < 65536)) r.services
  pub sequence : r.sequence < 2 ^ 64
  pub expires_at : r.expires_at < 2 ^ 64
  pub peer_named : lib.peer_decode (lib.peer_string r.peer_id) ≡ some r.peer_id
  pub peer_text : IsText (lib.peer_string r.peer_id)
  pub address_texts : All IsText (address_strings lib r.addresses)
  pub reservation_texts : All IsText (address_strings lib r.relay_reservations)

module _ {Addr : Type 0} (lib : Addresses Addr) where
  -- What normalization found.
  pub record Normalized (r r' : Record Addr) : Type 0 where
    pub same : r' ≡ record r {
      services = unique_services r.services;
      addresses = unique_addresses lib r.addresses;
      relay_reservations = unique_addresses lib r.relay_reservations;
    }
    pub right_version : (r.version == version) ≡ true
    pub peer : bytes_eq r.peer_id [] ≡ false
    pub lasts : leb r.expires_at r.issued_at ≡ false
    pub few_services : ltb max_services (length r.services) ≡ false
    pub few_addresses :
        (ltb max_addresses (length r.addresses) || ltb max_addresses (length r.relay_reservations))
        ≡ false
    pub mask : (r.capabilities - r.capabilities % (all_capabilities + 1) == 0) ≡ true

  pub normalize-Normalized : (r r' : Record Addr) → normalize lib r ≡ ok r' → Normalized r r'
  unfolding normalize
  normalize-Normalized r r' h =
      let (u1, v, h1) = bind_ok (fail_if (not (r.version == version)) bad_version) _ h in
      let (u2, p, h2) = bind_ok (fail_if (bytes_eq r.peer_id []) no_peer_id) _ h1 in
      let (u3, x, h3) = bind_ok (fail_if (leb r.expires_at r.issued_at) bad_expiration) _ h2 in
      let (u4, f, h4) =
        bind_ok
          (fail_if ((length r.services == 0) || ltb max_services (length r.services)) bad_services)
          _ h3 in
      let (u5, a, h5) =
        bind_ok
          (fail_if
            (ltb max_addresses (length r.addresses)
              || ltb max_addresses (length r.relay_reservations))
            bad_addresses)
          _ h4 in
      let (u6, m, h6) =
        bind_ok
          (fail_if (not (r.capabilities - r.capabilities % (all_capabilities + 1) == 0))
            bad_capabilities)
          _ h5 in
      let v' = fail_if_ok _ _ v in
      let f' = fail_if_ok _ _ f in
      let m' = fail_if_ok _ _ m in
      record {
        same = sym (cc (h6));
        right_version = ground (arith, v');
        peer = fail_if_ok _ _ p;
        lasts = fail_if_ok _ _ x;
        few_services = ground (arith, f');
        few_addresses = fail_if_ok _ _ a;
        mask = ground (arith, m');
      }

  -- What holds of a normalized record besides.
  pub Normalized-bounds :
      (r r' : Record Addr)
      → Normalized r r'
      → r'.expires_at < 2 ^ 64
      → (r'.version < 2 ^ 64)
        × (r'.issued_at < 2 ^ 64)
        × (r'.capabilities < 2 ^ 64)
        × (length r'.services ≤ 128)
        × (length r'.addresses ≤ 128)
        × (length r'.relay_reservations ≤ 128)
        × Present lib r'.addresses
        × Present lib r'.relay_reservations
  Normalized-bounds r r' n small =
      let small' : r.expires_at < 2 ^ 64 =
        subst (λ (x : Record Addr). x.expires_at < 2 ^ 64) n.same small in
      let few = n.few_services in
      let room = n.few_addresses in
      let late = n.lasts in
      let mask = n.mask in
      let right = n.right_version in
      let as_ = unique_addresses_lem lib r.addresses [] in
      let rs = unique_addresses_lem lib r.relay_reservations [] in
      subst
        (λ (x : Record Addr).
          (x.version < 2 ^ 64)
          × (x.issued_at < 2 ^ 64)
          × (x.capabilities < 2 ^ 64)
          × (length x.services ≤ 128)
          × (length x.addresses ≤ 128)
          × (length x.relay_reservations ≤ 128)
          × Present lib x.addresses
          × Present lib x.relay_reservations)
        (sym n.same)
        (
          ground arith,
          ground arith,
          ground arith,
          ground (arith, (unique_services_lem r.services 0).2),
          ground (arith, as_.3),
          ground (arith, rs.3),
          as_.2,
          rs.2,
        )

  -- A normalized record is left as it is, unless no service was left.
  pub normalize_again :
      (laws : AddressLaws lib) (r r' : Record Addr)
      → Normalized r r'
      → length r'.services ≢ 0
      → normalize lib r' ≡ ok r'
  unfolding normalize
  normalize_again laws r r' n nonzero =
      let once : Record Addr = record r {
        services = unique_services r.services;
        addresses = unique_addresses lib r.addresses;
        relay_reservations = unique_addresses lib r.relay_reservations;
      } in
      let left : length once.services ≢ 0 =
        subst (λ (x : Record Addr). length x.services ≢ 0) n.same nonzero in
      let few : ((length once.services == 0) || ltb max_services (length once.services)) ≡ false =
        ground (arith, left, n.few_services, (unique_services_lem r.services 0).2) in
      let room : (ltb max_addresses (length once.addresses)
            || ltb max_addresses (length once.relay_reservations))
          ≡ false =
        ground (
          arith,
          n.few_addresses,
          (unique_addresses_lem lib r.addresses []).3,
          (unique_addresses_lem lib r.relay_reservations []).3,
        ) in
      subst (λ (x : Record Addr). normalize lib x ≡ ok x) (sym n.same)
        (rw (
          n.right_version,
          n.peer,
          n.lasts,
          few,
          room,
          n.mask,
          unique_services_again r.services,
          unique_addresses_again lib laws r.addresses,
          unique_addresses_again lib laws r.relay_reservations,
        ))
