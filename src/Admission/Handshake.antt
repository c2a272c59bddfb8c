-- ===== src/Admission/Handshake.antt =====
-- What an accepted handshake shows, and that holders of one token accept each other.
use p2p_netcat_go_wrk.Common.{
  ◌-◌, ◌%◌, ◌∷◌, ltb, take, drop, All, All-take, All-drop, IsByte, ok-injective, ℕ, ◌+◌, ◌*◌, ◌/◌,
  ◌^◌, ◌<◌, ◌≤◌, ◌≡◌, ◌∙◌, sym, ap, true, false, not, Option, none, some, Bytes, length, arith, ok,
  bind_ok, fail_if, fail_if_ok, wrap, wrap_ok, or_fail_ok, ◌==◌, [],
}
use p2p_netcat_go_wrk.Common.BigEndian.{u64, u64-lt}
use p2p_netcat_go_wrk.Common.Integers.{pos}
use p2p_netcat_go_wrk.Common.Times.{
  second, unix_to_internal, unix_time, is_before, is_after, not_before, not_after,
}
use p2p_netcat_go_wrk.Common.Text.{codes, bytes_eq, bytes_eq→eq, bytes_eq_self}
use p2p_netcat_go_wrk.Pairing.{Token, Primitives, validate, derive_key}
use p2p_netcat_go_wrk.Admission.{
  Frame, Hello, client_hello, server_ack, nonce_size, mac_size, frame_size, version, magic,
  since_year_1, decode_body, bad_version, bad_kind, bad_length, bad_signature, encode, decode,
  fill_nonce, is_outside, mac_input, calculate_mac, create_hello, verify_hello, create_ack,
  verify_ack, token_error, outside_window, not_authenticated, timestamp_changed, not_confirmed,
  bad_nonce, no_random, Error,
}
use p2p_netcat_go_wrk.Admission.Frames.{decode-encode}

-- A timestamp of 64 bits inside the window is not one that Go takes for a time before 1970.
within :
    (timestamp now skew : ℕ)
    → timestamp < 2 ^ 64
    → skew ≤ now
    → is_outside timestamp now (pos skew) ≡ false
    → (now ≤ timestamp * second + skew) × (timestamp * second ≤ now + skew)
within timestamp now skew small modern h =
    let early : is_before (unix_time timestamp) (since_year_1 now - skew) ≡ false = ground arith in
    let late : is_after (unix_time timestamp) (since_year_1 now + skew) ≡ false = ground arith in
    let (positive, from) = not_before timestamp (since_year_1 now - skew) early in
    let fits : timestamp + unix_to_internal < 2 ^ 63 = omega (arith, positive, from) in
    let to = not_after timestamp (since_year_1 now + skew) fits late in
    (omega (arith, from, fits), omega (arith, to))

-- The other way around, for a timestamp that Go can represent.
inside_window :
    (timestamp now skew : ℕ)
    → timestamp + unix_to_internal < 2 ^ 63
    → now ≤ timestamp * second + skew
    → timestamp * second ≤ now + skew
    → is_outside timestamp now (pos skew) ≡ false
unfolding unix_time
inside_window timestamp now skew fits from to =
    let e : (timestamp + unix_to_internal) % 2 ^ 64 ≡ timestamp + unix_to_internal = omega arith in
    let small : ltb ((timestamp + unix_to_internal) % 2 ^ 64) (2 ^ 63) ≡ true = ground arith in
    rw (small, e) (ground arith)

decode_body-timestamp :
    (expected : ℕ) (body : Bytes) (value : Frame)
    → decode_body expected body ≡ ok value
    → All IsByte body
    → value.timestamp < 2 ^ 64
decode_body-timestamp expected [] value h bytes = cc
decode_body-timestamp expected (v ∷ []) value h bytes = cc
decode_body-timestamp expected (v ∷ kind ∷ body) value h bytes =
    let (_, _, h1) = bind_ok (fail_if (not (v == version)) (bad_version v)) _ h in
    let (_, _, h2) = bind_ok (fail_if (not (kind == expected)) (bad_kind kind)) _ h1 in
    let is : u64 (take 8 body) ≡ value.timestamp =
      ap (λ (x : Frame). x.timestamp) (ok-injective h2) in
    rw (sym is) (u64-lt (take 8 body) (All-take IsByte 8 body bytes.1.1))

decode-timestamp :
    (encoded : Bytes) (expected : ℕ) (value : Frame)
    → decode encoded expected ≡ ok value
    → All IsByte encoded
    → value.timestamp < 2 ^ 64
unfolding decode
decode-timestamp encoded expected value h bytes =
    let (_, _, h1) = bind_ok (fail_if (not (length encoded == frame_size)) bad_length) _ h in
    let (_, _, h2) = bind_ok (fail_if (not (bytes_eq (take 4 encoded) magic)) bad_signature) _ h1 in
    decode_body-timestamp expected (drop 4 encoded) value h2 (All-drop IsByte 4 encoded bytes)

module _ (lib : Primitives) where
  -- A frame that holds the code of this text under the key of the token.
  abbrev pub Authentic : Token → Bytes → Bytes → Type 0
  Authentic t text mac =
      (key : Bytes) × (derive_key lib t (codes "admission") ≡ ok key) × (mac ≡ lib.hmac key text)

  calculated :
      (t : Token) (text mac : Bytes) → calculate_mac lib t text ≡ ok mac → Authentic t text mac
  unfolding calculate_mac
  calculated t text mac h =
      let (key, k, h') = bind_ok (wrap token_error (derive_key lib t (codes "admission"))) _ h in
      (key, wrap_ok token_error _ k, sym (cc h'))

  compared :
      (t : Token) (text expected mac : Bytes) (e : Error) (u : Unit {0})
      → calculate_mac lib t text ≡ ok expected
      → fail_if (not (bytes_eq expected mac)) e ≡ ok u
      → Authentic t text mac
  compared t text expected mac e u h f =
      let same : bytes_eq expected mac ≡ true = ground (arith, fail_if_ok _ _ f) in
      let (key, k, shape) = calculated t text expected h in
      (key, k, sym (bytes_eq→eq expected mac same) ∙ shape)

  -- A server accepts a greeting only if the token is valid at that time, the greeting's timestamp lies
  -- within the allowed skew of it, and the greeting holds the code, under the token's key, of the
  -- client's role, the PeerId and port of the token, this timestamp and the client's nonce. The
  -- greeting is of bytes, and the server's clock is past 1970 by the skew at least, so that no
  -- timestamp of 2^63 and more, which Go takes for a time before 1970, is in the window.
  pub verify_hello_sound :
      (t : Token) (encoded : Bytes) (now skew : ℕ) (hello : Hello)
      → All IsByte encoded
      → skew ≤ now
      → verify_hello lib t encoded now (pos skew) ≡ ok hello
      → (validate lib (some (now / second)) t ≡ ok tt)
        × (now ≤ hello.timestamp * second + skew)
        × (hello.timestamp * second ≤ now + skew)
        × (value : Frame) × (decode encoded client_hello ≡ ok value)
        × (hello ≡ record { timestamp = value.timestamp; client_nonce = value.nonce })
        × Authentic t (mac_input lib (codes "client") t value.timestamp value.nonce []) value.mac
  unfolding verify_hello
  verify_hello_sound t encoded now skew hello bytes modern h =
      let (_, v, h1) = bind_ok (wrap token_error (validate lib (some (now / second)) t)) _ h in
      let (value, d, h2) = bind_ok (decode encoded client_hello) _ h1 in
      let (_, w, h3) =
        bind_ok (fail_if (is_outside value.timestamp now (pos skew)) outside_window) _ h2 in
      let (expected, c, h4) =
        bind_ok
          (calculate_mac lib t (mac_input lib (codes "client") t value.timestamp value.nonce [])) _
          h3 in
      let (_, f, h5) =
        bind_ok (fail_if (not (bytes_eq expected value.mac)) not_authenticated) _ h4 in
      let (early, late) =
        within value.timestamp now skew (decode-timestamp encoded client_hello value d bytes) modern
          (fail_if_ok _ _ w) in
      let is : record { timestamp = value.timestamp; client_nonce = value.nonce } ≡ hello = cc h5 in
      let stamp : value.timestamp ≡ hello.timestamp = ap (λ (x : Hello). x.timestamp) is in
      (
        wrap_ok _ _ v,
        omega (arith, stamp, early),
        omega (arith, stamp, late),
        value,
        d,
        sym is,
        compared t (mac_input lib (codes "client") t value.timestamp value.nonce []) expected
            value.mac not_authenticated _ c f,
      )

  -- A client accepts an acknowledgment only if it repeats the timestamp of its greeting and holds the
  -- code, under the token's key, of the server's role, the PeerId and port of the token, the timestamp
  -- and nonce of the greeting and the server's nonce.
  pub verify_ack_sound :
      (t : Token) (hello : Hello) (encoded : Bytes)
      → verify_ack lib t hello encoded ≡ ok tt
      → (value : Frame) × (decode encoded server_ack ≡ ok value)
        × (value.timestamp ≡ hello.timestamp)
        × Authentic t
            (mac_input lib (codes "server") t hello.timestamp hello.client_nonce value.nonce)
            value.mac
  unfolding verify_ack
  verify_ack_sound t hello encoded h =
      let (value, d, h1) = bind_ok (decode encoded server_ack) _ h in
      let (_, s, h2) =
        bind_ok (fail_if (not (value.timestamp == hello.timestamp)) timestamp_changed) _ h1 in
      let (expected, c, f) =
        bind_ok
          (calculate_mac lib t
            (mac_input lib (codes "server") t hello.timestamp hello.client_nonce value.nonce))
          _ h2 in
      (
        value,
        d,
        ground (arith, fail_if_ok _ _ s),
        compared t (mac_input lib (codes "server") t hello.timestamp hello.client_nonce value.nonce)
            expected value.mac not_confirmed _ c f,
      )

  -- A nonce that was filled in, given that the random source gives 16 bytes.
  filled_length :
      (random nonce : Option Bytes) (filled : Bytes)
      → ((r : Bytes) → random ≡ some r → length r ≡ nonce_size)
      → fill_nonce random nonce ≡ ok filled
      → length filled ≡ nonce_size
  unfolding fill_nonce
  filled_length random none filled sized h = sized filled (or_fail_ok random no_random h)
  filled_length random (some source) filled sized h =
      let (_, f, h') = bind_ok (fail_if (not (length source == nonce_size)) bad_nonce) _ h in
      ground (arith, fail_if_ok _ _ f)

  mac_length :
      (t : Token) (text mac : Bytes)
      → ((key text : Bytes) → length (lib.hmac key text) ≡ mac_size)
      → calculate_mac lib t text ≡ ok mac
      → length mac ≡ mac_size
  mac_length t text mac sized h =
      let (key, _, e) = calculated t text mac h in ap (λ (m : Bytes). length m) e ∙ sized key text

  module _ (sized : (key text : Bytes) → length (lib.hmac key text) ≡ mac_size) where
    -- The greeting that a client creates is accepted by a server with the same token, while the token
    -- is valid there, and the server's clock differs by at most the allowed skew from the client's,
    -- cut to whole seconds; the server then knows the client's timestamp and nonce. Codes have 32
    -- bytes, random nonces 16, and the client's time is one that Go can represent.
    pub verify_hello-create_hello :
        (t : Token) (now now' skew : ℕ) (random nonce : Option Bytes) (encoded : Bytes)
        (hello : Hello)
        → ((r : Bytes) → random ≡ some r → length r ≡ nonce_size)
        → now / second + unix_to_internal < 2 ^ 63
        → create_hello lib t now random nonce ≡ ok (encoded, hello)
        → validate lib (some (now' / second)) t ≡ ok tt
        → now' ≤ now / second * second + skew
        → now / second * second ≤ now' + skew
        → verify_hello lib t encoded now' (pos skew) ≡ ok hello
    unfolding create_hello verify_hello
    verify_hello-create_hello t now now' skew random nonce encoded hello r fits h v from to =
        let small : now / second < 2 ^ 64 = omega (arith, fits) in
        let inside = inside_window (now / second) now' skew fits from to in
        let (_, _, h1) = bind_ok (wrap token_error (validate lib (some (now / second)) t)) _ h in
        let (filled, f, h2) = bind_ok (fill_nonce random nonce) _ h1 in
        let text = mac_input lib (codes "client") t (now / second) filled [] in
        let (mac, c, h3) = bind_ok (calculate_mac lib t text) _ h2 in
        let encoded_is : encode client_hello (now / second) filled mac ≡ encoded = cc h3 in
        let hello_is : record { timestamp = now / second; client_nonce = filled } ≡ hello = cc h3 in
        let decoded =
          decode-encode client_hello (now / second) filled mac small
            (filled_length random nonce filled r f) (mac_length t text mac sized c) in
        rw (sym encoded_is, v, decoded, inside, c, bytes_eq_self mac) (ap ok hello_is)

    -- The acknowledgment that a server creates for a greeting is accepted by the client of that
    -- greeting, if both have the same token.
    pub verify_ack-create_ack :
        (t : Token) (hello : Hello) (random nonce : Option Bytes) (encoded : Bytes)
        → ((r : Bytes) → random ≡ some r → length r ≡ nonce_size)
        → hello.timestamp < 2 ^ 64
        → create_ack lib t hello random nonce ≡ ok encoded
        → verify_ack lib t hello encoded ≡ ok tt
    unfolding create_ack verify_ack
    verify_ack-create_ack t hello random nonce encoded r small h =
        let (filled, f, h1) = bind_ok (fill_nonce random nonce) _ h in
        let text = mac_input lib (codes "server") t hello.timestamp hello.client_nonce filled in
        let (mac, c, h2) = bind_ok (calculate_mac lib t text) _ h1 in
        let encoded_is : encode server_ack hello.timestamp filled mac ≡ encoded = cc h2 in
        let decoded =
          decode-encode server_ack hello.timestamp filled mac small
            (filled_length random nonce filled r f) (mac_length t text mac sized c) in
        let stamp : (hello.timestamp == hello.timestamp) ≡ true = ground arith in
        rw (sym encoded_is, decoded, stamp, c, bytes_eq_self mac)
