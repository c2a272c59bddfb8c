-- ===== src/WebRtc/Signaling/Delivery.antt =====
-- What prepareOutgoing makes of a signal, its receiver takes.
use p2p_netcat_go_wrk.Common.{
  ℕ, ◌+◌, ◌/◌, ◌≤◌, ◌≡◌, ◌≢◌, ◌⊎◌, ◌∙◌, sym, ap, refl, subst, Bool, true, false, ◌||◌, ◌&&◌, not,
  Bool-cases, inl, inr, Option, some, [], ◌∷◌, ltb, if◌then◌else◌, Bytes, length, Result, ok,
  or_fail, fail_if, bind_ok, or_fail_ok, fail_if_ok, ok-injective, arith,
}
use p2p_netcat_go_wrk.Common.Text.{bytes_eq, bytes_eq→eq, bytes_eq_self, bytes_eq_iff}
use p2p_netcat_go_wrk.Common.Integers.{pos}
use p2p_netcat_go_wrk.WebRtc.Wire.{is_client_id}
use p2p_netcat_go_wrk.WebRtc.Signaling.{
  millisecond, signal_ttl, max_encrypted_signal_bytes, Signal, Sealing, Error, bad_peer_id,
  bad_session_id, bad_destination, not_marshaled, not_sealed, is_empty,
  validate_signal_payload_sizes, check_kind, bad_session, bad_to, without_payload, stamped,
  signal_additional_data, sealed, prepare_outgoing, is_stale, unsealed, check_opened, open_incoming,
}

-- What the program relies on: JSON, base64 and the seal give back what they were given; JSON only what
-- it can carry, such as a text that is UTF-8 and a candidate that is not the empty object.
pub record SealingLaws {Candidate : Type 0} (lib : Sealing Candidate)
    (Carried : Bytes → Option Candidate → Type 0) : Type 0 where
  pub unmarshal-marshal_payload :
      (sdp : Bytes) (c : Option Candidate) (s : Bytes)
      → Carried sdp c
      → lib.marshal_payload sdp c ≡ some s
      → lib.unmarshal_payload s ≡ some (sdp, c)
  pub open-seal :
      (plaintext additional envelope : Bytes)
      → lib.seal plaintext additional ≡ some envelope
      → (lib.open_sealed envelope additional ≡ some plaintext)
        × (is_empty (lib.encode_base64 envelope) ≡ false)
  pub decode-encode_base64 : (s : Bytes) → lib.decode_base64 (lib.encode_base64 s) ≡ some s

client_id_some : (s : Bytes) → is_client_id s ≡ true → is_empty s ≡ false
unfolding is_client_id
client_id_some [] h = cc
client_id_some (c ∷ s) h = refl

long_some : (s : Bytes) → ltb (length s) 8 ≡ false → is_empty s ≡ false
long_some [] h = cc
long_some (c ∷ s) h = refl

module _ {Candidate : Type 0} (lib : Sealing Candidate)
    (Carried : Bytes → Option Candidate → Type 0) (laws : SealingLaws lib Carried) where
  unsealed-sealed :
      (s m : Signal Candidate)
      → Carried s.sdp s.candidate
      → sealed lib s ≡ ok m
      → (unsealed lib m ≡ ok (record s { encrypted = m.encrypted }))
        × (m ≡ record (without_payload lib s) { encrypted = m.encrypted })
  unfolding unsealed sealed
  unsealed-sealed s m carried h =
      let (plaintext, p, h1) =
        bind_ok (or_fail (lib.marshal_payload s.sdp s.candidate) not_marshaled) _ h in
      let (additional, a, h2) =
        bind_ok (or_fail (signal_additional_data lib (without_payload lib s)) not_marshaled) _ h1 in
      let (envelope, e, h3) = bind_ok (or_fail (lib.seal plaintext additional) not_sealed) _ h2 in
      let written = or_fail_ok (lib.marshal_payload s.sdp s.candidate) not_marshaled p in
      let bound = or_fail_ok (signal_additional_data lib (without_payload lib s)) not_marshaled a in
      let (opens, some_text) =
        laws.open-seal plaintext additional envelope
          (or_fail_ok (lib.seal plaintext additional) not_sealed e) in
      let read = laws.unmarshal-marshal_payload s.sdp s.candidate plaintext carried written in
      let whole : Signal Candidate = record (without_payload lib s) {
        encrypted = lib.encode_base64 envelope;
      } in
      subst
        (λ (x : Signal Candidate).
          (unsealed lib x ≡ ok (record s { encrypted = x.encrypted }))
          × (x ≡ record (without_payload lib s) { encrypted = x.encrypted }))
        (ok-injective {a = whole} {b = m} h3)
        (rw (some_text, bound, laws.decode-encode_base64 envelope, opens, read), refl)

  -- A signal that is sealed or not, as it comes out again.
  carried_over :
      (token : Bool) (s m : Signal Candidate)
      → Carried s.sdp s.candidate
      → (if token then sealed lib s else ok s) ≡ ok m
      → ((if token then unsealed lib m else ok m) ≡ ok (record s { encrypted = m.encrypted }))
        × (m ≡ record s { sdp = m.sdp; candidate = m.candidate; encrypted = m.encrypted })
  carried_over true s m carried h =
      let (opens, is) = unsealed-sealed s m carried h in
      (
        opens,
        subst
            (λ (x : Signal Candidate).
              x ≡ record s { sdp = x.sdp; candidate = x.candidate; encrypted = x.encrypted })
            (sym is) refl,
      )
  carried_over false s m carried h =
      subst
        (λ (x : Signal Candidate).
          (◌≡◌ {A = Result Error (Signal Candidate)} (ok x)
            (ok (record s { encrypted = x.encrypted })))
          × (x ≡ record s { sdp = x.sdp; candidate = x.candidate; encrypted = x.encrypted }))
        (ok-injective {a = s} {b = m} h) (refl, refl)

  prepared :
      (now : ℕ) (token : Bool) (topic peer_id : Bytes) (s m : Signal Candidate)
      → Carried s.sdp s.candidate
      → prepare_outgoing lib now token topic peer_id s ≡ ok m
      → (is_client_id peer_id ≡ true)
        × (check_kind lib s ≡ ok tt)
        × (validate_signal_payload_sizes lib s ≡ ok tt)
        × (bad_session lib s ≡ false)
        × (bad_to lib s ≡ false)
        × ((if token then unsealed lib m else ok m)
            ≡ ok (record (stamped lib now topic peer_id s) { encrypted = m.encrypted }))
        × (m ≡ record (stamped lib now topic peer_id s) {
          sdp = m.sdp;
          candidate = m.candidate;
          encrypted = m.encrypted;
        })
  unfolding prepare_outgoing
  prepared now token topic peer_id s m carried h =
      let (u1, a, h1) = bind_ok (fail_if (not (is_client_id peer_id)) bad_peer_id) _ h in
      let (u2, kind, h2) = bind_ok (check_kind lib s) _ h1 in
      let (u3, sizes, h3) = bind_ok (validate_signal_payload_sizes lib s) _ h2 in
      let (u4, session, h4) = bind_ok (fail_if (bad_session lib s) bad_session_id) _ h3 in
      let (u5, dest, h5) = bind_ok (fail_if (bad_to lib s) bad_destination) _ h4 in
      let a' = fail_if_ok (not (is_client_id peer_id)) bad_peer_id a in
      let (opens, is) = carried_over token (stamped lib now topic peer_id s) m carried h5 in
      (
        ground (arith, a'),
        kind,
        sizes,
        fail_if_ok (bad_session lib s) bad_session_id session,
        fail_if_ok (bad_to lib s) bad_destination dest,
        opens,
        is,
      )

  to_taken :
      (s : Signal Candidate) (me : Bytes)
      → (s.to ≡ []) ⊎ (s.to ≡ me)
      → (not (is_empty s.to) && not (bytes_eq s.to me)) ≡ false
  to_taken s me (inl e) = rw e refl
  to_taken s me (inr e) = let same = (bytes_eq_iff s.to me).1 e in ground arith

  stamped_opened :
      (now later : ℕ) (topic from me encrypted : Bytes) (s : Signal Candidate)
      → check_kind lib s ≡ ok tt
      → validate_signal_payload_sizes lib s ≡ ok tt
      → bad_session lib s ≡ false
      → is_client_id from ≡ true
      → from ≢ me
      → (s.to ≡ []) ⊎ (s.to ≡ me)
      → now ≤ later
      → later + millisecond ≤ now + signal_ttl
      → check_opened lib later topic me
          (record (stamped lib now topic from s) { encrypted = encrypted })
        ≡ ok tt
  unfolding check_opened check_kind validate_signal_payload_sizes
  stamped_opened now later topic from me encrypted s kind sizes session client other addressed
        after_ soon =
      let apart : bytes_eq from me ≡ false = elim (Bool-cases (bytes_eq from me)) [
        | inl e ↦ elim (other (bytes_eq→eq from me e)) [ ]
        | inr e ↦ e
      ] in
      let short : ltb (length s.session_id) 8 ≡ false = ground arith in
      let young : is_stale later (pos (now / millisecond)) ≡ false = ground arith in
      let right = bytes_eq_self topic in
      let taken = to_taken s me addressed in
      let named = long_some s.session_id short in
      let known = client_id_some from client in
      rw (right, apart, taken, named, known, young, kind) sizes

  -- What one session prepares, another session of the same room and token takes: a signal to it or to
  -- all arrives within the two minutes with its payload as it was sent, if the sealed text is within its
  -- limit and the payload is one that JSON carries.
  pub open_incoming-prepare_outgoing :
      (now later : ℕ) (token : Bool) (topic from me : Bytes) (s m : Signal Candidate)
      → prepare_outgoing lib now token topic from s ≡ ok m
      → Carried s.sdp s.candidate
      → from ≢ me
      → (s.to ≡ []) ⊎ (s.to ≡ me)
      → length m.encrypted ≤ max_encrypted_signal_bytes
      → now ≤ later
      → later + millisecond ≤ now + signal_ttl
      → open_incoming lib later token topic me m
        ≡ ok (record (stamped lib now topic from s) { encrypted = m.encrypted })
  unfolding open_incoming
  open_incoming-prepare_outgoing now later token topic from me s m h carried other addressed small
        after_ soon =
      let (client, kind, sizes, session, dest, opens, is) =
        prepared now token topic from s m carried h in
      let m_session = ap (λ (x : Signal Candidate). bad_session lib x) is ∙ session in
      let m_to = ap (λ (x : Signal Candidate). bad_to lib x) is ∙ dest in
      let m_from = ap (λ (x : Signal Candidate). is_client_id x.from) is ∙ client in
      let within : (ltb max_encrypted_signal_bytes (length m.encrypted)
            || bad_session lib m
            || not (is_client_id m.from)
            || bad_to lib m)
          ≡ false =
        ground arith in
      let checked =
        stamped_opened now later topic from me m.encrypted s kind sizes session client other
          addressed after_ soon in
      rw (within, opens, checked)
