-- ===== src/WebRtc/Signaling/Accepted.antt =====
-- What a signal has that openIncoming takes.
use p2p_netcat_go_wrk.Common.{
  ℕ, ◌+◌, ◌*◌, ◌≤◌, ◌≡◌, ◌≢◌, ◌⊎◌, sym, ap, refl, subst, Bool, true, false, ◌||◌, ◌&&◌, not,
  Bool-cases, inl, inr, some, [], ◌∷◌, ltb, ==_iff, if◌then◌else◌, Bytes, length, ok, or_fail,
  fail_if, bind_ok, or_fail_ok, fail_if_ok, ok-injective, then_iff, arith,
}
use p2p_netcat_go_wrk.Common.Text.{bytes_eq, bytes_eq→eq, bytes_eq_iff}
use p2p_netcat_go_wrk.Common.Integers.{ℤ, pos, negsuc}
use p2p_netcat_go_wrk.WebRtc.Wire.{is_client_id}
use p2p_netcat_go_wrk.WebRtc.Signaling.{
  signal_version, millisecond, signal_ttl, max_encrypted_signal_bytes, Signal, Sealing, refused,
  is_empty, validate_signal_payload_sizes, check_kind, bad_session, bad_to, without_payload,
  signal_additional_data, is_stale, unsealed, is_version, check_opened, open_incoming,
}

is_empty_eq : (s : Bytes) → is_empty s ≡ true → s ≡ []
is_empty_eq [] h = refl
is_empty_eq (c ∷ s) h = cc

is_version_eq : (v : ℤ) → is_version v ≡ true → v ≡ signal_version
is_version_eq (pos n) h = ap pos ((==_iff n 2).0 h)
is_version_eq (negsuc n) h = cc

-- Within two minutes of the time, by either clock.
abbrev pub Fresh : ℕ → ℤ → Type 0
Fresh now (pos created) =
    (now ≤ created * millisecond + signal_ttl) × (created * millisecond ≤ now + signal_ttl)
Fresh now (negsuc n) = now + (n + 1) * millisecond ≤ signal_ttl

is_stale-Fresh : (now : ℕ) (created : ℤ) → is_stale now created ≡ false → Fresh now created
is_stale-Fresh now (pos created) h = (ground arith, ground arith)
is_stale-Fresh now (negsuc n) h = ground arith

module _ {Candidate : Type 0} (lib : Sealing Candidate) where
  open lib use {unmarshal_payload, open_sealed, decode_base64}

  -- The payload comes from an envelope that opens under the pairing token, bound to these metadata.
  pub record Authentic (s opened : Signal Candidate) : Type 0 where
    pub additional : Bytes
    pub envelope : Bytes
    pub plaintext : Bytes
    pub binds : signal_additional_data lib (without_payload lib s) ≡ some additional
    pub carried : decode_base64 s.encrypted ≡ some envelope
    pub opens : open_sealed envelope additional ≡ some plaintext
    pub payload : unmarshal_payload plaintext ≡ some (opened.sdp, opened.candidate)

  -- The metadata are those of the signal that came.
  abbrev pub SameMetadata : Signal Candidate → Signal Candidate → Type 0
  SameMetadata s opened = opened ≡ record s { sdp = opened.sdp; candidate = opened.candidate }

  unsealed-Authentic :
      (s opened : Signal Candidate)
      → unsealed lib s ≡ ok opened
      → Authentic s opened × SameMetadata s opened
  unfolding unsealed
  unsealed-Authentic s opened h =
      let (u, e, h1) = bind_ok (fail_if (is_empty s.encrypted) refused) _ h in
      let (additional, a, h2) =
        bind_ok (or_fail (signal_additional_data lib (without_payload lib s)) refused) _ h1 in
      let (envelope, d, h3) = bind_ok (or_fail (decode_base64 s.encrypted) refused) _ h2 in
      let (plaintext, o, h4) = bind_ok (or_fail (open_sealed envelope additional) refused) _ h3 in
      let (payload, p, h5) = bind_ok (or_fail (unmarshal_payload plaintext) refused) _ h4 in
      let whole : Signal Candidate = record s { sdp = payload.0; candidate = payload.1 } in
      subst (λ (x : Signal Candidate). Authentic s x × SameMetadata s x)
        (ok-injective {a = whole} {b = opened} h5)
        (
          record {
            additional = additional;
            envelope = envelope;
            plaintext = plaintext;
            binds = or_fail_ok (signal_additional_data lib (without_payload lib s)) refused a;
            carried = or_fail_ok (decode_base64 s.encrypted) refused d;
            opens = or_fail_ok (open_sealed envelope additional) refused o;
            payload = or_fail_ok (unmarshal_payload plaintext) refused p;
          },
          refl,
        )

  -- The tests that an opened signal passed.
  pub record Admitted (now : ℕ) (topic peer_id : Bytes) (s : Signal Candidate) : Type 0 where
    pub version : s.version ≡ signal_version
    pub room : s.room ≡ topic
    pub from_other : s.from ≢ peer_id
    pub to_me : (s.to ≡ []) ⊎ (s.to ≡ peer_id)
    pub fresh : Fresh now s.created_at
    pub right_kind : check_kind lib s ≡ ok tt
    pub right_sizes : validate_signal_payload_sizes lib s ≡ ok tt

  check_opened-Admitted :
      (now : ℕ) (topic peer_id : Bytes) (s : Signal Candidate)
      → check_opened lib now topic peer_id s ≡ ok tt
      → Admitted now topic peer_id s
  unfolding check_opened
  check_opened-Admitted now topic peer_id s h =
      let (u1, a, h1) =
        bind_ok
          (fail_if
            (not (is_version s.version) || not (bytes_eq s.room topic) || bytes_eq s.from peer_id)
            refused)
          _ h in
      let (u2, b, h2) =
        bind_ok (fail_if (not (is_empty s.to) && not (bytes_eq s.to peer_id)) refused) _ h1 in
      let (u3, c, h3) =
        bind_ok
          (fail_if (is_empty s.session_id || is_empty s.from || is_stale now s.created_at) refused)
          _ h2 in
      let (kind, sizes) =
        (then_iff (check_kind lib s) (validate_signal_payload_sizes lib s)).0 h3 in
      let a' = fail_if_ok _ _ a in
      let b' = fail_if_ok _ _ b in
      let c' = fail_if_ok _ _ c in
      record {
        version = is_version_eq s.version (ground arith);
        room = bytes_eq→eq s.room topic (ground arith);
        from_other = λ e.
            let same = (bytes_eq_iff s.from peer_id).1 e in
            let bad : false ≡ true = ground arith in cc (bad);
        to_me = elim (Bool-cases (is_empty s.to)) [
          | inl e ↦ inl (is_empty_eq s.to e)
          | inr e ↦ inr (bytes_eq→eq s.to peer_id (ground arith))
        ];
        fresh = is_stale-Fresh now s.created_at (ground arith);
        right_kind = kind;
        right_sizes = sizes;
      }

  opened_as :
      (token : Bool) (s o : Signal Candidate)
      → (if token then unsealed lib s else ok s) ≡ ok o
      → SameMetadata s o × ((token ≡ true → Authentic s o) × (token ≡ false → o ≡ s))
  opened_as true s o h =
      let (authentic, meta) = unsealed-Authentic s o h in (meta, (λ e. authentic, λ e. cc (e)))
  opened_as false s o h =
      let same : s ≡ o = ok-injective h in
      (subst (λ (x : Signal Candidate). SameMetadata s x) same refl, (λ e. cc (e), λ e. sym same))

  -- A signal that is taken is of this version and room, from another valid client id and to this one or
  -- to all, within two minutes of the clock, of a known type with the payload that it needs, within the
  -- limits on sizes; and with a pairing token, its payload is what an envelope holds that opens under the
  -- token, bound to the metadata as they came.
  pub open_incoming_sound :
      (now : ℕ) (token : Bool) (topic peer_id : Bytes) (s opened : Signal Candidate)
      → open_incoming lib now token topic peer_id s ≡ ok opened
      → Admitted now topic peer_id opened
        × (is_client_id s.from ≡ true)
        × (8 ≤ length s.session_id)
        × (length s.session_id ≤ 128)
        × SameMetadata s opened
        × (token ≡ true → Authentic s opened)
        × (token ≡ false → opened ≡ s)
  unfolding open_incoming
  open_incoming_sound now token topic peer_id s opened h =
      let (u1, a, h1) =
        bind_ok
          (fail_if
            (ltb max_encrypted_signal_bytes (length s.encrypted)
              || bad_session lib s
              || not (is_client_id s.from)
              || bad_to lib s)
            refused)
          _ h in
      let (o, b, h2) = bind_ok (if token then unsealed lib s else ok s) _ h1 in
      let (u2, c, h3) = bind_ok (check_opened lib now topic peer_id o) _ h2 in
      let same : o ≡ opened = ok-injective {a = o} {b = opened} h3 in
      let a' = fail_if_ok _ _ a in
      let (meta, (sealed_, plain)) = opened_as token s o b in
      let admitted = check_opened-Admitted now topic peer_id o c in
      subst
        (λ (x : Signal Candidate).
          Admitted now topic peer_id x
          × (is_client_id s.from ≡ true)
          × (8 ≤ length s.session_id)
          × (length s.session_id ≤ 128)
          × SameMetadata s x
          × (token ≡ true → Authentic s x)
          × (token ≡ false → x ≡ s))
        same (admitted, ground arith, ground arith, ground arith, meta, sealed_, plain)
