-- ===== src/WebRtc/Signaling/Runs.antt =====
-- A sealing with the laws, a signal that is sent and taken, and the theorems at it.
use p2p_netcat_go_wrk.Common.{
  zero, suc, ◌≤◌, ◌≡◌, ◌≢◌, refl, true, false, Option, none, some, inl, [], ◌∷◌, ◌++◌,
  if◌then◌else◌, Bytes, length, take, drop, take-append_length, drop-append_length, ok, err, arith,
}
use p2p_netcat_go_wrk.Common.Text.{codes, bytes_eq, bytes_eq_self, bytes_eq_iff}
use p2p_netcat_go_wrk.Common.Integers.{pos}
use p2p_netcat_go_wrk.WebRtc.Wire.{is_client_id}
use p2p_netcat_go_wrk.WebRtc.Signaling.{
  Signal, Sealing, refused, sealed, prepare_outgoing, check_kind, validate_signal_payload_sizes,
  unsealed, check_opened, open_incoming, stamped,
}
use p2p_netcat_go_wrk.WebRtc.Signaling.Accepted.{
  Authentic, SameMetadata, Admitted, open_incoming_sound,
}
use p2p_netcat_go_wrk.WebRtc.Signaling.Delivery.{SealingLaws, open_incoming-prepare_outgoing}

abbrev write_payload : Bytes → Option Bytes → Bytes
write_payload sdp none = 0 ∷ sdp
write_payload sdp (some c) = 1 ∷ length sdp ∷ (sdp ++ c)

abbrev read_payload : Bytes → Option (Bytes × Option Bytes)
read_payload (zero ∷ s) = some (s, none)
read_payload (suc zero ∷ n ∷ s) = some (take n s, some (drop n s))
read_payload _ = none

-- The text of an envelope stands in front of what it is bound to.
abbrev open_bound : Bytes → Bytes → Option Bytes
open_bound [] additional = none
open_bound (n ∷ s) additional = if bytes_eq (drop n s) additional then some (take n s) else none

abbrev plain : Sealing Bytes
plain = record {
  marshal_candidate = λ c. some c;
  marshal_payload = λ sdp c. some (write_payload sdp c);
  unmarshal_payload = read_payload;
  marshal_metadata = λ s. some (s.kind ++ s.session_id ++ s.from ++ s.to);
  seal = λ plaintext additional. some (length plaintext ∷ (plaintext ++ additional));
  open_sealed = open_bound;
  encode_base64 = λ s. s;
  decode_base64 = λ s. some s;
}

abbrev Anything : Bytes → Option Bytes → Type 0
Anything sdp c = Unit

read-write_payload :
    (sdp : Bytes) (c : Option Bytes) → read_payload (write_payload sdp c) ≡ some (sdp, c)
read-write_payload sdp none = refl
read-write_payload sdp (some c) = rw (take-append_length sdp c, drop-append_length sdp c)

plain_laws : SealingLaws plain Anything
plain_laws = record {
  unmarshal-marshal_payload = λ sdp c s carried h.
      let e : write_payload sdp c ≡ s = cc (h) in rw (← e) (read-write_payload sdp c);
  open-seal = λ plaintext additional envelope h.
      let e : (length plaintext ∷ (plaintext ++ additional)) ≡ envelope = cc (h) in
      rw (← e) (
        rw (
          drop-append_length plaintext additional,
          bytes_eq_self additional,
          take-append_length plaintext additional,
        ),
        refl,
      );
  decode-encode_base64 = λ s. refl;
}

abbrev ann : Bytes
ann = codes "ANNANNANNANNANNANN00"

abbrev bob : Bytes
bob = codes "BOBBOBBOBBOBBOBBOB00"

abbrev offer : Signal Bytes
offer = record {
  version = pos 0;
  room = [];
  kind = codes "offer";
  session_id = codes "0123456789";
  from = [];
  to = [];
  created_at = pos 0;
  sdp = codes "v=0";
  candidate = none;
  encrypted = [];
}

abbrev room : Bytes
room = codes "room"

-- The offer as it is sent under a pairing token, three milliseconds after 1970.
abbrev sent : Signal Bytes
sent = record (stamped plain 3000000 room ann offer) {
  sdp = [];
  encrypted = 4 ∷ 0 ∷ (codes "v=0" ++ (codes "offer" ++ codes "0123456789" ++ ann ++ []));
}

offer_prepared : prepare_outgoing plain 3000000 true room ann offer ≡ ok sent
unfolding prepare_outgoing sealed check_kind validate_signal_payload_sizes is_client_id bytes_eq
offer_prepared = refl

abbrev received : Signal Bytes
received = record (stamped plain 3000000 room ann offer) { encrypted = sent.encrypted }

ann_apart : bytes_eq ann bob ≡ false
unfolding bytes_eq
ann_apart = refl

ann_other : ann ≢ bob
ann_other e = cc (ann_apart, (bytes_eq_iff ann bob).1 e)

sent_small : length sent.encrypted ≤ 524288
sent_small = omega arith

open_incoming-prepare_outgoing_example :
    open_incoming plain 5000000 true room bob sent ≡ ok received
open_incoming-prepare_outgoing_example =
    open_incoming-prepare_outgoing plain Anything plain_laws 3000000 5000000 true room ann bob offer
      sent offer_prepared tt ann_other (inl refl) sent_small (omega arith) (omega arith)

-- Its own signals a session passes over.
own_refused : open_incoming plain 5000000 true room ann sent ≡ err refused
unfolding open_incoming unsealed check_opened is_client_id bytes_eq
own_refused = refl

open_incoming_sound_example :
    Admitted plain 5000000 room bob received
    × (is_client_id ann ≡ true)
    × (8 ≤ 10)
    × (10 ≤ 128)
    × SameMetadata plain sent received
    × (true ≡ true → Authentic plain sent received)
    × (true ≡ false → received ≡ sent)
open_incoming_sound_example =
    open_incoming_sound plain 5000000 true room bob sent received
      open_incoming-prepare_outgoing_example
