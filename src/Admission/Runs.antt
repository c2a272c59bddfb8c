-- ===== src/Admission/Runs.antt =====
-- Runs of the handshake, and its theorems at concrete ones.
use p2p_netcat_go_wrk.Common.{
  All, IsByte, Bool, ltb, ◌&&◌, ◌∷◌, ℕ, ◌+◌, ◌*◌, ◌/◌, ◌≤◌, ◌≡◌, sym, refl, ap, true, Option, none,
  some, [], ◌++◌, Bytes, length, take, replicate, length-take, length-append, length-replicate,
  arith, ok,
}
use p2p_netcat_go_wrk.Common.BigEndian.{put_u64, put_u32}
use p2p_netcat_go_wrk.Common.Integers.{pos}
use p2p_netcat_go_wrk.Common.Times.{second}
use p2p_netcat_go_wrk.Common.Text.{codes, bytes_eq}
use p2p_netcat_go_wrk.Pairing.{Token, Primitives, validate, check_hints, derive_key}
use p2p_netcat_go_wrk.Admission.{
  Frame, Hello, max_clock_skew, client_hello, server_ack, mac_size, nonce_size, encode, decode,
  fill_nonce, mac_input, calculate_mac, create_hello, verify_hello, create_ack, verify_ack,
}
use p2p_netcat_go_wrk.Admission.Handshake.{
  Authentic, verify_hello_sound, verify_ack_sound, verify_hello-create_hello, verify_ack-create_ack,
}

abbrev toy : Primitives
toy = record {
  peer_string = λ s. s;
  peer_decodes = λ s. true;
  names_peer = λ s. true;
  hkdf = λ secret salt info. some (take 32 (secret ++ replicate 32 0));
  hmac = λ key text. take 32 (text ++ replicate 32 0);
}

abbrev token : Token
token = record {
  version = 1;
  peer_id = codes "12D3";
  service = 80;
  secret = replicate 32 7;
  relay_hints = [];
  expires_at = none;
}

sized : (key text : Bytes) → length (toy.hmac key text) ≡ mac_size
sized key text = omega (
  arith,
  length-take 32 (text ++ replicate 32 0),
  length-append text (replicate 32 0),
  length-replicate {A = ℕ} 32 0,
)

abbrev now : ℕ
now = 1000 * second

abbrev random : Option Bytes
random = some (replicate 16 9)

random_sized : (r : Bytes) → random ≡ some r → length r ≡ nonce_size
random_sized r h = let e : replicate 16 9 ≡ r = cc h in ap (λ (x : Bytes). length x) (sym e)

abbrev hello : Hello
hello = record { timestamp = 1000; client_nonce = replicate 16 9 }

abbrev greeting : Bytes
greeting =
    encode client_hello 1000 (replicate 16 9)
      (toy.hmac [] (mac_input toy (codes "client") token 1000 (replicate 16 9) []))

abbrev acknowledgment : Bytes
acknowledgment =
    encode server_ack 1000 (replicate 16 9)
      (toy.hmac [] (mac_input toy (codes "server") token 1000 (replicate 16 9) (replicate 16 9)))

greets : create_hello toy token now random none ≡ ok (greeting, hello)
unfolding create_hello validate check_hints fill_nonce calculate_mac derive_key bytes_eq
greets = refl

acknowledges : create_ack toy token hello random none ≡ ok acknowledgment
unfolding create_ack fill_nonce calculate_mac derive_key bytes_eq
acknowledges = refl

valid_then : validate toy (some ((now + 5 * second) / second)) token ≡ ok tt
unfolding validate check_hints
valid_then = refl

verify_hello-create_hello_example :
    verify_hello toy token greeting (now + 5 * second) (pos max_clock_skew) ≡ ok hello
verify_hello-create_hello_example =
    verify_hello-create_hello toy sized token now (now + 5 * second) max_clock_skew random none
      greeting hello random_sized (omega arith) greets valid_then (omega arith) (omega arith)

verify_ack-create_ack_example : verify_ack toy token hello acknowledgment ≡ ok tt
verify_ack-create_ack_example =
    verify_ack-create_ack toy sized token hello random none acknowledgment random_sized
      (omega arith) acknowledges

greeting_passes : verify_hello toy token greeting (now + 5 * second) (pos max_clock_skew) ≡ ok hello
greeting_passes =
    verify_hello-create_hello toy sized token now (now + 5 * second) max_clock_skew random none
      greeting hello random_sized (omega arith) greets valid_then (omega arith) (omega arith)

acknowledgment_passes : verify_ack toy token hello acknowledgment ≡ ok tt
acknowledgment_passes =
    verify_ack-create_ack toy sized token hello random none acknowledgment random_sized
      (omega arith) acknowledges

abbrev all_bytes : Bytes → Bool
all_bytes [] = true
all_bytes (b ∷ bs) = ltb b 256 && all_bytes bs

all_bytes_lem : (s : Bytes) → all_bytes s ≡ true → All IsByte s
all_bytes_lem [] h = tt
all_bytes_lem (b ∷ bs) h = (ground arith, all_bytes_lem bs (ground arith))

greeting_is_bytes : all_bytes greeting ≡ true
unfolding encode mac_input put_u64 put_u32
greeting_is_bytes = refl

greeting_bytes : All IsByte greeting
greeting_bytes = all_bytes_lem greeting greeting_is_bytes

verify_hello_sound_example :
    (validate toy (some ((now + 5 * second) / second)) token ≡ ok tt)
    × (now + 5 * second ≤ hello.timestamp * second + max_clock_skew)
    × (hello.timestamp * second ≤ now + 5 * second + max_clock_skew)
    × (value : Frame) × (decode greeting client_hello ≡ ok value)
    × (hello ≡ record { timestamp = value.timestamp; client_nonce = value.nonce })
    × Authentic toy token
        (mac_input toy (codes "client") token value.timestamp value.nonce [])
        value.mac
verify_hello_sound_example =
    verify_hello_sound toy token greeting (now + 5 * second) max_clock_skew hello greeting_bytes
      (omega arith) greeting_passes

verify_ack_sound_example :
    (value : Frame) × (decode acknowledgment server_ack ≡ ok value)
    × (value.timestamp ≡ hello.timestamp)
    × Authentic toy token
        (mac_input toy (codes "server") token hello.timestamp hello.client_nonce value.nonce)
        value.mac
verify_ack_sound_example = verify_ack_sound toy token hello acknowledgment acknowledgment_passes
