-- ===== src/Pairing.antt =====
-- protocol/pairing/pairing.go: the pairing token, its validation and the keys derived from it.
-- A PeerId is its bytes, a relay hint the text of its multiaddr, a time a count of seconds.
pub mod Valid
mod Runs
use p2p_netcat_go_wrk.Common.{
  ℕ, Bool, true, false, ◌||◌, ◌&&◌, not, Option, none, some, List, [], ◌∷◌, ◌++◌, ltb, ◌==◌, Bytes,
  length, Result, ok, err, ◌>>=◌, ◌>>◌, fail_if, or_fail,
}
use p2p_netcat_go_wrk.Common.Text.{codes, bytes_eq}

abbrev pub token_version : ℕ
token_version = 1

abbrev pub max_relay_hints : ℕ
max_relay_hints = 16

pub record Token : Type 0 where
  pub version : ℕ
  pub peer_id : Bytes
  pub service : ℕ
  pub secret : Bytes
  pub relay_hints : List (Option Bytes)
  pub expires_at : Option ℕ

-- What the program takes from libp2p, HKDF and HMAC with SHA-256: the text of a PeerId, whether it
-- decodes again, whether a multiaddr names a peer, the 32 bytes derived from a secret, a salt and an
-- info, and the code of a text under a key.
pub record Primitives : Type 0 where
  pub peer_string : Bytes → Bytes
  pub peer_decodes : Bytes → Bool
  pub names_peer : Bytes → Bool
  pub hkdf : Bytes → Bytes → Bytes → Option Bytes
  pub hmac : Bytes → Bytes → Bytes

pub data Error : Type 0 where
  unsupported_token bad_peer_id zero_port too_many_hints bad_hint unnamed_hint : Error
  duplicate_hint zero_expiration expired bad_purpose no_key : Error

unfoldable pub seen_before : Bytes → List Bytes → Bool
seen_before hint [] = false
seen_before hint (h ∷ seen) = bytes_eq h hint || seen_before hint seen

module _ (lib : Primitives) where
  open lib use {peer_string, peer_decodes, names_peer, hkdf}

  unfoldable pub check_hints : List Bytes → List (Option Bytes) → Result Error (Unit {0})
  check_hints seen [] = ok tt
  check_hints seen (none ∷ hints) = err bad_hint
  check_hints seen (some hint ∷ hints) = do
    fail_if (ltb 2048 (length hint)) bad_hint
    fail_if (not (names_peer hint)) unnamed_hint
    fail_if (seen_before hint seen) duplicate_hint
    check_hints (hint ∷ seen) hints

  -- `now` is absent for the zero time.
  abbrev pub check_expiration : Option ℕ → Option ℕ → Result Error (Unit {0})
  check_expiration now none = ok tt
  check_expiration none (some at) = fail_if (at == 0) zero_expiration
  check_expiration (some now) (some at) = do
    fail_if (at == 0) zero_expiration
    fail_if (ltb at now) expired

  unfoldable pub validate : Option ℕ → Token → Result Error (Unit {0})
  validate now t = do
    fail_if (not (t.version == token_version)) unsupported_token
    fail_if (not (peer_decodes (peer_string t.peer_id))) bad_peer_id
    fail_if (t.service == 0) zero_port
    fail_if (ltb max_relay_hints (length t.relay_hints)) too_many_hints
    check_hints [] t.relay_hints
    check_expiration now t.expires_at

  abbrev is_purpose : Bytes → Bool
  is_purpose purpose =
      bytes_eq purpose (codes "rendezvous")
      || bytes_eq purpose (codes "signaling")
      || bytes_eq purpose (codes "admission")
      || bytes_eq purpose (codes "route-record")

  unfoldable pub derive_key : Token → Bytes → Result Error Bytes
  derive_key t purpose = do
    fail_if (not (is_purpose purpose)) bad_purpose
    or_fail
        (hkdf t.secret (codes "p2p-netcat/pairing/v1")
          (codes "p2p-netcat/" ++ (purpose ++ codes "/v1")))
        no_key
