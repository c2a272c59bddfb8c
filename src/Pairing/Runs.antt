-- ===== src/Pairing/Runs.antt =====
-- Runs of the token's validation.
use p2p_netcat_go_wrk.Common.{
  ◌≡◌, ◌↔◌, refl, true, none, some, [], ◌∷◌, ◌++◌, take, replicate, ok, err,
}
use p2p_netcat_go_wrk.Common.Text.{codes, bytes_eq}
use p2p_netcat_go_wrk.Pairing.{
  Token, Primitives, validate, check_hints, seen_before, expired, duplicate_hint,
}
use p2p_netcat_go_wrk.Pairing.Valid.{IsValid, IsValid-iff}

-- Texts stand for themselves, every hint names a peer, and a code is a cut of its text.
abbrev toy : Primitives
toy = record {
  peer_string = λ s. s;
  peer_decodes = λ s. true;
  names_peer = λ s. true;
  hkdf = λ secret salt info. some (take 32 (secret ++ replicate 32 0));
  hmac = λ key text. take 32 (text ++ replicate 32 0);
}

abbrev token : Token
token = record {
  version = 1;
  peer_id = codes "12D3";
  service = 80;
  secret = replicate 32 7;
  relay_hints = some (codes "/p2p/a") ∷ some (codes "/p2p/b") ∷ [];
  expires_at = some 100;
}

accepts : validate toy (some 100) token ≡ ok tt
unfolding validate check_hints seen_before bytes_eq
accepts = refl

refuses_late : validate toy (some 101) token ≡ err expired
unfolding validate check_hints seen_before bytes_eq
refuses_late = refl

refuses_twice :
    validate toy none (record token { relay_hints = some [] ∷ some [] ∷ [] }) ≡ err duplicate_hint
unfolding validate check_hints seen_before bytes_eq
refuses_twice = refl

IsValid-iff_example : (validate toy (some 100) token ≡ ok tt) ↔ IsValid toy (some 100) token
IsValid-iff_example = IsValid-iff toy (some 100) token
