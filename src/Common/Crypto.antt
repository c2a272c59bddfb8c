-- ===== src/Common/Crypto.antt =====
-- The keys, signatures and hashes that the program takes from go-libp2p and Go's crypto packages.
-- They are not part of the repository: the model takes them as a record of functions, and what the
-- program relies on as a record of laws.
use mathlib.Core.Path.{◌≡◌}
use mathlib.Core.Bool.{Bool, true}
use mathlib.Core.Option.{Option, some}
use p2p_netcat_go_wrk.Common.Lists.{Bytes, length}

pub record Keys : Type 1 where
  pub PrivateKey : Type 0
  pub PublicKey : Type 0
  -- `privateKey.GetPublic()`
  pub public_key : PrivateKey → PublicKey
  -- `peer.IDFromPublicKey`; a `peer.ID` is a Go string, and `none` is an error
  pub peer_id : PublicKey → Option Bytes
  -- `peer.ID.String()`
  pub peer_string : Bytes → Bytes
  -- `privateKey.Sign`
  pub sign : PrivateKey → Bytes → Option Bytes
  -- `publicKey.Verify`
  pub verify : PublicKey → Bytes → Bytes → Option Bool
  -- `crypto.MarshalPublicKey` and `crypto.UnmarshalPublicKey`
  pub marshal : PublicKey → Option Bytes
  pub unmarshal : Bytes → Option PublicKey
  -- `sha256.Sum256`
  pub sha256 : Bytes → Bytes

-- The documented behaviour of those packages.
pub record KeyLaws (k : Keys) : Type 0 where
  pub unmarshal-marshal :
      (key : k.PublicKey) (s : Bytes) → k.marshal key ≡ some s → k.unmarshal s ≡ some key
  pub verify-sign :
      (key : k.PrivateKey) (message signature : Bytes)
      → k.sign key message ≡ some signature
      → k.verify (k.public_key key) message signature ≡ some true
  pub length-sha256 : (s : Bytes) → length (k.sha256 s) ≡ 32
