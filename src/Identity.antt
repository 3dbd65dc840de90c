-- ===== src/Identity.antt =====
-- pkg/identity/identity.go: Ed25519 identities and self-certifying node IDs. The standard library's
-- cryptography is the parameter `Crypto`: its functions, and what Go documents of them.
use libre_ping.Base.{
  hex_encode, ℕ, ◌<◌, ◌≡◌, Bool, true, false, Option, none, some, arith, ◌==◌, if◌then◌else◌,
  length, take, All, Str, Bytes,
}

-- crypto/sha256 and crypto/ed25519. A private key is taken as its bytes.
pub record Crypto : Type 0 where
  pub sha256 : Bytes → Bytes
  pub new_key_from_seed : Bytes → Bytes
  pub public_of : Bytes → Bytes
  pub ed25519_sign : Bytes → Bytes → Bytes
  pub ed25519_verify : Bytes → Bytes → Bytes → Bool
  pub sha256-IsByte : (msg : Bytes) → All (λ b. b < 256) (sha256 msg)
  pub public_of-size : (priv : Bytes) → length (public_of priv) ≡ 32
  pub sign-verifies :
      (priv msg : Bytes) → ed25519_verify (public_of priv) msg (ed25519_sign priv msg) ≡ true

abbrev pub node_id_bytes : ℕ
node_id_bytes = 16

-- ed25519.PublicKeySize and ed25519.SeedSize.
abbrev pub public_key_size : ℕ
public_key_size = 32

abbrev pub seed_size : ℕ
seed_size = 32

pub record Identity : Type 0 where
  pub priv : Bytes
  pub pub_key : Bytes

module _ (c : Crypto) where
  -- `none` is ErrInvalidKey.
  unfoldable pub from_seed : Bytes → Option Identity
  from_seed seed =
      if length seed == seed_size
      then some (record {
        priv = c.new_key_from_seed seed;
        pub_key = c.public_of (c.new_key_from_seed seed);
      })
      else none

  unfoldable pub node_id_from_pub : Bytes → Str
  node_id_from_pub key = hex_encode (take node_id_bytes (c.sha256 key))

  unfoldable pub node_id : Identity → Str
  unfolding node_id_from_pub
  node_id id = node_id_from_pub id.pub_key

  unfoldable pub sign : Identity → Bytes → Bytes
  sign id msg = c.ed25519_sign id.priv msg

  unfoldable pub verify : Bytes → Bytes → Bytes → Bool
  verify key msg sig = if length key == public_key_size then c.ed25519_verify key msg sig else false

  -- Both keys of an identity belong together, as `from_seed` makes them.
  abbrev pub IsKeyPair : Identity → Type 0
  IsKeyPair id = id.pub_key ≡ c.public_of id.priv

  pub from_seed-IsKeyPair : (seed : Bytes) (id : Identity) → from_seed seed ≡ some id → IsKeyPair id
  unfolding from_seed
  from_seed-IsKeyPair seed id h = ground arith

  pub verify-sign :
      (id : Identity) (msg : Bytes) → IsKeyPair id → verify id.pub_key msg (sign id msg) ≡ true
  unfolding verify sign
  verify-sign id msg k =
      rw k (ground (arith, c.public_of-size id.priv, c.sign-verifies id.priv msg))

  pub pub_key-size : (id : Identity) → IsKeyPair id → length id.pub_key ≡ public_key_size
  pub_key-size id k = rw k (c.public_of-size id.priv)
