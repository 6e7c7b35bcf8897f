-- ===== src/Wallet.antt =====
-- The cryptography that the program takes from other crates, as an interface, and the functions of
-- crates/taron-core/src/wallet.rs over it.
use taron.Prelude.{
  refl, false, arith, ◌*◌, ◌≡◌, Bool, Option, none, some, ◌++◌, length, drop, take, if◌then◌else◌,
  ◌!=◌, ite,
}
use taron.Prelude.Words.{Bytes}
use taron.Prelude.Text.{bytes_dec, codes}
use taron.Error.{Result, ok, err, TaronError, invalid_signature, key_error}

-- The functions of the crates `sha3`, `ed25519-dalek` and `hex` that the program calls. A string
-- is its bytes.
pub record Crypto : Type 0 where
  -- the digest of `Sha3_256`
  pub sha3_256 : Bytes → Bytes
  -- `VerifyingKey::from_bytes`: the message of its error, if it fails
  pub bad_key : Bytes → Option Bytes
  -- `VerifyingKey::verify` on key, message and signature
  pub verifies : Bytes → Bytes → Bytes → Bool
  -- `SigningKey::verifying_key`
  pub public_key : Bytes → Bytes
  -- `SigningKey::sign` on key and message
  pub sign : Bytes → Bytes → Bytes
  -- `hex::encode`
  pub hex_encode : Bytes → Bytes
  -- `hex::decode`
  pub hex_decode : Bytes → Option Bytes

-- What the documentation of these crates promises.
pub record IsSound (c : Crypto) : Type 0 where
  pub digest_length : (m : Bytes) → length (c.sha3_256 m) ≡ 32
  pub own_key : (k : Bytes) → c.bad_key (c.public_key k) ≡ none
  pub own_signature : (k m : Bytes) → c.verifies (c.public_key k) m (c.sign k m) ≡ Bool.true
  pub hex_length : (m : Bytes) → length (c.hex_encode m) ≡ 2 * length m
  pub hex_round_trip : (m : Bytes) → c.hex_decode (c.hex_encode m) ≡ some m

module _ (crypto : Crypto) where
  open crypto use {bad_key, verifies, hex_encode, hex_decode}

  unfoldable pub verify_signature : Bytes → Bytes → Bytes → Result (Unit {0}) TaronError
  verify_signature public_key_bytes message signature_bytes = elim (bad_key public_key_bytes) [
    | some e ↦ err (key_error e)
    | none ↦
        if verifies public_key_bytes message signature_bytes then ok tt else err invalid_signature
  ]

  unfoldable pub address_from_pubkey : Bytes → Bytes
  address_from_pubkey pubkey = codes "tar1" ++ hex_encode pubkey

  -- `strip_prefix`, the length of the rest, and the decoded bytes
  unfoldable pub pubkey_from_address : Bytes → Option Bytes
  pubkey_from_address address =
      ite (bytes_dec (take 4 address) (codes "tar1"))
        (if length (drop 4 address) != 64 then none else hex_decode (drop 4 address)) none

  -- With cryptography that keeps its promises, the address of a public key of 32 bytes leads back to
  -- the key.
  pub pubkey_from_address-address_from_pubkey :
      (k : Bytes)
      → IsSound crypto
      → length k ≡ 32
      → pubkey_from_address (address_from_pubkey k) ≡ some k
  unfolding pubkey_from_address address_from_pubkey bytes_dec
  pubkey_from_address-address_from_pubkey k sound long =
      let digits : (length (hex_encode k) != 64) ≡ false = ground (arith, sound.hex_length k) in
      rw (digits, sound.hex_round_trip k) refl
