-- ===== src/Crypto.antt =====
-- The cryptography that src/datum_protocol.rs calls: ed25519-dalek, x25519-dalek, crypto_box,
-- chacha20poly1305 and sha2 stand outside the repository, so their functions are parameters.
-- Keys, nonces and signatures are their bytes; an error is the text that it is displayed with.
use blvm_datum.Common.{◌+◌, ◌≡◌, ◌⊎◌, Bool, true, inl, length}
use blvm_datum.Error.{Text}
use blvm_datum.Bytes.{Bytes, IsBytes}

pub record Crypto : Type 0 where
  -- `SigningKey::verifying_key`, and `SigningKey::sign` of a message
  pub verifying_key : Bytes → Bytes
  pub sign : Bytes → Bytes → Bytes
  -- `VerifyingKey::from_bytes`, and `VerifyingKey::verify` of a message and a signature
  pub read_verifying_key : Bytes → Bytes ⊎ Text
  pub verify : Bytes → Bytes → Bytes → Bool
  -- `PublicKey::from(&secret)`, and `EphemeralSecret::diffie_hellman`
  pub x25519_public : Bytes → Bytes
  pub diffie_hellman : Bytes → Bytes → Bytes
  -- `crypto_box::PublicKey::from_slice`, and `seal` with its randomness
  pub read_sealing_key : Bytes → Bytes ⊎ Text
  pub seal : Bytes → Bytes → Bytes → Bytes ⊎ Text
  -- `ChaCha20Poly1305::new(key)` at a nonce
  pub encrypt : Bytes → Bytes → Bytes → Bytes ⊎ Text
  pub decrypt : Bytes → Bytes → Bytes → Bytes ⊎ Text
  -- `Sha256` of all that was fed to it
  pub sha256 : Bytes → Bytes

-- ChaCha20Poly1305 appends a tag of 16 bytes.
pub record AppendsTag (c : Crypto) : Type 0 where
  pub tag_length :
      (key nonce plain cipher : Bytes)
      → c.encrypt key nonce plain ≡ inl cipher
      → length cipher ≡ length plain + 16

-- An Ed25519 signature has 64 bytes and verifies under the key of its signer.
pub record Signs (c : Crypto) : Type 0 where
  pub signature_length : (key message : Bytes) → length (c.sign key message) ≡ 64
  pub signature_bytes : (key message : Bytes) → IsBytes (c.sign key message)
  pub verifies :
      (key message : Bytes) → c.verify (c.verifying_key key) message (c.sign key message) ≡ true

-- ChaCha20Poly1305 gives a `Vec<u8>`.
abbrev pub DecryptsBytes : Crypto → Type 0
DecryptsBytes c =
    (key nonce cipher plain : Bytes)
    → IsBytes cipher
    → c.decrypt key nonce cipher ≡ inl plain
    → IsBytes plain
