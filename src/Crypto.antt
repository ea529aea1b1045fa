-- ===== src/Crypto.antt =====
-- pkg/crypto/crypto.go. AES-GCM, the random source and base64 are parameters: `none` is an error of
-- theirs, and a key that AES takes gives a cipher `C`.
pub mod Laws
use wapgo.Base.{
  ℕ, Option, none, some, ◌++◌, length, take, drop, ltb, ◌==◌, if◌then◌else◌, Result, ok, err,
}
use wapgo.Base.Text.{Text}

pub data CryptoError : Type 0 where
  key_size create_cipher generate_nonce invalid_ciphertext : CryptoError

pub record Ciphers (C : Type 0) : Type 0 where
  pub new_gcm : Text → Option C
  pub nonce_size : C → ℕ
  pub seal : C → Text → Text → Text
  pub open_sealed : C → Text → Text → Option Text
  pub encode : Text → Text
  pub decode : Text → Option Text

module _ {C : Type 0} (lib : Ciphers C) where
  unfoldable pub new_encryptor : Text → Result CryptoError C
  new_encryptor key =
      if length key == 32
      then (elim (lib.new_gcm key) [ none ↦ err create_cipher | some c ↦ ok c ])
      else err key_size

  -- The nonce is what the random source gave.
  unfoldable pub encrypt : C → Option Text → Text → Result CryptoError Text
  encrypt c none plaintext = err generate_nonce
  encrypt c (some nonce) plaintext = ok (lib.encode (nonce ++ lib.seal c nonce plaintext))

  -- The bytes after decoding.
  unfoldable pub decrypt_bytes : C → Text → Result CryptoError Text
  decrypt_bytes c bytes =
      let ns = lib.nonce_size c in
      if ltb (length bytes) ns
      then err invalid_ciphertext
      else (elim (lib.open_sealed c (take ns bytes) (drop ns bytes)) [
        | none ↦ err invalid_ciphertext
        | some plaintext ↦ ok plaintext
      ])

  unfoldable pub decrypt : C → Text → Result CryptoError Text
  unfolding decrypt_bytes
  decrypt c encoded = elim (lib.decode encoded) [
    | none ↦ err invalid_ciphertext
    | some bytes ↦ decrypt_bytes c bytes
  ]
